-- ===== src/Site/Traffic.antt =====
-- A call of the site: a request to one of the apps, an action of its administration, or one of the
-- two periodic tasks that write the database.
use tucano.Prelude.{ℕ, ◌≡◌, false, Option, String, List, [], ◌∷◌, Bool}
use tucano.Models.{Upload, ServiceRequest}
use tucano.Db.{Db}
use tucano.Market.Runs.{MarketCall, run_market_call}
use tucano.Subscriptions.Gateway.{MercadoPago}
use tucano.Subscriptions.Premium.{PlanCall, run_plan_call}
use tucano.Moderation.Life.{CaseCall, run_case_call}
use tucano.Moderation.Verifications.{VerificationCall, run_verification_call}
use tucano.Professionals.Ownership.{DeskCall, run_desk_call}
use tucano.Chat.Blocking.{ChatCall, run_chat_call}
use tucano.Clients.Profiles.{
  ProfileCall, client_call, professional_call, edit_call, run_profile_call,
}
use tucano.Clients.Views.{favorite_toggle}
use tucano.Reviews.Services.{
  confirm_service_view, review_create, review_contest, create_pending_confirmations,
}
use tucano.Reviews.Page.{confirmation_page}
use tucano.Notifications.Settings.{preferences_update, push_subscribe}
use tucano.Site.Parts.{Part, Table, may_write}

-- The sweep `expire_due_service_requests` is among the market's calls.
pub data SiteCall : Type 0 where
  market : MarketCall → SiteCall
  plan : PlanCall → SiteCall
  case : CaseCall → SiteCall
  verification : VerificationCall → SiteCall
  desk : DeskCall → SiteCall
  chat : ChatCall → SiteCall
  profile : ProfileCall → SiteCall
  favorite : Option ℕ → ℕ → SiteCall
  ask_pending_confirmations : ℕ → SiteCall
  look : ℕ → ℕ → ℕ → SiteCall
  confirm : ℕ → Option ℕ → ℕ → Bool → SiteCall
  write_review : Option ℕ → ℕ → ℕ → String → SiteCall
  contest : Option ℕ → ℕ → String → SiteCall
  prefer : Option ℕ → Bool → Bool → Bool → SiteCall
  register : Option ℕ → String → SiteCall

abbrev pub profile_part : ProfileCall → Part
profile_part (client_call visitor) = Part.clients
profile_part (professional_call visitor category) = Part.profiles
profile_part (edit_call visitor category) = Part.profiles

-- The part of the program that answers the call.
abbrev pub part : SiteCall → Part
part (market x) = Part.requests
part (plan x) = Part.subscriptions
part (case x) = Part.cases
part (verification x) = Part.verifications
part (desk x) = Part.desk
part (chat x) = Part.chat
part (profile x) = profile_part x
part (favorite user professional_id) = Part.favorites
part (ask_pending_confirmations now) = Part.confirmations
part (look now user interest_id) = Part.confirmations
part (confirm now user interest_id occurred) = Part.confirmations
part (write_review user interest_id rating comment) = Part.reviews
part (contest user pk reason) = Part.reviews
part (prefer user push_enabled whatsapp_enabled email_enabled) = Part.accounts
part (register user endpoint) = Part.accounts

pub profile_spares :
    (x : ProfileCall) (t : Table)
    → may_write Part.clients t ≡ false
    → may_write Part.profiles t ≡ false
    → may_write (profile_part x) t ≡ false
profile_spares (client_call visitor) t c p = c
profile_spares (professional_call visitor category) t c p = p
profile_spares (edit_call visitor category) t c p = p

-- What is outside the program: how a call is described, Mercado Pago, and whether a file is an
-- image.
module _ (describe : ServiceRequest → String) (m : MercadoPago) (is_image : Upload → Bool) where
  unfoldable pub run_site_call : SiteCall → Db → Db
  run_site_call (market x) d = run_market_call describe x d
  run_site_call (plan x) d = run_plan_call m x d
  run_site_call (case x) d = run_case_call x d
  run_site_call (verification x) d = run_verification_call x d
  run_site_call (desk x) d = run_desk_call is_image x d
  run_site_call (chat x) d = run_chat_call x d
  run_site_call (profile x) d = run_profile_call x d
  run_site_call (favorite user professional_id) d = (favorite_toggle user professional_id d).1
  run_site_call (ask_pending_confirmations now) d = (create_pending_confirmations now d).1
  run_site_call (look now user interest_id) d = (confirmation_page now user interest_id d).1
  run_site_call (confirm now user interest_id occurred) d =
      (confirm_service_view now user interest_id occurred d).1
  run_site_call (write_review user interest_id rating comment) d =
      (review_create user interest_id rating comment d).1
  run_site_call (contest user pk reason) d = (review_contest user pk reason d).1
  run_site_call (prefer user push_enabled whatsapp_enabled email_enabled) d =
      (preferences_update user push_enabled whatsapp_enabled email_enabled d).1
  run_site_call (register user endpoint) d = (push_subscribe user endpoint d).1

  unfoldable pub run_site_calls : List SiteCall → Db → Db
  run_site_calls [] d = d
  run_site_calls (x ∷ xs) d = run_site_calls xs (run_site_call x d)
