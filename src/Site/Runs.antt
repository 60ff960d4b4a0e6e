-- ===== src/Site/Runs.antt =====
-- What the calls of the site leave as it was, and which tables they may write.
use tucano.Prelude.{
  refl, List, [], ◌∷◌, Bool, false, ◌||◌, first, ◌==◌, inl, inr, Option-cases, Bool-cases, String,
  arith,
}
use tucano.Models.{Upload, ServiceRequest}
use tucano.Db.{Db}
use tucano.Market.Runs.{
  MarketCall, create_call, apply_call, withdraw_call, select_call, end_call, cancel_call,
  sweep_call, run_market_call,
}
use tucano.Subscriptions.Gateway.{MercadoPago}
use tucano.Subscriptions.Premium.{PlanCall, run_plan_call}
use tucano.Moderation.Life.{CaseCall, report, admin, appeal, run_case_call}
use tucano.Moderation.Verifications.{
  VerificationCall, ask_call, approve_call, reject_call, run_verification_call,
}
use tucano.Professionals.Ownership.{
  DeskCall, open_call, close_call, show_call, hide_call, run_desk_call,
}
use tucano.Chat.Blocking.{ChatCall, text_call, block_call, run_chat_call}
use tucano.Clients.Profiles.{
  ProfileCall, client_call, professional_call, edit_call, run_profile_call,
}
use tucano.Site.Parts.{Part, Table, may_write}
use tucano.Site.History.{Keeps, Keeps-refl, Keeps-trans, Keeps-weaken}
use tucano.Site.Reviewing.{
  confirm_service_view-Safe, review_create-Safe, review_contest-Safe, confirmation_page-Safe,
  create_pending_confirmations-Safe, receive-Safe, block_user_view-Safe,
}
use tucano.Site.Casework.{
  admin_action-Safe, appeal_case_view-Safe, report_user-Safe, verification_request-Safe,
  review_verifications-Safe,
}
use tucano.Site.Profiles.{
  favorite_toggle-Safe, client_profile_create-Safe, professional_profile_create-Safe,
  professional_profile_update-Safe, availability_create-Safe, availability_delete-Safe,
  portfolio_create-Safe, portfolio_delete-Safe,
}
use tucano.Site.Accounts.{
  plan_page-Safe, subscribe-Safe, cancel_subscription-Safe, webhook-Safe, boost_activate-Safe,
  preferences_update-Safe, push_subscribe-Safe,
}
use tucano.Site.Calls.{
  expire_due_requests-Safe, service_request_create-Safe, interest_create-Safe,
  interest_withdraw-Safe, select_interest_view-Safe, end_request-Safe, cancel_request_view-Safe,
}
use tucano.Site.Traffic.{
  SiteCall, market, plan, case, verification, desk, chat, profile, favorite,
  ask_pending_confirmations, look, confirm, write_review, contest, prefer, register, part,
  profile_part, run_site_call, run_site_calls,
}

-- The tables that a sequence of calls may write.
abbrev pub written_by : List SiteCall → Table → Bool
written_by [] t = false
written_by (x ∷ xs) t = may_write (part x) t || written_by xs t

run_case_call-Keeps : (x : CaseCall) (d : Db) → Keeps (may_write Part.cases) d (run_case_call x d)
unfolding run_case_call
run_case_call-Keeps (report user user_id reason context) d =
    (report_user-Safe user user_id reason context).at d
run_case_call-Keeps (admin now moderator a pk) d =
    elim (Option-cases (first (λ c. c.pk == pk) d.cases)) [
      | inl e ↦ rw (run_case_call, e) (Keeps-refl d)
      | inr (c, e) ↦ rw (run_case_call, e) ((admin_action-Safe now moderator a c).at d)
    ]
run_case_call-Keeps (appeal user pk reason) d = (appeal_case_view-Safe user pk reason).at d

run_verification_call-Keeps :
    (x : VerificationCall) (d : Db)
    → Keeps (may_write Part.verifications) d (run_verification_call x d)
unfolding run_verification_call
run_verification_call-Keeps (ask_call now user consent document) d =
    (verification_request-Safe now user consent document).at d
run_verification_call-Keeps (approve_call now moderator ticked) d =
    (review_verifications-Safe now moderator _ ticked).at d
run_verification_call-Keeps (reject_call now moderator ticked) d =
    (review_verifications-Safe now moderator _ ticked).at d

run_chat_call-Keeps : (x : ChatCall) (d : Db) → Keeps (may_write Part.chat) d (run_chat_call x d)
unfolding run_chat_call
run_chat_call-Keeps (text_call now conversation_id user text) d =
    (receive-Safe now conversation_id user text).at d
run_chat_call-Keeps (block_call user interest_id) d = (block_user_view-Safe user interest_id).at d

run_profile_call-Keeps :
    (x : ProfileCall) (d : Db) → Keeps (may_write (profile_part x)) d (run_profile_call x d)
unfolding run_profile_call
run_profile_call-Keeps (client_call visitor) d = (client_profile_create-Safe visitor).at d
run_profile_call-Keeps (professional_call visitor category) d =
    (professional_profile_create-Safe visitor category).at d
run_profile_call-Keeps (edit_call visitor category) d =
    (professional_profile_update-Safe visitor category).at d

module _ (describe : ServiceRequest → String) (m : MercadoPago) (is_image : Upload → Bool) where
  run_market_call-Keeps :
      (x : MarketCall) (d : Db) → Keeps (may_write Part.requests) d (run_market_call describe x d)
  unfolding run_market_call
  run_market_call-Keeps (create_call now user form) d =
      (service_request_create-Safe describe now user form).at d
  run_market_call-Keeps (apply_call user pk message) d = (interest_create-Safe user pk message).at d
  run_market_call-Keeps (withdraw_call user pk) d = (interest_withdraw-Safe user pk).at d
  run_market_call-Keeps (select_call now user pk) d = (select_interest_view-Safe now user pk).at d
  run_market_call-Keeps (end_call now user pk) d = (end_request-Safe now user pk).at d
  run_market_call-Keeps (cancel_call now user pk reason) d =
      (cancel_request_view-Safe now user pk reason).at d
  run_market_call-Keeps (sweep_call now) d = (expire_due_requests-Safe now).at d

  run_plan_call-Keeps :
      (x : PlanCall) (d : Db) → Keeps (may_write Part.subscriptions) d (run_plan_call m x d)
  unfolding run_plan_call
  run_plan_call-Keeps (PlanCall.plan_call user) d = (plan_page-Safe m user).at d
  run_plan_call-Keeps (PlanCall.subscribe_call user) d = (subscribe-Safe m user).at d
  run_plan_call-Keeps (PlanCall.cancel_call user) d = (cancel_subscription-Safe m user).at d
  run_plan_call-Keeps (PlanCall.webhook_call p) d = (webhook-Safe p).at d
  run_plan_call-Keeps (PlanCall.boost_call now later user) d =
      (boost_activate-Safe now later user).at d

  run_desk_call-Keeps :
      (x : DeskCall) (d : Db) → Keeps (may_write Part.desk) d (run_desk_call is_image x d)
  unfolding run_desk_call
  run_desk_call-Keeps (open_call user weekday start_time end_time) d =
      (availability_create-Safe user weekday start_time end_time).at d
  run_desk_call-Keeps (close_call user pk) d = (availability_delete-Safe user pk).at d
  run_desk_call-Keeps (show_call now user image caption) d =
      (portfolio_create-Safe is_image now user image caption).at d
  run_desk_call-Keeps (hide_call user pk) d = (portfolio_delete-Safe user pk).at d

  pub run_site_call-Keeps :
      (x : SiteCall) (d : Db) → Keeps (may_write (part x)) d (run_site_call describe m is_image x d)
  unfolding run_site_call
  run_site_call-Keeps (market x) d = run_market_call-Keeps x d
  run_site_call-Keeps (plan x) d = run_plan_call-Keeps x d
  run_site_call-Keeps (case x) d = run_case_call-Keeps x d
  run_site_call-Keeps (verification x) d = run_verification_call-Keeps x d
  run_site_call-Keeps (desk x) d = run_desk_call-Keeps x d
  run_site_call-Keeps (chat x) d = run_chat_call-Keeps x d
  run_site_call-Keeps (profile x) d = run_profile_call-Keeps x d
  run_site_call-Keeps (favorite user professional_id) d =
      (favorite_toggle-Safe user professional_id).at d
  run_site_call-Keeps (ask_pending_confirmations now) d =
      (create_pending_confirmations-Safe now).at d
  run_site_call-Keeps (look now user interest_id) d =
      (confirmation_page-Safe now user interest_id).at d
  run_site_call-Keeps (confirm now user interest_id occurred) d =
      (confirm_service_view-Safe now user interest_id occurred).at d
  run_site_call-Keeps (write_review user interest_id rating comment) d =
      (review_create-Safe user interest_id rating comment).at d
  run_site_call-Keeps (contest user pk reason) d = (review_contest-Safe user pk reason).at d
  run_site_call-Keeps (prefer user push_enabled whatsapp_enabled email_enabled) d =
      (preferences_update-Safe user push_enabled whatsapp_enabled email_enabled).at d
  run_site_call-Keeps (register user endpoint) d = (push_subscribe-Safe user endpoint).at d

-- Whatever calls the site gets, in whatever order: the next key never goes back; the rows of the
-- audit, conversations, messages, blocks and boosts stay as they were written, and so do the tasks
-- that wait, which a worker takes; users, profiles, preferences, calls, interests, confirmations,
-- reviews, cases and verifications are never lost and keep what they are about; no call writes the
-- log of the notifications; each table but the audit, the queue of tasks among them, stays as it is
-- unless a call of a part of the program that may write it was among them; and nobody gets the
-- Premium plan but by a call about subscriptions.
pub run_site_calls-Keeps :
    (describe : ServiceRequest → String) (m : MercadoPago) (is_image : Upload → Bool)
    (xs : List SiteCall) (d : Db)
    → Keeps (written_by xs) d (run_site_calls describe m is_image xs d)
unfolding run_site_calls
run_site_calls-Keeps describe m is_image [] d = Keeps-refl d
run_site_calls-Keeps describe m is_image (x ∷ xs) d =
    let e = run_site_call describe m is_image x d in
    Keeps-trans d e _
      (Keeps-weaken d e (λ t h. ground (arith, h)) (run_site_call-Keeps describe m is_image x d))
      (Keeps-weaken e (run_site_calls describe m is_image xs e)
        (λ t h. elim (Bool-cases (may_write (part x) t)) [ inl p ↦ rw p refl | inr p ↦ rw p h ])
        (run_site_calls-Keeps describe m is_image xs e))
