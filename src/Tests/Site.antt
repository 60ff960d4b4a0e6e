-- ===== src/Tests/Site.antt =====
-- The theorems on the calls of the whole site, from a concrete database.
use tucano.Prelude.{
  ◌≡◌, refl, true, false, Bool, none, some, String, List, [], ◌∷◌, ◌||◌, arith, count, exists,
  first, update, Grows,
}
use tucano.Models.{ServiceRequest, Upload, is_premium, suspension}
use tucano.Audit.{log_event}
use tucano.Subscriptions.Limits.{for_user}
use tucano.Subscriptions.Gateway.{
  MercadoPago, Payload, apply_status, apply_notice, handle_webhook, webhook, save_subscription,
}
use tucano.Subscriptions.Premium.{
  has_premium, webhook_call, plan_call, cancel_call as cancel_plan, run_plan_call,
}
use tucano.Moderation.Cases.{decide}
use tucano.Moderation.Life.{KeepsCase, admin, appeal}
use tucano.Moderation.Verifications.{ask_call, approve_call, KeepsVerification}
use tucano.Market.Spec.{view, Steps}
use tucano.Market.Laws.{KeepsCall, KeepsInterest, Sound}
use tucano.Market.Runs.{withdraw_call, select_call, sweep_call}
use tucano.Notifications.Settings.{preferences_update}
use tucano.Professionals.Ownership.{open_call}
use tucano.Clients.Profiles.{client_call}
use tucano.Chat.Blocking.{text_call, block_call}
use tucano.Site.History.{Keeps}
use tucano.Site.Traffic.{
  SiteCall, market, plan, case, verification, desk, chat, profile, favorite,
  ask_pending_confirmations, confirm, write_review, contest, prefer, run_site_call, run_site_calls,
}
use tucano.Site.Runs.{written_by, run_site_calls-Keeps}
use tucano.Site.Marketplace.{run_site_calls-Steps}
use tucano.Site.Consistency.{IsConsistent, run_site_calls-IsConsistent}
use tucano.Site.Evolution.{grants, run_site_calls-Grows, run_site_calls-premium}
use tucano.Tests.Sample.{accused}

abbrev describe : ServiceRequest → String
describe r = r.title

abbrev gateway : MercadoPago
gateway = record { access_token = "t"; preapproval_plan_id = "p"; create = λ u. ("id", none) }

abbrev is_image : Upload → Bool
is_image file = true

abbrev photo : Upload
photo = record { name = "parede.jpg"; size = 4000 }

-- One interest is withdrawn, the other selected; the two sides talk, confirm, review and contest;
-- meanwhile the painter is suspended and appeals, and others use the rest of the site.
abbrev calls : List SiteCall
calls =
    market (withdraw_call (some 3) 201)
    ∷ market (select_call 1000 (some 1) 200)
    ∷ profile (client_call (some 4))
    ∷ chat (text_call 1010 1000 1 "oi")
    ∷ chat (block_call (some 2) 200)
    ∷ verification (ask_call 1020 (some 2) true photo)
    ∷ desk (open_call (some 3) 2 600 660)
    ∷ case (admin 1100 none (decide suspension) 400)
    ∷ market (sweep_call 8000)
    ∷ ask_pending_confirmations 11000
    ∷ confirm 11010 (some 1) 200 true
    ∷ confirm 11020 (some 2) 200 true
    ∷ write_review (some 1) 200 5 "bom"
    ∷ contest (some 2) 1005 "falso"
    ∷ favorite (some 1) 20
    ∷ case (appeal (some 2) 400 "erro")
    ∷ verification (approve_call 12000 9 (1002 ∷ []))
    ∷ []

accused-Sound : Sound (view accused)
unfolding count exists
accused-Sound = record {
  requests = record { unique = λ k. ground arith; below = ground arith };
  interests = record { unique = λ k. ground arith; below = ground arith };
  conversations = record { unique = λ k. ground arith; below = tt };
  positive = ground arith;
  saved = ground arith;
  talks = tt;
}

accused-IsConsistent : IsConsistent is_image accused
unfolding count
accused-IsConsistent = record {
  market = accused-Sound;
  cases = record { unique = λ k. ground arith; below = (ground arith, tt) };
  reviews = λ c a. ground arith;
  profiles = λ user. (ground arith, ground arith);
  verifications = tt;
  desk = record {
    availabilities = record { unique = λ k. ground arith; below = tt };
    portfolio = record { unique = λ k. ground arith; below = tt };
  };
  shown = (tt, tt);
}

run_site_calls-Steps_example :
    Steps (view accused) (view (run_site_calls describe gateway is_image calls accused))
    × Sound (view (run_site_calls describe gateway is_image calls accused))
run_site_calls-Steps_example =
    run_site_calls-Steps describe gateway is_image calls accused accused-Sound

run_site_calls-Keeps_example :
    Keeps (written_by calls) accused (run_site_calls describe gateway is_image calls accused)
run_site_calls-Keeps_example = run_site_calls-Keeps describe gateway is_image calls accused

run_site_calls-IsConsistent_example :
    IsConsistent is_image (run_site_calls describe gateway is_image calls accused)
run_site_calls-IsConsistent_example =
    run_site_calls-IsConsistent describe gateway is_image calls accused accused-IsConsistent

run_site_calls-Grows_example :
    let d' = run_site_calls describe gateway is_image calls accused in
    Grows KeepsCall accused.requests d'.requests
    × Grows KeepsInterest accused.interests d'.interests
    × Grows KeepsCase accused.cases d'.cases
    × Grows KeepsVerification accused.verifications d'.verifications
run_site_calls-Grows_example =
    run_site_calls-Grows describe gateway is_image calls accused accused-IsConsistent

abbrev paid : Payload
paid = record { external_reference = "1"; external_key = some 1; status = "authorized"; id = "id" }

abbrev plan_calls : List SiteCall
plan_calls =
    plan (plan_call 1)
    ∷ plan (cancel_plan (some 2))
    ∷ prefer (some 1) false false true
    ∷ plan (webhook_call paid)
    ∷ []

plan_calls-premium :
    has_premium 1 (run_site_calls describe gateway is_image plan_calls accused) ≡ true
unfolding run_site_calls run_site_call run_plan_call webhook handle_webhook apply_notice
    apply_status for_user save_subscription log_event is_premium exists first update
    preferences_update tucano.Subscriptions.Gateway.cancel_subscription
    tucano.Subscriptions.Gateway.cancel_preapproval tucano.Subscriptions.Gateway.plan_page
plan_calls-premium = refl

run_site_calls-premium_example : (has_premium 1 accused || exists (grants 1) plan_calls) ≡ true
run_site_calls-premium_example =
    run_site_calls-premium describe gateway is_image 1 plan_calls accused plan_calls-premium
