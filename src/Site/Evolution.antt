-- ===== src/Site/Evolution.antt =====
-- What becomes of the rows that have a life of their own, and of the Premium plan, whatever the
-- site does.
use tucano.Prelude.{
  ℕ, ◌≡◌, refl, sym, subst, Bool, true, false, String, List, [], ◌∷◌, ◌||◌, exists, Grows,
  Grows-refl, Grows-trans, arith,
}
use tucano.Models.{ServiceRequest, Upload}
use tucano.Db.{Db}
use tucano.Subscriptions.Gateway.{MercadoPago}
use tucano.Subscriptions.Premium.{has_premium, authorizes, run_plan_call-premium}
use tucano.Market.Spec.{view}
use tucano.Market.Laws.{KeepsCall, KeepsInterest, Steps-Grows}
use tucano.Moderation.Life.{KeepsCase, KeepsCase-refl, KeepsCase-trans, run_case_call-Advances}
use tucano.Moderation.Verifications.{
  KeepsVerification, KeepsVerification-refl, KeepsVerification-trans,
  run_verification_call-Accountable,
}
use tucano.Site.Parts.{Table, may_write}
use tucano.Site.Traffic.{
  SiteCall, plan, case, verification, profile, part, profile_spares, run_site_call, run_site_calls,
}
use tucano.Site.Runs.{run_site_call-Keeps}
use tucano.Site.Marketplace.{run_site_calls-Steps}
use tucano.Site.Consistency.{IsConsistent, run_site_call-IsConsistent}

-- A notification with status "authorized" that names the user.
abbrev pub grants : ℕ → SiteCall → Bool
grants u (plan x) = authorizes u x
grants u _ = false

module _ (describe : ServiceRequest → String) (m : MercadoPago) (is_image : Upload → Bool) where
  others-cases :
      (x : SiteCall) (d : Db)
      → may_write (part x) Table.cases ≡ false
      → Grows KeepsCase d.cases (run_site_call describe m is_image x d).cases
  others-cases x d own =
      let k = run_site_call-Keeps describe m is_image x d in
      subst (Grows KeepsCase d.cases) (sym (k.spares_cases own))
        (Grows-refl KeepsCase KeepsCase-refl d.cases)

  run_site_call-cases :
      (x : SiteCall) (d : Db)
      → IsConsistent is_image d
      → Grows KeepsCase d.cases (run_site_call describe m is_image x d).cases
  unfolding run_site_call
  run_site_call-cases (case x) d h = let a = run_case_call-Advances x d h.cases in a.cases
  run_site_call-cases (profile x) d h =
      others-cases (profile x) d (profile_spares x Table.cases refl refl)
  run_site_call-cases x d h = others-cases x d refl

  others-verifications :
      (x : SiteCall) (d : Db)
      → may_write (part x) Table.verifications ≡ false
      → Grows KeepsVerification d.verifications
          (run_site_call describe m is_image x d).verifications
  others-verifications x d own =
      let k = run_site_call-Keeps describe m is_image x d in
      subst (Grows KeepsVerification d.verifications) (sym (k.spares_verifications own))
        (Grows-refl KeepsVerification KeepsVerification-refl d.verifications)

  run_site_call-verifications :
      (x : SiteCall) (d : Db)
      → Grows KeepsVerification d.verifications
          (run_site_call describe m is_image x d).verifications
  unfolding run_site_call
  run_site_call-verifications (verification x) d = (run_verification_call-Accountable x d).0
  run_site_call-verifications (profile x) d =
      others-verifications (profile x) d (profile_spares x Table.verifications refl refl)
  run_site_call-verifications x d = others-verifications x d refl

  others-premium :
      (u : ℕ) (x : SiteCall) (d : Db)
      → may_write (part x) Table.premium_plans ≡ false
      → has_premium u (run_site_call describe m is_image x d) ≡ true
      → (has_premium u d || grants u x) ≡ true
  others-premium u x d own p =
      let k = run_site_call-Keeps describe m is_image x d in
      let before = k.spares_premium_plans own u p in ground arith

  run_site_call-premium :
      (u : ℕ) (x : SiteCall) (d : Db)
      → has_premium u (run_site_call describe m is_image x d) ≡ true
      → (has_premium u d || grants u x) ≡ true
  unfolding run_site_call
  run_site_call-premium u (plan x) d p = run_plan_call-premium u m x d p
  run_site_call-premium u (profile x) d p =
      others-premium u (profile x) d (profile_spares x Table.premium_plans refl refl) p
  run_site_call-premium u x d p = others-premium u x d refl p

  run_site_calls-cases :
      (xs : List SiteCall) (d : Db)
      → IsConsistent is_image d
      → Grows KeepsCase d.cases (run_site_calls describe m is_image xs d).cases
        × Grows KeepsVerification d.verifications
            (run_site_calls describe m is_image xs d).verifications
  unfolding run_site_calls
  run_site_calls-cases [] d h = (
    Grows-refl KeepsCase KeepsCase-refl d.cases,
    Grows-refl KeepsVerification KeepsVerification-refl d.verifications,
  )
  run_site_calls-cases (x ∷ xs) d h =
      let e = run_site_call describe m is_image x d in
      let rest = run_site_calls-cases xs e (run_site_call-IsConsistent describe m is_image x d h) in
      (
        Grows-trans KeepsCase KeepsCase-trans d.cases e.cases _ (run_site_call-cases x d h) rest.0,
        Grows-trans KeepsVerification KeepsVerification-trans d.verifications e.verifications _
            (run_site_call-verifications x d) rest.1,
      )

-- From a consistent database, whatever calls the site gets, no call, interest, case or
-- verification is lost. A call keeps its client, category, positions and times, and once it no
-- longer receives interests it can only be cancelled, once. An interest keeps its call,
-- professional and message, and is decided once at most. A case keeps its parties, reason and
-- context and only moves forward; a decision once taken and an appeal once made are never changed.
-- A verification keeps what its user gave, and does not become pending again.
pub run_site_calls-Grows :
    (describe : ServiceRequest → String) (m : MercadoPago) (is_image : Upload → Bool)
    (xs : List SiteCall) (d : Db)
    → IsConsistent is_image d
    → let d' = run_site_calls describe m is_image xs d in
      Grows KeepsCall d.requests d'.requests
      × Grows KeepsInterest d.interests d'.interests
      × Grows KeepsCase d.cases d'.cases
      × Grows KeepsVerification d.verifications d'.verifications
run_site_calls-Grows describe m is_image xs d h =
    let market =
      Steps-Grows (view d) (view (run_site_calls describe m is_image xs d))
        (run_site_calls-Steps describe m is_image xs d h.market).0 h.market in
    let rest = run_site_calls-cases describe m is_image xs d h in
    (market.0, market.1, rest.0, rest.1)

-- Whatever calls the site gets, a user has Premium in the end only if the user had it at the start
-- or a notification with the status "authorized" named the user.
pub run_site_calls-premium :
    (describe : ServiceRequest → String) (m : MercadoPago) (is_image : Upload → Bool) (u : ℕ)
    (xs : List SiteCall) (d : Db)
    → has_premium u (run_site_calls describe m is_image xs d) ≡ true
    → (has_premium u d || exists (grants u) xs) ≡ true
unfolding run_site_calls exists
run_site_calls-premium describe m is_image u [] d h = ground arith
run_site_calls-premium describe m is_image u (x ∷ xs) d h = ground (
  arith,
  run_site_call-premium describe m is_image u x d,
  run_site_calls-premium describe m is_image u xs (run_site_call describe m is_image x d),
)
