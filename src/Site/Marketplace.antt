-- ===== src/Site/Marketplace.antt =====
-- The specification of calls, interests and conversations holds for the whole site: what the other
-- apps do between the requests does not come in its way.
use tucano.Prelude.{◌≡◌, refl, sym, subst, Bool, false, String, List, [], ◌∷◌, arith}
use tucano.Models.{ServiceRequest, Upload}
use tucano.Db.{Db}
use tucano.Subscriptions.Gateway.{MercadoPago}
use tucano.Market.Spec.{view, Steps, done, later, elsewhere, Steps-append}
use tucano.Market.Laws.{Sound, Steps-Sound}
use tucano.Market.Runs.{run_market_call-Steps}
use tucano.Site.Parts.{Table, may_write}
use tucano.Site.History.{Keeps}
use tucano.Site.Traffic.{
  SiteCall, market, profile, part, profile_spares, run_site_call, run_site_calls,
}
use tucano.Site.Runs.{run_site_call-Keeps}

-- A call that spares the three tables only takes keys.
spared-Steps :
    (may : Table → Bool) (d e : Db)
    → may Table.requests ≡ false
    → may Table.interests ≡ false
    → may Table.conversations ≡ false
    → Keeps may d e
    → Steps (view d) (view e)
spared-Steps may d e r i c h =
    let same : view e ≡ record (view d) { next_pk = e.next_pk } =
      ground (arith, h.spares_requests r, h.spares_interests i, h.spares_conversations c) in
    subst (Steps (view d)) (sym same) (later done (elsewhere e.next_pk h.keys))

module _ (describe : ServiceRequest → String) (m : MercadoPago) (is_image : Upload → Bool) where
  others-Steps :
      (x : SiteCall) (d : Db)
      → may_write (part x) Table.requests ≡ false
      → may_write (part x) Table.interests ≡ false
      → may_write (part x) Table.conversations ≡ false
      → Steps (view d) (view (run_site_call describe m is_image x d))
  others-Steps x d r i c =
      spared-Steps (may_write (part x)) d _ r i c (run_site_call-Keeps describe m is_image x d)

  pub run_site_call-Steps :
      (x : SiteCall) (d : Db)
      → Sound (view d)
      → Steps (view d) (view (run_site_call describe m is_image x d))
  unfolding run_site_call
  run_site_call-Steps (market x) d sound = run_market_call-Steps describe x d sound
  run_site_call-Steps (profile x) d sound =
      others-Steps (profile x) d (profile_spares x Table.requests refl refl)
        (profile_spares x Table.interests refl refl)
        (profile_spares x Table.conversations refl refl)
  run_site_call-Steps x d sound = others-Steps x d refl refl refl

-- The code implements the specification: from a sound database, whatever calls the site gets and
-- whichever of them are refused or break off half-way, what becomes of calls, interests and
-- conversations are steps of the specification, and the database is left sound.
pub run_site_calls-Steps :
    (describe : ServiceRequest → String) (m : MercadoPago) (is_image : Upload → Bool)
    (xs : List SiteCall) (d : Db)
    → Sound (view d)
    → Steps (view d) (view (run_site_calls describe m is_image xs d))
      × Sound (view (run_site_calls describe m is_image xs d))
unfolding run_site_calls
run_site_calls-Steps describe m is_image [] d sound = (done, sound)
run_site_calls-Steps describe m is_image (x ∷ xs) d sound =
    let e = run_site_call describe m is_image x d in
    let step = run_site_call-Steps describe m is_image x d sound in
    let rest =
      run_site_calls-Steps describe m is_image xs e (Steps-Sound (view d) (view e) step sound) in
    (Steps-append step rest.0, rest.1)
