-- ===== src/Site/Consistency.antt =====
-- One invariant of the whole database, which every call of the site keeps.
use tucano.Prelude.{
  ◌≡◌, refl, sym, subst, Bool, false, String, List, [], ◌∷◌, All, IsKeyed, IsKeyed-weaken,
}
use tucano.Models.{ServiceRequest, Upload}
use tucano.Db.{Db}
use tucano.Subscriptions.Gateway.{MercadoPago}
use tucano.Market.Spec.{view}
use tucano.Market.Laws.{Sound, Steps-Sound}
use tucano.Moderation.Life.{CaseKeys, run_case_call-Advances}
use tucano.Moderation.Verifications.{IsAccountable, run_verification_call-Accountable}
use tucano.Reviews.Laws.{OneReviewEach, review_create-OneReviewEach, review_contest-OneReviewEach}
use tucano.Clients.Laws.{OneProfileEach}
use tucano.Clients.Profiles.{run_profile_call-OneProfileEach}
use tucano.Professionals.Ownership.{IsSlot, IsShown}
use tucano.Professionals.Dashboard.{IsTidy, Fits, run_desk_call-Keeps}
use tucano.Site.Parts.{Table, may_write}
use tucano.Site.History.{Keeps}
use tucano.Site.Traffic.{
  SiteCall, case, verification, desk, profile, write_review, contest, part, profile_spares,
  run_site_call, run_site_calls,
}
use tucano.Site.Runs.{run_site_call-Keeps}
use tucano.Site.Marketplace.{run_site_call-Steps}

-- Keys are distinct and were handed out; each conversation is about a selected interest; nobody has
-- two profiles of a kind, or reviewed an interaction twice; a verification has a document of the
-- allowed size, and a moderator and a time just where it has a verdict; availabilities and items of
-- the portfolio are as their forms ask.
pub record IsConsistent (is_image : Upload → Bool) (d : Db) : Type 0 where
  pub market : Sound (view d)
  pub cases : CaseKeys d
  pub reviews : OneReviewEach d
  pub profiles : OneProfileEach d
  pub verifications : All IsAccountable d.verifications
  pub desk : IsTidy d
  pub shown : Fits is_image d

module _ (describe : ServiceRequest → String) (m : MercadoPago) (is_image : Upload → Bool) where
  abbrev after : SiteCall → Db → Db
  after x d = run_site_call describe m is_image x d

  kept : (x : SiteCall) (d : Db) → Keeps (may_write (part x)) d (after x d)
  kept x d = run_site_call-Keeps describe m is_image x d

  others-CaseKeys :
      (x : SiteCall) (d : Db)
      → may_write (part x) Table.cases ≡ false
      → CaseKeys d
      → CaseKeys (after x d)
  others-CaseKeys x d own h =
      let k = kept x d in
      subst (IsKeyed (λ c. c.pk) (after x d).next_pk) (sym (k.spares_cases own))
        (IsKeyed-weaken (λ c. c.pk) d.cases k.keys h)

  run_site_call-CaseKeys : (x : SiteCall) (d : Db) → CaseKeys d → CaseKeys (after x d)
  unfolding run_site_call
  run_site_call-CaseKeys (case x) d h = let a = run_case_call-Advances x d h in a.keys
  run_site_call-CaseKeys (profile x) d h =
      others-CaseKeys (profile x) d (profile_spares x Table.cases refl refl) h
  run_site_call-CaseKeys x d h = others-CaseKeys x d refl h

  others-OneReviewEach :
      (x : SiteCall) (d : Db)
      → may_write (part x) Table.reviews ≡ false
      → OneReviewEach d
      → OneReviewEach (after x d)
  others-OneReviewEach x d own h c a = let k = kept x d in rw (k.spares_reviews own) (h c a)

  run_site_call-OneReviewEach :
      (x : SiteCall) (d : Db) → OneReviewEach d → OneReviewEach (after x d)
  unfolding run_site_call
  run_site_call-OneReviewEach (write_review user interest_id rating comment) d h =
      review_create-OneReviewEach user interest_id rating comment d h
  run_site_call-OneReviewEach (contest user pk reason) d h =
      review_contest-OneReviewEach user pk reason d h
  run_site_call-OneReviewEach (profile x) d h =
      others-OneReviewEach (profile x) d (profile_spares x Table.reviews refl refl) h
  run_site_call-OneReviewEach x d h = others-OneReviewEach x d refl h

  others-OneProfileEach :
      (x : SiteCall) (d : Db)
      → may_write (part x) Table.clients ≡ false
      → may_write (part x) Table.professionals ≡ false
      → OneProfileEach d
      → OneProfileEach (after x d)
  others-OneProfileEach x d c p h user =
      let k = kept x d in rw (k.spares_clients c) (rw (k.spares_professionals p) (h user))

  run_site_call-OneProfileEach :
      (x : SiteCall) (d : Db) → OneProfileEach d → OneProfileEach (after x d)
  unfolding run_site_call
  run_site_call-OneProfileEach (profile x) d h = run_profile_call-OneProfileEach x d h
  run_site_call-OneProfileEach x d h = others-OneProfileEach x d refl refl h

  others-IsAccountable :
      (x : SiteCall) (d : Db)
      → may_write (part x) Table.verifications ≡ false
      → All IsAccountable d.verifications
      → All IsAccountable (after x d).verifications
  others-IsAccountable x d own h =
      let k = kept x d in subst (All IsAccountable) (sym (k.spares_verifications own)) h

  run_site_call-IsAccountable :
      (x : SiteCall) (d : Db)
      → All IsAccountable d.verifications
      → All IsAccountable (after x d).verifications
  unfolding run_site_call
  run_site_call-IsAccountable (verification x) d h = (run_verification_call-Accountable x d).1 h
  run_site_call-IsAccountable (profile x) d h =
      others-IsAccountable (profile x) d (profile_spares x Table.verifications refl refl) h
  run_site_call-IsAccountable x d h = others-IsAccountable x d refl h

  others-IsTidy :
      (x : SiteCall) (d : Db)
      → may_write (part x) Table.availabilities ≡ false
      → may_write (part x) Table.portfolio ≡ false
      → IsTidy d × Fits is_image d
      → IsTidy (after x d) × Fits is_image (after x d)
  others-IsTidy x d a p (t, f) =
      let k = kept x d in
      let e = after x d in
      let rows = sym (k.spares_availabilities a) in
      let items = sym (k.spares_portfolio p) in
      (
        record {
          availabilities =
              subst (IsKeyed (λ r. r.pk) e.next_pk) rows
                (IsKeyed-weaken (λ r. r.pk) d.availabilities k.keys t.availabilities);
          portfolio =
              subst (IsKeyed (λ r. r.pk) e.next_pk) items
                (IsKeyed-weaken (λ r. r.pk) d.portfolio k.keys t.portfolio);
        },
        (subst (All IsSlot) rows f.0, subst (All (IsShown is_image)) items f.1),
      )

  run_site_call-IsTidy :
      (x : SiteCall) (d : Db)
      → IsTidy d × Fits is_image d
      → IsTidy (after x d) × Fits is_image (after x d)
  unfolding run_site_call
  run_site_call-IsTidy (desk x) d h =
      let k = run_desk_call-Keeps is_image x d in (k.tidy h.0, k.fits h.1)
  run_site_call-IsTidy (profile x) d h =
      others-IsTidy (profile x) d (profile_spares x Table.availabilities refl refl)
        (profile_spares x Table.portfolio refl refl) h
  run_site_call-IsTidy x d h = others-IsTidy x d refl refl h

  pub run_site_call-IsConsistent :
      (x : SiteCall) (d : Db) → IsConsistent is_image d → IsConsistent is_image (after x d)
  run_site_call-IsConsistent x d h =
      let desk = run_site_call-IsTidy x d (h.desk, h.shown) in
      record {
        market =
            Steps-Sound (view d) _ (run_site_call-Steps describe m is_image x d h.market) h.market;
        cases = run_site_call-CaseKeys x d h.cases;
        reviews = run_site_call-OneReviewEach x d h.reviews;
        profiles = run_site_call-OneProfileEach x d h.profiles;
        verifications = run_site_call-IsAccountable x d h.verifications;
        desk = desk.0;
        shown = desk.1;
      }

-- From a consistent database, whatever calls the site gets, in whatever order and whichever of them
-- are refused or break off half-way, the database is consistent in the end.
pub run_site_calls-IsConsistent :
    (describe : ServiceRequest → String) (m : MercadoPago) (is_image : Upload → Bool)
    (xs : List SiteCall) (d : Db)
    → IsConsistent is_image d
    → IsConsistent is_image (run_site_calls describe m is_image xs d)
unfolding run_site_calls
run_site_calls-IsConsistent describe m is_image [] d h = h
run_site_calls-IsConsistent describe m is_image (x ∷ xs) d h =
    run_site_calls-IsConsistent describe m is_image xs (run_site_call describe m is_image x d)
      (run_site_call-IsConsistent describe m is_image x d h)
