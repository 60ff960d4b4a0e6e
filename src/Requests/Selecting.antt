-- ===== src/Requests/Selecting.antt =====
-- `SelectInterestView` and `select_interest` as a whole.
use tucano.Prelude.{
  ℕ, ◌≡◌, ◌≢◌, sym, subst, Option, some, ◌==◌, first, All-first, first-test, ==→eq, inl, inr,
}
use tucano.Db.{Db, Result, ok}
use tucano.Http.{Response, redirect}
use tucano.Requests.Services.{select_interest}
use tucano.Requests.Views.{select_interest_view}
use tucano.Requests.Selection.{select-ok}
use tucano.Requests.Capacity.{KeysUnique, WithinCapacity, selection-WithinCapacity}
use tucano.Requests.Access.{respond-db, respond-redirect, select_interest_view-cases}

-- Where primary keys are unique and every call has room, a selection that the view answers with a
-- plain redirect leaves a database in which every call has room: no call has more professionals
-- selected than it has positions, and one that still receives interests has a free position.
pub select_interest_view-WithinCapacity :
    (now : ℕ) (user : Option ℕ) (pk : ℕ) (d : Db)
    → KeysUnique d
    → WithinCapacity d
    → (select_interest_view now user pk d).0 ≡ ok redirect
    → WithinCapacity (select_interest_view now user pk d).1
select_interest_view-WithinCapacity now user pk d keys room h =
    elim (select_interest_view-cases now user pk d) [
      | inl (same, refused) ↦ absurd (refused h)
      | inr (client, i, r, s) ↦
          let call = select_interest now i r (some client.user) in
          let (a, went_through) = respond-redirect call d (rw s.handled at h) in
          let key : i.pk ≡ pk = ==→eq _ _ (first-test (λ j. j.pk == pk) d.interests i s.interest) in
          let found : first (λ j. j.pk == i.pk) d.interests ≡ some i =
            subst (λ k. first (λ j. j.pk == k) d.interests ≡ some i) (sym key) s.interest in
          let stored : r.pk ≢ 0 =
            All-first (λ q. q.pk == i.service_request) (λ q. q.pk ≢ 0) d.requests r keys.saved
              s.target in
          subst (λ (o : Result Response × Db). WithinCapacity o.1) (sym s.handled)
            (subst WithinCapacity (sym (respond-db call d)) (
              selection-WithinCapacity now i r d found s.target keys (call d).1
                (select-ok now i r (some client.user) d stored went_through) room))
    ]
