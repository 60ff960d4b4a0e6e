-- ===== src/Market/Calls.antt =====
-- The views of apps/requests/views.py, as steps of the specification.
use tucano.Prelude.{
  ℕ, suc, ◌≡◌, ◌≢◌, ◌⊎◌, inl, inr, refl, sym, subst, Option, some, none, String, [], ◌∷◌, ◌++◌,
  ◌==◌, ==→eq, ==_refl, ◌&&◌, first, first-test, first-weaken, All-first, arith, Bool-cases,
  Option-cases,
}
use tucano.Models.{ClientProfile, ServiceRequest}
use tucano.Db.{is_ok, Db}
use tucano.Audit.{log_event}
use tucano.Requests.Clean.{insert_request, full_clean, request_field_faults, check_window}
use tucano.Requests.Services.{
  select_interest, withdraw_interest, close_request_now, cancel_request,
  notify_compatible_professionals,
}
use tucano.Requests.Views.{
  RequestForm, new_request, service_request_create, publish_valid, after_publication,
  interest_create, interest_withdraw, select_interest_view, end_request, cancel_request_view,
}
use tucano.Requests.Access.{respond-db, select_interest_view-cases}
use tucano.Requests.Applying.{application, interest_create-cases}
use tucano.Market.Spec.{view, apply, Steps}
use tucano.Market.Laws.{Sound}
use tucano.Market.Pieces.{one_step, Steps-same, Steps-into, IsStored, insert_request-Steps}
use tucano.Market.Services.{IsOpen, select_interest-Steps, withdraw_interest-Steps}
use tucano.Market.Endings.{close_request_now-Steps, cancel_request-Steps}

pub select_interest_view-Steps :
    (now : ℕ) (user : Option ℕ) (pk : ℕ) (d : Db)
    → Sound (view d)
    → Steps (view d) (view (select_interest_view now user pk d).1)
select_interest_view-Steps now user pk d sound = elim (select_interest_view-cases now user pk d) [
  | inl (same, refused) ↦ rw same (Steps-same (view d) (view d) refl)
  | inr (client, i, r, s) ↦
      let key : i.pk ≡ pk = ==→eq _ _ (first-test (λ j. j.pk == pk) d.interests i s.interest) in
      let open_ : IsOpen i d =
        subst (λ k. first (λ j. j.pk == k) d.interests ≡ some i) (sym key) s.interest in
      let call_key : r.pk ≡ i.service_request =
        ==→eq _ _ (first-test (λ q. q.pk == i.service_request) d.requests r s.target) in
      let found : IsStored r d =
        subst (λ k. first (λ q. q.pk == k) d.requests ≡ some r) (sym call_key) s.target in
      let stored : r.pk ≢ 0 =
        All-first (λ q. q.pk == i.service_request) (λ q. q.pk ≢ 0) d.requests r sound.saved
          s.target in
      let call = select_interest now i r (some client.user) in
      let done_ = select_interest-Steps now i r (some client.user) d sound open_ found stored in
      rw s.handled (rw (respond-db call d) done_)
]

-- A call that `load_own` has found stands in the table under its key.
module _ (client : ClientProfile) (pk : ℕ) (d : Db) (sound : Sound (view d)) (r : ServiceRequest)
    (found : first (λ q. q.pk == pk && q.client.pk == client.pk) d.requests ≡ some r) where
  own-IsStored : IsStored r d
  own-IsStored =
      first-weaken (λ q. q.pk == pk && q.client.pk == client.pk) (λ q. q.pk == r.pk) d.requests r
        found (==_refl r.pk) (sound.requests.unique r.pk)

  own-saved : r.pk ≢ 0
  own-saved =
      All-first (λ q. q.pk == pk && q.client.pk == client.pk) (λ q. q.pk ≢ 0) d.requests r
        sound.saved found

pub end_request-Steps :
    (now : ℕ) (user : Option ℕ) (pk : ℕ) (d : Db)
    → Sound (view d)
    → Steps (view d) (view (end_request now user pk d).1)
unfolding end_request
end_request-Steps now none pk d sound = Steps-same (view d) _ refl
end_request-Steps now (some u) pk d sound =
    elim (Option-cases (first (λ p. p.user == u) d.clients)) [
      | inl no_profile ↦ Steps-same (view d) _ (ground arith)
      | inr (client, hc) ↦
          elim (Option-cases (first (λ q. q.pk == pk && q.client.pk == client.pk) d.requests)) [
            | inl no_call ↦ Steps-same (view d) _ (ground arith)
            | inr (r, hr) ↦
                Steps-into (view d) (view (close_request_now now r (some client.user) d).1) _
                  (ground arith)
                  (close_request_now-Steps now r (some client.user) d
                    (own-saved client pk d sound r hr) (own-IsStored client pk d sound r hr))
          ]
    ]

pub cancel_request_view-Steps :
    (now : ℕ) (user : Option ℕ) (pk : ℕ) (reason : String) (d : Db)
    → Sound (view d)
    → Steps (view d) (view (cancel_request_view now user pk reason d).1)
unfolding cancel_request_view
cancel_request_view-Steps now none pk reason d sound = Steps-same (view d) _ refl
cancel_request_view-Steps now (some u) pk reason d sound =
    elim (Option-cases (first (λ p. p.user == u) d.clients)) [
      | inl no_profile ↦ Steps-same (view d) _ (ground arith)
      | inr (client, hc) ↦
          elim (Option-cases (first (λ q. q.pk == pk && q.client.pk == client.pk) d.requests)) [
            | inl no_call ↦ Steps-same (view d) _ (ground arith)
            | inr (r, hr) ↦
                Steps-into (view d) (view (cancel_request now r (some client.user) reason d).1) _
                  (ground arith)
                  (cancel_request-Steps now r (some client.user) reason d
                    (own-saved client pk d sound r hr) (own-IsStored client pk d sound r hr))
          ]
    ]

pub interest_withdraw-Steps :
    (user : Option ℕ) (pk : ℕ) (d : Db)
    → Sound (view d)
    → Steps (view d) (view (interest_withdraw user pk d).1)
unfolding interest_withdraw
interest_withdraw-Steps none pk d sound = Steps-same (view d) _ refl
interest_withdraw-Steps (some u) pk d sound =
    elim (Option-cases (first (λ p. p.user == u) d.professionals)) [
      | inl no_profile ↦ Steps-same (view d) _ (ground arith)
      | inr (profile, hp) ↦
          elim (Option-cases
            (first (λ i. i.pk == pk && i.professional.pk == profile.pk) d.interests)) [
              | inl no_interest ↦ Steps-same (view d) _ (ground arith)
              | inr (i, hi) ↦
                  elim (Option-cases (first (λ q. q.pk == i.service_request) d.requests)) [
                    | inl no_call ↦ Steps-same (view d) _ (ground arith)
                    | inr (r, hr) ↦
                        let open_ : IsOpen i d =
                          first-weaken (λ j. j.pk == pk && j.professional.pk == profile.pk)
                            (λ j. j.pk == i.pk) d.interests i hi (==_refl i.pk)
                            (sound.interests.unique i.pk) in
                        Steps-into (view d) (view (withdraw_interest i r (some profile.user) d).1) _
                          (ground arith) (withdraw_interest-Steps i r (some profile.user) d open_)
                  ]
            ]
    ]

interest_create-none :
    (pk : ℕ) (message : String) (d : Db) → (interest_create none pk message d).1 ≡ d
unfolding interest_create
interest_create-none pk message d = ground arith

pub interest_create-Steps :
    (user : Option ℕ) (pk : ℕ) (message : String) (d : Db)
    → Steps (view d) (view (interest_create user pk message d).1)
interest_create-Steps none pk message d =
    rw (interest_create-none pk message d) (Steps-same (view d) (view d) refl)
interest_create-Steps (some u) pk message d = elim (interest_create-cases u pk message d) [
  | inl same ↦ rw same (Steps-same (view d) (view d) refl)
  | inr (profile, r, a) ↦
      let i = application profile r message d.next_pk in
      let key : r.pk ≡ pk = ==→eq _ _ (first-test (λ q. q.pk == pk) d.requests r a.call_found) in
      let found : first (λ q. q.pk == r.pk) d.requests ≡ some r =
        subst (λ k. first (λ q. q.pk == k) d.requests ≡ some r) (sym key) a.call_found in
      Steps-into (view d)
        (record (view d) { next_pk = suc d.next_pk; interests = d.interests ++ (i ∷ []) }) _
        (ground (arith, a.stored, a.next_pk, a.requests, a.conversations))
        (one_step (apply r i refl refl found a.receiving))
]

-- What a publication comes to: nothing, or the insertion of the client's new call.
service_request_create-view :
    (describe : ServiceRequest → String) (now : ℕ) (user : Option ℕ) (form : RequestForm) (d : Db)
    → (view (service_request_create describe now user form d).1 ≡ view d)
      ⊎ ((client : ClientProfile) × (view (service_request_create describe now user form d).1
            ≡ view (insert_request now (new_request now client form) d).1))
unfolding service_request_create publish_valid after_publication notify_compatible_professionals
    log_event check_window
service_request_create-view describe now none form d = inl refl
service_request_create-view describe now (some u) form d =
    elim (Option-cases (first (λ p. p.user == u) d.clients)) [
      | inl no_profile ↦ inl (ground arith)
      | inr (client, found) ↦
          let r = new_request now client form in
          elim (Bool-cases (is_ok (full_clean (request_field_faults r) (check_window r) d).0)) [
            | inr invalid ↦ inl (ground arith)
            | inl valid ↦ elim (Bool-cases (is_ok (insert_request now r d).0)) [
              | inl stored ↦ inr (client, ground arith)
              | inr refused ↦ inr (client, ground arith)
            ]
          ]
    ]

pub service_request_create-Steps :
    (describe : ServiceRequest → String) (now : ℕ) (user : Option ℕ) (form : RequestForm) (d : Db)
    → Steps (view d) (view (service_request_create describe now user form d).1)
service_request_create-Steps describe now user form d =
    elim (service_request_create-view describe now user form d) [
      | inl same ↦ Steps-same (view d) _ same
      | inr (client, same) ↦
          Steps-into (view d) _ _ same
            (insert_request-Steps now (new_request now client form) d refl)
    ]
