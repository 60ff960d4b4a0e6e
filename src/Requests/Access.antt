-- ===== src/Requests/Access.antt =====
-- What a view has checked by the time that it calls its service.
use tucano.Prelude.{
  ℕ, ◌≡◌, ◌≢◌, refl, Option, none, some, true, ◌⊎◌, inl, inr, ◌==◌, arith, first, sym, ap, subst,
  ==→eq, first-test, Option-cases, Bool-cases,
}
use tucano.Models.{ClientProfile, ServiceRequest, Interest}
use tucano.Db.{
  Db, ok, err, Result, Action, validation_error, permission_denied, not_found, runtime_error,
  data_error,
}
use tucano.Http.{redirect}
use tucano.Requests.Services.{select_interest}
use tucano.Requests.Views.{respond, select_interest_view}

-- A call that its view has found and may act on: the visitor has the client profile that owns it.
pub record IsOwner (user : Option ℕ) (client : ClientProfile) (r : ServiceRequest) (d : Db)
    : Type 0 where
  pub visitor : user ≡ some client.user
  pub profile : first (λ p. p.user == client.user) d.clients ≡ some client
  pub owns : (r.client.pk == client.pk) ≡ true

module _ {ℓ} {A : Type ℓ} where
  -- The messages change the answer, not the database.
  pub respond-db : (m : Action A) (d : Db) → (respond m d).1 ≡ (m d).1
  respond-db m d = ground arith

  -- A plain redirect means that the service went through.
  pub respond-redirect :
      (m : Action A) (d : Db) → (respond m d).0 ≡ ok redirect → (a : A) × ((m d).0 ≡ ok a)
  respond-redirect m d h = go (m d).0 refl
    where
      go : (r : Result A) → (m d).0 ≡ r → (a : A) × ((m d).0 ≡ ok a)
      go (ok a) e = (a, e)
      go (err (validation_error faults)) e = absurd (ground arith)
      go (err permission_denied) e = absurd (ground arith)
      go (err not_found) e = absurd (ground arith)
      go (err runtime_error) e = absurd (ground arith)
      go (err data_error) e = absurd (ground arith)

-- What `SelectInterestView` hands to `select_interest`.
pub record Selects (now : ℕ) (user : Option ℕ) (pk : ℕ) (client : ClientProfile) (i : Interest)
    (r : ServiceRequest) (d : Db) : Type 0 where
  pub owner : IsOwner user client r d
  pub interest : first (λ j. j.pk == pk) d.interests ≡ some i
  pub target : first (λ q. q.pk == i.service_request) d.requests ≡ some r
  pub handled :
      select_interest_view now user pk d ≡ respond (select_interest now i r (some client.user)) d

-- The view leaves the database alone and does not answer with a plain redirect; or it has found the
-- visitor's client profile, the interest and its call, which that profile owns, and does what
-- `select_interest` does with them, its refusals shown as messages.
pub select_interest_view-cases :
    (now : ℕ) (user : Option ℕ) (pk : ℕ) (d : Db)
    → (((select_interest_view now user pk d).1 ≡ d)
        × ((select_interest_view now user pk d).0 ≢ ok redirect))
      ⊎ ((client : ClientProfile) × (i : Interest) × (r : ServiceRequest) × Selects now user pk
            client i r d)
unfolding select_interest_view
select_interest_view-cases now none pk d = inl (ground arith)
select_interest_view-cases now (some u) pk d =
    elim (Option-cases (first (λ p. p.user == u) d.clients)) [
      | inl no_profile ↦ inl (ground arith)
      | inr (client, is_client) ↦ elim (Option-cases (first (λ j. j.pk == pk) d.interests)) [
        | inl no_interest ↦ inl (ground arith)
        | inr (i, is_interest) ↦
            elim (Option-cases (first (λ q. q.pk == i.service_request) d.requests)) [
              | inl no_request ↦ inl (ground arith)
              | inr (r, is_request) ↦ elim (Bool-cases (r.client.pk == client.pk)) [
                | inl owns ↦
                    let same : u ≡ client.user =
                      sym (==→eq _ _ (first-test (λ p. p.user == u) d.clients client is_client)) in
                    inr (
                      client,
                      i,
                      r,
                      record {
                        owner = record {
                          visitor = ap some same;
                          profile =
                              subst (λ v. first (λ p. p.user == v) d.clients ≡ some client) same
                                is_client;
                          owns = owns;
                        };
                        interest = is_interest;
                        target = is_request;
                        handled = ground arith;
                      },
                    )
                | inr other ↦ inl (ground arith)
              ]
            ]
      ]
    ]
