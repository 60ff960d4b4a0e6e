-- ===== src/Professionals/Ownership.antt =====
-- Who may change what a professional keeps on the dashboard, and what may stand there.
use Prim.Native.String.{count as text_length}
use tucano.Prelude.{
  ℕ, suc, ◌≤◌, ◌<◌, ◌≡◌, ◌⊎◌, inl, inr, refl, sym, subst, Bool, true, false, Option, none, some,
  String, List, [], ◌∷◌, ◌++◌, ◌==◌, ◌&&◌, not, leb, ltb, arith, filter, first, first-test,
  Bool-cases, Option-cases,
}
use tucano.Models.{ProfessionalProfile, Upload, is_too_large, Availability, PortfolioItem}
use tucano.Db.{Db}
use tucano.Professionals.Desk.{
  availability_faults, insert_availability, availability_valid, availability_create,
  availability_delete, portfolio_faults, portfolio_valid, portfolio_create, portfolio_delete,
}

-- A request to the dashboard, with the visitor.
pub data DeskCall : Type 0 where
  open_call : Option ℕ → ℕ → ℕ → ℕ → DeskCall
  close_call : Option ℕ → ℕ → DeskCall
  show_call : ℕ → Option ℕ → Upload → String → DeskCall
  hide_call : Option ℕ → ℕ → DeskCall

unfoldable pub visitor : DeskCall → Option ℕ
visitor (open_call user weekday start_time end_time) = user
visitor (close_call user pk) = user
visitor (show_call now user image caption) = user
visitor (hide_call user pk) = user

-- A slot of one weekday that ends after it starts.
pub record IsSlot (a : Availability) : Type 0 where
  pub weekday : a.weekday < 7
  pub ordered : a.start_time < a.end_time

module _ (is_image : Upload → Bool) where
  unfoldable pub run_desk_call : DeskCall → Db → Db
  run_desk_call (open_call user weekday start_time end_time) d =
      (availability_create user weekday start_time end_time d).1
  run_desk_call (close_call user pk) d = (availability_delete user pk d).1
  run_desk_call (show_call now user image caption) d =
      (portfolio_create is_image now user image caption d).1
  run_desk_call (hide_call user pk) d = (portfolio_delete user pk d).1

  unfoldable pub run_desk_calls : List DeskCall → Db → Db
  run_desk_calls [] d = d
  run_desk_calls (x ∷ xs) d = run_desk_calls xs (run_desk_call x d)

  -- An image of the size that is allowed, with a short caption.
  pub record IsShown (i : PortfolioItem) : Type 0 where
    pub image : is_image i.image ≡ true
    pub allowed : is_too_large i.image ≡ false
    pub caption : text_length i.caption ≤ 150

  -- What the request of a visitor with this profile may do: nothing, or one row of the profile's
  -- own comes or goes.
  pub data DeskStep (profile : ProfessionalProfile) (d : Db) : Db → Type 0 where
    opens :
        (a : Availability)
        → a.pk ≡ d.next_pk
        → a.professional ≡ profile.pk
        → IsSlot a
        → DeskStep profile d
            (record d { next_pk = suc d.next_pk; availabilities = d.availabilities ++ (a ∷ []) })
    closes :
        (a : Availability)
        → first (λ x. x.pk == a.pk && x.professional == profile.pk) d.availabilities ≡ some a
        → DeskStep profile d
            (record d { availabilities = filter (λ x. not (x.pk == a.pk)) d.availabilities })
    shows :
        (i : PortfolioItem)
        → i.pk ≡ d.next_pk
        → i.professional ≡ profile.pk
        → IsShown i
        → DeskStep profile d
            (record d { next_pk = suc d.next_pk; portfolio = d.portfolio ++ (i ∷ []) })
    hides :
        (i : PortfolioItem)
        → first (λ x. x.pk == i.pk && x.professional == profile.pk) d.portfolio ≡ some i
        → DeskStep profile d (record d { portfolio = filter (λ x. not (x.pk == i.pk)) d.portfolio })

  -- A request changes nothing, or acts for the profile of its visitor.
  abbrev pub Acts : Option ℕ → Db → Db → Type 0
  Acts user d d' =
      (d' ≡ d)
      ⊎ ((u : ℕ) × (profile : ProfessionalProfile) × (user ≡ some u)
          × (first (λ p. p.user == u) d.professionals ≡ some profile)
          × DeskStep profile d d')

  availability_create-Acts :
      (user : Option ℕ) (weekday start_time end_time : ℕ) (d : Db)
      → Acts user d (availability_create user weekday start_time end_time d).1
  unfolding availability_create availability_valid insert_availability availability_faults
  availability_create-Acts none weekday start_time end_time d = inl refl
  availability_create-Acts (some u) weekday start_time end_time d =
      elim (Option-cases (first (λ p. p.user == u) d.professionals)) [
        | inl no_profile ↦ inl (ground arith)
        | inr (profile, found) ↦
            let row : ℕ → Availability = λ k. record {
              pk = k;
              professional = profile.pk;
              weekday = weekday;
              start_time = start_time;
              end_time = end_time;
            } in
            elim (Bool-cases (ltb weekday 7 && ltb start_time end_time)) [
              | inr refused ↦ inl (ground arith)
              | inl fine ↦
                  let made : (availability_create (some u) weekday start_time end_time d).1
                      ≡ record d {
                        next_pk = suc d.next_pk;
                        availabilities = d.availabilities ++ (row d.next_pk ∷ []);
                      } =
                    ground arith in
                  inr (
                    u,
                    profile,
                    refl,
                    found,
                    subst (DeskStep profile d) (sym made) (
                        opens (row d.next_pk) refl refl
                          (record { weekday = ground arith; ordered = ground arith })),
                  )
            ]
      ]

  availability_delete-Acts :
      (user : Option ℕ) (pk : ℕ) (d : Db) → Acts user d (availability_delete user pk d).1
  unfolding availability_delete
  availability_delete-Acts none pk d = inl refl
  availability_delete-Acts (some u) pk d =
      elim (Option-cases (first (λ p. p.user == u) d.professionals)) [
        | inl no_profile ↦ inl (ground arith)
        | inr (profile, found) ↦
            let own : ℕ → Availability → Bool = λ k a. a.pk == k && a.professional == profile.pk in
            elim (Option-cases (first (own pk) d.availabilities)) [
              | inl no_row ↦ inl (ground arith)
              | inr (a, is_row) ↦
                  let made : (availability_delete (some u) pk d).1 ≡ record d {
                    availabilities = filter (λ x. not (x.pk == a.pk)) d.availabilities;
                  } =
                    ground arith in
                  let fits : own pk a ≡ true = first-test (own pk) d.availabilities a is_row in
                  let same : pk ≡ a.pk = ground arith in
                  inr (
                    u,
                    profile,
                    refl,
                    found,
                    subst (DeskStep profile d) (sym made) (
                        closes a
                          (subst (λ k. first (own k) d.availabilities ≡ some a) same is_row)),
                  )
            ]
      ]

  portfolio_create-Acts :
      (now : ℕ) (user : Option ℕ) (image : Upload) (caption : String) (d : Db)
      → Acts user d (portfolio_create is_image now user image caption d).1
  unfolding portfolio_create portfolio_valid portfolio_faults
  portfolio_create-Acts now none image caption d = inl refl
  portfolio_create-Acts now (some u) image caption d =
      elim (Option-cases (first (λ p. p.user == u) d.professionals)) [
        | inl no_profile ↦ inl (ground arith)
        | inr (profile, found) ↦
            let row : ℕ → PortfolioItem = λ k. record {
              pk = k;
              professional = profile.pk;
              image = image;
              caption = caption;
              created_at = now;
            } in
            elim (Bool-cases
              (is_image image && not (is_too_large image) && leb (text_length caption) 150)) [
                | inr refused ↦ inl (ground arith)
                | inl fine ↦
                    let made : (portfolio_create is_image now (some u) image caption d).1
                        ≡ record d {
                          next_pk = suc d.next_pk;
                          portfolio = d.portfolio ++ (row d.next_pk ∷ []);
                        } =
                      ground arith in
                    inr (
                      u,
                      profile,
                      refl,
                      found,
                      subst (DeskStep profile d) (sym made) (
                          shows (row d.next_pk) refl refl (record {
                            image = ground arith;
                            allowed = ground arith;
                            caption = ground arith;
                          })),
                    )
              ]
      ]

  portfolio_delete-Acts :
      (user : Option ℕ) (pk : ℕ) (d : Db) → Acts user d (portfolio_delete user pk d).1
  unfolding portfolio_delete
  portfolio_delete-Acts none pk d = inl refl
  portfolio_delete-Acts (some u) pk d =
      elim (Option-cases (first (λ p. p.user == u) d.professionals)) [
        | inl no_profile ↦ inl (ground arith)
        | inr (profile, found) ↦
            let own : ℕ → PortfolioItem → Bool = λ k i. i.pk == k && i.professional == profile.pk in
            elim (Option-cases (first (own pk) d.portfolio)) [
              | inl no_row ↦ inl (ground arith)
              | inr (i, is_row) ↦
                  let made : (portfolio_delete (some u) pk d).1
                      ≡ record d { portfolio = filter (λ x. not (x.pk == i.pk)) d.portfolio } =
                    ground arith in
                  let fits : own pk i ≡ true = first-test (own pk) d.portfolio i is_row in
                  let same : pk ≡ i.pk = ground arith in
                  inr (
                    u,
                    profile,
                    refl,
                    found,
                    subst (DeskStep profile d) (sym made)
                        (hides i (subst (λ k. first (own k) d.portfolio ≡ some i) same is_row)),
                  )
            ]
      ]

  pub run_desk_call-Acts : (x : DeskCall) (d : Db) → Acts (visitor x) d (run_desk_call x d)
  unfolding run_desk_call visitor
  run_desk_call-Acts (open_call user weekday start_time end_time) d =
      availability_create-Acts user weekday start_time end_time d
  run_desk_call-Acts (close_call user pk) d = availability_delete-Acts user pk d
  run_desk_call-Acts (show_call now user image caption) d =
      portfolio_create-Acts now user image caption d
  run_desk_call-Acts (hide_call user pk) d = portfolio_delete-Acts user pk d
