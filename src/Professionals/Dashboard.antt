-- ===== src/Professionals/Dashboard.antt =====
-- What any sequence of requests to the dashboard keeps.
use tucano.Prelude.{
  ℕ, ◌≡◌, ◌≢◌, inl, inr, refl, sym, ap, subst, Bool, true, false, Option, some, List, [], ◌∷◌, ◌++◌,
  ◌==◌, ◌&&◌, not, arith, filter, first, first-test, first-weaken, first_unique, append-nil,
  filter-append, filter-nil, filter-filter, All-first, All-filter_of, All, All-imp, All-append,
  IsKeyed, IsKeyed-append, IsKeyed-weaken, IsKeyed-filter, ==→eq, ◌∙◌,
}
use tucano.Models.{ProfessionalProfile, Upload}
use tucano.Db.{Db}
use tucano.Professionals.Desk.{dashboard}
use tucano.Professionals.Ownership.{
  DeskCall, visitor, run_desk_call, run_desk_calls, IsSlot, IsShown, DeskStep, opens, closes, shows,
  hides, Acts, run_desk_call-Acts,
}

module _ {ℓ} {A : Type ℓ} (key : A → ℕ) (owner : A → ℕ) where
  -- Where keys are distinct, another owner's rows are untouched when one of one's own is deleted.
  delete-others :
      (me other : ℕ) (next : ℕ) (xs : List A) (a : A)
      → IsKeyed key next xs
      → me ≢ other
      → first (λ x. key x == key a && owner x == me) xs ≡ some a
      → filter (λ x. owner x == other) (filter (λ x. not (key x == key a)) xs)
        ≡ filter (λ x. owner x == other) xs
  delete-others me other next xs a keyed ne found =
      let own : (key a == key a && owner a == me) ≡ true =
        first-test (λ x. key x == key a && owner x == me) xs a found in
      let by_key : first (λ x. key x == key a) xs ≡ some a =
        first-weaken (λ x. key x == key a && owner x == me) (λ x. key x == key a) xs a found
          (ground arith) (keyed.unique (key a)) in
      filter-filter (λ x. owner x == other) (λ x. not (key x == key a)) xs
        (All-imp (λ x. (key x == key a) ≡ true → x ≡ a)
          (λ x. not (key x == key a) ≡ false → (owner x == other) ≡ false)
          (λ x h gone.
            let same : x ≡ a = h (ground arith) in
            subst (λ y. (owner y == other) ≡ false) (sym same) (ground arith))
          xs (first_unique (λ x. key x == key a) xs a by_key (keyed.unique (key a))))

  append-others :
      (me other : ℕ) (xs : List A) (a : A)
      → me ≢ other
      → owner a ≡ me
      → filter (λ x. owner x == other) (xs ++ (a ∷ [])) ≡ filter (λ x. owner x == other) xs
  append-others me other xs a ne mine =
      let theirs : (owner a == other) ≡ false = ground arith in
      let p : A → Bool = λ x. owner x == other in
      filter-append p xs (a ∷ [])
      ∙ ap (λ ys. filter p xs ++ ys) (filter-nil p (a ∷ []) (theirs, tt))
      ∙ append-nil (filter p xs)

-- Keys of both tables are distinct and were handed out.
pub record IsTidy (d : Db) : Type 0 where
  pub availabilities : IsKeyed (λ a. a.pk) d.next_pk d.availabilities
  pub portfolio : IsKeyed (λ i. i.pk) d.next_pk d.portfolio

-- What stands on the dashboard.
abbrev pub Fits : (Upload → Bool) → Db → Type 0
Fits is_image d = All IsSlot d.availabilities × All (IsShown is_image) d.portfolio

module _ (is_image : Upload → Bool) (profile : ProfessionalProfile) where
  step-IsTidy : (d d' : Db) → DeskStep is_image profile d d' → IsTidy d → IsTidy d'
  step-IsTidy d _ (opens a key mine fits) t = record {
    availabilities = IsKeyed-append (λ x. x.pk) d.next_pk d.availabilities a key t.availabilities;
    portfolio = IsKeyed-weaken (λ x. x.pk) d.portfolio (omega arith) t.portfolio;
  }
  step-IsTidy d _ (closes a found) t = record {
    availabilities =
        IsKeyed-filter (λ x. x.pk) (λ x. not (x.pk == a.pk)) d.next_pk d.availabilities
          t.availabilities;
    portfolio = t.portfolio;
  }
  step-IsTidy d _ (shows i key mine fits) t = record {
    availabilities = IsKeyed-weaken (λ x. x.pk) d.availabilities (omega arith) t.availabilities;
    portfolio = IsKeyed-append (λ x. x.pk) d.next_pk d.portfolio i key t.portfolio;
  }
  step-IsTidy d _ (hides i found) t = record {
    availabilities = t.availabilities;
    portfolio =
        IsKeyed-filter (λ x. x.pk) (λ x. not (x.pk == i.pk)) d.next_pk d.portfolio t.portfolio;
  }

  step-Fits : (d d' : Db) → DeskStep is_image profile d d' → Fits is_image d → Fits is_image d'
  step-Fits d _ (opens a key mine fits) h =
      (All-append IsSlot d.availabilities (a ∷ []) h.0 (fits, tt), h.1)
  step-Fits d _ (closes a found) h =
      (All-filter_of (λ x. not (x.pk == a.pk)) IsSlot d.availabilities h.0, h.1)
  step-Fits d _ (shows i key mine fits) h =
      (h.0, All-append (IsShown is_image) d.portfolio (i ∷ []) h.1 (fits, tt))
  step-Fits d _ (hides i found) h =
      (h.0, All-filter_of (λ x. not (x.pk == i.pk)) (IsShown is_image) d.portfolio h.1)

  step-professionals :
      (d d' : Db) → DeskStep is_image profile d d' → d'.professionals ≡ d.professionals
  step-professionals d _ (opens a key mine fits) = refl
  step-professionals d _ (closes a found) = refl
  step-professionals d _ (shows i key mine fits) = refl
  step-professionals d _ (hides i found) = refl

  -- A step for one profile leaves another's dashboard as it is.
  step-dashboard :
      (other : ProfessionalProfile) (d d' : Db)
      → IsTidy d
      → profile.pk ≢ other.pk
      → DeskStep is_image profile d d'
      → dashboard other d' ≡ dashboard other d
  unfolding dashboard
  step-dashboard other d _ t ne (opens a key mine fits) =
      rw
        (append-others (λ x. x.pk) (λ x. x.professional) profile.pk other.pk d.availabilities a ne
          mine)
        refl
  step-dashboard other d _ t ne (closes a found) =
      rw
        (delete-others (λ x. x.pk) (λ x. x.professional) profile.pk other.pk d.next_pk
          d.availabilities a t.availabilities ne found)
        refl
  step-dashboard other d _ t ne (shows i key mine fits) =
      rw (append-others (λ x. x.pk) (λ x. x.professional) profile.pk other.pk d.portfolio i ne mine)
        refl
  step-dashboard other d _ t ne (hides i found) =
      rw
        (delete-others (λ x. x.pk) (λ x. x.professional) profile.pk other.pk d.next_pk d.portfolio i
          t.portfolio ne found)
        refl

-- Nobody else has the professional's profile.
abbrev pub Belongs : ProfessionalProfile → Db → Type 0
Belongs profile d = All (λ p. p.pk ≡ profile.pk → p.user ≡ profile.user) d.professionals

-- What one request keeps.
pub record Keeps (is_image : Upload → Bool) (user : Option ℕ) (d d' : Db) : Type 0 where
  pub tidy : IsTidy d → IsTidy d'
  pub fits : Fits is_image d → Fits is_image d'
  pub professionals : d'.professionals ≡ d.professionals
  pub others :
      (profile : ProfessionalProfile)
      → IsTidy d
      → Belongs profile d
      → user ≢ some profile.user
      → dashboard profile d' ≡ dashboard profile d

Acts-Keeps :
    (is_image : Upload → Bool) (user : Option ℕ) (d d' : Db)
    → Acts is_image user d d'
    → Keeps is_image user d d'
Acts-Keeps is_image user d d' (inl same) =
    subst (Keeps is_image user d) (sym same) (record {
      tidy = λ t. t;
      fits = λ h. h;
      professionals = refl;
      others = λ profile t b ne. refl;
    })
Acts-Keeps is_image user d d' (inr (u, own, is_user, found, step)) = record {
  tidy = step-IsTidy is_image own d d' step;
  fits = step-Fits is_image own d d' step;
  professionals = step-professionals is_image own d d' step;
  others = λ profile t b ne.
      let by_user : (own.user == u) ≡ true =
        first-test (λ p. p.user == u) d.professionals own found in
      let theirs : own.pk ≡ profile.pk → own.user ≡ profile.user =
        All-first (λ p. p.user == u) (λ p. p.pk ≡ profile.pk → p.user ≡ profile.user)
          d.professionals own b found in
      step-dashboard is_image own profile d d' t
        (λ e. ne (is_user ∙ ap some (sym (==→eq own.user u by_user) ∙ theirs e))) step;
}

pub run_desk_call-Keeps :
    (is_image : Upload → Bool) (x : DeskCall) (d : Db)
    → Keeps is_image (visitor x) d (run_desk_call is_image x d)
run_desk_call-Keeps is_image x d =
    Acts-Keeps is_image (visitor x) d (run_desk_call is_image x d) (run_desk_call-Acts is_image x d)

-- Where the rows of both tables have distinct keys and nobody else has the professional's profile,
-- whatever other visitors ask leaves the professional's dashboard as it is.
pub run_desk_calls-dashboard :
    (is_image : Upload → Bool) (profile : ProfessionalProfile) (xs : List DeskCall) (d : Db)
    → IsTidy d
    → Belongs profile d
    → All (λ x. visitor x ≢ some profile.user) xs
    → dashboard profile (run_desk_calls is_image xs d) ≡ dashboard profile d
unfolding run_desk_calls
run_desk_calls-dashboard is_image profile [] d tidy belongs others = refl
run_desk_calls-dashboard is_image profile (x ∷ xs) d tidy belongs others =
    let d₁ = run_desk_call is_image x d in
    let k = run_desk_call-Keeps is_image x d in
    run_desk_calls-dashboard is_image profile xs d₁ (k.tidy tidy)
      (subst (All (λ p. p.pk ≡ profile.pk → p.user ≡ profile.user)) (sym k.professionals) belongs)
      others.1
    ∙ k.others profile tidy belongs others.0
