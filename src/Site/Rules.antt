-- ===== src/Site/Rules.antt =====
-- Which calls keep the history: rules for each way that an `Action` is put together, so that the
-- proof for an operation follows its text.
use tucano.Prelude.{
  ℕ, List, [], ◌∷◌, Bool, true, false, Option, none, some, if◌then◌else◌, first, ◌==◌,
}
use tucano.Models.{ClientProfile, ProfessionalProfile}
use tucano.Db.{
  Db, Fault, Error, Action, pure, raise, gets, or_404, attempt, ◌>>=◌, ◌>>◌, modify, refuse_if,
  Result, ok, err,
}
use tucano.Requests.Clean.{raise_faults}
use tucano.Http.{
  Response, login_required, client_required, has_client_profile, has_professional_profile,
  professional_required,
}
use tucano.Site.Parts.{Table}
use tucano.Site.History.{Keeps, Keeps-refl, Keeps-trans}

pub record Safe {ℓ} {A : Type ℓ} (may : Table → Bool) (m : Action A) : Type 0 where
  pub at : (d : Db) → Keeps may d (m d).1

pub record SafeWrite (may : Table → Bool) (f : Db → Db) : Type 0 where
  pub at : (d : Db) → Keeps may d (f d)

module _ {ℓ} {A : Type ℓ} {may : Table → Bool} where
  pub pure-Safe : (x : A) → Safe may (pure x)
  pure-Safe x = record { at = λ d. Keeps-refl d }

  pub raise-Safe : (e : Error) → Safe {A = A} may (raise e)
  raise-Safe e = record { at = λ d. Keeps-refl d }

  pub gets-Safe : (f : Db → A) → Safe may (gets f)
  gets-Safe f = record { at = λ d. Keeps-refl d }

  pub or_404-Safe : (o : Option A) → Safe may (or_404 o)
  or_404-Safe none = record { at = λ d. Keeps-refl d }
  or_404-Safe (some x) = record { at = λ d. Keeps-refl d }

  pub attempt-Safe : {m : Action A} → Safe may m → Safe may (attempt m)
  attempt-Safe h = record { at = h.at }

  pub if-Safe :
      (b : Bool) {m n : Action A} → Safe may m → Safe may n → Safe may (if b then m else n)
  if-Safe true h k = h
  if-Safe false h k = k

continue-Keeps {ℓ κ} :
    {may : Table → Bool} {A : Type ℓ} {B : Type κ} (f : A → Action B)
    → ((x : A) → Safe may (f x))
    → (d : Db) (o : Result A × Db) → Keeps may d o.1
    → Keeps may d (((λ e. o) >>= f) d).1
continue-Keeps f k d (ok x, d') kept = Keeps-trans d d' _ kept ((k x).at d')
continue-Keeps f k d (err e, d') kept = kept

pub bind-Safe {ℓ κ} :
    {may : Table → Bool} {A : Type ℓ} {B : Type κ} (m : Action A) (f : A → Action B)
    → Safe may m
    → ((x : A) → Safe may (f x))
    → Safe may (m >>= f)
bind-Safe m f h k = record { at = λ d. continue-Keeps f k d (m d) (h.at d) }

pub modify-Safe : {may : Table → Bool} {f : Db → Db} → SafeWrite may f → Safe may (modify f)
modify-Safe h = record { at = h.at }

pub if-Keeps :
    {may : Table → Bool} (d : Db) (b : Bool) {e f : Db}
    → Keeps may d e
    → Keeps may d f
    → Keeps may d (if b then e else f)
if-Keeps d true h k = h
if-Keeps d false h k = k

pub if_write-Safe :
    {may : Table → Bool} (b : Bool) {f g : Db → Db}
    → SafeWrite may f
    → SafeWrite may g
    → SafeWrite may (if b then f else g)
if_write-Safe true h k = h
if_write-Safe false h k = k

-- A write that is made under a condition.
pub when-Safe :
    {may : Table → Bool} (b : Bool) {f : Db → Db}
    → SafeWrite may f
    → SafeWrite may (λ d. if b then f d else d)
when-Safe true h = record { at = h.at }
when-Safe false h = record { at = Keeps-refl }

pub then-Safe {κ} :
    {may : Table → Bool} {B : Type κ} (m : Action (Unit {0})) (n : Action B)
    → Safe may m
    → Safe may n
    → Safe may (m >> n)
then-Safe m n h k = bind-Safe m (λ _. n) h (λ _. k)

pub refuse_if-Safe : {may : Table → Bool} (c : Bool) (fault : Fault) → Safe may (refuse_if c fault)
refuse_if-Safe c fault = record { at = λ d. Keeps-refl d }

pub login_required-Safe :
    {may : Table → Bool} (user : Option ℕ) {view : ℕ → Action Response}
    → ((u : ℕ) → Safe may (view u))
    → Safe may (login_required user view)
login_required-Safe none h = pure-Safe _
login_required-Safe (some u) h = h u

has_client-Safe :
    {may : Table → Bool} (found : Option ClientProfile) {view : ClientProfile → Action Response}
    → ((p : ClientProfile) → Safe may (view p))
    → Safe may (has_client_profile found view)
has_client-Safe none h = raise-Safe _
has_client-Safe (some p) h = h p

pub client_required-Safe :
    {may : Table → Bool} (user : Option ℕ) {view : ClientProfile → Action Response}
    → ((p : ClientProfile) → Safe may (view p))
    → Safe may (client_required user view)
client_required-Safe none h = pure-Safe _
client_required-Safe (some u) {view} h =
    bind-Safe (gets (λ d. first (λ p. p.user == u) d.clients))
      (λ found. has_client_profile found view) (gets-Safe _) (λ found. has_client-Safe found h)

has_professional-Safe :
    {may : Table → Bool} (found : Option ProfessionalProfile)
    {view : ProfessionalProfile → Action Response}
    → ((p : ProfessionalProfile) → Safe may (view p))
    → Safe may (has_professional_profile found view)
has_professional-Safe none h = raise-Safe _
has_professional-Safe (some p) h = h p

pub professional_required-Safe :
    {may : Table → Bool} (user : Option ℕ) {view : ProfessionalProfile → Action Response}
    → ((p : ProfessionalProfile) → Safe may (view p))
    → Safe may (professional_required user view)
professional_required-Safe none h = pure-Safe _
professional_required-Safe (some u) {view} h =
    bind-Safe (gets (λ d. first (λ p. p.user == u) d.professionals))
      (λ found. has_professional_profile found view) (gets-Safe _)
      (λ found. has_professional-Safe found h)

pub ruleset rules = (
  pure-Safe, raise-Safe, gets-Safe, or_404-Safe, attempt-Safe, if-Safe, bind-Safe, then-Safe,
  modify-Safe, refuse_if-Safe, if_write-Safe, when-Safe, login_required-Safe, client_required-Safe,
  professional_required-Safe,
)

pub raise_faults-Safe : {may : Table → Bool} (faults : List Fault) → Safe may (raise_faults faults)
raise_faults-Safe [] = pure-Safe tt
raise_faults-Safe (f ∷ fs) = raise-Safe _
