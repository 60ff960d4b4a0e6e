-- ===== src/Moderation/Verifications.antt =====
-- Identity verification: `VerificationRequestCreateView` of apps/moderation/views.py, and the two
-- actions of `VerificationAdmin` in admin.py. A form that comes with no document is not sent here.
use tucano.Prelude.{
  ℕ, ◌≡◌, sym, subst, ◌&&◌, ◌⊎◌, inl, inr, refl, Bool, true, false, Option, none, some, String,
  List, [], ◌∷◌, ◌++◌, not, ◌==◌, exists, update, arith, All, All-of, All-append, All-update, Grows,
  Grows-refl, Grows-append, Grows-update, Bool-cases,
}
use tucano.Models.{Upload, is_too_large, VerificationStatus, Verification}
use tucano.Db.{
  Db, Fault, invalid_field, file_too_large, Action, pure, ◌>>=◌, ◌>>◌, modify, fresh_pk, attempt,
}
use tucano.Http.{Response, redirect, form_invalid, login_required}
use tucano.Requests.Clean.{fault_if, raise_faults}

-- `VERIFICATION_PURPOSE`
abbrev pub verification_purpose : String
verification_purpose =
    "Verificação de identidade para exibir selo de verificado no perfil profissional"

-- What `VerificationRequestForm` finds: the consent is required, and the document has its
-- validator.
unfoldable pub verification_faults : Bool → Upload → List Fault
verification_faults consent document =
    fault_if (not consent) invalid_field ++ fault_if (is_too_large document) file_too_large

-- `form_valid`, reached where the form found nothing.
unfoldable pub verification_valid : ℕ → ℕ → Upload → List Fault ⊎ Unit {0} → Action Response
verification_valid now user document (inl faults) = pure (form_invalid faults)
verification_valid now user document (inr _) = do
  pk ← fresh_pk
  let row : Verification = record {
    pk = pk;
    user = user;
    document = document;
    purpose = verification_purpose;
    consent_given_at = now;
    status = VerificationStatus.pending;
    reviewed_at = none;
    reviewed_by = none;
  }
  modify (λ d. record d { verifications = d.verifications ++ (row ∷ []) })
  pure redirect

-- `VerificationRequestCreateView.post`
unfoldable pub verification_request : ℕ → Option ℕ → Bool → Upload → Action Response
verification_request now user consent document = login_required user λ u.
    attempt (raise_faults (verification_faults consent document))
    >>= verification_valid now u document

-- `VerificationAdmin.approve` and `reject`, on the rows that the moderator ticked.
unfoldable pub review_verifications : ℕ → ℕ → VerificationStatus → List ℕ → Db → Db
review_verifications now moderator status ticked d = record d {
  verifications =
      update (λ v. exists (λ k. k == v.pk) ticked)
        (λ v. record v { status = status; reviewed_at = some now; reviewed_by = some moderator })
        d.verifications;
}

-- A user's request, or an action of the admin.
pub data VerificationCall : Type 0 where
  ask_call : ℕ → Option ℕ → Bool → Upload → VerificationCall
  approve_call reject_call : ℕ → ℕ → List ℕ → VerificationCall

unfoldable pub run_verification_call : VerificationCall → Db → Db
run_verification_call (ask_call now user consent document) d =
    (verification_request now user consent document d).1
run_verification_call (approve_call now moderator ticked) d =
    review_verifications now moderator VerificationStatus.approved ticked d
run_verification_call (reject_call now moderator ticked) d =
    review_verifications now moderator VerificationStatus.rejected ticked d

abbrev pub is_pending : VerificationStatus → Bool
is_pending VerificationStatus.pending = true
is_pending _ = false

-- What a later request or action leaves of a row: all that its user gave, and a verdict.
pub record KeepsVerification (v w : Verification) : Type 0 where
  pub pk : w.pk ≡ v.pk
  pub user : w.user ≡ v.user
  pub document : w.document ≡ v.document
  pub purpose : w.purpose ≡ v.purpose
  pub consent_given_at : w.consent_given_at ≡ v.consent_given_at
  pub reviewed : is_pending v.status ≡ false → is_pending w.status ≡ false

-- A document has the size that is allowed, and a verdict comes with its moderator and time.
pub record IsAccountable (v : Verification) : Type 0 where
  pub allowed : is_too_large v.document ≡ false
  pub untouched : is_pending v.status ≡ true → (v.reviewed_by ≡ none) × (v.reviewed_at ≡ none)
  pub signed :
      is_pending v.status ≡ false
      → (m : ℕ) × (at : ℕ) × (v.reviewed_by ≡ some m) × (v.reviewed_at ≡ some at)

pub KeepsVerification-refl : (v : Verification) → KeepsVerification v v
KeepsVerification-refl v = ground arith

pub KeepsVerification-trans :
    (u v w : Verification) → KeepsVerification u v → KeepsVerification v w → KeepsVerification u w
KeepsVerification-trans u v w a b = ground arith

-- What one call does to the table.
abbrev pub Accountable : List Verification → List Verification → Type 0
Accountable vs ws = Grows KeepsVerification vs ws × (All IsAccountable vs → All IsAccountable ws)

Accountable-refl : (vs : List Verification) → Accountable vs vs
Accountable-refl vs = (Grows-refl KeepsVerification KeepsVerification-refl vs, λ h. h)

Accountable-append :
    (vs : List Verification) (v : Verification) → IsAccountable v → Accountable vs (vs ++ (v ∷ []))
Accountable-append vs v fine = (
  Grows-append KeepsVerification KeepsVerification-refl vs (v ∷ []),
  λ h. All-append IsAccountable vs (v ∷ []) h (fine, tt),
)

-- A request is refused, or its row comes behind the others.
pub verification_request-cases :
    (now : ℕ) (user : Option ℕ) (consent : Bool) (document : Upload) (d : Db)
    → ((verification_request now user consent document d).1.verifications ≡ d.verifications)
      ⊎ ((v : Verification) × IsAccountable v
          × ((verification_request now user consent document d).1.verifications
              ≡ d.verifications ++ (v ∷ [])))
unfolding verification_request verification_valid verification_faults
verification_request-cases now none consent document d = inl refl
verification_request-cases now (some u) consent document d =
    elim (Bool-cases (consent && not (is_too_large document))) [
      | inr refused ↦ inl (ground arith)
      | inl fine ↦ inr (
        record {
          pk = d.next_pk;
          user = u;
          document = document;
          purpose = verification_purpose;
          consent_given_at = now;
          status = VerificationStatus.pending;
          reviewed_at = none;
          reviewed_by = none;
        },
        record {
          allowed = ground arith;
          untouched = λ e. (refl, refl);
          signed = λ e. absurd (ground arith);
        },
        ground arith,
      )
    ]

verification_request-Accountable :
    (now : ℕ) (user : Option ℕ) (consent : Bool) (document : Upload) (d : Db)
    → Accountable d.verifications (verification_request now user consent document d).1.verifications
verification_request-Accountable now user consent document d =
    elim (verification_request-cases now user consent document d) [
      | inl same ↦ subst (Accountable d.verifications) (sym same) (Accountable-refl d.verifications)
      | inr (v, fine, added) ↦
          subst (Accountable d.verifications) (sym added)
            (Accountable-append d.verifications v fine)
    ]

review_verifications-Accountable :
    (now moderator : ℕ) (status : VerificationStatus) (ticked : List ℕ) (d : Db)
    → is_pending status ≡ false
    → Accountable d.verifications (review_verifications now moderator status ticked d).verifications
unfolding review_verifications
review_verifications-Accountable now moderator status ticked d final =
    let p : Verification → Bool = λ v. exists (λ k. k == v.pk) ticked in
    let f : Verification → Verification =
      λ v. record v { status = status; reviewed_at = some now; reviewed_by = some moderator } in
    (
      Grows-update KeepsVerification p f KeepsVerification-refl d.verifications (
          All-of (λ v. p v ≡ true → KeepsVerification v (f v)) (λ v e. ground arith)
            d.verifications),
      λ h.
          All-update p f IsAccountable IsAccountable
            (λ v e a. record {
              allowed = a.allowed;
              untouched = λ pending. absurd (ground arith);
              signed = λ reviewed. (moderator, now, refl, refl);
            })
            (λ v e a. a) d.verifications h,
    )

pub run_verification_call-Accountable :
    (x : VerificationCall) (d : Db)
    → Accountable d.verifications (run_verification_call x d).verifications
unfolding run_verification_call
run_verification_call-Accountable (ask_call now user consent document) d =
    verification_request-Accountable now user consent document d
run_verification_call-Accountable (approve_call now moderator ticked) d =
    review_verifications-Accountable now moderator VerificationStatus.approved ticked d refl
run_verification_call-Accountable (reject_call now moderator ticked) d =
    review_verifications-Accountable now moderator VerificationStatus.rejected ticked d refl
