-- ===== src/Site/Additions.antt =====
-- What a row that is added behind the others does to the history.
use tucano.Prelude.{suc, ◌≤◌, ◌≡◌, true, Bool, List, ◌++◌, Grows-append, arith}
use tucano.Models.{
  AuditEvent, Message, Block, Review, ServiceRequest, Interest, ModerationCase, Verification,
  ClientProfile, ProfessionalProfile, Boost,
}
use tucano.Db.{fresh_pk}
use tucano.Site.Parts.{Table, Spares}
use tucano.Site.History.{Keeps-refl}
use tucano.Site.Rows.{
  Same, Same-refl, SameClient, SameClient-refl, SameProfessional, SameProfessional-refl, SameCall,
  SameCall-refl, SameInterest, SameInterest-refl, SameReview, SameReview-refl, SameCase,
  SameCase-refl, SameVerification, SameVerification-refl,
}
use tucano.Site.Rules.{Safe, SafeWrite}

pub fresh_pk-Safe : {may : Table → Bool} → Safe may fresh_pk
fresh_pk-Safe {may} = record {
  at = λ d.
      let h = Keeps-refl {may = may} d in let g : d.next_pk ≤ suc d.next_pk = omega arith in search;
}

pub audit_added-Safe :
    {may : Table → Bool} (rows : List AuditEvent)
    → SafeWrite may (λ d. record d { audit = d.audit ++ rows })
audit_added-Safe {may} rows = record {
  at = λ d.
      let h = Keeps-refl {may = may} d in
      let g = Grows-append Same Same-refl d.audit rows in search;
}

pub messages_added-Safe :
    {may : Table → Bool} (rows : List Message)
    → may Table.messages ≡ true
    → SafeWrite may (λ d. record d { messages = d.messages ++ rows })
messages_added-Safe {may} rows own = record {
  at = λ d.
      let h = Keeps-refl {may = may} d in
      let g = Grows-append Same Same-refl d.messages rows in
      let s : Spares may Table.messages d.messages (d.messages ++ rows) = λ e. absurd (cc) in
      search;
}

pub blocks_added-Safe :
    {may : Table → Bool} (rows : List Block)
    → may Table.blocks ≡ true
    → SafeWrite may (λ d. record d { blocks = d.blocks ++ rows })
blocks_added-Safe {may} rows own = record {
  at = λ d.
      let h = Keeps-refl {may = may} d in
      let g = Grows-append Same Same-refl d.blocks rows in
      let s : Spares may Table.blocks d.blocks (d.blocks ++ rows) = λ e. absurd (cc) in search;
}

pub boosts_added-Safe :
    {may : Table → Bool} (rows : List Boost)
    → may Table.boosts ≡ true
    → SafeWrite may (λ d. record d { boosts = d.boosts ++ rows })
boosts_added-Safe {may} rows own = record {
  at = λ d.
      let h = Keeps-refl {may = may} d in
      let g = Grows-append Same Same-refl d.boosts rows in
      let s : Spares may Table.boosts d.boosts (d.boosts ++ rows) = λ e. absurd (cc) in search;
}

pub reviews_added-Safe :
    {may : Table → Bool} (rows : List Review)
    → may Table.reviews ≡ true
    → SafeWrite may (λ d. record d { reviews = d.reviews ++ rows })
reviews_added-Safe {may} rows own = record {
  at = λ d.
      let h = Keeps-refl {may = may} d in
      let g = Grows-append SameReview SameReview-refl d.reviews rows in
      let s : Spares may Table.reviews d.reviews (d.reviews ++ rows) = λ e. absurd (cc) in search;
}

pub cases_added-Safe :
    {may : Table → Bool} (rows : List ModerationCase)
    → may Table.cases ≡ true
    → SafeWrite may (λ d. record d { cases = d.cases ++ rows })
cases_added-Safe {may} rows own = record {
  at = λ d.
      let h = Keeps-refl {may = may} d in
      let g = Grows-append SameCase SameCase-refl d.cases rows in
      let s : Spares may Table.cases d.cases (d.cases ++ rows) = λ e. absurd (cc) in search;
}

pub verifications_added-Safe :
    {may : Table → Bool} (rows : List Verification)
    → may Table.verifications ≡ true
    → SafeWrite may (λ d. record d { verifications = d.verifications ++ rows })
verifications_added-Safe {may} rows own = record {
  at = λ d.
      let h = Keeps-refl {may = may} d in
      let g = Grows-append SameVerification SameVerification-refl d.verifications rows in
      let s : Spares may Table.verifications d.verifications (d.verifications ++ rows) =
        λ e. absurd (cc) in
      search;
}

pub requests_added-Safe :
    {may : Table → Bool} (rows : List ServiceRequest)
    → may Table.requests ≡ true
    → SafeWrite may (λ d. record d { requests = d.requests ++ rows })
requests_added-Safe {may} rows own = record {
  at = λ d.
      let h = Keeps-refl {may = may} d in
      let g = Grows-append SameCall SameCall-refl d.requests rows in
      let s : Spares may Table.requests d.requests (d.requests ++ rows) = λ e. absurd (cc) in
      search;
}

pub interests_added-Safe :
    {may : Table → Bool} (rows : List Interest)
    → may Table.interests ≡ true
    → SafeWrite may (λ d. record d { interests = d.interests ++ rows })
interests_added-Safe {may} rows own = record {
  at = λ d.
      let h = Keeps-refl {may = may} d in
      let g = Grows-append SameInterest SameInterest-refl d.interests rows in
      let s : Spares may Table.interests d.interests (d.interests ++ rows) = λ e. absurd (cc) in
      search;
}

pub clients_added-Safe :
    {may : Table → Bool} (rows : List ClientProfile)
    → may Table.clients ≡ true
    → SafeWrite may (λ d. record d { clients = d.clients ++ rows })
clients_added-Safe {may} rows own = record {
  at = λ d.
      let h = Keeps-refl {may = may} d in
      let g = Grows-append SameClient SameClient-refl d.clients rows in
      let s : Spares may Table.clients d.clients (d.clients ++ rows) = λ e. absurd (cc) in search;
}

pub professionals_added-Safe :
    {may : Table → Bool} (rows : List ProfessionalProfile)
    → may Table.professionals ≡ true
    → SafeWrite may (λ d. record d { professionals = d.professionals ++ rows })
professionals_added-Safe {may} rows own = record {
  at = λ d.
      let h = Keeps-refl {may = may} d in
      let g = Grows-append SameProfessional SameProfessional-refl d.professionals rows in
      let s : Spares may Table.professionals d.professionals (d.professionals ++ rows) =
        λ e. absurd (cc) in
      search;
}
