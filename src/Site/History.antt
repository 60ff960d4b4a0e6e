-- ===== src/Site/History.antt =====
-- What no call of the program takes back: how the tables after it relate to those before.
use tucano.Prelude.{
  ℕ, ◌≤◌, ◌≡◌, refl, ◌∙◌, Bool, true, false, Grows, Grows-refl, Grows-trans, arith,
}
use tucano.Db.{Db}
use tucano.Subscriptions.Premium.{has_premium}
use tucano.Site.Parts.{
  Table, Spares, KeepsMail, KeepsMail-refl, KeepsMail-trans, KeepsMail-weaken, spared,
}
use tucano.Site.Rows.{
  Same, Same-refl, SameCall, SameCall-refl, SameCase, SameCase-refl, SameClient, SameClient-refl,
  SameConfirmation, SameConfirmation-refl, SameInterest, SameInterest-refl, SameProfessional,
  SameProfessional-refl, SameReview, SameReview-refl, SameUser, SameUser-refl, SameVerification,
  SameVerification-refl,
}

-- What a call that may write these tables does to the database.
pub record Keeps (may : Table → Bool) (d d' : Db) : Type 0 where
  pub keys : d.next_pk ≤ d'.next_pk
  pub users : Grows SameUser d.users d'.users
  pub audit : Grows Same d.audit d'.audit
  pub clients : Grows SameClient d.clients d'.clients
  pub professionals : Grows SameProfessional d.professionals d'.professionals
  pub requests : Grows SameCall d.requests d'.requests
  pub interests : Grows SameInterest d.interests d'.interests
  pub conversations : Grows Same d.conversations d'.conversations
  pub messages : Grows Same d.messages d'.messages
  pub blocks : Grows Same d.blocks d'.blocks
  pub confirmations : Grows SameConfirmation d.confirmations d'.confirmations
  pub reviews : Grows SameReview d.reviews d'.reviews
  pub boosts : Grows Same d.boosts d'.boosts
  pub cases : Grows SameCase d.cases d'.cases
  pub verifications : Grows SameVerification d.verifications d'.verifications
  pub mail : KeepsMail may d.mail d'.mail
  pub spares_users : Spares may Table.users d.users d'.users
  pub spares_clients : Spares may Table.clients d.clients d'.clients
  pub spares_professionals : Spares may Table.professionals d.professionals d'.professionals
  pub spares_favorites : Spares may Table.favorites d.favorites d'.favorites
  pub spares_requests : Spares may Table.requests d.requests d'.requests
  pub spares_interests : Spares may Table.interests d.interests d'.interests
  pub spares_conversations : Spares may Table.conversations d.conversations d'.conversations
  pub spares_messages : Spares may Table.messages d.messages d'.messages
  pub spares_blocks : Spares may Table.blocks d.blocks d'.blocks
  pub spares_confirmations : Spares may Table.confirmations d.confirmations d'.confirmations
  pub spares_reviews : Spares may Table.reviews d.reviews d'.reviews
  pub spares_subscriptions : Spares may Table.subscriptions d.subscriptions d'.subscriptions
  pub spares_boosts : Spares may Table.boosts d.boosts d'.boosts
  pub spares_cases : Spares may Table.cases d.cases d'.cases
  pub spares_flags : Spares may Table.flags d.flags d'.flags
  pub spares_verifications : Spares may Table.verifications d.verifications d'.verifications
  pub spares_availabilities : Spares may Table.availabilities d.availabilities d'.availabilities
  pub spares_portfolio : Spares may Table.portfolio d.portfolio d'.portfolio
  pub spares_premium_plans :
      may Table.premium_plans ≡ false → (u : ℕ) → has_premium u d' ≡ true → has_premium u d ≡ true

pub Keeps-refl : {may : Table → Bool} (d : Db) → Keeps may d d
Keeps-refl d = record {
  keys = omega arith;
  users = Grows-refl SameUser SameUser-refl d.users;
  audit = Grows-refl Same Same-refl d.audit;
  clients = Grows-refl SameClient SameClient-refl d.clients;
  professionals = Grows-refl SameProfessional SameProfessional-refl d.professionals;
  requests = Grows-refl SameCall SameCall-refl d.requests;
  interests = Grows-refl SameInterest SameInterest-refl d.interests;
  conversations = Grows-refl Same Same-refl d.conversations;
  messages = Grows-refl Same Same-refl d.messages;
  blocks = Grows-refl Same Same-refl d.blocks;
  confirmations = Grows-refl SameConfirmation SameConfirmation-refl d.confirmations;
  reviews = Grows-refl SameReview SameReview-refl d.reviews;
  boosts = Grows-refl Same Same-refl d.boosts;
  cases = Grows-refl SameCase SameCase-refl d.cases;
  verifications = Grows-refl SameVerification SameVerification-refl d.verifications;
  mail = KeepsMail-refl d.mail;
  spares_users = λ e. refl;
  spares_clients = λ e. refl;
  spares_professionals = λ e. refl;
  spares_favorites = λ e. refl;
  spares_requests = λ e. refl;
  spares_interests = λ e. refl;
  spares_conversations = λ e. refl;
  spares_messages = λ e. refl;
  spares_blocks = λ e. refl;
  spares_confirmations = λ e. refl;
  spares_reviews = λ e. refl;
  spares_subscriptions = λ e. refl;
  spares_boosts = λ e. refl;
  spares_cases = λ e. refl;
  spares_flags = λ e. refl;
  spares_verifications = λ e. refl;
  spares_availabilities = λ e. refl;
  spares_portfolio = λ e. refl;
  spares_premium_plans = λ e u p. p;
}

pub Keeps-trans : {may : Table → Bool} (d e f : Db) → Keeps may d e → Keeps may e f → Keeps may d f
Keeps-trans d e f h k = record {
  keys = omega (arith, h.keys, k.keys);
  users = Grows-trans SameUser (λ x y z p q. ground arith) d.users e.users f.users h.users k.users;
  audit = Grows-trans Same (λ x y z p q. cc) d.audit e.audit f.audit h.audit k.audit;
  clients =
      Grows-trans SameClient (λ x y z p q. ground arith) d.clients e.clients f.clients h.clients
        k.clients;
  professionals =
      Grows-trans SameProfessional (λ x y z p q. ground arith) d.professionals e.professionals
        f.professionals h.professionals k.professionals;
  requests =
      Grows-trans SameCall (λ x y z p q. ground arith) d.requests e.requests f.requests h.requests
        k.requests;
  interests =
      Grows-trans SameInterest (λ x y z p q. ground arith) d.interests e.interests f.interests
        h.interests k.interests;
  conversations =
      Grows-trans Same (λ x y z p q. cc) d.conversations e.conversations f.conversations
        h.conversations k.conversations;
  messages =
      Grows-trans Same (λ x y z p q. cc) d.messages e.messages f.messages h.messages k.messages;
  blocks = Grows-trans Same (λ x y z p q. cc) d.blocks e.blocks f.blocks h.blocks k.blocks;
  confirmations =
      Grows-trans SameConfirmation (λ x y z p q. ground arith) d.confirmations e.confirmations
        f.confirmations h.confirmations k.confirmations;
  reviews =
      Grows-trans SameReview (λ x y z p q. ground arith) d.reviews e.reviews f.reviews h.reviews
        k.reviews;
  boosts = Grows-trans Same (λ x y z p q. cc) d.boosts e.boosts f.boosts h.boosts k.boosts;
  cases = Grows-trans SameCase (λ x y z p q. ground arith) d.cases e.cases f.cases h.cases k.cases;
  verifications =
      Grows-trans SameVerification (λ x y z p q. ground arith) d.verifications e.verifications
        f.verifications h.verifications k.verifications;
  mail = KeepsMail-trans d.mail e.mail f.mail h.mail k.mail;
  spares_users = λ o. k.spares_users o ∙ h.spares_users o;
  spares_clients = λ o. k.spares_clients o ∙ h.spares_clients o;
  spares_professionals = λ o. k.spares_professionals o ∙ h.spares_professionals o;
  spares_favorites = λ o. k.spares_favorites o ∙ h.spares_favorites o;
  spares_requests = λ o. k.spares_requests o ∙ h.spares_requests o;
  spares_interests = λ o. k.spares_interests o ∙ h.spares_interests o;
  spares_conversations = λ o. k.spares_conversations o ∙ h.spares_conversations o;
  spares_messages = λ o. k.spares_messages o ∙ h.spares_messages o;
  spares_blocks = λ o. k.spares_blocks o ∙ h.spares_blocks o;
  spares_confirmations = λ o. k.spares_confirmations o ∙ h.spares_confirmations o;
  spares_reviews = λ o. k.spares_reviews o ∙ h.spares_reviews o;
  spares_subscriptions = λ o. k.spares_subscriptions o ∙ h.spares_subscriptions o;
  spares_boosts = λ o. k.spares_boosts o ∙ h.spares_boosts o;
  spares_cases = λ o. k.spares_cases o ∙ h.spares_cases o;
  spares_flags = λ o. k.spares_flags o ∙ h.spares_flags o;
  spares_verifications = λ o. k.spares_verifications o ∙ h.spares_verifications o;
  spares_availabilities = λ o. k.spares_availabilities o ∙ h.spares_availabilities o;
  spares_portfolio = λ o. k.spares_portfolio o ∙ h.spares_portfolio o;
  spares_premium_plans = λ o u p. h.spares_premium_plans o u (k.spares_premium_plans o u p);
}

-- It may write others too.
pub Keeps-weaken :
    {may more : Table → Bool} (d e : Db)
    → ((t : Table) → may t ≡ true → more t ≡ true)
    → Keeps may d e
    → Keeps more d e
Keeps-weaken {may} {more} d e le h = record {
  keys = h.keys;
  users = h.users;
  audit = h.audit;
  clients = h.clients;
  professionals = h.professionals;
  requests = h.requests;
  interests = h.interests;
  conversations = h.conversations;
  messages = h.messages;
  blocks = h.blocks;
  confirmations = h.confirmations;
  reviews = h.reviews;
  boosts = h.boosts;
  cases = h.cases;
  verifications = h.verifications;
  mail = KeepsMail-weaken d.mail e.mail le h.mail;
  spares_users =
      λ o. h.spares_users (spared (may Table.users) (more Table.users) (le Table.users) o);
  spares_clients =
      λ o. h.spares_clients (spared (may Table.clients) (more Table.clients) (le Table.clients) o);
  spares_professionals = λ o.
      h.spares_professionals
        (spared (may Table.professionals) (more Table.professionals) (le Table.professionals) o);
  spares_favorites = λ o.
      h.spares_favorites
        (spared (may Table.favorites) (more Table.favorites) (le Table.favorites) o);
  spares_requests = λ o.
      h.spares_requests (spared (may Table.requests) (more Table.requests) (le Table.requests) o);
  spares_interests = λ o.
      h.spares_interests
        (spared (may Table.interests) (more Table.interests) (le Table.interests) o);
  spares_conversations = λ o.
      h.spares_conversations
        (spared (may Table.conversations) (more Table.conversations) (le Table.conversations) o);
  spares_messages = λ o.
      h.spares_messages (spared (may Table.messages) (more Table.messages) (le Table.messages) o);
  spares_blocks =
      λ o. h.spares_blocks (spared (may Table.blocks) (more Table.blocks) (le Table.blocks) o);
  spares_confirmations = λ o.
      h.spares_confirmations
        (spared (may Table.confirmations) (more Table.confirmations) (le Table.confirmations) o);
  spares_reviews =
      λ o. h.spares_reviews (spared (may Table.reviews) (more Table.reviews) (le Table.reviews) o);
  spares_subscriptions = λ o.
      h.spares_subscriptions
        (spared (may Table.subscriptions) (more Table.subscriptions) (le Table.subscriptions) o);
  spares_boosts =
      λ o. h.spares_boosts (spared (may Table.boosts) (more Table.boosts) (le Table.boosts) o);
  spares_cases =
      λ o. h.spares_cases (spared (may Table.cases) (more Table.cases) (le Table.cases) o);
  spares_flags =
      λ o. h.spares_flags (spared (may Table.flags) (more Table.flags) (le Table.flags) o);
  spares_verifications = λ o.
      h.spares_verifications
        (spared (may Table.verifications) (more Table.verifications) (le Table.verifications) o);
  spares_availabilities = λ o.
      h.spares_availabilities
        (spared (may Table.availabilities) (more Table.availabilities) (le Table.availabilities) o);
  spares_portfolio = λ o.
      h.spares_portfolio
        (spared (may Table.portfolio) (more Table.portfolio) (le Table.portfolio) o);
  spares_premium_plans = λ o.
      h.spares_premium_plans
        (spared (may Table.premium_plans) (more Table.premium_plans) (le Table.premium_plans) o);
}
