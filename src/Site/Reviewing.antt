-- ===== src/Site/Reviewing.antt =====
-- Every operation of apps/reviews and apps/chat keeps the history.
use tucano.Prelude.{
  ℕ, inl, inr, refl, suc, ◌≤◌, Option, String, List, [], ◌∷◌, Bool, ◌++◌, ◌+◌, true, false, first,
  exists, ◌==◌, ◌&&◌, Grows-append, Option-cases, arith,
}
use tucano.Models.{ServiceRequest, Interest, Conversation, Review, ServiceConfirmation}
use tucano.Reviews.Services.{
  new_confirmation, create_confirmation, get_or_create_confirmation, save_confirmation, answered,
  confirm_service, submit_review, contest_review, confirm_service_view, review_create,
  review_contest, ask_both, ask_each, create_pending_confirmations, pending,
}
use tucano.Reviews.Page.{confirmation_page}
use tucano.Chat.Services.{send_message, block_user_view, block_user, receive, other_party}
use tucano.Site.Parts.{Part, Table, may_write, Spares}
use tucano.Site.History.{Keeps-refl}
use tucano.Site.Rows.{SameReview, SameConfirmation, SameConfirmation-refl}
use tucano.Site.Mails.{mails}
use tucano.Site.Rules.{Safe, SafeWrite, rules, bind-Safe, if-Keeps}
use tucano.Site.Writes.{writes, confirmations_updated-Safe}
use tucano.Site.Additions.{blocks_added-Safe}

create_confirmation-Safe :
    (i : Interest) → Safe (may_write Part.confirmations) (create_confirmation i)
unfolding create_confirmation
create_confirmation-Safe i = record {
  at = λ d.
      let h = Keeps-refl {may = may_write Part.confirmations} d in
      let g =
        Grows-append SameConfirmation SameConfirmation-refl d.confirmations
          (new_confirmation d.next_pk i.pk ∷ []) in
      let s : Spares (may_write Part.confirmations) Table.confirmations d.confirmations
          (d.confirmations ++ (new_confirmation d.next_pk i.pk ∷ [])) =
        λ e. absurd (cc) in
      let k : d.next_pk ≤ suc d.next_pk = omega arith in search;
}

get_or_create_confirmation-Safe :
    (i : Interest) → Safe (may_write Part.confirmations) (get_or_create_confirmation i)
unfolding get_or_create_confirmation
get_or_create_confirmation-Safe i = record {
  at = λ d. elim (Option-cases (first (λ c. c.interest == i.pk) d.confirmations)) [
    | inl e ↦ rw (get_or_create_confirmation, e) ((create_confirmation-Safe i).at d)
    | inr (c, e) ↦ rw (get_or_create_confirmation, e) (Keeps-refl d)
  ];
}

save_confirmation-Safe :
    (c : ServiceConfirmation) (f : ServiceConfirmation → ServiceConfirmation)
    → ((x : ServiceConfirmation) → SameConfirmation x (f x))
    → SafeWrite (may_write Part.confirmations) (save_confirmation c f)
unfolding save_confirmation
save_confirmation-Safe c f s = confirmations_updated-Safe _ f s refl

answered_same :
    (is_client : Bool) (now : ℕ) (occurred : Bool) (x : ServiceConfirmation)
    → SameConfirmation x (answered is_client now occurred x)
answered_same true now occurred x = (refl, refl)
answered_same false now occurred x = (refl, refl)

confirm_service-Safe :
    (now : ℕ) (c : ServiceConfirmation) (i : Interest) (r : ServiceRequest) (user : ℕ)
    (occurred : Bool)
    → Safe (may_write Part.confirmations) (confirm_service now c i r user occurred)
unfolding confirm_service
confirm_service-Safe now c i r user occurred =
    search (rules, writes, mails, save_confirmation-Safe, answered_same) depth 20

pub confirm_service_view-Safe :
    (now : ℕ) (user : Option ℕ) (interest_id : ℕ) (occurred : Bool)
    → Safe (may_write Part.confirmations) (confirm_service_view now user interest_id occurred)
unfolding confirm_service_view
confirm_service_view-Safe now user interest_id occurred =
    search (rules, mails, get_or_create_confirmation-Safe, confirm_service-Safe) depth 20

submit_review-Safe :
    (c : ServiceConfirmation) (author target rating : ℕ) (comment : String)
    → Safe (may_write Part.reviews) (submit_review c author target rating comment)
unfolding submit_review
submit_review-Safe c author target rating comment = search (rules, writes, mails) depth 20

contest_same :
    (reason : String) (x : Review)
    → SameReview x (record x { contested = true; contest_reason = reason })
contest_same reason x = ground arith

contest_review-Safe :
    (v : Review) (contester : ℕ) (reason : String)
    → Safe (may_write Part.reviews) (contest_review v contester reason)
unfolding contest_review
contest_review-Safe v contester reason = search (rules, writes, mails, contest_same) depth 20

pub review_create-Safe :
    (user : Option ℕ) (interest_id rating : ℕ) (comment : String)
    → Safe (may_write Part.reviews) (review_create user interest_id rating comment)
unfolding review_create
review_create-Safe user interest_id rating comment =
    search (rules, mails, submit_review-Safe) depth 20

pub review_contest-Safe :
    (user : Option ℕ) (pk : ℕ) (reason : String)
    → Safe (may_write Part.reviews) (review_contest user pk reason)
unfolding review_contest
review_contest-Safe user pk reason = search (rules, mails, contest_review-Safe) depth 20

ask_both-Safe :
    (i : Interest) (r : ServiceRequest) → Safe (may_write Part.confirmations) (ask_both i r)
unfolding ask_both
ask_both-Safe i r = search (rules, writes, mails, create_confirmation-Safe) depth 20

ask_each-Safe :
    (ps : List (Interest × ServiceRequest)) (n : ℕ)
    → Safe (may_write Part.confirmations) (ask_each ps n)
unfolding ask_each
ask_each-Safe [] n = record { at = λ d. Keeps-refl d }
ask_each-Safe ((i, r) ∷ ps) n =
    let s =
      bind-Safe (ask_both i r) (λ _. ask_each ps (n + 1)) (ask_both-Safe i r)
        (λ _. ask_each-Safe ps (n + 1)) in
    record { at = s.at }

pub create_pending_confirmations-Safe :
    (now : ℕ) → Safe (may_write Part.confirmations) (create_pending_confirmations now)
unfolding create_pending_confirmations
create_pending_confirmations-Safe now = record { at = λ d. (ask_each-Safe (pending now d) 0).at d }

send_message-Safe :
    (now : ℕ) (conversation : Conversation) (i : Interest) (r : ServiceRequest) (sender : ℕ)
    (body : String)
    → Safe (may_write Part.chat) (send_message now conversation i r sender body)
unfolding send_message
send_message-Safe now conversation i r sender body = search (rules, writes, mails) depth 20

block_user-Safe :
    (i : Interest) (r : ServiceRequest) (user : ℕ)
    → SafeWrite (may_write Part.chat) (block_user i r user)
unfolding block_user
block_user-Safe i r user = record {
  at = λ d.
      if-Keeps d (exists (λ b. b.blocker == user && b.blocked == other_party i r user) d.blocks)
        (Keeps-refl d) ((blocks_added-Safe _ refl).at d);
}

pub block_user_view-Safe :
    (user : Option ℕ) (interest_id : ℕ)
    → Safe (may_write Part.chat) (block_user_view user interest_id)
unfolding block_user_view
block_user_view-Safe user interest_id = search (rules, mails, block_user-Safe) depth 20

pub receive-Safe :
    (now conversation_id user : ℕ) (text : String)
    → Safe (may_write Part.chat) (receive now conversation_id user text)
unfolding receive
receive-Safe now conversation_id user text = search (rules, mails, send_message-Safe) depth 20

pub confirmation_page-Safe :
    (now user interest_id : ℕ)
    → Safe (may_write Part.confirmations) (confirmation_page now user interest_id)
unfolding confirmation_page
confirmation_page-Safe now user interest_id =
    search (rules, mails, get_or_create_confirmation-Safe) depth 20
