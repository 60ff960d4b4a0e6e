-- ===== src/Tests/Others.antt =====
-- The theorems on subscriptions, moderation, reviews and chat at a concrete database.
use Prim.Native.String.{count as text_length}
use tucano.Prelude.{
  ◌<◌, ℕ, Option, none, if◌then◌else◌, ◌≤◌, ◌≡◌, ◌≢◌, refl, true, false, some, List, [], ◌∷◌, ◌++◌,
  arith, count, exists, first, update, ◌==◌, ◌&&◌, ◌⊎◌, length,
}
use tucano.Models.{Conversation, Message, User, CaseStatus, suspension, AppealDecision}
use tucano.Db.{data_error, Db, ok, err, validation_error, not_a_party}
use tucano.Http.{redirect, login_redirect}
use tucano.Reviews.Services.{
  pending, create_pending_confirmations, confirm_service, is_party, answered, review_create,
  is_review_by,
}
use tucano.Reviews.Sweep.{create_pending_confirmations-settles}
use tucano.Reviews.Laws.{
  IsAnswer, confirm_service-sides, Stores, review_create-cases, review_create-outsider,
}
use tucano.Chat.Services.{receive, group_frame, strip, is_recent, send_message, block_user}
use tucano.Chat.Laws.{message_fault, may_send, send_message-cases}
use tucano.Chat.Blocking.{
  ChatCall, text_call, block_call, run_chat_calls, IsTalk, is_from, run_chat_calls-silences,
}
use tucano.Chat.Delivery.{Delivers, receive-cases}
use tucano.Moderation.Cases.{decide_case, appeal_case_view}
use tucano.Moderation.Appeals.{
  is_active_user, decide_case-locked_out, is_user, whole_case, decide_case-appealed,
}
use tucano.Tests.Sample.{
  call, interest, chosen_interest, base, done, confirmed, report_case, accused,
}

abbrev asking : Db
asking = record done { confirmations = [] }

create_pending_confirmations-settles_example :
    ((create_pending_confirmations 12000 asking).0 ≡ ok (length (pending 12000 asking)))
    × (pending 12000 (create_pending_confirmations 12000 asking).1 ≡ [])
create_pending_confirmations-settles_example = create_pending_confirmations-settles 12000 asking

confirm_service-sides_example :
    (is_party interest call 2 ≡ false)
      × (confirm_service 12000 confirmed interest call 2 false done
          ≡ (err (validation_error (not_a_party ∷ [])), done))
    ⊎ (is_party interest call 2 ≡ true)
      × ((confirm_service 12000 confirmed interest call 2 false done).0
          ≡ ok (answered false 12000 false confirmed))
      × ((confirm_service 12000 confirmed interest call 2 false done).1.confirmations
          ≡ update (λ x. x.pk == 300) (answered false 12000 false) done.confirmations)
      × IsAnswer confirmed call 2 false (answered false 12000 false confirmed)
confirm_service-sides_example = confirm_service-sides 12000 confirmed interest call 2 false done

review_create-cases_example :
    ((review_create (some 1) 200 5 "bom" done).1 ≡ done)
    ⊎ Stores 1 200 5 "bom" done (review_create (some 1) 200 5 "bom" done).1
review_create-cases_example = review_create-cases 1 200 5 "bom" done

done-interest : first (λ j. j.pk == 200) done.interests ≡ some chosen_interest
unfolding first
done-interest = refl

done-call : first (λ q. q.pk == 100) done.requests ≡ some call
unfolding first
done-call = refl

done-confirmed : first (λ x. x.interest == 200) done.confirmations ≡ some confirmed
unfolding first
done-confirmed = refl

done-unreviewed : exists (is_review_by 300 4) done.reviews ≡ false
unfolding exists
done-unreviewed = refl

review_create-outsider_example :
    ((review_create (some 4) 200 1 "ruim" done).0 ≡ ok redirect)
    × (exists
          (λ v. is_review_by 300 4 v && v.target == 1)
          (review_create (some 4) 200 1 "ruim" done).1.reviews
        ≡ true)
review_create-outsider_example =
    review_create-outsider 4 200 1 "ruim" done chosen_interest call confirmed done-interest
      done-call done-confirmed refl refl refl done-unreviewed

abbrev talk : Conversation
talk = record { pk = 500; interest = 200 }

abbrev hello : Message
hello = record { conversation = 500; sender = 2; body = strip " oi "; created_at = 12000 }

send_message-cases_example :
    (may_send 12000 interest call 2 " oi " done ≡ true)
      × (text_length (strip " oi ") ≤ 1000)
      × (send_message 12000 talk interest call 2 " oi " done
          ≡ (ok hello, record done { messages = done.messages ++ (hello ∷ []) }))
      × (count (is_recent 12000 2) (done.messages ++ (hello ∷ [])) ≤ 20)
    ⊎ (may_send 12000 interest call 2 " oi " done ≡ false)
      × (send_message 12000 talk interest call 2 " oi " done
          ≡ (err (validation_error (message_fault 12000 interest call 2 " oi " done ∷ [])), done))
    ⊎ (may_send 12000 interest call 2 " oi " done ≡ true)
      × (1000 < text_length (strip " oi "))
      × (send_message 12000 talk interest call 2 " oi " done ≡ (err data_error, done))
send_message-cases_example = send_message-cases 12000 talk interest call 2 " oi " done

abbrev base_talking : Db
base_talking = record base { conversations = talk ∷ [] }

abbrev talking : Db
talking = record done { conversations = talk ∷ [] }

receive-cases_example :
    ((receive 12000 500 2 " oi " talking).1 ≡ talking)
      × ((m : Message) → (receive 12000 500 2 " oi " talking).0 ≢ ok (group_frame 500 m))
    ⊎ ((m : Message) × ((receive 12000 500 2 " oi " talking).0 ≡ ok (group_frame 500 m))
        × Delivers 12000 500 2 " oi " m talking (receive 12000 500 2 " oi " talking).1)
receive-cases_example = receive-cases 12000 500 2 " oi " talking

-- The client blocks the painter, who goes on writing and blocks back.
abbrev chat_calls : List ChatCall
chat_calls = text_call 12000 500 2 "oi" ∷ block_call (some 2) 200 ∷ text_call 12060 500 2 "?" ∷ []

talking-IsTalk : IsTalk talk interest call base_talking
unfolding first
talking-IsTalk = record { conversation = refl; interest = refl; call = refl }

run_chat_calls-silences_example :
    count
      (is_from talk 2)
      (run_chat_calls chat_calls (block_user interest call 1 base_talking)).messages
    ≡ count (is_from talk 2) base_talking.messages
run_chat_calls-silences_example =
    run_chat_calls-silences talk interest call 1 chat_calls base_talking talking-IsTalk
      (λ e. absurd (ground arith)) refl

-- The user of a session with this key, as the backends give it.
abbrev session_user : List User → ℕ → Option ℕ
session_user users k = if is_active_user k users then some k else none

session_user-none :
    (users : List User) (k : ℕ) → is_active_user k users ≡ false → session_user users k ≡ none
session_user-none users k inactive = rw inactive refl

decide_case-locked_out_example :
    let d' = (decide_case 9000 report_case (some 9) suspension "" accused).1 in
    appeal_case_view (session_user d'.users 2) 400 "erro" d' ≡ (ok login_redirect, d')
decide_case-locked_out_example =
    decide_case-locked_out session_user session_user-none 9000 report_case (some 9) "" 400 "erro"
      accused refl

accused-case : first (λ x. x.pk == 400) accused.cases ≡ some report_case
unfolding first
accused-case = refl

decide_case-appealed_example :
    let call =
      whole_case 9000 report_case (some 9) suspension "fraude" "erro" 9900 (some 8) true "" in
    ((call accused).0
      ≡ ok (record report_case {
        decision = suspension;
        decision_notes = "fraude";
        decided_at = some 9000;
        appeal_reason = "erro";
        appeal_decision = some AppealDecision.approved;
        appeal_decided_at = some 9900;
        status = CaseStatus.closed;
      }))
    × (first (λ x. x.pk == 400) (call accused).1.cases
        ≡ some (record report_case {
          decision = suspension;
          decision_notes = "fraude";
          decided_at = some 9000;
          appeal_reason = "erro";
          appeal_decision = some AppealDecision.approved;
          appeal_decided_at = some 9900;
          status = CaseStatus.closed;
        }))
    × ((k : ℕ)
        → is_active_user k (call accused).1.users ≡ (
            if k == 2 && true
            then true && is_user k accused.users
            else is_active_user k accused.users))
decide_case-appealed_example =
    decide_case-appealed 9000 report_case (some 9) suspension "fraude" "erro" 9900 (some 8) true ""
      accused refl refl accused-case
