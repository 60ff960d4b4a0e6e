-- ===== src/Chat/Delivery.antt =====
-- What the chat socket sends to a conversation's group, `ChatConsumer.receive`.
use tucano.Prelude.{
  ℕ, ◌≡◌, ◌≢◌, ◌⊎◌, refl, false, String, [], ◌∷◌, ◌++◌, ◌==◌, ==→eq, arith, is_blank, first,
  first-test, Option-cases, Bool-cases, inl, inr,
}
use tucano.Models.{Message}
use tucano.Db.{Db, ok}
use tucano.Chat.Services.{strip, group_frame, receive}
use tucano.Chat.Laws.{send_message-cases}

-- A message that was stored and goes to its group.
pub record Delivers (now conversation_id user : ℕ) (text : String) (m : Message) (d d' : Db)
    : Type 0 where
  pub sender : m.sender ≡ user
  pub conversation : m.conversation ≡ conversation_id
  pub created_at : m.created_at ≡ now
  pub written : is_blank m.body ≡ false
  pub stored : d' ≡ record d { messages = d.messages ++ (m ∷ []) }

-- A text that a connected user sends changes nothing and reaches no group, or is stored as one
-- message of that user and conversation, with something written in it, and is what the group gets.
pub receive-cases :
    (now conversation_id user : ℕ) (text : String) (d : Db)
    → ((receive now conversation_id user text d).1 ≡ d)
        × ((m : Message)
            → (receive now conversation_id user text d).0 ≢ ok (group_frame conversation_id m))
      ⊎ ((m : Message) × ((receive now conversation_id user text d).0
            ≡ ok (group_frame conversation_id m))
          × Delivers now conversation_id user text m d (receive now conversation_id user text d).1)
unfolding receive
receive-cases now conversation_id user text d = elim (Bool-cases (is_blank (strip text))) [
  | inl blank ↦ inl (ground arith, λ m. ground arith)
  | inr body ↦ elim (Option-cases (first (λ c. c.pk == conversation_id) d.conversations)) [
    | inl no_conversation ↦ inl (ground arith, λ m. ground arith)
    | inr (c, hc) ↦ elim (Option-cases (first (λ j. j.pk == c.interest) d.interests)) [
      | inl no_interest ↦ inl (ground arith, λ m. ground arith)
      | inr (i, hi) ↦ elim (Option-cases (first (λ q. q.pk == i.service_request) d.requests)) [
        | inl no_request ↦ inl (ground arith, λ m. ground arith)
        | inr (r, hr) ↦ elim (send_message-cases now c i r user (strip text) d) [
          | inr (inl (refused, same)) ↦ inl (ground arith, λ m. ground arith)
          | inr (inr (may, long, same)) ↦ inl (ground arith, λ m. ground arith)
          | inl (may, short, went, few) ↦
              let m : Message = record {
                conversation = c.pk;
                sender = user;
                body = strip (strip text);
                created_at = now;
              } in
              inr (
                m,
                ground arith,
                record {
                  sender = refl;
                  conversation =
                      ==→eq _ _ (first-test (λ x. x.pk == conversation_id) d.conversations c hc);
                  created_at = refl;
                  written = ground arith;
                  stored = ground arith;
                },
              )
        ]
      ]
    ]
  ]
]
