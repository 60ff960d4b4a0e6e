-- ===== src/Chat/Laws.antt =====
-- What a message needs to go through, and what a block does.
use Prim.Native.String.{count as text_length}
use tucano.Prelude.{
  ltb, ◌<◌, ℕ, ◌≤◌, ◌≡◌, ◌≢◌, ◌⊎◌, Bool, true, false, String, [], ◌∷◌, ◌++◌, ◌==◌, ==_refl, ◌&&◌,
  not, leb, arith, is_blank, exists, exists-append, count, count-append, Bool-cases, inl, inr, sym,
  subst, if◌then◌else◌,
}
use tucano.Models.{ServiceRequest, Interest, Conversation, Message, Block}
use tucano.Db.{
  data_error, Db, Fault, ok, err, validation_error, empty_message, blocked_sender,
  too_many_messages,
}
use tucano.Chat.Services.{
  strip, other_party, is_blocked, is_recent, send_message, block_user, is_side,
}

-- The fault of a message that is refused, in the order of the tests.
abbrev pub message_fault : ℕ → Interest → ServiceRequest → ℕ → String → Db → Fault
message_fault now i r sender body d =
    if is_blank (strip body)
    then empty_message
    else if is_blocked i r sender d
    then blocked_sender
    else too_many_messages

abbrev pub may_send : ℕ → Interest → ServiceRequest → ℕ → String → Db → Bool
may_send now i r sender body d =
    not (is_blank (strip body))
    && not (is_blocked i r sender d)
    && not (leb 20 (count (is_recent now sender) d.messages))

-- A message goes through exactly if something is left of it when stripped, 1000 characters at most,
-- the other side has not blocked the sender, and the sender has fewer than 20 messages in the last
-- minute; then it stands stripped at the end of the messages, and the sender has at most 20 in the
-- last minute. One that fails another test than that of the length is refused with the first of
-- them, one that is only too long ends in an error of the database, and both change nothing.
pub send_message-cases :
    (now : ℕ) (c : Conversation) (i : Interest) (r : ServiceRequest) (sender : ℕ) (body : String)
    (d : Db)
    → let message : Message = record {
      conversation = c.pk;
      sender = sender;
      body = strip body;
      created_at = now;
    } in
      (may_send now i r sender body d ≡ true)
        × (text_length (strip body) ≤ 1000)
        × (send_message now c i r sender body d
            ≡ (ok message, record d { messages = d.messages ++ (message ∷ []) }))
        × (count (is_recent now sender) (d.messages ++ (message ∷ [])) ≤ 20)
      ⊎ (may_send now i r sender body d ≡ false)
        × (send_message now c i r sender body d
            ≡ (err (validation_error (message_fault now i r sender body d ∷ [])), d))
      ⊎ (may_send now i r sender body d ≡ true)
        × (1000 < text_length (strip body))
        × (send_message now c i r sender body d ≡ (err data_error, d))
unfolding send_message count
send_message-cases now c i r sender body d =
    let message : Message = record {
      conversation = c.pk;
      sender = sender;
      body = strip body;
      created_at = now;
    } in
    elim (Bool-cases (may_send now i r sender body d)) [
      | inr refused ↦ inr (inl (refused, ground arith))
      | inl may ↦ elim (Bool-cases (ltb 1000 (text_length (strip body)))) [
        | inl long ↦ inr (inr (may, ground arith, ground arith))
        | inr short ↦ inl (
          may,
          ground arith,
          ground arith,
          ground (arith, count-append (is_recent now sender) d.messages (message ∷ [])),
        )
      ]
    ]

-- Once one side has blocked the other, in whatever state the database was, the other is blocked in
-- their conversation; who the two sides are must be two different users.
pub block_user-is_blocked :
    (i : Interest) (r : ServiceRequest) (blocker : ℕ) (d : Db)
    → r.client.user ≢ i.professional.user
    → is_side i r blocker ≡ true
    → is_blocked i r (other_party i r blocker) (block_user i r blocker d) ≡ true
unfolding block_user is_blocked exists
block_user-is_blocked i r blocker d two side =
    let other = other_party i r blocker in
    let row : Block = record { blocker = blocker; blocked = other } in
    let back : other_party i r other ≡ blocker = ground arith in
    subst
      (λ b.
        exists (λ x. x.blocker == b && x.blocked == other) (block_user i r blocker d).blocks ≡ true)
      (sym back)
      (elim (Bool-cases (exists (λ x. x.blocker == blocker && x.blocked == other) d.blocks)) [
        | inl there ↦ ground arith
        | inr fresh ↦ ground (
          arith,
          exists-append (λ x. x.blocker == blocker && x.blocked == other) d.blocks (row ∷ []),
          ==_refl other,
          ==_refl blocker,
        )
      ])
