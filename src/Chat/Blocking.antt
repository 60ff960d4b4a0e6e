-- ===== src/Chat/Blocking.antt =====
-- What a block means for everything that comes after it: `BlockUserView` and the socket.
use tucano.Prelude.{
  ℕ, ◌≡◌, ◌≢◌, ◌⊎◌, inl, inr, refl, sym, ap, ◌∙◌, subst, Bool, true, false, Option, none, some,
  String, List, [], ◌∷◌, ◌++◌, ◌==◌, ==→eq, ◌&&◌, arith, is_blank, first, exists, exists-append,
  count, count-append, Bool-cases, Option-cases,
}
use tucano.Models.{ServiceRequest, Interest, Conversation, Message, Block}
use tucano.Db.{Db}
use tucano.Chat.Services.{
  strip, other_party, is_side, is_blocked, block_user, block_user_view, receive,
}
use tucano.Chat.Laws.{send_message-cases, block_user-is_blocked}
use tucano.Chat.Delivery.{receive-cases}

-- A text that comes over the socket of a connected user, or a request to block the other side.
pub data ChatCall : Type 0 where
  text_call : ℕ → ℕ → ℕ → String → ChatCall
  block_call : Option ℕ → ℕ → ChatCall

unfoldable pub run_chat_call : ChatCall → Db → Db
run_chat_call (text_call now conversation_id user text) d =
    (receive now conversation_id user text d).1
run_chat_call (block_call user interest_id) d = (block_user_view user interest_id d).1

unfoldable pub run_chat_calls : List ChatCall → Db → Db
run_chat_calls [] d = d
run_chat_calls (x ∷ xs) d = run_chat_calls xs (run_chat_call x d)

-- A stored conversation with its interest and its call.
pub record IsTalk (c : Conversation) (i : Interest) (r : ServiceRequest) (d : Db) : Type 0 where
  pub conversation : first (λ x. x.pk == c.pk) d.conversations ≡ some c
  pub interest : first (λ j. j.pk == c.interest) d.interests ≡ some i
  pub call : first (λ q. q.pk == i.service_request) d.requests ≡ some r

abbrev pub is_from : Conversation → ℕ → Message → Bool
is_from c sender m = m.conversation == c.pk && m.sender == sender

module _ (c : Conversation) (i : Interest) (r : ServiceRequest) (sender : ℕ) where
  record Silenced (d : Db) : Type 0 where
    talk : IsTalk c i r d
    blocked : is_blocked i r sender d ≡ true

  -- What one call keeps.
  record Keeps (d d' : Db) : Type 0 where
    silenced : Silenced d'
    count : count (is_from c sender) d'.messages ≡ count (is_from c sender) d.messages

  Keeps-refl : (d : Db) → Silenced d → Keeps d d
  Keeps-refl d s = record { silenced = s; count = refl }

  receive-blocked :
      (now : ℕ) (text : String) (d : Db) → Silenced d → (receive now c.pk sender text d).1 ≡ d
  unfolding receive
  receive-blocked now text d s =
      let hc = s.talk.conversation in
      let hi = s.talk.interest in
      let hr = s.talk.call in
      elim (Bool-cases (is_blank (strip text))) [
        | inl blank ↦ ground arith
        | inr body ↦ elim (send_message-cases now c i r sender (strip text) d) [
          | inl (may, short, went, few) ↦ absurd (ground (arith, s.blocked))
          | inr (inl (refused, same)) ↦ ground arith
          | inr (inr (may, long, same)) ↦ ground arith
        ]
      ]

  receive-Keeps :
      (now conversation_id user : ℕ) (text : String) (d : Db)
      → Silenced d
      → Keeps d (receive now conversation_id user text d).1
  unfolding is_blocked count
  receive-Keeps now conversation_id user text d s =
      elim (Bool-cases (conversation_id == c.pk && user == sender)) [
        | inl theirs ↦
            let here : (conversation_id == c.pk) ≡ true = ground arith in
            let self : (user == sender) ≡ true = ground arith in
            let same_id : c.pk ≡ conversation_id = sym (==→eq conversation_id c.pk here) in
            let same_user : sender ≡ user = sym (==→eq user sender self) in
            let nothing : (receive now conversation_id user text d).1 ≡ d =
              subst (λ u. (receive now conversation_id u text d).1 ≡ d) same_user
                (subst (λ k. (receive now k sender text d).1 ≡ d) same_id
                  (receive-blocked now text d s)) in
            subst (Keeps d) (sym nothing) (Keeps-refl d s)
        | inr other ↦ elim (receive-cases now conversation_id user text d) [
          | inl (same, quiet) ↦ subst (Keeps d) (sym same) (Keeps-refl d s)
          | inr (m, went, delivers) ↦
              let unlike : is_from c sender m ≡ false =
                ground (arith, delivers.conversation, delivers.sender) in
              subst (Keeps d) (sym delivers.stored) (record {
                silenced = record {
                  talk = record {
                    conversation = s.talk.conversation;
                    interest = s.talk.interest;
                    call = s.talk.call;
                  };
                  blocked = s.blocked;
                };
                count = ground (arith, unlike, count-append (is_from c sender) d.messages (m ∷ []));
              })
        ]
      ]

  block_user-Keeps :
      (i' : Interest) (r' : ServiceRequest) (user : ℕ) (d : Db)
      → Silenced d
      → Keeps d (block_user i' r' user d)
  unfolding block_user is_blocked
  block_user-Keeps i' r' user d s =
      let other = other_party i' r' user in
      elim (Bool-cases (exists (λ b. b.blocker == user && b.blocked == other) d.blocks)) [
        | inl there ↦ rw there (Keeps-refl d s)
        | inr fresh ↦ rw fresh (record {
          silenced = record {
            talk = record {
              conversation = s.talk.conversation;
              interest = s.talk.interest;
              call = s.talk.call;
            };
            blocked =
                let row : Block = record { blocker = user; blocked = other } in
                ground (
                  arith,
                  s.blocked,
                  exists-append (λ b. b.blocker == other_party i r sender && b.blocked == sender)
                      d.blocks (row ∷ []),
                );
          };
          count = refl;
        })
      ]

-- A request to block changes nothing, or blocks the other side of the interest.
block_user_view-cases :
    (user : Option ℕ) (interest_id : ℕ) (d : Db)
    → ((block_user_view user interest_id d).1 ≡ d)
      ⊎ ((i : Interest) × (r : ServiceRequest) × (u : ℕ) × ((block_user_view user interest_id d).1
            ≡ block_user i r u d))
unfolding block_user_view
block_user_view-cases none interest_id d = inl refl
block_user_view-cases (some u) interest_id d =
    elim (Option-cases (first (λ j. j.pk == interest_id) d.interests)) [
      | inl no_interest ↦ inl (ground arith)
      | inr (i, hi) ↦ elim (Option-cases (first (λ q. q.pk == i.service_request) d.requests)) [
        | inl no_call ↦ inl (ground arith)
        | inr (r, hr) ↦ elim (Option-cases (first (λ x. x.interest == i.pk) d.conversations)) [
          | inl no_conversation ↦ inl (ground arith)
          | inr (c, hc) ↦ elim (Bool-cases (is_side i r u)) [
            | inr outsider ↦ inl (ground arith)
            | inl side ↦ inr (i, r, u, ground arith)
          ]
        ]
      ]
    ]

module _ (c : Conversation) (i : Interest) (r : ServiceRequest) (sender : ℕ) where
  run_chat_call-Keeps :
      (x : ChatCall) (d : Db) → Silenced c i r sender d → Keeps c i r sender d (run_chat_call x d)
  unfolding run_chat_call
  run_chat_call-Keeps (text_call now conversation_id user text) d s =
      receive-Keeps c i r sender now conversation_id user text d s
  run_chat_call-Keeps (block_call user interest_id) d s =
      elim (block_user_view-cases user interest_id d) [
        | inl same ↦ subst (Keeps c i r sender d) (sym same) (Keeps-refl c i r sender d s)
        | inr (i', r', u, same) ↦
            subst (Keeps c i r sender d) (sym same) (block_user-Keeps c i r sender i' r' u d s)
      ]

  run_chat_calls-count :
      (xs : List ChatCall) (d : Db)
      → Silenced c i r sender d
      → count (is_from c sender) (run_chat_calls xs d).messages
        ≡ count (is_from c sender) d.messages
  unfolding run_chat_calls
  run_chat_calls-count [] d s = refl
  run_chat_calls-count (x ∷ xs) d s =
      let k = run_chat_call-Keeps x d s in
      run_chat_calls-count xs (run_chat_call x d) k.silenced ∙ k.count

-- A block writes blocks alone.
block_user-writes :
    (i : Interest) (r : ServiceRequest) (user : ℕ) (d : Db)
    → (bs : List Block) × (block_user i r user d ≡ record d { blocks = bs })
unfolding block_user
block_user-writes i r user d =
    let other = other_party i r user in
    elim (Bool-cases (exists (λ b. b.blocker == user && b.blocked == other) d.blocks)) [
      | inl there ↦ (d.blocks, rw there refl)
      | inr fresh ↦ (d.blocks ++ (record { blocker = user; blocked = other } ∷ []), rw fresh refl)
    ]

-- Once one side of a conversation has blocked the other, two different users, whatever comes over
-- the sockets and whoever blocks whom: the conversation gets no further message from the other.
pub run_chat_calls-silences :
    (c : Conversation) (i : Interest) (r : ServiceRequest) (blocker : ℕ) (xs : List ChatCall)
    (d : Db)
    → IsTalk c i r d
    → r.client.user ≢ i.professional.user
    → is_side i r blocker ≡ true
    → count
        (is_from c (other_party i r blocker))
        (run_chat_calls xs (block_user i r blocker d)).messages
      ≡ count (is_from c (other_party i r blocker)) d.messages
run_chat_calls-silences c i r blocker xs d talk two side =
    let sender = other_party i r blocker in
    let blocked = block_user-is_blocked i r blocker d two side in
    let (bs, same) = block_user-writes i r blocker d in
    let after : IsTalk c i r (block_user i r blocker d) =
      subst (IsTalk c i r) (sym same)
        (record { conversation = talk.conversation; interest = talk.interest; call = talk.call }) in
    run_chat_calls-count c i r sender xs (block_user i r blocker d)
      (record { talk = after; blocked = blocked })
    ∙ ap (λ (e : Db). count (is_from c sender) e.messages) same
