-- ===== src/Chat/History.antt =====
-- `ConversationDetailView` of apps/chat/views.py, behind its login: what its page shows.
use tucano.Prelude.{
  ℕ, ◌<◌, ◌≡◌, ◌⊎◌, inl, inr, ap, ◌∙◌, Bool, true, false, some, List, [], ◌∷◌, ◌==◌, leb, arith,
  filter, first, order_by, order_by-reverse, Reversed, reverse, take, latest, reverse-take-reverse,
  All, All-imp, All-filter_of, Bool-cases, Option-cases, if◌then◌else◌,
}
use tucano.Models.{ServiceRequest, Interest, Conversation, Message}
use tucano.Db.{
  Db, Error, permission_denied, not_found, ok, err, Action, pure, raise, gets, or_404, ◌>>=◌, ◌>>◌,
}
use tucano.Requests.Views.{load_interest}
use tucano.Chat.Services.{is_side, other_party, is_blocked}

-- The context of the page.
pub record ConversationPage : Type 0 where
  pub conversation : Conversation
  pub chat_messages : List Message
  pub other_user : ℕ
  pub is_blocked_by_other : Bool

-- `MESSAGE_HISTORY_LIMIT`
abbrev pub message_history_limit : ℕ
message_history_limit = 50

abbrev pub is_later : Message → Message → Bool
is_later m n = leb n.created_at m.created_at

-- `list(reversed(recent))`
unfoldable pub history : Conversation → Db → List Message
history c d = reverse (
    take message_history_limit
      (order_by is_later (filter (λ m. m.conversation == c.pk) d.messages)))

-- `get_object` and `get_context_data`.
unfoldable pub conversation_page : ℕ → ℕ → Action ConversationPage
conversation_page user interest_id = do
  (i, r) ← load_interest interest_id
  c ← or_404 (← gets (λ d. first (λ c. c.interest == i.pk) d.conversations))
  (if is_side i r user then pure tt else raise permission_denied)
  gets (λ d. record {
    conversation = c;
    chat_messages = history c d;
    other_user = other_party i r user;
    is_blocked_by_other = is_blocked i r user d;
  })

-- Each message was written after those that stand before it.
abbrev pub InOrder : List Message → Type 0
InOrder [] = Unit
InOrder (m ∷ ms) = All (λ n. m.created_at < n.created_at) ms × InOrder ms

InOrder-Reversed : (ms : List Message) → InOrder ms → Reversed is_later ms
InOrder-Reversed [] h = tt
InOrder-Reversed (m ∷ ms) h = (
  All-imp (λ n. m.created_at < n.created_at) (λ n. is_later m n ≡ false) (λ n lt. ground arith) ms
      h.0,
  InOrder-Reversed ms h.1,
)

InOrder-filter : (p : Message → Bool) (ms : List Message) → InOrder ms → InOrder (filter p ms)
unfolding filter
InOrder-filter p [] h = tt
InOrder-filter p (m ∷ ms) h = elim (Bool-cases (p m)) [
  | inl here ↦
      rw here (All-filter_of p (λ n. m.created_at < n.created_at) ms h.0, InOrder-filter p ms h.1)
  | inr there ↦ rw there (InOrder-filter p ms h.1)
]

history-latest :
    (c : Conversation) (d : Db)
    → InOrder d.messages
    → history c d ≡ latest message_history_limit (filter (λ m. m.conversation == c.pk) d.messages)
unfolding history
history-latest c d h =
    let own = filter (λ m. m.conversation == c.pk) d.messages in
    ap (λ ms. reverse (take message_history_limit ms))
      (order_by-reverse is_later own
        (InOrder-Reversed own (InOrder-filter (λ m. m.conversation == c.pk) d.messages h)))
    ∙ reverse-take-reverse message_history_limit own

-- What a page is made of, with the latest messages in the order in which they were written.
pub record Shows (user interest_id : ℕ) (c : Conversation) (i : Interest) (r : ServiceRequest)
    (d : Db) : Type 0 where
  pub interest : first (λ j. j.pk == interest_id) d.interests ≡ some i
  pub call : first (λ q. q.pk == i.service_request) d.requests ≡ some r
  pub conversation : first (λ x. x.interest == i.pk) d.conversations ≡ some c
  pub allowed : is_side i r user ≡ true
  pub page :
      (conversation_page user interest_id d).0
      ≡ ok (record {
        conversation = c;
        chat_messages =
            latest message_history_limit (filter (λ m. m.conversation == c.pk) d.messages);
        other_user = other_party i r user;
        is_blocked_by_other = is_blocked i r user d;
      })

-- Where each message of the table was written after those before it: the page writes nothing. It
-- is refused, or its user is one of the two sides of the interest, and it shows the last fifty
-- messages of the interest's conversation, or all where there are fewer, the oldest of them first.
pub conversation_page-latest :
    (user interest_id : ℕ) (d : Db)
    → InOrder d.messages
    → ((conversation_page user interest_id d).1 ≡ d)
      × (((e : Error) × ((conversation_page user interest_id d).0 ≡ err e))
          ⊎ ((c : Conversation) × (i : Interest) × (r : ServiceRequest) × Shows user interest_id c i
                r d))
unfolding conversation_page
conversation_page-latest user interest_id d h =
    elim (Option-cases (first (λ j. j.pk == interest_id) d.interests)) [
      | inl no_interest ↦ (ground arith, inl (not_found, ground arith))
      | inr (i, hi) ↦ elim (Option-cases (first (λ q. q.pk == i.service_request) d.requests)) [
        | inl no_call ↦ (ground arith, inl (not_found, ground arith))
        | inr (r, hr) ↦ elim (Option-cases (first (λ x. x.interest == i.pk) d.conversations)) [
          | inl no_conversation ↦ (ground arith, inl (not_found, ground arith))
          | inr (c, hc) ↦ elim (Bool-cases (is_side i r user)) [
            | inr outsider ↦ (ground arith, inl (permission_denied, ground arith))
            | inl side ↦ (
              ground arith,
              inr (
                c,
                i,
                r,
                record {
                  interest = hi;
                  call = hr;
                  conversation = hc;
                  allowed = side;
                  page = ground (arith, history-latest c d h);
                },
              ),
            )
          ]
        ]
      ]
    ]
