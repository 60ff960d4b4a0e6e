-- ===== src/Chat/Services.antt =====
-- apps/chat/services.py, views.py and consumers.py. A conversation comes with the interest `i` and
-- the call `r` that say who its two sides are.
use Prim.Native.Char.{code}
use tucano.Prelude.{
  ℕ, ◌+◌, Bool, false, Option, none, some, String, List, [], ◌∷◌, ◌++◌, ◌&&◌, ◌||◌, ◌==◌, leb,
  is_blank, first, exists, count, if◌then◌else◌, ◌⊎◌, inl, inr,
}
use tucano.Models.{ServiceRequest, Interest, Conversation, Message}
use tucano.Db.{
  Db, Fault, empty_message, blocked_sender, too_many_messages, permission_denied, ok, err, Action,
  pure, raise, gets, or_404, attempt, ◌>>=◌, ◌>>◌, modify, refuse_if, fits_column,
}
use tucano.Http.{Response, redirect, login_required}
use tucano.Requests.Views.{load_interest}

-- What `str.strip` removes.
unfoldable pub is_space : ℕ → Bool
is_space c =
    (leb 9 c && leb c 13)
    || (leb 28 c && leb c 32)
    || c == 133
    || c == 160
    || c == 5760
    || (leb 8192 c && leb c 8202)
    || c == 8232
    || c == 8233
    || c == 8239
    || c == 8287
    || c == 12288

unfoldable pub strip_left : String → String
strip_left String.[] = String.[]
strip_left (String.◌∷◌ c s) =
    let rest = strip_left s in if is_space (code c) then rest else String.◌∷◌ c s

unfoldable pub strip_right : String → String
strip_right String.[] = String.[]
strip_right (String.◌∷◌ c s) =
    let rest = strip_right s in
    if is_blank rest && is_space (code c) then String.[] else String.◌∷◌ c rest

-- `body.strip()`
unfoldable pub strip : String → String
strip s = strip_right (strip_left s)

-- `Conversation.other_party`
abbrev pub other_party : Interest → ServiceRequest → ℕ → ℕ
other_party i r user = if user == r.client.user then i.professional.user else r.client.user

-- `is_blocked`
unfoldable pub is_blocked : Interest → ServiceRequest → ℕ → Db → Bool
is_blocked i r sender d =
    exists (λ b. b.blocker == other_party i r sender && b.blocked == sender) d.blocks

abbrev pub max_messages_per_minute : ℕ
max_messages_per_minute = 20

-- `Message.body`: no form checks it.
abbrev pub max_body_length : ℕ
max_body_length = 1000

-- The messages of the last minute, in any conversation.
abbrev pub is_recent : ℕ → ℕ → Message → Bool
is_recent now sender m = m.sender == sender && leb now (m.created_at + 60)

-- `send_message`
unfoldable pub send_message :
    ℕ → Conversation → Interest → ServiceRequest → ℕ → String → Action Message
send_message now conversation i r sender body = do
  let stripped = strip body
  refuse_if (is_blank stripped) empty_message
  blocked ← gets (is_blocked i r sender)
  refuse_if blocked blocked_sender
  recent_count ← gets (λ d. count (is_recent now sender) d.messages)
  refuse_if (leb max_messages_per_minute recent_count) too_many_messages
  fits_column max_body_length stripped
  let message : Message = record {
    conversation = conversation.pk;
    sender = sender;
    body = stripped;
    created_at = now;
  }
  modify (λ d. record d { messages = d.messages ++ (message ∷ []) })
  pure message

-- `block_user`: get or create.
unfoldable pub block_user : Interest → ServiceRequest → ℕ → Db → Db
block_user i r blocker d =
    let blocked = other_party i r blocker in
    if exists (λ b. b.blocker == blocker && b.blocked == blocked) d.blocks
    then d
    else record d { blocks = d.blocks ++ ((record { blocker = blocker; blocked = blocked }) ∷ []) }

abbrev pub is_side : Interest → ServiceRequest → ℕ → Bool
is_side i r user = user == r.client.user || user == i.professional.user

-- `BlockUserView.post`
unfoldable pub block_user_view : Option ℕ → ℕ → Action Response
block_user_view user interest_id = login_required user λ u. do
  (i, r) ← load_interest interest_id
  conversation ← or_404 (← gets (λ d. first (λ c. c.interest == i.pk) d.conversations))
  (if is_side i r u then pure tt else raise permission_denied)
  modify (block_user i r u)
  pure redirect

-- A conversation with its interest and its call.
abbrev pub load_conversation : ℕ → Action (Conversation × Interest × ServiceRequest)
load_conversation pk = do
  c ← or_404 (← gets (λ d. first (λ c. c.pk == pk) d.conversations))
  (i, r) ← load_interest c.interest
  pure (c, i, r)

-- What the socket of a connected user gets: nothing, an error for itself, or a message that goes
-- to the conversation's group.
pub data Frame : Type 0 where
  silence : Frame
  error_frame : List Fault → Frame
  group_frame : ℕ → Message → Frame

-- `ChatConsumer._user_can_access`
abbrev pub can_access : ℕ → ℕ → Db → Bool
can_access conversation_id user d = elim (load_conversation conversation_id d).0 [
  | ok (c, i, r) ↦ is_side i r user
  | err _ ↦ false
]

-- `ChatConsumer.connect`: whether the socket is accepted into the group.
unfoldable pub connect : Option ℕ → ℕ → Db → Bool
connect none conversation_id d = false
connect (some user) conversation_id d = can_access conversation_id user d

abbrev frame : ℕ → List Fault ⊎ Message → Frame
frame conversation_id (inl faults) = error_frame faults
frame conversation_id (inr m) = group_frame conversation_id m

-- `ChatConsumer.receive` on a text frame that parses, for the user that connected.
unfoldable pub receive : ℕ → ℕ → ℕ → String → Action Frame
receive now conversation_id user text =
    let body = strip text in if is_blank body then pure silence else deliver body
  where
    deliver : String → Action Frame
    deliver body = do
      (c, i, r) ← load_conversation conversation_id
      sent ← attempt (send_message now c i r user body)
      pure (frame conversation_id sent)
