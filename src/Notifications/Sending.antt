-- ===== src/Notifications/Sending.antt =====
-- apps/accounts/tasks.py and the senders of apps/accounts/notifications.py. The mail server, the
-- push service and Twilio are not part of the program: what they answer is a parameter.
use tucano.Prelude.{
  true, false, ℕ, Bool, none, some, String, List, [], ◌∷◌, ◌++◌, ◌||◌, not, ◌==◌, is_blank, first,
  filter, if◌then◌else◌,
}
use tucano.Models.{
  User, PushSubscription, Channel, push, whatsapp, email, LogStatus, sent, failed, skipped,
  NotificationLog, NotifyTask,
}
use tucano.Db.{Mail}
use tucano.Notifications.Dispatch.{preference_for}

-- What the push service comes to: it takes the message, `WebPushException` is raised, or another
-- exception is.
pub data Answer : Type 0 where
  taken refused broken : Answer

-- What the settings say, and what the providers do with a message. `send_mail` may raise, as for a
-- subject with a line break; every exception of Twilio's client is caught.
pub record Providers : Type 0 where
  pub vapid_configured : Bool
  pub twilio_configured : Bool
  pub send_mail : String → String → String → Bool
  pub webpush : PushSubscription → String → String → Answer
  pub twilio : String → String → Bool

-- A call of a provider.
pub data Delivery : Type 0 where
  mail_to push_to whatsapp_to : String → Delivery

-- The calls that a sender makes, the tables that it leaves, and whether an exception ends it.
pub record Sending : Type 0 where
  pub calls : List Delivery
  pub mail : Mail
  pub is_broken : Bool

abbrev pub finished : List Delivery → Mail → Sending
finished calls m = record { calls = calls; mail = m; is_broken = false }

-- `_log`
abbrev pub log : ℕ → Channel → String → LogStatus → String → Mail → Mail
log user channel event_type status detail m =
    let row : NotificationLog = record {
      user = user;
      channel = channel;
      event_type = event_type;
      status = status;
      detail = detail;
    } in
    record m { logs = m.logs ++ (row ∷ []) }

-- The status that is logged after a call.
abbrev pub outcome : Bool → LogStatus
outcome accepted = if accepted then sent else failed

-- `send_email_notification`; an error of the mail server is silent.
unfoldable pub send_email : Providers → User → String → String → String → Mail → Sending
send_email v u subject body event_type m =
    let (p, m₁) = preference_for u.pk m in
    if not p.email_enabled || is_blank u.email
    then finished [] (log u.pk email event_type skipped "" m₁)
    else if v.send_mail subject body u.email
    then finished (mail_to u.email ∷ []) (log u.pk email event_type sent "" m₁)
    else record { calls = mail_to u.email ∷ []; mail = m₁; is_broken = true }

-- A push behind which the loop goes on.
abbrev pub after_push : PushSubscription → Sending → Sending
after_push s rest = record rest { calls = push_to s.endpoint ∷ rest.calls }

-- The loop over a user's push subscriptions.
unfoldable pub push_each :
    Providers → User → String → String → String → List PushSubscription → Mail → Sending
push_each v u title body event_type [] m = finished [] m
push_each v u title body event_type (s ∷ rest) m = elim (v.webpush s title body) [
  | taken ↦
      after_push s (push_each v u title body event_type rest (log u.pk push event_type sent "" m))
  | refused ↦
      after_push s (push_each v u title body event_type rest (log u.pk push event_type failed "" m))
  | broken ↦ record { calls = push_to s.endpoint ∷ []; mail = m; is_broken = true }
]

-- `send_push_notification` for the subscriptions that the user has.
unfoldable pub push_to_all :
    Providers → User → String → String → String → List PushSubscription → Mail → Sending
push_to_all v u title body event_type [] m =
    finished [] (log u.pk push event_type skipped "sem inscrição push" m)
push_to_all v u title body event_type (s ∷ rest) m =
    let each = push_each v u title body event_type (s ∷ rest) m in
    if not v.vapid_configured
    then finished [] (log u.pk push event_type skipped "VAPID não configurado" m)
    else each

-- `send_push_notification`
unfoldable pub send_push : Providers → User → String → String → String → Mail → Sending
send_push v u title body event_type m =
    let (p, m₁) = preference_for u.pk m in
    let subscriptions = filter (λ s. s.user == u.pk) m₁.push_subscriptions in
    if not p.push_enabled
    then finished [] (log u.pk push event_type skipped "" m₁)
    else push_to_all v u title body event_type subscriptions m₁

-- `send_whatsapp_notification`
unfoldable pub send_whatsapp : Providers → User → String → String → Mail → Sending
send_whatsapp v u body event_type m =
    let (p, m₁) = preference_for u.pk m in
    if not p.whatsapp_enabled || is_blank u.phone_number
    then finished [] (log u.pk whatsapp event_type skipped "" m₁)
    else if not v.twilio_configured
    then finished [] (log u.pk whatsapp event_type skipped "Twilio não configurado" m₁)
    else finished (whatsapp_to u.phone_number ∷ [])
        (log u.pk whatsapp event_type (outcome (v.twilio u.phone_number body)) "" m₁)

abbrev pub send_on : Channel → Providers → User → NotifyTask → Mail → Sending
send_on email v u t m = send_email v u t.title t.body t.event_type m
send_on push v u t m = send_push v u t.title t.body t.event_type m
send_on whatsapp v u t m = send_whatsapp v u t.body t.event_type m

-- `notify_user_task`
unfoldable pub notify_user_task : Providers → List User → NotifyTask → Mail → Sending
notify_user_task v users t m = elim (first (λ u. u.pk == t.user) users) [
  | none ↦ finished [] m
  | some u ↦ send_on t.channel v u t m
]
