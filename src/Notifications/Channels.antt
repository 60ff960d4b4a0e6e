-- ===== src/Notifications/Channels.antt =====
-- Which channels a notification of apps/accounts/notifications.py goes out on.
use tucano.Prelude.{
  ℕ, ◌+◌, ◌≡◌, refl, Bool, true, false, not, none, some, String, List, [], ◌∷◌, ◌++◌, ◌==◌, ◌&&◌,
  map, length, filter, first, count, count-append, one_if, Option-cases, ◌⊎◌, inl, inr, arith,
  if◌then◌else◌, ◌∙◌, sym, subst,
}
use mathlib.Core.List.{append_assoc, append-nil}
use tucano.Models.{
  User, NotificationPreference, PushSubscription, Channel, push, whatsapp, email, LogStatus,
  skipped, sent, failed, NotificationLog, NotifyTask,
}
use tucano.Db.{Mail}
use tucano.Notifications.Dispatch.{delay_if, preference_for, dispatch_notification}
use tucano.Notifications.Sending.{
  Providers, Sending, finished, log, outcome, send_email, send_push, push_each, push_to_all,
  send_whatsapp, send_on, notify_user_task,
}

-- What a user wants to be told on.
abbrev pub is_enabled : Channel → NotificationPreference → Bool
is_enabled push p = p.push_enabled
is_enabled whatsapp p = p.whatsapp_enabled
is_enabled email p = p.email_enabled

-- The channels that a notification is for: WhatsApp only if it is urgent.
abbrev pub is_wanted : Bool → NotificationPreference → Channel → Bool
is_wanted urgent p push = p.push_enabled
is_wanted urgent p whatsapp = urgent && p.whatsapp_enabled
is_wanted urgent p email = p.email_enabled

preference_for-keeps :
    (user : ℕ) (m : Mail)
    → let m₁ = (preference_for user m).1 in (m₁.tasks ≡ m.tasks) × (m₁.logs ≡ m.logs)
unfolding preference_for
preference_for-keeps user m = elim (Option-cases (first (λ p. p.user == user) m.preferences)) [
  | inl missing ↦ (ground arith, ground arith)
  | inr (p, found) ↦ (ground arith, ground arith)
]

delays-tasks :
    (a b c : Bool) (task : Channel → NotifyTask) (m : Mail)
    → (delay_if c (task email) (delay_if b (task whatsapp) (delay_if a (task push) m))).tasks
      ≡ m.tasks
        ++ map task (
            if a
            then push
              ∷ (if b
                  then whatsapp ∷ (if c then email ∷ [] else [])
                  else (if c then email ∷ [] else []))
            else (if b
                then whatsapp ∷ (if c then email ∷ [] else [])
                else (if c then email ∷ [] else [])))
delays-tasks true true true task m =
    append_assoc (m.tasks ++ (task push ∷ [])) (task whatsapp ∷ []) (task email ∷ [])
    ∙ append_assoc m.tasks (task push ∷ []) (task whatsapp ∷ task email ∷ [])
delays-tasks true true false task m = append_assoc m.tasks (task push ∷ []) (task whatsapp ∷ [])
delays-tasks true false true task m = append_assoc m.tasks (task push ∷ []) (task email ∷ [])
delays-tasks true false false task m = refl
delays-tasks false true true task m = append_assoc m.tasks (task whatsapp ∷ []) (task email ∷ [])
delays-tasks false true false task m = refl
delays-tasks false false true task m = refl
delays-tasks false false false task m = sym (append-nil m.tasks)

delays-rest :
    (a b c : Bool) (task : Channel → NotifyTask) (m : Mail)
    → let m' = delay_if c (task email) (delay_if b (task whatsapp) (delay_if a (task push) m)) in
      (m'.logs ≡ m.logs) × (m'.preferences ≡ m.preferences)
delays-rest a b c task m = (ground arith, ground arith)

-- Dispatching enqueues one task for each channel that is wanted, in the order push, WhatsApp,
-- email, behind the tasks that wait, and sends and logs nothing.
pub dispatch_notification-tasks :
    (user : ℕ) (event_type title body : String) (urgent : Bool) (m : Mail)
    → let p = (preference_for user m).0 in
      let task : Channel → NotifyTask = λ c. record {
        user = user;
        channel = c;
        event_type = event_type;
        title = title;
        body = body;
      } in
      let m' = dispatch_notification user event_type title body urgent m in
      (m'.tasks ≡ m.tasks ++ map task (filter (is_wanted urgent p) (push ∷ whatsapp ∷ email ∷ [])))
      × (m'.logs ≡ m.logs)
      × (m'.preferences ≡ (preference_for user m).1.preferences)
unfolding dispatch_notification filter
dispatch_notification-tasks user event_type title body urgent m =
    let (p, m₁) = preference_for user m in
    let task : Channel → NotifyTask = λ c. record {
      user = user;
      channel = c;
      event_type = event_type;
      title = title;
      body = body;
    } in
    let w = urgent && p.whatsapp_enabled in
    let keeps = preference_for-keeps user m in
    let rest = delays-rest p.push_enabled w p.email_enabled task m₁ in
    let m' = dispatch_notification user event_type title body urgent m in
    let wanted = filter (is_wanted urgent p) (push ∷ whatsapp ∷ email ∷ []) in
    (
      subst (λ ts. m'.tasks ≡ ts ++ map task wanted) keeps.0
          (delays-tasks p.push_enabled w p.email_enabled task m₁),
      rest.0 ∙ keeps.1,
      rest.1,
    )

abbrev is_skipped : LogStatus → Bool
is_skipped skipped = true
is_skipped _ = false

-- A log row of a call that was made to a provider for a user.
abbrev pub is_attempt : ℕ → NotificationLog → Bool
is_attempt user row = row.user == user && not (is_skipped row.status)

-- A call without a row is one that ended the sender.
abbrev Counts : ℕ → Mail → Sending → Type 0
Counts user m out =
    count (is_attempt user) out.mail.logs + one_if out.is_broken
    ≡ count (is_attempt user) m.logs + length out.calls

log-count :
    (user : ℕ) (c : Channel) (event_type : String) (status : LogStatus) (detail : String) (m : Mail)
    → count (is_attempt user) (log user c event_type status detail m).logs
      ≡ count (is_attempt user) m.logs + one_if (not (is_skipped status))
unfolding count
log-count user c event_type status detail m =
    let row : NotificationLog = record {
      user = user;
      channel = c;
      event_type = event_type;
      status = status;
      detail = detail;
    } in
    ground (arith, count-append (is_attempt user) m.logs (row ∷ []))

outcome-tried : (b : Bool) → is_skipped (outcome b) ≡ false
outcome-tried true = refl
outcome-tried false = refl

push_each-count :
    (v : Providers) (u : User) (title body event_type : String) (ss : List PushSubscription)
    (m : Mail)
    → Counts u.pk m (push_each v u title body event_type ss m)
unfolding push_each
push_each-count v u title body event_type [] m = omega arith
push_each-count v u title body event_type (s ∷ ss) m =
    let row = λ (status : LogStatus). log u.pk push event_type status "" m in
    ground (
      arith,
      push_each-count v u title body event_type ss (row sent),
      push_each-count v u title body event_type ss (row failed),
      log-count u.pk push event_type sent "" m,
      log-count u.pk push event_type failed "" m,
    )

push_to_all-count :
    (v : Providers) (u : User) (title body event_type : String) (ss : List PushSubscription)
    (m : Mail)
    → Counts u.pk m (push_to_all v u title body event_type ss m)
unfolding push_to_all
push_to_all-count v u title body event_type [] m =
    ground (arith, log-count u.pk push event_type skipped "sem inscrição push" m)
push_to_all-count v u title body event_type (s ∷ ss) m = ground (
  arith,
  log-count u.pk push event_type skipped "VAPID não configurado" m,
  push_each-count v u title body event_type (s ∷ ss) m,
)

send_on-count :
    (c : Channel) (v : Providers) (u : User) (t : NotifyTask) (m : Mail)
    → Counts u.pk m (send_on c v u t m)
unfolding send_email send_push send_whatsapp
send_on-count email v u t m =
    let m₁ = (preference_for u.pk m).1 in
    ground (
      arith,
      preference_for-keeps u.pk m,
      log-count u.pk email t.event_type skipped "" m₁,
      log-count u.pk email t.event_type sent "" m₁,
    )
send_on-count push v u t m =
    let m₁ = (preference_for u.pk m).1 in
    let ss = filter (λ s. s.user == u.pk) m₁.push_subscriptions in
    ground (
      arith,
      preference_for-keeps u.pk m,
      log-count u.pk push t.event_type skipped "" m₁,
      push_to_all-count v u t.title t.body t.event_type ss m₁,
    )
send_on-count whatsapp v u t m =
    let m₁ = (preference_for u.pk m).1 in
    let taken = v.twilio u.phone_number t.body in
    ground (
      arith,
      preference_for-keeps u.pk m,
      log-count u.pk whatsapp t.event_type skipped "" m₁,
      log-count u.pk whatsapp t.event_type skipped "Twilio não configurado" m₁,
      log-count u.pk whatsapp t.event_type (outcome taken) "" m₁,
      outcome-tried taken,
    )

send_on-quiet :
    (c : Channel) (v : Providers) (u : User) (t : NotifyTask) (m : Mail)
    → is_enabled c (preference_for u.pk m).0 ≡ false
    → (send_on c v u t m).calls ≡ []
unfolding send_email send_push send_whatsapp
send_on-quiet email v u t m off = ground arith
send_on-quiet push v u t m off = ground arith
send_on-quiet whatsapp v u t m off = ground arith

-- A task for a user who is not there does nothing. Any other task makes no call of a provider on a
-- channel that the user has turned off by the time it runs, and as many calls as it adds log rows
-- for the user that are not `SKIPPED`; but for one more call where an exception that its sender
-- does not catch ends it.
pub notify_user_task-cases :
    (v : Providers) (users : List User) (t : NotifyTask) (m : Mail)
    → let o = notify_user_task v users t m in
      (first (λ u. u.pk == t.user) users ≡ none) × (o ≡ finished [] m)
      ⊎ (u : User) × (first (λ u. u.pk == t.user) users ≡ some u)
        × (is_enabled t.channel (preference_for u.pk m).0 ≡ false → o.calls ≡ [])
        × (count (is_attempt u.pk) o.mail.logs + one_if o.is_broken
            ≡ count (is_attempt u.pk) m.logs + length o.calls)
unfolding notify_user_task
notify_user_task-cases v users t m = elim (Option-cases (first (λ u. u.pk == t.user) users)) [
  | inl missing ↦ inl (missing, ground arith)
  | inr (u, found) ↦ inr (
    u,
    found,
    λ off. ground (arith, send_on-quiet t.channel v u t m off),
    ground (arith, send_on-count t.channel v u t m),
  )
]
