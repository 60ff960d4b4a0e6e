-- ===== src/Notifications/Dispatch.antt =====
-- apps/accounts/notifications.py: which channels a notification is enqueued on.
use tucano.Prelude.{
  ℕ, Bool, true, false, none, some, String, List, [], ◌∷◌, ◌++◌, ◌&&◌, ◌==◌, if◌then◌else◌, first,
}
use tucano.Models.{NotificationPreference, Channel, push, whatsapp, email, NotifyTask, Interest}
use tucano.Db.{Mail}

-- The defaults of a new `NotificationPreference` row.
abbrev pub default_preference : ℕ → NotificationPreference
default_preference user = record {
  user = user;
  push_enabled = true;
  whatsapp_enabled = true;
  email_enabled = true;
}

-- `NotificationPreference.for_user`: the row is made when there is none.
unfoldable pub preference_for : ℕ → Mail → NotificationPreference × Mail
preference_for user m = elim (first (λ p. p.user == user) m.preferences) [
  | some p ↦ (p, m)
  | none ↦ (
    default_preference user,
    record m { preferences = m.preferences ++ (default_preference user ∷ []) },
  )
]

-- `if enabled: tasks.notify_user_task.delay(...)`
abbrev pub delay_if : Bool → NotifyTask → Mail → Mail
delay_if enabled task m = if enabled then record m { tasks = m.tasks ++ (task ∷ []) } else m

-- `dispatch_notification`
unfoldable pub dispatch_notification : ℕ → String → String → String → Bool → Mail → Mail
dispatch_notification user event_type title body urgent m =
    let (p, m₁) = preference_for user m in
    let m₂ = delay_if p.push_enabled (task push) m₁ in
    let m₃ = delay_if (urgent && p.whatsapp_enabled) (task whatsapp) m₂ in
    delay_if p.email_enabled (task email) m₃
  where
    task : Channel → NotifyTask
    task c = record {
      user = user;
      channel = c;
      event_type = event_type;
      title = title;
      body = body;
    }

-- The loop over interests whose professionals are told the same.
unfoldable pub notify_professionals : List Interest → String → String → String → Mail → Mail
notify_professionals [] event_type title body m = m
notify_professionals (i ∷ is) event_type title body m =
    notify_professionals is event_type title body
      (dispatch_notification i.professional.user event_type title body false m)
