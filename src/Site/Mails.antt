-- ===== src/Site/Mails.antt =====
-- What a call does to the notifications: it tells users, or saves a user's settings.
use tucano.Prelude.{
  ℕ, ◌≡◌, refl, sym, subst, Bool, true, false, String, List, [], ◌∷◌, ◌==◌, arith, first, All-of,
  Grows, Grows-refl, Grows-append, Grows-update, Grows-trans, Option-cases, inl, inr,
}
use tucano.Models.{NotificationPreference, ProfessionalProfile, Interest}
use tucano.Db.{Mail}
use tucano.Notifications.{
  default_preference, preference_for, dispatch_notification, notify_professionals,
}
use tucano.Notifications.Channels.{dispatch_notification-tasks}
use tucano.Notifications.Settings.{save_preferences, save_preferences-tasks, register_endpoint}
use tucano.Requests.Services.{notify_compatible}
use tucano.Site.Parts.{
  Table, SamePreference, SamePreference-refl, KeepsMail, KeepsMail-refl, KeepsMail-trans,
}
use tucano.Site.Rows.{Same, Same-refl}

preference_for-Grows :
    (user : ℕ) (m : Mail) → Grows SamePreference m.preferences (preference_for user m).1.preferences
unfolding preference_for
preference_for-Grows user m = elim (Option-cases (first (λ p. p.user == user) m.preferences)) [
  | inl missing ↦
      rw (preference_for, missing)
        (Grows-append SamePreference SamePreference-refl m.preferences
          (default_preference user ∷ []))
  | inr (p, found) ↦
      rw (preference_for, found) (Grows-refl SamePreference SamePreference-refl m.preferences)
]

preference_for-pushes :
    (user : ℕ) (m : Mail) → (preference_for user m).1.push_subscriptions ≡ m.push_subscriptions
unfolding preference_for
preference_for-pushes user m = elim (Option-cases (first (λ p. p.user == user) m.preferences)) [
  | inl missing ↦ ground arith
  | inr (p, found) ↦ ground arith
]

preference_for-logs : (user : ℕ) (m : Mail) → (preference_for user m).1.logs ≡ m.logs
unfolding preference_for
preference_for-logs user m = elim (Option-cases (first (λ p. p.user == user) m.preferences)) [
  | inl missing ↦ ground arith
  | inr (p, found) ↦ ground arith
]

module _ {may : Table → Bool} (tasks : may Table.tasks ≡ true)
    (preferences : may Table.preferences ≡ true) where
  pub dispatch-KeepsMail :
      (user : ℕ) (event_type title body : String) (urgent : Bool) (m : Mail)
      → KeepsMail may m (dispatch_notification user event_type title body urgent m)
  unfolding dispatch_notification
  dispatch-KeepsMail user event_type title body urgent m =
      let (added, logged, prefs) =
        dispatch_notification-tasks user event_type title body urgent m in
      record {
        logs = logged;
        tasks = subst (Grows Same m.tasks) (sym added) (Grows-append Same Same-refl m.tasks _);
        preferences =
            subst (Grows SamePreference m.preferences) (sym prefs) (preference_for-Grows user m);
        spares_tasks = λ e. absurd (cc);
        spares_preferences = λ e. absurd (cc);
        spares_push_subscriptions = λ e. ground (arith, preference_for-pushes user m);
      }

  pub notify_professionals-KeepsMail :
      (is : List Interest) (event_type title body : String) (m : Mail)
      → KeepsMail may m (notify_professionals is event_type title body m)
  unfolding notify_professionals
  notify_professionals-KeepsMail [] event_type title body m = KeepsMail-refl m
  notify_professionals-KeepsMail (i ∷ is) event_type title body m =
      KeepsMail-trans m _ _ (dispatch-KeepsMail i.professional.user event_type title body false m)
        (notify_professionals-KeepsMail is event_type title body _)

  pub notify_compatible-KeepsMail :
      (ps : List ProfessionalProfile) (title body : String) (urgent : Bool) (m : Mail)
      → KeepsMail may m (notify_compatible ps title body urgent m)
  unfolding notify_compatible
  notify_compatible-KeepsMail [] title body urgent m = KeepsMail-refl m
  notify_compatible-KeepsMail (p ∷ ps) title body urgent m =
      KeepsMail-trans m _ _
        (dispatch-KeepsMail p.user "service_request.compatible" title body urgent m)
        (notify_compatible-KeepsMail ps title body urgent _)

pub save_preferences-KeepsMail :
    {may : Table → Bool}
    → may Table.preferences ≡ true
    → (user : ℕ) (push_enabled whatsapp_enabled email_enabled : Bool) (m : Mail)
    → KeepsMail may m (save_preferences user push_enabled whatsapp_enabled email_enabled m)
unfolding save_preferences
save_preferences-KeepsMail preferences user a b c m =
    let m₁ = (preference_for user m).1 in
    let write : NotificationPreference → NotificationPreference =
      λ p. record p { push_enabled = a; whatsapp_enabled = b; email_enabled = c } in
    let same = save_preferences-tasks user a b c m in
    record {
      logs = preference_for-logs user m;
      tasks = subst (Grows Same m.tasks) (sym same) (Grows-refl Same Same-refl m.tasks);
      preferences =
          Grows-trans SamePreference (λ x y z p q. cc) m.preferences m₁.preferences _
            (preference_for-Grows user m)
            (Grows-update SamePreference (λ p. p.user == user) write SamePreference-refl
              m₁.preferences
              (All-of (λ x. (x.user == user) ≡ true → SamePreference x (write x)) (λ x _. refl)
                m₁.preferences));
      spares_tasks = λ e. same;
      spares_preferences = λ e. absurd (cc);
      spares_push_subscriptions = λ e. preference_for-pushes user m;
    }

pub register_endpoint-KeepsMail :
    {may : Table → Bool}
    → may Table.push_subscriptions ≡ true
    → (user : ℕ) (endpoint : String) (m : Mail)
    → KeepsMail may m
        (record m { push_subscriptions = register_endpoint user endpoint m.push_subscriptions })
register_endpoint-KeepsMail own user endpoint m = record {
  logs = refl;
  tasks = Grows-refl Same Same-refl m.tasks;
  preferences = Grows-refl SamePreference SamePreference-refl m.preferences;
  spares_tasks = λ e. refl;
  spares_preferences = λ e. refl;
  spares_push_subscriptions = λ e. absurd (cc);
}

pub ruleset mails = (
  dispatch-KeepsMail, notify_professionals-KeepsMail, notify_compatible-KeepsMail,
  save_preferences-KeepsMail, register_endpoint-KeepsMail,
)
