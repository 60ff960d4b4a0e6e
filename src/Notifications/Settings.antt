-- ===== src/Notifications/Settings.antt =====
-- apps/accounts/views.py: the preferences of a user, and the browsers that get pushes.
use text.Mathlib.Text.{◌==◌ as str_eq}
use tucano.Prelude.{
  filter, map, ap, ◌∙◌, first-update, first-append_new, ℕ, ◌≡◌, refl, Bool, Option, String, List,
  [], ◌∷◌, ◌++◌, ◌==◌, ==_refl, arith, first, exists, update, Option-cases, inl, inr, if◌then◌else◌,
  ◌&&◌,
}
use tucano.Models.{
  NotificationPreference, PushSubscription, Channel, push, whatsapp, email, NotifyTask,
}
use tucano.Db.{Mail, Action, pure, modify, fits_column, ◌>>◌}
use tucano.Http.{Response, redirect, login_required}
use tucano.Notifications.Channels.{is_wanted, dispatch_notification-tasks}
use tucano.Notifications.Dispatch.{dispatch_notification, preference_for, default_preference}

-- The form writes the three columns of the row that `for_user` found or made.
unfoldable pub save_preferences : ℕ → Bool → Bool → Bool → Mail → Mail
save_preferences user push_enabled whatsapp_enabled email_enabled m =
    let m₁ = (preference_for user m).1 in
    record m₁ {
      preferences =
          update (λ p. p.user == user)
            (λ p. record p {
              push_enabled = push_enabled;
              whatsapp_enabled = whatsapp_enabled;
              email_enabled = email_enabled;
            })
            m₁.preferences;
    }

-- `NotificationPreferenceUpdateView.post`
unfoldable pub preferences_update : Option ℕ → Bool → Bool → Bool → Action Response
preferences_update user push_enabled whatsapp_enabled email_enabled = login_required user λ u. do
  modify (λ d. record d {
    mail = save_preferences u push_enabled whatsapp_enabled email_enabled d.mail;
  })
  pure redirect

-- `PushSubscription.objects.update_or_create(endpoint=...)`, for an endpoint that its column takes.
unfoldable pub register_endpoint : ℕ → String → List PushSubscription → List PushSubscription
register_endpoint user endpoint rows =
    if exists (λ s. str_eq s.endpoint endpoint) rows
    then update (λ s. str_eq s.endpoint endpoint) (λ s. record s { user = user }) rows
    else rows ++ ((record { user = user; endpoint = endpoint }) ∷ [])

-- `PushSubscriptionCreateView.post` on a payload that parses, with keys that their columns take.
unfoldable pub push_subscribe : Option ℕ → String → Action Response
push_subscribe user endpoint = login_required user λ u. do
  fits_column 500 endpoint
  modify (λ d. record d {
    mail = record d.mail {
      push_subscriptions = register_endpoint u endpoint d.mail.push_subscriptions;
    };
  })
  pure redirect

-- The channels that the form asks for; WhatsApp is for an urgent notification only.
abbrev pub is_asked : Bool → Bool → Bool → Bool → Channel → Bool
is_asked urgent push_enabled whatsapp_enabled email_enabled push = push_enabled
is_asked urgent push_enabled whatsapp_enabled email_enabled whatsapp = urgent && whatsapp_enabled
is_asked urgent push_enabled whatsapp_enabled email_enabled email = email_enabled

save_preferences-preference_for :
    (user : ℕ) (push_enabled whatsapp_enabled email_enabled : Bool) (m : Mail)
    → let p =
        (preference_for user
          (save_preferences user push_enabled whatsapp_enabled email_enabled m)).0 in
      (p.push_enabled ≡ push_enabled)
      × (p.whatsapp_enabled ≡ whatsapp_enabled)
      × (p.email_enabled ≡ email_enabled)
unfolding save_preferences preference_for
save_preferences-preference_for user a b c m =
    let q : NotificationPreference → Bool = λ p. p.user == user in
    let f : NotificationPreference → NotificationPreference =
      λ p. record p { push_enabled = a; whatsapp_enabled = b; email_enabled = c } in
    elim (Option-cases (first q m.preferences)) [
      | inr (p, found) ↦
          let now = first-update q f m.preferences p (λ x h. h) found in
          (ground arith, ground arith, ground arith)
      | inl missing ↦
          let made = default_preference user in
          let there = first-append_new q m.preferences made missing (==_refl user) in
          let now = first-update q f (m.preferences ++ (made ∷ [])) made (λ x h. h) there in
          (ground arith, ground arith, ground arith)
    ]

pub save_preferences-tasks :
    (user : ℕ) (push_enabled whatsapp_enabled email_enabled : Bool) (m : Mail)
    → (save_preferences user push_enabled whatsapp_enabled email_enabled m).tasks ≡ m.tasks
unfolding save_preferences preference_for
save_preferences-tasks user a b c m =
    elim (Option-cases (first (λ p. p.user == user) m.preferences)) [
      | inl missing ↦ ground arith
      | inr (p, found) ↦ ground arith
    ]

is_wanted-asked :
    (urgent a b c : Bool) (p : NotificationPreference)
    → p.push_enabled ≡ a
    → p.whatsapp_enabled ≡ b
    → p.email_enabled ≡ c
    → filter (is_wanted urgent p) (push ∷ whatsapp ∷ email ∷ [])
      ≡ filter (is_asked urgent a b c) (push ∷ whatsapp ∷ email ∷ [])
unfolding filter
is_wanted-asked urgent a b c p pushed texted mailed = rw (pushed, texted, mailed) refl

-- Once a user has saved the form, whatever rows there were: the next notification of the user
-- enqueues one task for each channel that the form asks for, and no other, in the order push,
-- WhatsApp, email, behind the tasks that wait; WhatsApp only if the notification is urgent.
pub save_preferences-dispatch :
    (user : ℕ) (push_enabled whatsapp_enabled email_enabled : Bool) (event_type title body : String)
    (urgent : Bool) (m : Mail)
    → let saved = save_preferences user push_enabled whatsapp_enabled email_enabled m in
      let task : Channel → NotifyTask = λ c. record {
        user = user;
        channel = c;
        event_type = event_type;
        title = title;
        body = body;
      } in
      (dispatch_notification user event_type title body urgent saved).tasks
      ≡ m.tasks
        ++ map task (
            filter
              (is_asked urgent push_enabled whatsapp_enabled email_enabled)
              (push ∷ whatsapp ∷ email ∷ []))
unfolding filter
save_preferences-dispatch user a b c event_type title body urgent m =
    let saved = save_preferences user a b c m in
    let (pushed, texted, mailed) = save_preferences-preference_for user a b c m in
    let p = (preference_for user saved).0 in
    let wanted = filter (is_wanted urgent p) (push ∷ whatsapp ∷ email ∷ []) in
    let task : Channel → NotifyTask = λ k. record {
      user = user;
      channel = k;
      event_type = event_type;
      title = title;
      body = body;
    } in
    (dispatch_notification-tasks user event_type title body urgent saved).0
    ∙ ap (λ ts. ts ++ map task wanted) (save_preferences-tasks user a b c m)
    ∙ ap (λ cs. m.tasks ++ map task cs) (is_wanted-asked urgent a b c p pushed texted mailed)
