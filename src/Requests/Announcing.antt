-- ===== src/Requests/Announcing.antt =====
-- Who is told of a new call: `notify_compatible_professionals` behind `ServiceRequestCreateView`.
use tucano.Prelude.{
  ℕ, ◌≡◌, refl, sym, ◌∙◌, ap, Bool, true, false, none, some, Option-cases, String, List, [], ◌∷◌,
  ◌++◌, ◌==◌, ==→eq, map, filter, first, inl, inr, arith, Bool-cases, ◌+++◌, ◌⊎◌, ◌≢◌,
}
use mathlib.Core.List.{append_assoc, append-nil}
use tucano.Models.{
  ClientProfile, ServiceRequest, ProfessionalProfile, NotificationPreference, Channel, push,
  whatsapp, email, NotifyTask,
}
use tucano.Db.{Db, Mail, Result, is_ok, ok, err}
use tucano.Http.{redirect}
use tucano.Audit.{log_event}
use tucano.Notifications.{default_preference, preference_for, dispatch_notification}
use tucano.Notifications.Channels.{is_wanted, dispatch_notification-tasks}
use tucano.Subscriptions.Limits.{can_client_publish_request, for_user}
use tucano.Requests.Clean.{
  full_clean, check_window, check_duplicate, check_quota, clean_request, request_field_faults,
  insert_request,
}
use tucano.Requests.Services.{notify_compatible, notify_compatible_professionals, is_urgent}
use tucano.Requests.Views.{
  RequestForm, new_request, service_request_create, publish_valid, after_publication,
}

-- What a user has chosen, or the defaults.
abbrev pub preference_of : ℕ → List NotificationPreference → NotificationPreference
preference_of user ps = elim (first (λ p. p.user == user) ps) [
  | some p ↦ p
  | none ↦ default_preference user
]

preference_for-of :
    (user : ℕ) (m : Mail) → (preference_for user m).0 ≡ preference_of user m.preferences
unfolding preference_for
preference_for-of user m = elim (Option-cases (first (λ p. p.user == user) m.preferences)) [
  | inl missing ↦ ground arith
  | inr (p, found) ↦ ground arith
]

preference_of-made :
    (k user : ℕ) (ps : List NotificationPreference)
    → first (λ p. p.user == user) ps ≡ none
    → preference_of k (ps ++ (default_preference user ∷ [])) ≡ preference_of k ps
unfolding first
preference_of-made k user [] e = elim (Bool-cases (user == k)) [
  | inl same ↦ rw (preference_of, same) (ap default_preference (==→eq user k same))
  | inr other ↦ rw (preference_of, other) refl
]
preference_of-made k user (p ∷ ps) e = ground (arith, preference_of-made k user ps)

-- Making a user's row changes nobody's choices.
preference_for-stays :
    (k user : ℕ) (m : Mail)
    → preference_of k (preference_for user m).1.preferences ≡ preference_of k m.preferences
unfolding preference_for
preference_for-stays k user m = elim (Option-cases (first (λ p. p.user == user) m.preferences)) [
  | inl missing ↦ rw (preference_for, missing) (preference_of-made k user m.preferences missing)
  | inr (p, found) ↦ rw (preference_for, found) refl
]

module _ (title body : String) (urgent : Bool) where
  -- The tasks of one professional: the channels that the user has chosen at that time, and
  -- WhatsApp only for an urgent call.
  abbrev pub tasks_for : List NotificationPreference → ProfessionalProfile → List NotifyTask
  tasks_for ps p =
      map
        (λ (c : Channel). record {
          user = p.user;
          channel = c;
          event_type = "service_request.compatible";
          title = title;
          body = body;
        })
        (filter (is_wanted urgent (preference_of p.user ps)) (push ∷ whatsapp ∷ email ∷ []))

  abbrev pub tasks_for_all :
      List NotificationPreference → List ProfessionalProfile → List NotifyTask
  tasks_for_all ps [] = []
  tasks_for_all ps (x ∷ xs) = tasks_for ps x ++ tasks_for_all ps xs

  tasks_for_all-same :
      (ps qs : List NotificationPreference)
      → ((k : ℕ) → preference_of k qs ≡ preference_of k ps)
      → (xs : List ProfessionalProfile) → tasks_for_all qs xs ≡ tasks_for_all ps xs
  tasks_for_all-same ps qs same [] = refl
  tasks_for_all-same ps qs same (x ∷ xs) = rw (same x.user, tasks_for_all-same ps qs same xs) refl

  notify_compatible-tasks :
      (xs : List ProfessionalProfile) (m : Mail)
      → (notify_compatible xs title body urgent m).tasks ≡ m.tasks ++ tasks_for_all m.preferences xs
  unfolding notify_compatible
  notify_compatible-tasks [] m = sym (append-nil m.tasks)
  notify_compatible-tasks (x ∷ xs) m =
      let m₁ = dispatch_notification x.user "service_request.compatible" title body urgent m in
      let (tasks, logs, prefs) =
        dispatch_notification-tasks x.user "service_request.compatible" title body urgent m in
      let same : (k : ℕ) → preference_of k m₁.preferences ≡ preference_of k m.preferences =
        λ k. ap (preference_of k) prefs ∙ preference_for-stays k x.user m in
      let here : m₁.tasks ≡ m.tasks ++ tasks_for m.preferences x =
        tasks ∙ rw (preference_for-of x.user m) refl in
      notify_compatible-tasks xs m₁
      ∙ rw (here, tasks_for_all-same m.preferences m₁.preferences same xs)
          (append_assoc m.tasks (tasks_for m.preferences x) (tasks_for_all m.preferences xs))

-- An insertion tells nobody, and makes no profile.
insert_request-quiet :
    (now : ℕ) (r : ServiceRequest) (d : Db)
    → let d' = (insert_request now r d).1 in
      (d'.mail ≡ d.mail) × (d'.professionals ≡ d.professionals)
unfolding insert_request clean_request check_window check_duplicate check_quota
    can_client_publish_request for_user
insert_request-quiet now r d = (ground arith, ground arith)

insert_request-stored :
    (now : ℕ) (r : ServiceRequest) (d : Db)
    → is_ok (insert_request now r d).0 ≡ true
    → (s : ServiceRequest) × ((insert_request now r d).0 ≡ ok s)
      × ((insert_request now r d).1.requests ≡ d.requests ++ (s ∷ []))
      × (s ≡ record r { pk = s.pk; expires_at = s.expires_at })
unfolding insert_request clean_request check_window check_duplicate check_quota
    can_client_publish_request for_user
insert_request-stored now r d through = go (insert_request now r d).0 refl
  where
    go :
        (o : Result ServiceRequest)
        → (insert_request now r d).0 ≡ o
        → (s : ServiceRequest) × ((insert_request now r d).0 ≡ ok s)
          × ((insert_request now r d).1.requests ≡ d.requests ++ (s ∷ []))
          × (s ≡ record r { pk = s.pk; expires_at = s.expires_at })
    go (ok s) h = (s, h, ground arith, ground arith)
    go (err e) h = absurd (ground arith)

insert_request-unstored :
    (now : ℕ) (r : ServiceRequest) (d : Db)
    → is_ok (insert_request now r d).0 ≡ false
    → (insert_request now r d).1.requests ≡ d.requests
unfolding insert_request clean_request check_window check_duplicate check_quota
    can_client_publish_request for_user
insert_request-unstored now r d refused = ground arith

-- The client's new call stands behind the others, and for each professional of its category, in
-- the order of the profiles, the tasks stand behind those that wait.
pub record Tells (describe : ServiceRequest → String) (now user : ℕ) (form : RequestForm)
    (d d' : Db) : Type 0 where
  pub client : ClientProfile
  pub call : ServiceRequest
  pub owner : first (λ p. p.user == user) d.clients ≡ some client
  pub written :
      call ≡ record (new_request now client form) { pk = call.pk; expires_at = call.expires_at }
  pub requests : d'.requests ≡ d.requests ++ (call ∷ [])
  pub tasks :
      d'.mail.tasks
      ≡ d.mail.tasks
        ++ tasks_for_all
            ("Novo chamado: " +++ form.title)
            (describe call)
            (is_urgent form.interest_window)
            d.mail.preferences
            (filter (λ p. p.main_category == form.category) d.professionals)

-- The view answers with something else than a plain redirect, stores no call and tells nobody; or
-- it answers with a plain redirect, has stored the client's call behind the others, and tells each
-- professional of the call's category, and no other, on the channels that the user has chosen, on
-- WhatsApp only where the window of the call is an urgent one.
pub service_request_create-Tells :
    (describe : ServiceRequest → String) (now user : ℕ) (form : RequestForm) (d : Db)
    → let call = service_request_create describe now (some user) form in
      ((call d).0 ≢ ok redirect) × ((call d).1.requests ≡ d.requests) × ((call d).1.mail ≡ d.mail)
      ⊎ ((call d).0 ≡ ok redirect) × Tells describe now user form d (call d).1
unfolding service_request_create publish_valid after_publication notify_compatible_professionals
    log_event check_window
service_request_create-Tells describe now user form d =
    elim (Option-cases (first (λ p. p.user == user) d.clients)) [
      | inl no_profile ↦ inl (ground arith, ground arith, ground arith)
      | inr (client, found) ↦
          let r = new_request now client form in
          let quiet = insert_request-quiet now r d in
          elim (Bool-cases (is_ok (full_clean (request_field_faults r) (check_window r) d).0)) [
            | inr invalid ↦ inl (ground arith, ground arith, ground arith)
            | inl valid ↦ elim (Bool-cases (is_ok (insert_request now r d).0)) [
              | inr refused ↦
                  let same = insert_request-unstored now r d refused in
                  inl (ground arith, ground arith, ground arith)
              | inl through ↦
                  let (s, stored, rows, written) = insert_request-stored now r d through in
                  let told =
                    notify_compatible-tasks ("Novo chamado: " +++ form.title) (describe s)
                      (is_urgent form.interest_window)
                      (filter (λ p. p.main_category == form.category) d.professionals) d.mail in
                  inr (
                    ground arith,
                    record {
                      client = client;
                      call = s;
                      owner = found;
                      written = written;
                      requests = ground arith;
                      tasks = ground arith;
                    },
                  )
            ]
          ]
    ]
