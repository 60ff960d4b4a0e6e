-- ===== src/Site/Calls.antt =====
-- Every operation of apps/requests keeps the history.
use tucano.Prelude.{
  ℕ, suc, ◌≤◌, ◌+◌, refl, ◌⊎◌, inl, inr, Option, String, List, [], ◌∷◌, ◌++◌, first, filter, ◌==◌,
  Option-cases, Grows-append, arith,
}
use tucano.Models.{ServiceRequest, RequestStatus, Interest, InterestStatus, Conversation}
use tucano.Notifications.{notify_professionals}
use tucano.Db.{Fault}
use tucano.Requests.Services.{
  finalize_remaining_interests, notify_compatible_professionals, get_or_create_conversation,
  fill_request, keep_receiving, announce_selection, select_interest, withdraw_interest,
  end_interests, close_request_now, cancel_request, expire_request, expire_each, due_requests,
  is_remaining, expire_due_requests,
}
use tucano.Requests.Views.{
  RequestForm, after_publication, publish_valid, service_request_create, after_application,
  interest_create, interest_withdraw, select_interest_view, end_request, cancel_request_view,
}
use tucano.Site.Parts.{Part, Table, may_write, Spares}
use tucano.Site.History.{Keeps, Keeps-refl, Keeps-trans}
use tucano.Site.Rows.{Same, Same-refl, SameCall}
use tucano.Site.Mails.{mails, notify_professionals-KeepsMail, notify_compatible-KeepsMail}
use tucano.Site.Rules.{Safe, SafeWrite, rules, bind-Safe}
use tucano.Site.Writes.{writes, interests_updated-Safe, mail-Safe}
use tucano.Site.Saves.{
  check_window-Safe, full_clean-Safe, insert_request-Safe, save_request-Safe, insert_interest-Safe,
  save_interest_status-Safe, status_same,
}

finalize_remaining_interests-Safe :
    (r : ServiceRequest) (final_status : InterestStatus) (event_type notify_body : String)
    → SafeWrite
        (may_write Part.requests)
        (finalize_remaining_interests r final_status event_type notify_body)
unfolding finalize_remaining_interests
finalize_remaining_interests-Safe r final_status event_type notify_body = record {
  at = λ d.
      let e = record d {
        mail = (finalize_remaining_interests r final_status event_type notify_body d).mail;
      } in
      Keeps-trans d e _
        ((mail-Safe
            (λ x.
              notify_professionals (filter (is_remaining r) x.interests) event_type r.title
                notify_body x.mail)
            (λ x.
              notify_professionals-KeepsMail refl refl _ event_type r.title notify_body x.mail)).at
          d)
        ((interests_updated-Safe _ _ (status_same final_status) refl).at e);
}

notify_compatible_professionals-Safe :
    (describe : ServiceRequest → String) (r : ServiceRequest)
    → SafeWrite (may_write Part.requests) (notify_compatible_professionals describe r)
unfolding notify_compatible_professionals
notify_compatible_professionals-Safe describe r =
    mail-Safe _ (λ d. notify_compatible-KeepsMail refl refl _ _ _ _ d.mail)

get_or_create_conversation-Safe :
    (i : Interest) → Safe (may_write Part.requests) (get_or_create_conversation i)
unfolding get_or_create_conversation
get_or_create_conversation-Safe i = record {
  at = λ d. elim (Option-cases (first (λ c. c.interest == i.pk) d.conversations)) [
    | inl e ↦
        let made : Conversation = record { pk = d.next_pk; interest = i.pk } in
        let h = Keeps-refl {may = may_write Part.requests} d in
        let g = Grows-append Same Same-refl d.conversations (made ∷ []) in
        let s : Spares (may_write Part.requests) Table.conversations d.conversations
            (d.conversations ++ (made ∷ [])) =
          λ e. absurd (cc) in
        let k : d.next_pk ≤ suc d.next_pk = omega arith in
        let added : Keeps (may_write Part.requests) d
            (record d { next_pk = suc d.next_pk; conversations = d.conversations ++ (made ∷ []) }) =
          search in
        rw (get_or_create_conversation, e) added
    | inr (c, e) ↦ rw (get_or_create_conversation, e) (Keeps-refl d)
  ];
}

outcome_same :
    (status : RequestStatus) (closed_at : Option ℕ) (q : ServiceRequest)
    → SameCall q (record q { status = status; closed_at = closed_at })
outcome_same status closed_at q = ground arith

receiving_same :
    (status : RequestStatus) (q : ServiceRequest) → SameCall q (record q { status = status })
receiving_same status q = ground arith

cancelled_same :
    (status : RequestStatus) (reason : String) (closed_at : Option ℕ) (q : ServiceRequest)
    → SameCall q (record q { status = status; cancel_reason = reason; closed_at = closed_at })
cancelled_same status reason closed_at q = ground arith

fill_request-Safe :
    (now : ℕ) (r : ServiceRequest) → Safe (may_write Part.requests) (fill_request now r)
unfolding fill_request
fill_request-Safe now r =
    search (rules, mails, finalize_remaining_interests-Safe, save_request-Safe, outcome_same) depth
      20

keep_receiving-Safe :
    (now : ℕ) (r : ServiceRequest) → Safe (may_write Part.requests) (keep_receiving now r)
unfolding keep_receiving
keep_receiving-Safe now r = search (rules, mails, save_request-Safe, receiving_same) depth 20

announce_selection-Safe :
    (i : Interest) (r : ServiceRequest) (actor : Option ℕ)
    → Safe (may_write Part.requests) (announce_selection i r actor)
unfolding announce_selection
announce_selection-Safe i r actor =
    search (rules, writes, mails, get_or_create_conversation-Safe) depth 20

select_interest-Safe :
    (now : ℕ) (i : Interest) (r : ServiceRequest) (actor : Option ℕ)
    → Safe (may_write Part.requests) (select_interest now i r actor)
unfolding select_interest
select_interest-Safe now i r actor =
    search
      (
        rules, save_interest_status-Safe, fill_request-Safe, keep_receiving-Safe,
        announce_selection-Safe,
      )
      depth 20

withdraw_interest-Safe :
    (i : Interest) (r : ServiceRequest) (actor : Option ℕ)
    → Safe (may_write Part.requests) (withdraw_interest i r actor)
unfolding withdraw_interest
withdraw_interest-Safe i r actor = search (rules, writes, mails, save_interest_status-Safe) depth 20

end_interests-Safe :
    (r : ServiceRequest) (selected : ℕ) (chosen_body none_body : String)
    → SafeWrite (may_write Part.requests) (end_interests r selected chosen_body none_body)
unfolding end_interests
end_interests-Safe r selected chosen_body none_body =
    search (rules, mails, finalize_remaining_interests-Safe) depth 20

close_request_now-Safe :
    (now : ℕ) (r : ServiceRequest) (actor : Option ℕ)
    → Safe (may_write Part.requests) (close_request_now now r actor)
unfolding close_request_now
close_request_now-Safe now r actor =
    search (rules, writes, mails, end_interests-Safe, save_request-Safe, outcome_same) depth 20

cancel_request-Safe :
    (now : ℕ) (r : ServiceRequest) (actor : Option ℕ) (reason : String)
    → Safe (may_write Part.requests) (cancel_request now r actor reason)
unfolding cancel_request
cancel_request-Safe now r actor reason =
    search
      (rules, writes, mails, finalize_remaining_interests-Safe, save_request-Safe, cancelled_same)
      depth 20

expire_request-Safe :
    (now : ℕ) (r : ServiceRequest) → Safe (may_write Part.requests) (expire_request now r)
unfolding expire_request
expire_request-Safe now r =
    search (rules, writes, mails, end_interests-Safe, save_request-Safe, outcome_same) depth 20

expire_each-Safe :
    (now : ℕ) (rs : List ServiceRequest) (n : ℕ)
    → Safe (may_write Part.requests) (expire_each now rs n)
unfolding expire_each
expire_each-Safe now [] n = record { at = Keeps-refl }
expire_each-Safe now (r ∷ rs) n =
    let rest =
      bind-Safe (expire_request now r) (λ _. expire_each now rs (n + 1)) (expire_request-Safe now r)
        (λ _. expire_each-Safe now rs (n + 1)) in
    record { at = rest.at }

pub expire_due_requests-Safe : (now : ℕ) → Safe (may_write Part.requests) (expire_due_requests now)
unfolding expire_due_requests
expire_due_requests-Safe now = record {
  at = λ d. (expire_each-Safe now (due_requests now d) 0).at d;
}

after_publication-Safe :
    (describe : ServiceRequest → String) (user : ℕ) (saved : List Fault ⊎ ServiceRequest)
    → Safe (may_write Part.requests) (after_publication describe user saved)
unfolding after_publication
after_publication-Safe describe user (inl faults) = record { at = Keeps-refl }
after_publication-Safe describe user (inr r) =
    search (rules, writes, mails, notify_compatible_professionals-Safe) depth 20

publish_valid-Safe :
    (describe : ServiceRequest → String) (now : ℕ) (r : ServiceRequest)
    (found : List Fault ⊎ Unit {0})
    → Safe (may_write Part.requests) (publish_valid describe now r found)
unfolding publish_valid
publish_valid-Safe describe now r (inl faults) = record { at = Keeps-refl }
publish_valid-Safe describe now r (inr _) =
    search (rules, mails, insert_request-Safe, after_publication-Safe) depth 20

pub service_request_create-Safe :
    (describe : ServiceRequest → String) (now : ℕ) (user : Option ℕ) (form : RequestForm)
    → Safe (may_write Part.requests) (service_request_create describe now user form)
unfolding service_request_create
service_request_create-Safe describe now user form =
    search (rules, mails, full_clean-Safe, check_window-Safe, publish_valid-Safe) depth 20

after_application-Safe :
    (user : ℕ) (saved : List Fault ⊎ Interest)
    → Safe (may_write Part.requests) (after_application user saved)
unfolding after_application
after_application-Safe user (inl faults) = record { at = Keeps-refl }
after_application-Safe user (inr i) = search (rules, writes, mails) depth 20

pub interest_create-Safe :
    (user : Option ℕ) (pk : ℕ) (message : String)
    → Safe (may_write Part.requests) (interest_create user pk message)
unfolding interest_create
interest_create-Safe user pk message =
    search (rules, mails, insert_interest-Safe, after_application-Safe) depth 20

pub interest_withdraw-Safe :
    (user : Option ℕ) (pk : ℕ) → Safe (may_write Part.requests) (interest_withdraw user pk)
unfolding interest_withdraw
interest_withdraw-Safe user pk = search (rules, mails, withdraw_interest-Safe) depth 20

pub select_interest_view-Safe :
    (now : ℕ) (user : Option ℕ) (pk : ℕ)
    → Safe (may_write Part.requests) (select_interest_view now user pk)
unfolding select_interest_view
select_interest_view-Safe now user pk = search (rules, mails, select_interest-Safe) depth 20

pub end_request-Safe :
    (now : ℕ) (user : Option ℕ) (pk : ℕ) → Safe (may_write Part.requests) (end_request now user pk)
unfolding end_request
end_request-Safe now user pk = search (rules, mails, close_request_now-Safe) depth 20

pub cancel_request_view-Safe :
    (now : ℕ) (user : Option ℕ) (pk : ℕ) (reason : String)
    → Safe (may_write Part.requests) (cancel_request_view now user pk reason)
unfolding cancel_request_view
cancel_request_view-Safe now user pk reason = search (rules, mails, cancel_request-Safe) depth 20
