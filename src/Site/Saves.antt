-- ===== src/Site/Saves.antt =====
-- Every checked save of apps/requests/models.py keeps the history.
use tucano.Prelude.{ℕ, refl, List}
use tucano.Models.{ServiceRequest, Interest, InterestStatus}
use tucano.Db.{Fault, Action}
use tucano.Subscriptions.Limits.{can_client_publish_request}
use tucano.Requests.Clean.{
  full_clean, check_window, check_duplicate, check_quota, clean_request, insert_request,
  save_request, insert_interest, save_interest_status,
}
use tucano.Site.Parts.{Part, may_write}
use tucano.Site.Rows.{SameCall, SameInterest}
use tucano.Site.Rules.{Safe, rules, raise_faults-Safe}
use tucano.Site.Writes.{writes}
use tucano.Site.Accounts.{for_user-Safe}

pub full_clean-Safe :
    (fields : List Fault) (clean : Action (Unit {0}))
    → Safe (may_write Part.requests) clean
    → Safe (may_write Part.requests) (full_clean fields clean)
full_clean-Safe fields clean h = record { at = h.at }

can_client_publish_request-Safe :
    (now user : ℕ) → Safe (may_write Part.requests) (can_client_publish_request now user)
unfolding can_client_publish_request
can_client_publish_request-Safe now user = search (rules, for_user-Safe) depth 20

pub check_window-Safe : (r : ServiceRequest) → Safe (may_write Part.requests) (check_window r)
unfolding check_window
check_window-Safe r = search (rules) depth 20

check_duplicate-Safe :
    (now : ℕ) (r : ServiceRequest) → Safe (may_write Part.requests) (check_duplicate now r)
unfolding check_duplicate
check_duplicate-Safe now r = search (rules) depth 20

check_quota-Safe :
    (now : ℕ) (r : ServiceRequest) → Safe (may_write Part.requests) (check_quota now r)
unfolding check_quota
check_quota-Safe now r = search (rules, can_client_publish_request-Safe) depth 20

clean_request-Safe :
    (now : ℕ) (r : ServiceRequest) → Safe (may_write Part.requests) (clean_request now r)
unfolding clean_request
clean_request-Safe now r =
    search (rules, check_window-Safe, check_duplicate-Safe, check_quota-Safe) depth 20

pub insert_request-Safe :
    (now : ℕ) (r : ServiceRequest) → Safe (may_write Part.requests) (insert_request now r)
unfolding insert_request
insert_request-Safe now r = search (rules, writes, full_clean-Safe, clean_request-Safe) depth 20

pub save_request-Safe :
    (now : ℕ) (r : ServiceRequest) (write : ServiceRequest → ServiceRequest)
    → ((q : ServiceRequest) → SameCall q (write q))
    → Safe (may_write Part.requests) (save_request now r write)
unfolding save_request
save_request-Safe now r write same =
    search (rules, writes, full_clean-Safe, clean_request-Safe) depth 20

pub insert_interest-Safe :
    (i : Interest) (r : ServiceRequest) → Safe (may_write Part.requests) (insert_interest i r)
unfolding insert_interest
insert_interest-Safe i r = search (rules, writes, raise_faults-Safe) depth 20

pub status_same :
    (status : InterestStatus) (i : Interest) → SameInterest i (record i { status = status })
status_same status i = (refl, refl, refl, refl)

pub save_interest_status-Safe :
    (i : Interest) (r : ServiceRequest) → Safe (may_write Part.requests) (save_interest_status i r)
unfolding save_interest_status
save_interest_status-Safe i r = search (rules, writes, raise_faults-Safe, status_same) depth 20
