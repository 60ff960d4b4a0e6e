-- ===== src/Market/Runs.antt =====
-- Any sequence of requests to apps/requests, with the sweep between them.
use tucano.Prelude.{ℕ, Option, String}
use tucano.Models.{ServiceRequest}
use tucano.Db.{Db}
use tucano.Requests.Services.{expire_due_requests}
use tucano.Requests.Views.{
  RequestForm, service_request_create, interest_create, interest_withdraw, select_interest_view,
  end_request, cancel_request_view,
}
use tucano.Market.Spec.{view, Steps}
use tucano.Market.Laws.{Sound}
use tucano.Market.Calls.{
  service_request_create-Steps, interest_create-Steps, interest_withdraw-Steps,
  select_interest_view-Steps, end_request-Steps, cancel_request_view-Steps,
}
use tucano.Market.Sweep.{expire_due_requests-Steps}

-- A request that writes, with the visitor and the time at which it comes, or the sweep.
pub data MarketCall : Type 0 where
  create_call : ℕ → Option ℕ → RequestForm → MarketCall
  apply_call : Option ℕ → ℕ → String → MarketCall
  withdraw_call : Option ℕ → ℕ → MarketCall
  select_call : ℕ → Option ℕ → ℕ → MarketCall
  end_call : ℕ → Option ℕ → ℕ → MarketCall
  cancel_call : ℕ → Option ℕ → ℕ → String → MarketCall
  sweep_call : ℕ → MarketCall

module _ (describe : ServiceRequest → String) where
  unfoldable pub run_market_call : MarketCall → Db → Db
  run_market_call (create_call now user form) d =
      (service_request_create describe now user form d).1
  run_market_call (apply_call user pk message) d = (interest_create user pk message d).1
  run_market_call (withdraw_call user pk) d = (interest_withdraw user pk d).1
  run_market_call (select_call now user pk) d = (select_interest_view now user pk d).1
  run_market_call (end_call now user pk) d = (end_request now user pk d).1
  run_market_call (cancel_call now user pk reason) d = (cancel_request_view now user pk reason d).1
  run_market_call (sweep_call now) d = (expire_due_requests now d).1

  pub run_market_call-Steps :
      (x : MarketCall) (d : Db) → Sound (view d) → Steps (view d) (view (run_market_call x d))
  unfolding run_market_call
  run_market_call-Steps (create_call now user form) d sound =
      service_request_create-Steps describe now user form d
  run_market_call-Steps (apply_call user pk message) d sound =
      interest_create-Steps user pk message d
  run_market_call-Steps (withdraw_call user pk) d sound = interest_withdraw-Steps user pk d sound
  run_market_call-Steps (select_call now user pk) d sound =
      select_interest_view-Steps now user pk d sound
  run_market_call-Steps (end_call now user pk) d sound = end_request-Steps now user pk d sound
  run_market_call-Steps (cancel_call now user pk reason) d sound =
      cancel_request_view-Steps now user pk reason d sound
  run_market_call-Steps (sweep_call now) d sound = expire_due_requests-Steps now d sound
