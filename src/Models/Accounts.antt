-- ===== src/Models/Accounts.antt =====
-- apps/accounts/models.py, and the queue that accounts/tasks.py is fed from.
use tucano.Prelude.{ℕ, Bool, String}

-- `User`: what the code reads of it.
pub record User : Type 0 where
  pub pk : ℕ
  pub is_active : Bool
  pub email : String
  pub phone_number : String

-- `NotificationPreference`
pub record NotificationPreference : Type 0 where
  pub user : ℕ
  pub push_enabled : Bool
  pub whatsapp_enabled : Bool
  pub email_enabled : Bool

-- `PushSubscription`
pub record PushSubscription : Type 0 where
  pub user : ℕ
  pub endpoint : String

-- `NotificationLog.Channel`
pub data Channel : Type 0 where
  push whatsapp email : Channel

-- `NotificationLog.Status`
pub data LogStatus : Type 0 where
  sent failed skipped : LogStatus

-- `NotificationLog`
pub record NotificationLog : Type 0 where
  pub user : ℕ
  pub channel : Channel
  pub event_type : String
  pub status : LogStatus
  pub detail : String

-- The arguments of one `notify_user_task.delay` call.
pub record NotifyTask : Type 0 where
  pub user : ℕ
  pub channel : Channel
  pub event_type : String
  pub title : String
  pub body : String
