-- ===== src/Site/Parts.antt =====
-- The parts of the program and the tables that they write, those of the notifications among them.
use tucano.Prelude.{◌≡◌, refl, ◌∙◌, Bool, true, false, Grows, Grows-refl, Grows-trans}
use tucano.Models.{NotificationPreference}
use tucano.Db.{Mail}
use tucano.Site.Rows.{Same, Same-refl}

-- The parts of the program, and the tables that are theirs to write. The audit is everyone's. Who
-- has the Premium plan stands beside the tables: a part may make subscriptions and not grant it.
pub data Part : Type 0 where
  requests confirmations reviews chat cases verifications clients favorites profiles : Part
  desk subscriptions accounts : Part

pub data Table : Type 0 where
  users clients professionals favorites requests interests conversations messages : Table
  blocks confirmations reviews subscriptions boosts cases flags verifications : Table
  availabilities portfolio premium_plans preferences push_subscriptions tasks : Table

-- Publishing a call makes its client's subscription, and telling a user the user's preferences,
-- where there are none.
abbrev pub may_write : Part → Table → Bool
may_write Part.requests Table.requests = true
may_write Part.requests Table.interests = true
may_write Part.requests Table.conversations = true
may_write Part.requests Table.subscriptions = true
may_write Part.confirmations Table.confirmations = true
may_write Part.reviews Table.reviews = true
may_write Part.chat Table.messages = true
may_write Part.chat Table.blocks = true
may_write Part.cases Table.cases = true
may_write Part.cases Table.users = true
may_write Part.verifications Table.verifications = true
may_write Part.clients Table.clients = true
may_write Part.favorites Table.favorites = true
may_write Part.profiles Table.professionals = true
may_write Part.desk Table.availabilities = true
may_write Part.desk Table.portfolio = true
may_write Part.subscriptions Table.subscriptions = true
may_write Part.subscriptions Table.boosts = true
may_write Part.subscriptions Table.premium_plans = true
may_write Part.requests Table.preferences = true
may_write Part.requests Table.tasks = true
may_write Part.confirmations Table.preferences = true
may_write Part.confirmations Table.tasks = true
may_write Part.accounts Table.preferences = true
may_write Part.accounts Table.push_subscriptions = true
may_write _ _ = false

-- A table that may not be written stays as it is.
abbrev pub Spares {ℓ} : {A : Type ℓ} → (Table → Bool) → Table → A → A → Type ℓ
Spares may t x y = may t ≡ false → y ≡ x

-- The user that the preferences are of.
abbrev pub SamePreference : NotificationPreference → NotificationPreference → Type 0
SamePreference x y = y.user ≡ x.user

pub SamePreference-refl : (x : NotificationPreference) → SamePreference x x
SamePreference-refl x = refl

-- What a call does to the tables of the notifications, and to the tasks that wait. The log is
-- written when a task runs.
pub record KeepsMail (may : Table → Bool) (m m' : Mail) : Type 0 where
  pub logs : m'.logs ≡ m.logs
  pub tasks : Grows Same m.tasks m'.tasks
  pub preferences : Grows SamePreference m.preferences m'.preferences
  pub spares_tasks : Spares may Table.tasks m.tasks m'.tasks
  pub spares_preferences : Spares may Table.preferences m.preferences m'.preferences
  pub spares_push_subscriptions :
      Spares may Table.push_subscriptions m.push_subscriptions m'.push_subscriptions

pub KeepsMail-refl : {may : Table → Bool} (m : Mail) → KeepsMail may m m
KeepsMail-refl m = record {
  logs = refl;
  tasks = Grows-refl Same Same-refl m.tasks;
  preferences = Grows-refl SamePreference SamePreference-refl m.preferences;
  spares_tasks = λ e. refl;
  spares_preferences = λ e. refl;
  spares_push_subscriptions = λ e. refl;
}

pub KeepsMail-trans :
    {may : Table → Bool} (m n o : Mail) → KeepsMail may m n → KeepsMail may n o → KeepsMail may m o
KeepsMail-trans m n o h k = record {
  logs = k.logs ∙ h.logs;
  tasks = Grows-trans Same (λ x y z p q. cc) m.tasks n.tasks o.tasks h.tasks k.tasks;
  preferences =
      Grows-trans SamePreference (λ x y z p q. cc) m.preferences n.preferences o.preferences
        h.preferences k.preferences;
  spares_tasks = λ e. k.spares_tasks e ∙ h.spares_tasks e;
  spares_preferences = λ e. k.spares_preferences e ∙ h.spares_preferences e;
  spares_push_subscriptions = λ e. k.spares_push_subscriptions e ∙ h.spares_push_subscriptions e;
}

pub spared : (b c : Bool) → (b ≡ true → c ≡ true) → c ≡ false → b ≡ false
spared true c h o = absurd (cc (h refl))
spared false c h o = refl

pub KeepsMail-weaken :
    {may more : Table → Bool} (m n : Mail)
    → ((t : Table) → may t ≡ true → more t ≡ true)
    → KeepsMail may m n
    → KeepsMail more m n
KeepsMail-weaken {may} {more} m n le h = record {
  logs = h.logs;
  tasks = h.tasks;
  preferences = h.preferences;
  spares_tasks =
      λ o. h.spares_tasks (spared (may Table.tasks) (more Table.tasks) (le Table.tasks) o);
  spares_preferences = λ o.
      h.spares_preferences
        (spared (may Table.preferences) (more Table.preferences) (le Table.preferences) o);
  spares_push_subscriptions = λ o. h.spares_push_subscriptions (
      spared (may Table.push_subscriptions) (more Table.push_subscriptions)
        (le Table.push_subscriptions) o);
}
