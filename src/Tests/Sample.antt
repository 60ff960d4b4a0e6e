-- ===== src/Tests/Sample.antt =====
-- A small database: a client with one call, and two professionals who have applied for it.
use tucano.Prelude.{ℕ, none, some, [], ◌∷◌, true}
use tucano.Models.{
  User, ClientProfile, ProfessionalProfile, RequestStatus, two_hours, ServiceRequest,
  InterestStatus, Interest, ServiceConfirmation, ModerationCase, opened, undecided,
}
use tucano.Db.{Mail, Db}

abbrev user : ℕ → User
user k = record { pk = k; is_active = true; email = "a@b"; phone_number = "" }

abbrev pub client : ClientProfile
client = record { pk = 10; user = 1 }

abbrev pub painter : ProfessionalProfile
painter = record { pk = 20; user = 2; main_category = 7 }

abbrev pub second_painter : ProfessionalProfile
second_painter = record { pk = 21; user = 3; main_category = 7 }

-- A call for one painter, with its window open until 7200.
abbrev pub call : ServiceRequest
call = record {
  pk = 100;
  client = client;
  category = 7;
  title = "Pintura";
  description = "Uma parede";
  positions_count = 1;
  scheduled_start = 10000;
  location_label = "";
  interest_window = two_hours;
  status = RequestStatus.receiving;
  published_at = 0;
  expires_at = some 7200;
  closed_at = none;
  cancel_reason = "";
}

-- The same client's newer call of the category.
abbrev pub newer_call : ServiceRequest
newer_call = record call {
  pk = 101;
  published_at = 900;
  scheduled_start = 20000;
  expires_at = some 8100;
}

abbrev pub interest : Interest
interest = record {
  pk = 200;
  service_request = 100;
  professional = painter;
  message = "";
  status = InterestStatus.applied;
}

abbrev pub second_interest : Interest
second_interest = record interest { pk = 201; professional = second_painter }

abbrev pub no_mail : Mail
no_mail = record { preferences = []; push_subscriptions = []; tasks = []; logs = [] }

abbrev pub base : Db
base = record {
  next_pk = 1000;
  users = user 1 ∷ user 2 ∷ user 3 ∷ user 4 ∷ [];
  mail = no_mail;
  audit = [];
  clients = client ∷ [];
  professionals = painter ∷ second_painter ∷ [];
  favorites = [];
  requests = call ∷ [];
  interests = interest ∷ second_interest ∷ [];
  conversations = [];
  messages = [];
  blocks = [];
  confirmations = [];
  reviews = [];
  subscriptions = [];
  boosts = [];
  cases = [];
  flags = [];
  verifications = [];
  availabilities = [];
  portfolio = [];
}

-- The database with the newer call.
abbrev pub crowded : Db
crowded = record base { requests = call ∷ newer_call ∷ [] }

-- After the service: the painter was selected, and both sides said that it took place.
abbrev pub confirmed : ServiceConfirmation
confirmed = record {
  pk = 300;
  interest = 200;
  client_confirmed = some true;
  professional_confirmed = some true;
  client_responded_at = some 11000;
  professional_responded_at = some 11000;
}

abbrev pub chosen_interest : Interest
chosen_interest = record interest { status = InterestStatus.selected }

abbrev pub done : Db
done = record base { interests = chosen_interest ∷ []; confirmations = confirmed ∷ [] }

-- A case against the painter.
abbrev pub report_case : ModerationCase
report_case = record {
  pk = 400;
  reporter = 1;
  reported_user = 2;
  reason = "spam";
  context_repr = "";
  status = opened;
  decision = undecided;
  decision_notes = "";
  appeal_reason = "";
  appeal_decision = none;
  decided_at = none;
  appeal_decided_at = none;
}

abbrev pub accused : Db
accused = record base { cases = report_case ∷ [] }
