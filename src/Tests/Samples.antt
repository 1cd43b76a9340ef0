-- ===== src/Tests/Samples.antt =====
-- An agent of a small company: its policies, its surroundings and its first tasks.
use ai_solo_startup_framewor.Common.{String, Bool, true, false, refl, some, List, [], ◌∷◌}
use ai_solo_startup_framewor.Common.Dict.{Dict}
use ai_solo_startup_framewor.Fsm.{State}
use ai_solo_startup_framewor.Policy.{Policy}
use ai_solo_startup_framewor.Port.{text, ActionIntent, ContextMessage}
use ai_solo_startup_framewor.Store.{Disk, Faults, json}
use ai_solo_startup_framewor.Task.{Protocol, TaskState, TaskRecord, new_record}
use ai_solo_startup_framewor.Supervisor.World.{Config, Env, World, result, accepted}
use ai_solo_startup_framewor.Supervisor.Execute.{ExecutorContext}

abbrev pub is_terminal : TaskState → Bool
is_terminal TaskState.completed = true
is_terminal TaskState.failed = true
is_terminal TaskState.rejected = true
is_terminal TaskState.canceled = true
is_terminal _ = false

abbrev pub protocol : Protocol
protocol = record {
  terminal = is_terminal;
  submitted_is_open = refl;
  working_is_open = refl;
  input_required_is_open = refl;
  completed_is_terminal = refl;
  failed_is_terminal = refl;
  rejected_is_terminal = refl;
  canceled_is_terminal = refl;
}

abbrev pub policies : Dict Policy
policies =
    ("send_message", record { risk = "safe"; allowed_roles = "cto" ∷ "cmo" ∷ [] })
    ∷ ("post", record { risk = "risky"; allowed_roles = "cmo" ∷ [] })
    ∷ ("delegate_task", record { risk = "safe"; allowed_roles = "cmo" ∷ [] })
    ∷ []

abbrev pub config : Config
config = record {
  addr = "cmo/acme";
  role = "cmo";
  policies = policies;
  has_gateway = true;
  has_delegator = true;
  context_budget = 0;
  max_rounds = 2;
}

-- The provider wants to send a message, then to post.
abbrev pub intents : List ActionIntent
intents =
    record { kind = "send_message"; payload = ("body", text "hello") ∷ [] }
    ∷ record { kind = "post"; payload = ("body", text "news") ∷ [] }
    ∷ []

abbrev pub no_faults : Faults
no_faults n = false

abbrev pub env : Env
env = record {
  protocol = protocol;
  faults = no_faults;
  run_task = λ n id input. result (record { output = "done"; action_intents = intents });
  provider_budget = 100;
  send = λ n m. true;
  delegate = λ n role body.
      accepted (record { peer_task_id = "p1"; state = TaskState.completed; output = "yes" });
  peer_task_state =
      λ n role id. some (record { peer_task_id = id; state = TaskState.completed; output = "yes" });
  accepts = λ n. true;
  resume = λ n id input. true;
  before_deadline = λ n. true;
  random_token = λ n. "t";
  now = λ n. n;
  quote = λ s. s;
  decimal = λ n. "8";
  state_text = λ s. "state";
  store_error_text = λ e. "error";
  payload_text = λ k s. s;
}

abbrev pub empty_disk : Disk
empty_disk = record { files = []; ops = 0 }

abbrev pub world : World
world = record {
  disk = empty_disk;
  fsm = record { state = State.idle; workers = 0 };
  issued = [];
  events = [];
  effects = [];
  watchers = [];
  watch_stopped = false;
  resumer = true;
  consumer_done = false;
  questions = 0;
  notified = 0;
}

abbrev pub context : ExecutorContext
context = record {
  task_id = "t1";
  context_id = "c1";
  message = some (record { parts = "write" ∷ []; reference_tasks = [] });
  stored = false;
}

abbrev pub task : TaskRecord
task = new_record "t1" TaskState.working "write" "cmo/acme" "c1"

-- The task parked on its post.
abbrev pub parked_task : TaskRecord
parked_task = record task {
  state = TaskState.input_required;
  pending_intent_kind = "post";
  pending_intent_body = "news";
}

abbrev pub says : String → String → ContextMessage
says role content = record { role = role; content = content; at = 0 }

-- A world whose disk holds one task that ended and one parked on a human verdict.
abbrev pub ended_task : TaskRecord
ended_task = new_record "t0" TaskState.completed "first" "cmo/acme" "c1"

abbrev pub stored_disk : Disk
stored_disk = record {
  files = ("cmo__acme.json", json (ended_task ∷ parked_task ∷ [])) ∷ [];
  ops = 0;
}

abbrev pub stored_world : World
stored_world = record world { disk = stored_disk }
