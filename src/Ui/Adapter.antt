-- ===== src/Ui/Adapter.antt =====
-- supervisorUIAdapter of cmd/company/wire.go: what the user interface asks of one supervisor. The
-- listed tasks (none where the store fails) and whether the handler takes a message are parameters;
-- the messages that are sent are values. `SendMessage` runs at once, although SendTask and FollowUp
-- leave it to a goroutine whose result is dropped.
use ai_solo_startup_framewor.Common.{
  String, Bool, false, Option, none, some, List, [], ◌∷◌, ◌==◌, if◌then◌else◌,
}
use ai_solo_startup_framewor.Task.{Protocol, TaskState, TaskRecord, Delegation}
use ai_solo_startup_framewor.Supervisor.Watchers.{is_input_required}

-- ui.TaskRecord
pub record UiTask : Type 0 where
  pub agent : String
  pub verdict_id : String
  pub task_id : String
  pub state : TaskState
  pub input : String
  pub pending_intent_kind : String
  pub output : String
  pub awaiting_peer : String
  pub awaiting_peer_approval : Bool
  pub delegations : List Delegation
  pub can_follow_up : Bool
  pub follow_up_of : String

-- A message to the handler, with the agent whose handler it is; an empty task ID opens a task.
pub record UiMessage : Type 0 where
  pub agent : String
  pub tenant : String
  pub task_id : String
  pub body : String
  pub reference : Option String
  pub context_id : String

pub data UiError : Type 0 where
  list_failed not_input_required no_such_task task_not_found not_terminal send_failed : UiError

-- The result of a call, and the messages that it sent.
pub record Called : Type 0 where
  pub error : Option UiError
  pub messages : List UiMessage

-- agentRuntime, as far as the user interface reads it; `name` is that of the supervisor's address.
pub record Runtime : Type 0 where
  pub name : String
  pub tenant : String
  pub tasks : Option (List TaskRecord)
  pub takes_message : Bool

unfoldable pub ui_task : TaskRecord → UiTask
ui_task r = record {
  agent = "";
  verdict_id = "";
  task_id = r.task_id;
  state = r.state;
  input = r.input;
  pending_intent_kind = r.pending_intent_kind;
  output = r.output;
  awaiting_peer = r.awaiting_peer_role;
  awaiting_peer_approval = r.awaiting_peer_approval;
  delegations = r.delegations;
  can_follow_up = false;
  follow_up_of = r.follow_up_of;
}

unfoldable pub ui_tasks : List TaskRecord → List UiTask
unfolding ui_task
ui_tasks [] = []
ui_tasks (r ∷ rs) = ui_task r ∷ ui_tasks rs

unfoldable pub listed : Option (List TaskRecord) → Option (List UiTask)
unfolding ui_tasks
listed none = none
listed (some rs) = some (ui_tasks rs)

-- ListTasks
unfoldable pub runtime_list_tasks : Runtime → Option (List UiTask)
unfolding listed
runtime_list_tasks rt = listed rt.tasks

abbrev pub refused : UiError → Called
refused e = record { error = some e; messages = [] }

-- The loop that looks for a task.
unfoldable pub find_task : String → List TaskRecord → Option TaskRecord
find_task id [] = none
find_task id (r ∷ rs) = if r.task_id == id then some r else find_task id rs

abbrev pub verdict_text : Bool → String
verdict_text approve = if approve then "approve" else "reject"

unfoldable pub send_verdict : Runtime → String → Bool → Called
send_verdict rt id approve = record {
  error = if rt.takes_message then none else some send_failed;
  messages =
      record {
        agent = rt.name;
        tenant = rt.tenant;
        task_id = id;
        body = verdict_text approve;
        reference = none;
        context_id = "";
      }
      ∷ [];
}

unfoldable pub verdict_on : Runtime → String → Bool → Option TaskRecord → Called
unfolding send_verdict is_input_required
verdict_on rt id approve none = refused no_such_task
verdict_on rt id approve (some r) =
    if is_input_required r.state then send_verdict rt id approve else refused not_input_required

unfoldable pub verdict_in : Runtime → String → Bool → Option (List TaskRecord) → Called
unfolding verdict_on find_task
verdict_in rt id approve none = refused list_failed
verdict_in rt id approve (some rs) = verdict_on rt id approve (find_task id rs)

-- PostVerdict
unfoldable pub runtime_post_verdict : Runtime → String → Bool → Called
unfolding verdict_in
runtime_post_verdict rt id approve = verdict_in rt id approve rt.tasks

-- SendTask
unfoldable pub runtime_send_task : Runtime → String → Called
runtime_send_task rt text = record {
  error = none;
  messages =
      record {
        agent = rt.name;
        tenant = rt.tenant;
        task_id = "";
        body = text;
        reference = none;
        context_id = "";
      }
      ∷ [];
}

module _ (protocol : Protocol) where
  unfoldable pub follow_up_on : Runtime → String → String → Option TaskRecord → Called
  follow_up_on rt id text none = refused task_not_found
  follow_up_on rt id text (some r) =
      if protocol.terminal r.state
      then record {
        error = none;
        messages =
            record {
              agent = rt.name;
              tenant = rt.tenant;
              task_id = "";
              body = text;
              reference = some id;
              context_id = r.context_id;
            }
            ∷ [];
      }
      else refused not_terminal

  unfoldable pub follow_up_in : Runtime → String → String → Option (List TaskRecord) → Called
  unfolding follow_up_on find_task
  follow_up_in rt id text none = refused list_failed
  follow_up_in rt id text (some rs) = follow_up_on rt id text (find_task id rs)

  -- FollowUp
  unfoldable pub runtime_follow_up : Runtime → String → String → Called
  unfolding follow_up_in
  runtime_follow_up rt id text = follow_up_in rt id text rt.tasks
