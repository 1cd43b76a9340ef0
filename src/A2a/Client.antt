-- ===== src/A2a/Client.antt =====
-- transport/a2a/client.go: the delegator that calls a peer. The card resolution, the transport and the
-- peer's answers are parameters; the texts of the errors are constructors.
use Prim.Native.String.{◌++◌}
use ai_solo_startup_framewor.Common.{
  String, Bool, true, false, ◌||◌, Option, none, some, List, [], ◌∷◌, ◌==◌, if◌then◌else◌,
}
use ai_solo_startup_framewor.Task.{
  Protocol, TaskState, submitted, working, input_required, completed, failed, rejected, canceled,
  other,
}
use ai_solo_startup_framewor.Supervisor.World.{DelegationResult}
use ai_solo_startup_framewor.A2a.Directory.{
  PeerDirectory, DirectoryError, Url, found, missing, base_url,
}

-- The parts of a2a.Task that the client reads: a message is the texts of its parts.
pub record PeerTask : Type 0 where
  pub id : String
  pub state : TaskState
  pub message : Option (List String)

pub data ClientError : Type 0 where
  directory : DirectoryError → ClientError
  no_peer_task_id no_card no_connection send_failed not_a_task get_failed : ClientError
  non_terminal_state : TaskState → ClientError

pub data Answer : Type 0 where
  ok : DelegationResult → Answer
  err : ClientError → Answer

pub data Connection : Type 0 where
  connected : Connection
  unresolved refused : Connection

-- SendMessage answers a task, a message or an error.
pub data Sent : Type 0 where
  task : PeerTask → Sent
  message lost : Sent

-- The network: the card and the connection for a base URL, SendMessage (to a URL, for a tenant, onto a
-- task, with a body) and GetTask.
pub record Network : Type 0 where
  pub connect : String → Connection
  pub send_message : String → String → String → String → Sent
  pub get_task : String → String → String → Option PeerTask

pub record Client : Type 0 where
  pub directory : PeerDirectory
  pub tenant : String

unfoldable pub join_parts : List String → String
join_parts [] = ""
join_parts (p ∷ ps) = p ++ join_parts ps

unfoldable pub text_of : Option (List String) → String
unfolding join_parts
text_of none = ""
text_of (some parts) = join_parts parts

unfoldable pub is_completed : TaskState → Bool
is_completed completed = true
is_completed submitted = false
is_completed working = false
is_completed input_required = false
is_completed failed = false
is_completed rejected = false
is_completed canceled = false
is_completed (other s) = false

-- resultFromTask
unfoldable pub result_from_task : PeerTask → DelegationResult
unfolding is_completed text_of
result_from_task t = record {
  peer_task_id = t.id;
  state = t.state;
  output = if is_completed t.state then text_of t.message else "";
}

-- The states that are not terminal in which a peer may answer a delegation.
unfoldable pub is_waiting : TaskState → Bool
is_waiting submitted = true
is_waiting working = true
is_waiting input_required = true
is_waiting completed = false
is_waiting failed = false
is_waiting rejected = false
is_waiting canceled = false
is_waiting (other s) = false

module _ (protocol : Protocol) (net : Network) (c : Client) where
  unfoldable pub check_state : PeerTask → Answer
  unfolding is_waiting result_from_task
  check_state t =
      if protocol.terminal t.state || is_waiting t.state
      then ok (result_from_task t)
      else err (non_terminal_state t.state)

  unfoldable pub check_sent : Sent → Answer
  unfolding check_state
  check_sent (task t) = check_state t
  check_sent message = err not_a_task
  check_sent lost = err send_failed

  unfoldable pub send_connected : String → String → String → Connection → Answer
  unfolding check_sent
  send_connected url peer_task_id body connected =
      check_sent (net.send_message url c.tenant peer_task_id body)
  send_connected url peer_task_id body unresolved = err no_card
  send_connected url peer_task_id body refused = err no_connection

  unfoldable pub send_to : String → String → Url → Answer
  unfolding send_connected
  send_to peer_task_id body (missing e) = err (directory e)
  send_to peer_task_id body (found url) = send_connected url peer_task_id body (net.connect url)

  -- send
  unfoldable pub send : String → String → String → Answer
  unfolding send_to base_url
  send role peer_task_id body = send_to peer_task_id body (base_url role c.directory)

  -- Delegate
  unfoldable pub delegate : String → String → Answer
  unfolding send
  delegate role body = send role "" body

  -- FollowUp
  unfoldable pub follow_up : String → String → String → Answer
  unfolding send
  follow_up role peer_task_id body =
      if peer_task_id == "" then err no_peer_task_id else send role peer_task_id body

  unfoldable pub found_task : Option PeerTask → Answer
  unfolding result_from_task
  found_task none = err get_failed
  found_task (some t) = ok (result_from_task t)

  unfoldable pub ask_connected : String → String → Connection → Answer
  unfolding found_task
  ask_connected url peer_task_id connected = found_task (net.get_task url c.tenant peer_task_id)
  ask_connected url peer_task_id unresolved = err no_card
  ask_connected url peer_task_id refused = err no_connection

  unfoldable pub ask_at : String → Url → Answer
  unfolding ask_connected
  ask_at peer_task_id (missing e) = err (directory e)
  ask_at peer_task_id (found url) = ask_connected url peer_task_id (net.connect url)

  -- PeerTaskState
  unfoldable pub peer_task_state : String → String → Answer
  unfolding ask_at base_url
  peer_task_state role peer_task_id = ask_at peer_task_id (base_url role c.directory)
