-- ===== src/Ui/Routes.antt =====
-- The API routes of ui/handler.go: the status of each answer and the call that is made. Decoding the
-- body and trimming a message are parameters; the answer of the supervisor's side is an argument.
use ai_solo_startup_framewor.Common.{
  ℕ, String, Bool, true, false, not, Option, none, some, ◌==◌, if◌then◌else◌,
}
use ai_solo_startup_framewor.Ui.Adapter.{
  UiError, list_failed, not_input_required, no_such_task, task_not_found, not_terminal, send_failed,
}

abbrev pub status_ok : ℕ
status_ok = 200

abbrev pub status_accepted : ℕ
status_accepted = 202

abbrev pub status_bad_request : ℕ
status_bad_request = 400

abbrev pub status_not_found : ℕ
status_not_found = 404

abbrev pub status_method_not_allowed : ℕ
status_method_not_allowed = 405

abbrev pub status_conflict : ℕ
status_conflict = 409

abbrev pub status_internal_error : ℕ
status_internal_error = 500

-- What the handler asks of the company.
pub data UiCall : Type 0 where
  verdict : String → Bool → UiCall
  new_task : String → UiCall
  follow : String → String → UiCall

-- An answer at once, or a call whose result decides the status.
pub data Handled : Type 0 where
  answer : ℕ → Handled
  ask : UiCall → Handled

-- A decoded body: verdictRequest, sendRequest and followUpRequest; a missing field is "".
pub record Body : Type 0 where
  pub task_id : String
  pub message : String

unfoldable pub verdict_body : Bool → Option Body → Handled
verdict_body approve none = answer status_bad_request
verdict_body approve (some b) =
    if b.task_id == "" then answer status_bad_request else ask (verdict b.task_id approve)

-- handleVerdict, up to the call
unfoldable pub handle_verdict : Bool → String → Option Body → Handled
unfolding verdict_body
handle_verdict approve method body =
    if method == "POST" then verdict_body approve body else answer status_method_not_allowed

-- isNotInputRequired
unfoldable pub is_not_input_required : UiError → Bool
is_not_input_required not_input_required = true
is_not_input_required list_failed = false
is_not_input_required no_such_task = false
is_not_input_required task_not_found = false
is_not_input_required not_terminal = false
is_not_input_required send_failed = false

-- handleVerdict, after the call
unfoldable pub verdict_status : Option UiError → ℕ
unfolding is_not_input_required
verdict_status none = status_ok
verdict_status (some e) = if is_not_input_required e then status_conflict else status_internal_error

-- handleFollowUp, after the call
unfoldable pub follow_up_status : Option UiError → ℕ
follow_up_status none = status_accepted
follow_up_status (some task_not_found) = status_not_found
follow_up_status (some not_terminal) = status_conflict
follow_up_status (some list_failed) = status_internal_error
follow_up_status (some not_input_required) = status_internal_error
follow_up_status (some no_such_task) = status_internal_error
follow_up_status (some send_failed) = status_internal_error

-- handleSendTask, after the call
unfoldable pub send_status : Option UiError → ℕ
send_status none = status_accepted
send_status (some e) = status_internal_error

module _ (trim : String → String) where
  unfoldable pub send_body : Option Body → Handled
  send_body none = answer status_bad_request
  send_body (some b) =
      if trim b.message == "" then answer status_bad_request else ask (new_task (trim b.message))

  -- handleSendTask, up to the call
  unfoldable pub handle_send_task : String → Option Body → Handled
  unfolding send_body
  handle_send_task method body =
      if method == "POST" then send_body body else answer status_method_not_allowed

  unfoldable pub follow_up_body : Option Body → Handled
  follow_up_body none = answer status_bad_request
  follow_up_body (some b) =
      if b.task_id == ""
      then answer status_bad_request
      else if trim b.message == ""
      then answer status_bad_request
      else ask (follow b.task_id (trim b.message))

  -- handleFollowUp, up to the call
  unfoldable pub handle_follow_up : String → Option Body → Handled
  unfolding follow_up_body
  handle_follow_up method body =
      if method == "POST" then follow_up_body body else answer status_method_not_allowed

-- handleTasks; `listed` is that ListTasks succeeded.
unfoldable pub handle_tasks : String → Bool → ℕ
handle_tasks method listed =
    if not (method == "GET")
    then status_method_not_allowed
    else if listed
    then status_ok
    else status_internal_error
