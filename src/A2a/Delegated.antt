-- ===== src/A2a/Delegated.antt =====
-- The delegator of transport/a2a/client.go and the supervisors on both its sides.
use text.Mathlib.TextLemmas.{append-nil}
use ai_solo_startup_framewor.Common.{
  String, Bool, true, false, ◌||◌, ◌≡◌, ◌≢◌, Option, none, some, List, [], ◌∷◌, ◌==◌, arith, eq_iff,
  Bool-cases, inl, inr,
}
use ai_solo_startup_framewor.Task.{
  TaskState, submitted, working, input_required, completed, failed, rejected, canceled, other,
}
use ai_solo_startup_framewor.Supervisor.World.{Env, DelegationResult, output_message}
use ai_solo_startup_framewor.Supervisor.Action.{
  outcome_for_peer, outcome_of, Done, fine, broke, unrecognized_state,
}
use ai_solo_startup_framewor.A2a.Directory.{Url, found, missing, base_url}
use ai_solo_startup_framewor.A2a.Client.{
  PeerTask, ok, Connection, connected, unresolved, refused, Sent, task, message, lost, Network,
  Client, result_from_task, is_waiting, is_completed, check_state, check_sent, send_connected,
  send_to, send, text_of, join_parts,
}

-- The supervisor finds no state in this outcome that it does not know.
abbrev pub IsRecognized : Done → Type 0
IsRecognized (fine o) = Unit
IsRecognized (broke o e) = e ≢ unrecognized_state

outcome_of-IsRecognized :
    (b : Bool) (role : String) (r : DelegationResult) (s : TaskState)
    → (b || is_waiting s) ≡ true
    → IsRecognized (outcome_of b role r s)
unfolding outcome_of is_waiting
outcome_of-IsRecognized b role r completed h = tt
outcome_of-IsRecognized true role r submitted h = λ e. cc
outcome_of-IsRecognized true role r working h = λ e. cc
outcome_of-IsRecognized true role r input_required h = λ e. cc
outcome_of-IsRecognized true role r failed h = λ e. cc
outcome_of-IsRecognized true role r rejected h = λ e. cc
outcome_of-IsRecognized true role r canceled h = λ e. cc
outcome_of-IsRecognized true role r (other s) h = λ e. cc
outcome_of-IsRecognized false role r submitted h = tt
outcome_of-IsRecognized false role r working h = tt
outcome_of-IsRecognized false role r input_required h = tt
outcome_of-IsRecognized false role r failed h = cc
outcome_of-IsRecognized false role r rejected h = cc
outcome_of-IsRecognized false role r canceled h = cc
outcome_of-IsRecognized false role r (other s) h = cc

module _ (env : Env) (net : Network) (c : Client) where
  -- The states in which a result of the client can be.
  IsAnswer : DelegationResult → Type 0
  IsAnswer r = (env.protocol.terminal r.state || is_waiting r.state) ≡ true

  check_state-IsAnswer :
      (t : PeerTask) (r : DelegationResult) → check_state env.protocol net c t ≡ ok r → IsAnswer r
  unfolding check_state result_from_task IsAnswer
  check_state-IsAnswer t r h =
      elim (Bool-cases (env.protocol.terminal t.state || is_waiting t.state)) [
        | inl e ↦ let p : t.state ≡ r.state = ground (arith, h, e) in rw p at e
        | inr e ↦ ground (arith, h, e)
      ]

  check_sent-IsAnswer :
      (s : Sent) (r : DelegationResult) → check_sent env.protocol net c s ≡ ok r → IsAnswer r
  unfolding check_sent
  check_sent-IsAnswer (task t) r h = check_state-IsAnswer t r h
  check_sent-IsAnswer message r h = cc
  check_sent-IsAnswer lost r h = cc

  send_connected-IsAnswer :
      (url id body : String) (k : Connection) (r : DelegationResult)
      → send_connected env.protocol net c url id body k ≡ ok r
      → IsAnswer r
  unfolding send_connected
  send_connected-IsAnswer url id body unresolved r h = cc
  send_connected-IsAnswer url id body refused r h = cc
  send_connected-IsAnswer url id body connected r h = check_sent-IsAnswer _ r h

  send_to-IsAnswer :
      (id body : String) (u : Url) (r : DelegationResult)
      → send_to env.protocol net c id body u ≡ ok r
      → IsAnswer r
  unfolding send_to
  send_to-IsAnswer id body (missing e) r h = cc
  send_to-IsAnswer id body (found url) r h = send_connected-IsAnswer url id body _ r h

  -- A result that the client returns to a supervisor, for a new task or for a follow-up, is never in a
  -- state that the supervisor does not know, whatever the peer answers.
  pub send-IsRecognized :
      (role id body : String) (r : DelegationResult)
      → send env.protocol net c role id body ≡ ok r
      → IsRecognized (outcome_for_peer env role r)
  unfolding send outcome_for_peer IsAnswer
  send-IsRecognized role id body r h =
      outcome_of-IsRecognized (env.protocol.terminal r.state) role r r.state
        (send_to-IsAnswer id body (base_url role c.directory) r h)

-- The message of a supervisor's last event, as the client reads it.
abbrev pub parts_of : Option String → Option (List String)
parts_of none = none
parts_of (some s) = some (s ∷ [])

-- The output that a supervisor puts into the event of a completed task is the output that a
-- delegating supervisor gets, the empty output included.
pub result_from_task-output_message :
    (id output : String)
    → (result_from_task
        (record { id = id; state = completed; message = parts_of (output_message output) })).output
      ≡ output
unfolding result_from_task is_completed text_of join_parts output_message
result_from_task-output_message id output = elim (Bool-cases (output == "")) [
  | inl e ↦ ground (arith, e, eq_iff output "")
  | inr e ↦ rw e (append-nil output)
]
