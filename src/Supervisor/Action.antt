-- ===== src/Supervisor/Action.antt =====
-- Executing one action intent (executeAction, executeDelegation, outcomeForPeer of
-- core/supervisor/supervisor.go).
use ai_solo_startup_framewor.Common.{String, Bool, true, false, ◌==◌, if◌then◌else◌}
use ai_solo_startup_framewor.Port.{OutboundMessage, kind_delegate_task}
use ai_solo_startup_framewor.Task.{TaskState, submitted, working, input_required, completed}
use ai_solo_startup_framewor.Supervisor.World.{
  Config, Env, DelegationResult, DelegateAnswer, accepted, deadline, refused, sent, delegated, M,
  pure, ◌>>=◌, ◌>>◌, ask, perform, get_resumer, validate_token,
}

pub record ActionOutcome : Type 0 where
  pub output : String
  pub delegated : Bool
  pub parked : Bool
  pub peer_role : String
  pub peer_task_id : String
  pub peer_approval : Bool

pub data ActionError : Type 0 where
  invalid_token gateway_required send_failed no_delegator no_target delegation_timeout : ActionError
  delegation_failed peer_failed unrecognized_state no_resumer : ActionError

-- An action returns an outcome together with an optional error, as in Go.
pub data Done : Type 0 where
  fine : ActionOutcome → Done
  broke : ActionOutcome → ActionError → Done

abbrev pub no_outcome : ActionOutcome
no_outcome = record {
  output = "";
  delegated = false;
  parked = false;
  peer_role = "";
  peer_task_id = "";
  peer_approval = false;
}

abbrev pub peer_outcome : String → DelegationResult → ActionOutcome
peer_outcome role res = record no_outcome { peer_role = role; peer_task_id = res.peer_task_id }

-- The cases of outcomeForPeer in the switch's order: COMPLETED, any other terminal state, then the
-- running states, INPUT_REQUIRED and the default. `terminal` is the protocol's test of the state.
unfoldable pub outcome_of : Bool → String → DelegationResult → TaskState → Done
outcome_of terminal role res completed =
    fine (record (peer_outcome role res) { output = res.output; delegated = true })
outcome_of true role res s = broke (peer_outcome role res) peer_failed
outcome_of false role res submitted = fine (record (peer_outcome role res) { parked = true })
outcome_of false role res working = fine (record (peer_outcome role res) { parked = true })
outcome_of false role res input_required =
    fine (record (peer_outcome role res) { parked = true; peer_approval = true })
outcome_of false role res s = broke no_outcome unrecognized_state

module _ (env : Env) where
  -- outcomeForPeer
  unfoldable pub outcome_for_peer : String → DelegationResult → Done
  unfolding outcome_of
  outcome_for_peer role res = outcome_of (env.protocol.terminal res.state) role res res.state

  -- The end of executeDelegation: parking needs a resumer that wakes the task.
  unfoldable pub needs_resumer : Done → M Done
  unfolding ◌>>=◌
  needs_resumer (broke o e) = pure (broke o e)
  needs_resumer (fine o) =
      if o.parked
      then (do r ← get_resumer; if r then pure (fine o) else pure (broke no_outcome no_resumer))
      else pure (fine o)

  unfoldable pub after_delegate : String → DelegateAnswer → M Done
  unfolding outcome_for_peer needs_resumer
  after_delegate role (accepted res) = needs_resumer (outcome_for_peer role res)
  after_delegate role deadline = pure (broke no_outcome delegation_timeout)
  after_delegate role refused = pure (broke no_outcome delegation_failed)

  module _ (cfg : Config) where
    -- executeDelegation
    unfoldable pub execute_delegation : String → String → M Done
    unfolding after_delegate ◌>>=◌
    execute_delegation role body =
        if cfg.has_delegator
        then (if role == "" then pure (broke no_outcome no_target) else do
          perform (delegated role body)
          answer ← ask (λ n. env.delegate n role body)
          after_delegate role answer)
        else pure (broke no_outcome no_delegator)

    unfoldable pub send_outcome : Bool → Done
    send_outcome true = fine no_outcome
    send_outcome false = broke no_outcome send_failed

    abbrev pub telegram : String → OutboundMessage
    telegram body = record { channel = "telegram"; body = body }

    -- The branches of executeAction once the token was accepted.
    unfoldable pub route : String → String → String → M Done
    unfolding execute_delegation send_outcome ◌>>=◌
    route kind body target =
        if kind == kind_delegate_task
        then execute_delegation target body
        else if cfg.has_gateway
        then (do
          perform (sent kind (telegram body))
          delivered ← ask (λ n. env.send n (telegram body))
          pure (send_outcome delivered))
        else pure (broke no_outcome gateway_required)

    -- executeAction
    unfoldable pub execute_action : String → String → String → String → M Done
    unfolding route ◌>>=◌
    execute_action kind body target token = do
      valid ← validate_token env token
      if valid then route kind body target else pure (broke no_outcome invalid_token)
