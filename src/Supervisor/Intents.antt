-- ===== src/Supervisor/Intents.antt =====
-- The action intents of a provider turn (core/supervisor/supervisor.go): finish_task split off,
-- the rest classified and executed in the provider's order.
pub mod Finish
pub mod Escalate
use ai_solo_startup_framewor.Common.{
  String, Bool, true, false, Option, none, some, List, [], ◌∷◌, ◌++◌, ◌==◌, if◌then◌else◌,
}
use ai_solo_startup_framewor.Common.Dict.{lookup}
use ai_solo_startup_framewor.Port.{
  ActionIntent, Value, text, kind_finish_task, kind_delegate_task, target_arg,
}
use ai_solo_startup_framewor.Policy.{ResultKind, hard_deny, escalate, permit}
use ai_solo_startup_framewor.Task.{
  TaskRecord, PendingIntent, rejected, failed, input_required, add_turn,
}
use ai_solo_startup_framewor.Supervisor.World.{
  Config, Env, status, M, pure, ◌>>=◌, ◌>>◌, ask, emit, classify, save_and_notify, mark_failed,
  error_message,
}
use ai_solo_startup_framewor.Supervisor.Action.{ActionOutcome, Done, fine, broke, execute_action}
use ai_solo_startup_framewor.Supervisor.Watchers.{park_on_peer}

unfoldable pub as_text : Option Value → String
as_text (some (text s)) = s
as_text o = ""

-- extractBody, extractTarget
unfoldable pub extract_body : ActionIntent → String
unfolding as_text
extract_body i = as_text (lookup "body" i.payload)

unfoldable pub extract_target : ActionIntent → String
unfolding as_text
extract_target i = as_text (lookup target_arg i.payload)

-- toPendingIntents
unfoldable pub to_pending_intents : List ActionIntent → List PendingIntent
to_pending_intents [] = []
to_pending_intents (i ∷ is) =
    record { kind = i.kind; body = extract_body i; target = extract_target i }
    ∷ to_pending_intents is

pub record Split : Type 0 where
  pub actions : List ActionIntent
  pub answer : String
  pub finished : Bool

unfoldable pub add_intent : ActionIntent → Split → Split
add_intent i r =
    if i.kind == kind_finish_task
    then record r { answer = extract_body i; finished = true }
    else record r { actions = i ∷ r.actions }

-- splitFinishTask, from the head: the first finish_task's answer stands.
unfoldable pub split_finish_task : List ActionIntent → Split
unfolding add_intent
split_finish_task [] = record { actions = []; answer = ""; finished = false }
split_finish_task (i ∷ is) = add_intent i (split_finish_task is)

-- hasDelegation
unfoldable pub has_delegation : List ActionIntent → Bool
has_delegation [] = false
has_delegation (a ∷ as') = if a.kind == kind_delegate_task then true else has_delegation as'

-- recordDelegation
unfoldable pub record_delegation : TaskRecord → ActionOutcome → TaskRecord
record_delegation r o = if o.peer_task_id == "" then r else record r {
  delegations = r.delegations ++ record { role = o.peer_role; task_id = o.peer_task_id } ∷ [];
}

-- The record of a walk, and whether it halted.
abbrev pub Turn : Type 0
Turn = TaskRecord × Bool

module _ (env : Env) (cfg : Config) where
  unfoldable pub deny : TaskRecord → M Turn
  unfolding ◌>>=◌
  deny rec = do
    let rec' : TaskRecord = record rec { state = rejected; remaining_intents = [] }
    save_and_notify env cfg rec'
    emit env (status rejected none)
    pure (rec', true)

  -- The record parked on a human verdict.
  unfoldable pub escalated_record : TaskRecord → PendingIntent → List PendingIntent → TaskRecord
  escalated_record rec i rest = record rec {
    state = input_required;
    pending_intent_kind = i.kind;
    pending_intent_body = i.body;
    pending_intent_target = i.target;
    remaining_intents = rest;
  }

  unfoldable pub park_for_verdict : TaskRecord → PendingIntent → List PendingIntent → M Turn
  unfolding escalated_record ◌>>=◌
  park_for_verdict rec i rest = do
    save_and_notify env cfg (escalated_record rec i rest)
    emit env (status input_required (some (env.payload_text i.kind rec.task_id)))
    pure (escalated_record rec i rest, true)

  -- A failed action ends the task.
  unfoldable pub fail_turn : TaskRecord → M Turn
  unfolding ◌>>=◌
  fail_turn rec = do
    mark_failed env cfg rec
    emit env (status failed error_message)
    pure (rec, true)

  unfoldable pub take_peer_turn : TaskRecord → ActionOutcome → M TaskRecord
  unfolding ◌>>=◌
  take_peer_turn rec o = do at ← ask env.now; pure (add_turn rec "peer" o.output at)

  -- A permitted intent was executed; `next` walks the intents behind it.
  unfoldable pub after_action :
      List PendingIntent → (TaskRecord → M Turn) → TaskRecord → Done → M Turn
  unfolding fail_turn take_peer_turn record_delegation ◌>>=◌
  after_action rest next rec (broke o e) =
      fail_turn (record (record_delegation rec o) { remaining_intents = [] })
  after_action rest next rec (fine o) =
      if o.parked
      then (do parked ← park_on_peer env cfg (record_delegation rec o) o rest; pure (parked, true))
      else if o.delegated
      then (do rec' ← take_peer_turn (record_delegation rec o) o; next rec')
      else next (record_delegation rec o)

  -- The switch on the classification of an intent.
  unfoldable pub dispatch :
      PendingIntent
      → List PendingIntent
      → (TaskRecord → M Turn)
      → TaskRecord
      → ResultKind
      → String
      → M Turn
  unfolding deny park_for_verdict after_action ◌>>=◌
  dispatch i rest next rec hard_deny token = deny rec
  dispatch i rest next rec escalate token = park_for_verdict rec i rest
  dispatch i rest next rec permit token = do
    d ← execute_action env cfg i.kind i.body i.target token
    after_action rest next rec d

  -- runIntents
  unfoldable pub run_intents : List PendingIntent → TaskRecord → M Turn
  unfolding dispatch ◌>>=◌
  run_intents [] rec = pure (rec, false)
  run_intents (i ∷ rest) rec = do
    c ← classify env cfg i.kind
    dispatch i rest (run_intents rest) rec c.kind c.approval_token
