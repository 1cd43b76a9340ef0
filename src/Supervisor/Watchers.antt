-- ===== src/Supervisor/Watchers.antt =====
-- The watchers of parked tasks (core/supervisor/watcher.go): the table of who is watched, parking a
-- task, and one round of a watcher's polling loop.
pub mod Wake
use Prim.Native.String.{◌++◌ as ◌+s+◌}
use ai_solo_startup_framewor.Common.{
  ℕ, String, Bool, true, false, not, ◌&&◌, Option, none, some, List, [], ◌==◌, if◌then◌else◌,
  length,
}
use ai_solo_startup_framewor.Common.Dict
use ai_solo_startup_framewor.Fsm
use ai_solo_startup_framewor.Store
use ai_solo_startup_framewor.Task.{TaskState, TaskRecord, PendingIntent, input_required}
use ai_solo_startup_framewor.Supervisor.World.{
  Config, Env, World, DelegationResult, polled, resumed, status, ret, M, pure, ◌>>=◌, ◌>>◌, ask,
  perform, get_resumer, notify, move_fsm, emit, save_and_notify, load,
}
use ai_solo_startup_framewor.Supervisor.Action.{ActionOutcome}

abbrev pub peer_update : String
peer_update = "peer-update"

abbrev pub peer_timeout : String
peer_timeout = "peer-wait-timeout"

-- armWatcher: it replaces an earlier watcher of the task, and starts none once they were cancelled.
unfoldable pub arm_watcher : String → String → String → M (Unit {0})
arm_watcher id role peer_id w =
    if w.watch_stopped
    then (ret tt, w)
    else (ret tt, record w { watchers = Dict.put id (role, peer_id) w.watchers })

-- stopWatcher
unfoldable pub stop_watcher : String → M (Unit {0})
stop_watcher id w = (ret tt, record w { watchers = Dict.remove id w.watchers })

-- cancelWatchers
unfoldable pub cancel_watchers : M (Unit {0})
cancel_watchers w = (ret tt, record w { watch_stopped = true; watchers = [] })

-- watcherCount
unfoldable pub watcher_count : World → ℕ
watcher_count w = length w.watchers

-- Shutdown
unfoldable pub shutdown : M (Unit {0})
unfolding cancel_watchers ◌>>=◌
shutdown = do cancel_watchers; move_fsm Fsm.drain; notify

unfoldable pub is_input_required : TaskState → Bool
is_input_required input_required = true
is_input_required s = false

-- The condition of parkedRecord on a record that was loaded.
unfoldable pub is_parked_on : String → TaskRecord → Bool
unfolding is_input_required
is_parked_on peer_id rec =
    is_input_required rec.state
    && (rec.awaiting_peer_task_id == peer_id)
    && (rec.pending_intent_kind == "")

unfoldable pub parked_of : String → Store.Result TaskRecord → Option TaskRecord
unfolding is_parked_on
parked_of peer_id (Store.err e) = none
parked_of peer_id (Store.ok rec) = if is_parked_on peer_id rec then some rec else none

unfoldable pub same_bool : Bool → Bool → Bool
same_bool true b = b
same_bool false b = not b

-- What the loop of watchPeer does after a tick: poll again later, or end.
pub data Watch : Type 0 where
  again stop : Watch

-- What a poll calls for: nothing, or a resume with this input.
pub data Verdict : Type 0 where
  wait : Verdict
  wake : String → Verdict

-- The tests of watchPeer: a resume is due when the peer is terminal or its escalation differs from
-- the record's; otherwise an escalated peer is waited for, and a running one until the deadline.
unfoldable pub verdict : Bool → Bool → Bool → Bool → Verdict
unfolding same_bool
verdict terminal escalated approval in_time =
    if not terminal && same_bool escalated approval
    then (if escalated then wait else if in_time then wait else wake peer_timeout)
    else wake peer_update

module _ (env : Env) (cfg : Config) where
  -- repark
  unfoldable pub repark : TaskRecord → M (Unit {0})
  unfolding arm_watcher ◌>>=◌
  repark rec = do
    save_and_notify env cfg (record rec { state = input_required })
    emit env (status input_required (some ("awaiting peer " +s+ rec.awaiting_peer_role)))
    arm_watcher rec.task_id rec.awaiting_peer_role rec.awaiting_peer_task_id

  -- The record that parkOnPeer parks.
  unfoldable pub park_record : TaskRecord → ActionOutcome → List PendingIntent → TaskRecord
  park_record rec o remaining = record rec {
    awaiting_peer_role = o.peer_role;
    awaiting_peer_task_id = o.peer_task_id;
    awaiting_peer_approval = o.peer_approval;
    remaining_intents = remaining;
  }

  -- parkOnPeer
  unfoldable pub park_on_peer : TaskRecord → ActionOutcome → List PendingIntent → M TaskRecord
  unfolding repark park_record ◌>>=◌
  park_on_peer rec o remaining = do
    repark (park_record rec o remaining)
    pure (park_record rec o remaining)

  -- parkedRecord
  unfoldable pub parked_record : String → String → M (Option TaskRecord)
  unfolding parked_of ◌>>=◌
  parked_record id peer_id = do r ← load env cfg id; pure (parked_of peer_id r)

  unfoldable pub deliver : String → Verdict → M Watch
  deliver id wait = pure again
  deliver id (wake input) = do
    perform (resumed id input)
    delivered ← ask (λ n. env.resume n id input)
    pure (if delivered then stop else again)

  unfoldable pub judge : String → DelegationResult → Option TaskRecord → M Watch
  unfolding deliver verdict ◌>>=◌
  judge id res none = pure stop
  judge id res (some rec) = do
    in_time ← ask env.before_deadline
    deliver id (
        verdict (env.protocol.terminal res.state) (is_input_required res.state)
          rec.awaiting_peer_approval in_time)

  unfoldable pub polled_state : String → String → Option DelegationResult → M Watch
  unfolding judge ◌>>=◌
  polled_state id peer_id none = pure again
  polled_state id peer_id (some res) = do rec ← parked_record id peer_id; judge id res rec

  unfoldable pub poll_peer : String → String → String → M Watch
  unfolding polled_state ◌>>=◌
  poll_peer id role peer_id = do
    perform (polled role peer_id)
    res ← ask (λ n. env.peer_task_state n role peer_id)
    polled_state id peer_id res

  -- One tick of watchPeer.
  unfoldable pub watch_tick : String → String → String → M Watch
  unfolding poll_peer ◌>>=◌
  watch_tick id role peer_id = do
    r ← get_resumer
    if cfg.has_delegator && r then poll_peer id role peer_id else pure stop
