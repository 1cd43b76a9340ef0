-- ===== src/Fsm.antt =====
-- core/supervisor/state.go: the supervisor's lifecycle machine. Each method runs under the
-- machine's mutex, so a history of calls is a sequence of these steps.
pub mod Laws
use ai_solo_startup_framewor.Common.{ℕ, zero, suc, ◌-◌}

pub data State : Type 0 where
  starting idle working draining stopped recovering : State

pub record Fsm : Type 0 where
  pub state : State
  pub workers : ℕ

-- newFSM
unfoldable pub new_fsm : Fsm
new_fsm = record { state = State.starting; workers = 0 }

-- ready: STARTING or RECOVERING becomes IDLE.
ready_state : State → State
ready_state State.starting = State.idle
ready_state State.recovering = State.idle
ready_state s = s

unfoldable pub ready : Fsm → Fsm
unfolding ready_state
ready f = record f { state = ready_state f.state }

-- recover: IDLE becomes RECOVERING.
recover_state : State → State
recover_state State.idle = State.recovering
recover_state s = s

unfoldable pub recover : Fsm → Fsm
unfolding recover_state
recover f = record f { state = recover_state f.state }

-- taskStarted counts the worker; IDLE or RECOVERING becomes WORKING.
started_state : State → State
started_state State.idle = State.working
started_state State.recovering = State.working
started_state s = s

unfoldable pub task_started : Fsm → Fsm
unfolding started_state
task_started f = record { state = started_state f.state; workers = suc f.workers }

-- taskDone: the switch that runs when no worker is left.
last_done_state : State → State
last_done_state State.working = State.idle
last_done_state State.draining = State.stopped
last_done_state s = s

-- The counter's decrement is guarded by `workers > 0`; subtraction on ℕ stops at 0 likewise.
done_with : ℕ → State → Fsm
unfolding last_done_state
done_with zero s = record { state = last_done_state s; workers = 0 }
done_with (suc n) s = record { state = s; workers = suc n }

unfoldable pub task_done : Fsm → Fsm
unfolding done_with
task_done f = done_with (f.workers - 1) f.state

-- drain: IDLE becomes STOPPED, WORKING becomes DRAINING, nothing else moves.
drain_state : State → State
drain_state State.idle = State.stopped
drain_state State.working = State.draining
drain_state s = s

unfoldable pub drain : Fsm → Fsm
unfolding drain_state
drain f = record f { state = drain_state f.state }
