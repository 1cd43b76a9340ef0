-- ===== src/Fsm/Laws.antt =====
-- Histories of the lifecycle machine (core/supervisor/state.go).
use ai_solo_startup_framewor.Common.{
  ℕ, zero, suc, ◌+◌, ◌<◌, ◌≡◌, refl, ◌≢◌, ◌⊎◌, List, [], ◌∷◌, ◌++◌, arith,
}
use ai_solo_startup_framewor.Fsm.{State, Fsm, new_fsm}
use ai_solo_startup_framewor.Fsm

pub data Call : Type 0 where
  ready recover started done drain : Call

abbrev pub step : Fsm → Call → Fsm
step f ready = Fsm.ready f
step f recover = Fsm.recover f
step f started = Fsm.task_started f
step f done = Fsm.task_done f
step f drain = Fsm.drain f

abbrev pub run : Fsm → List Call → Fsm
run f [] = f
run f (c ∷ cs) = run (step f c) cs

-- A worker is only ever busy in WORKING or DRAINING, and there is one in either.
pub record IsSound (f : Fsm) : Type 0 where
  pub busy : 0 < f.workers → (f.state ≡ State.working) ⊎ (f.state ≡ State.draining)
  pub manned : (f.state ≡ State.working) ⊎ (f.state ≡ State.draining) → 0 < f.workers

-- The calls of a history in which a task starts only once the machine is serving: in IDLE, WORKING,
-- RECOVERING or DRAINING.
abbrev pub Serving : State → Type 0
Serving State.starting = ⊥
Serving State.stopped = ⊥
Serving _ = Unit

abbrev pub Orderly : Fsm → List Call → Type 0
Orderly f [] = Unit
Orderly f (started ∷ cs) = Serving f.state × Orderly (step f started) cs
Orderly f (c ∷ cs) = Orderly (step f c) cs

step-IsSound : (f : Fsm) (c : Call) → c ≢ started → IsSound f → IsSound (step f c)
unfolding Fsm.ready Fsm.recover Fsm.task_done Fsm.drain
step-IsSound f ready h v = grind arith
step-IsSound f recover h v = grind arith
step-IsSound f started h v = absurd (h refl)
step-IsSound f done h v = grind arith
step-IsSound f drain h v = grind arith

started-IsSound : (f : Fsm) → Serving f.state → IsSound f → IsSound (Fsm.task_started f)
unfolding Fsm.task_started
started-IsSound f h v = grind arith

-- A worker is busy exactly in WORKING and DRAINING, after any orderly history.
pub run-IsSound : (f : Fsm) (cs : List Call) → IsSound f → Orderly f cs → IsSound (run f cs)
run-IsSound f [] v o = v
run-IsSound f (started ∷ cs) v o = run-IsSound (step f started) cs (started-IsSound f o.0 v) o.1
run-IsSound f (ready ∷ cs) v o = run-IsSound (step f ready) cs (step-IsSound f ready (λ e. cc) v) o
run-IsSound f (recover ∷ cs) v o =
    run-IsSound (step f recover) cs (step-IsSound f recover (λ e. cc) v) o
run-IsSound f (done ∷ cs) v o = run-IsSound (step f done) cs (step-IsSound f done (λ e. cc) v) o
run-IsSound f (drain ∷ cs) v o = run-IsSound (step f drain) cs (step-IsSound f drain (λ e. cc) v) o

pub new_fsm-IsSound : IsSound new_fsm
unfolding new_fsm
new_fsm-IsSound = grind arith

-- The tasks left of `n` running ones when tasks start and end; once none is left, none is again.
abbrev pub left : ℕ → List Call → ℕ
left zero cs = zero
left (suc n) [] = suc n
left (suc n) (started ∷ cs) = left (suc (suc n)) cs
left (suc n) (done ∷ cs) = left n cs
left (suc n) (c ∷ cs) = left (suc n) cs

-- What a machine that was shut down is while `n` tasks are left.
abbrev pub drained : ℕ → State
drained zero = State.stopped
drained (suc n) = State.draining

-- STOPPED is final.
pub stopped_stays :
    (f : Fsm) (cs : List Call) → f.state ≡ State.stopped → (run f cs).state ≡ State.stopped
unfolding Fsm.ready Fsm.recover Fsm.task_started Fsm.task_done Fsm.drain
stopped_stays f [] h = h
stopped_stays f (c ∷ cs) h = stopped_stays (step f c) cs (stopped-step c)
  where
    stopped-step : (c : Call) → (step f c).state ≡ State.stopped
    stopped-step ready = ground arith
    stopped-step recover = ground arith
    stopped-step started = ground arith
    stopped-step done = ground arith
    stopped-step drain = ground arith

run-append : (f : Fsm) (cs ds : List Call) → run f (cs ++ ds) ≡ run (run f cs) ds
run-append f [] ds = refl
run-append f (c ∷ cs) ds = run-append (step f c) cs ds

abbrev times : ℕ → Call → List Call
times zero c = []
times (suc n) c = c ∷ times n c

early_starts :
    (n : ℕ) (f : Fsm)
    → f.state ≡ State.starting
    → ((run f (times n started)).state ≡ State.starting)
      × ((run f (times n started)).workers ≡ n + f.workers)
unfolding Fsm.task_started
early_starts zero f s = (s, omega arith)
early_starts (suc n) f s =
    let (s', w') = early_starts n (step f started) (ground arith) in (s', ground arith)

-- Start-up with tasks to recover: `recover` leaves STARTING alone, the tasks start in STARTING, and
-- `ready` then reports IDLE with all of them running, so that a shutdown reports STOPPED at once.
pub early_start_reports_idle :
    (n : ℕ)
    → let f = run new_fsm ((recover ∷ times n started) ++ ready ∷ []) in
      (f.state ≡ State.idle) × (f.workers ≡ n) × ((step f drain).state ≡ State.stopped)
unfolding new_fsm Fsm.recover Fsm.ready Fsm.drain
early_start_reports_idle n =
    let (s, w) = early_starts n (step new_fsm recover) refl in
    rw (run-append (step new_fsm recover) (times n started) (ready ∷ []))
      (ground arith, ground arith, ground arith)
