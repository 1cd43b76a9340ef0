-- ===== src/Supervisor/Recovery/Partition.antt =====
-- What becomes of every stored task when a supervisor starts (RecoverOpenTasks of
-- core/supervisor/supervisor.go).
use ai_solo_startup_framewor.Common.{
  ◌+◌, ◌≡◌, refl, sym, ap, ◌∙◌, Bool, true, false, List, [], ◌∷◌, ◌++◌, ◌==◌, map, arith, keep_if,
  length, Bool-cases, inl, inr, if◌then◌else◌,
}
use ai_solo_startup_framewor.Fsm
use ai_solo_startup_framewor.Store
use ai_solo_startup_framewor.Task.{TaskRecord, TaskState}
use ai_solo_startup_framewor.Supervisor.World.{
  Config, Env, Effect, resubmitted, registered, World, Outcome, ret, panic, stuck, then_do, M,
  ◌>>=◌, ◌>>◌, pure, perform, load_all, move_fsm, get_resumer,
}
use ai_solo_startup_framewor.Supervisor.Watchers.{is_input_required, arm_watcher}
use ai_solo_startup_framewor.Supervisor.Recovery.{
  filter_input_required_tasks, resubmit_all, register_all, arm_one, arm_all, arm_if_resumer,
  recover_tasks, filter_working_tasks, recover_loaded, recover_open_tasks,
}

abbrev pub resubmission : TaskRecord → Effect
resubmission r = resubmitted r.task_id r.input

abbrev pub registration : TaskRecord → Effect
registration r = registered r.task_id r.input

-- Effects are listed with the latest first.
abbrev pub after : List Effect → List Effect → List Effect
after [] old = old
after (e ∷ es) old = after es (e ∷ old)

resubmit_all-then :
    (rs : List TaskRecord) (next : M (Unit {0})) (w : World)
    → (resubmit_all rs >> next) w
      ≡ next (record w { effects = after (map resubmission rs) w.effects })
unfolding resubmit_all perform ◌>>=◌
resubmit_all-then [] next w = refl
resubmit_all-then (r ∷ rs) next w = resubmit_all-then rs next _

register_all-then :
    (rs : List TaskRecord) (next : M (Unit {0})) (w : World)
    → (register_all rs >> next) w
      ≡ next (record w { effects = after (map registration rs) w.effects })
unfolding register_all perform ◌>>=◌
register_all-then [] next w = refl
register_all-then (r ∷ rs) next w = register_all-then rs next _

arm_all-effects : (rs : List TaskRecord) (w : World) → (arm_all rs w).1.effects ≡ w.effects
unfolding arm_all arm_one arm_watcher ◌>>=◌
arm_all-effects [] w = refl
arm_all-effects (r ∷ rs) w = elim (Bool-cases (r.awaiting_peer_task_id == "")) [
  | inl e ↦ rw e (arm_all-effects rs w)
  | inr e ↦ elim (Bool-cases w.watch_stopped) [
    | inl s ↦ rw (e, s) (arm_all-effects rs _)
    | inr s ↦ rw (e, s) (arm_all-effects rs _)
  ]
]

arm_if-effects :
    (b : Bool) (rs : List TaskRecord) (w : World)
    → ((if b then arm_all rs else pure tt) w).1.effects ≡ w.effects
arm_if-effects true rs w = arm_all-effects rs w
arm_if-effects false rs w = refl

arm_if_resumer-effects :
    (rs : List TaskRecord) (w : World) → (arm_if_resumer rs w).1.effects ≡ w.effects
unfolding arm_if_resumer get_resumer ◌>>=◌
arm_if_resumer-effects rs w = arm_if-effects w.resumer rs w

after-append : (xs ys old : List Effect) → after (xs ++ ys) old ≡ after ys (after xs old)
after-append [] ys old = refl
after-append (x ∷ xs) ys old = after-append xs ys (x ∷ old)

abbrev re_entry : List TaskRecord → List TaskRecord → List Effect
re_entry working parked = map resubmission working ++ map registration parked

abbrev started_at : World → World
started_at w = record w { fsm = Fsm.recover w.fsm }

re_enter-effects :
    (working parked : List TaskRecord) (w : World)
    → ((move_fsm Fsm.recover
          >> (resubmit_all working >> (register_all parked >> arm_if_resumer parked)))
        w).1.effects
      ≡ after (re_entry working parked) w.effects
unfolding move_fsm ◌>>=◌
re_enter-effects working parked w =
    ap (λ o. o.1.effects)
      (resubmit_all-then working (register_all parked >> arm_if_resumer parked) (started_at w)
        ∙ register_all-then parked (arm_if_resumer parked) _)
    ∙ arm_if_resumer-effects parked _
    ∙ sym (after-append (map resubmission working) (map registration parked) w.effects)

recover_tasks-effects :
    (working parked : List TaskRecord) (w : World)
    → (recover_tasks working parked w).1.effects ≡ after (re_entry working parked) w.effects
unfolding recover_tasks
recover_tasks-effects [] [] w = refl
recover_tasks-effects [] (p ∷ ps) w = re_enter-effects [] (p ∷ ps) w
recover_tasks-effects (r ∷ rs) ps w = re_enter-effects (r ∷ rs) ps w

then_pure :
    (r : Outcome (Unit {0})) (b : Bool) (w : World)
    → (then_do r (λ u. pure b) w).1.effects ≡ w.effects
then_pure (ret u) b w = refl
then_pure panic b w = refl
then_pure stuck b w = refl

recovered-effects :
    (working parked : List TaskRecord) (w : World)
    → ((recover_tasks working parked >> pure true) w).1.effects
      ≡ after (re_entry working parked) w.effects
unfolding ◌>>=◌
recovered-effects working parked w =
    let r = recover_tasks working parked w in
    then_pure r.0 true r.1 ∙ recover_tasks-effects working parked w

module _ (env : Env) (cfg : Config) where
  parked_open : (s : TaskState) → is_input_required s ≡ true → env.protocol.terminal s ≡ false
  unfolding is_input_required
  parked_open TaskState.input_required h = env.protocol.input_required_is_open
  parked_open TaskState.submitted h = ground arith
  parked_open TaskState.working h = ground arith
  parked_open TaskState.completed h = ground arith
  parked_open TaskState.failed h = ground arith
  parked_open TaskState.rejected h = ground arith
  parked_open TaskState.canceled h = ground arith
  parked_open (TaskState.other t) h = ground arith

  split_three :
      (rs : List TaskRecord)
      → length (filter_working_tasks env cfg rs)
          + (length (filter_input_required_tasks rs)
              + length (keep_if (λ r. env.protocol.terminal r.state) rs))
        ≡ length rs
  unfolding filter_working_tasks filter_input_required_tasks is_input_required
  split_three [] = omega arith
  split_three (r ∷ rs) = ground (arith, split_three rs, parked_open r.state)

  -- When the stored tasks can be read, a start resubmits exactly those that are open and not waiting
  -- for input, once each and in their order, then registers exactly those that wait for input, and
  -- does nothing else outside the process. Together with the terminal tasks these are all tasks.
  pub recover_open_tasks-partition :
      (rs : List TaskRecord) (w : World)
      → (Store.load_all env.faults cfg.addr w.disk).0 ≡ Store.ok rs
      → let working = filter_working_tasks env cfg rs in
        let parked = filter_input_required_tasks rs in
        ((recover_open_tasks env cfg w).1.effects
          ≡ after (map resubmission working ++ map registration parked) w.effects)
        × (length working
              + (length parked + length (keep_if (λ r. env.protocol.terminal r.state) rs))
            ≡ length rs)
  unfolding recover_open_tasks recover_loaded load_all ◌>>=◌
  recover_open_tasks-partition rs w h = (
    rw h (
        recovered-effects (filter_working_tasks env cfg rs) (filter_input_required_tasks rs)
          (load_all env cfg w).1),
    split_three rs,
  )
