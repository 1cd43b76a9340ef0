-- ===== src/Supervisor/Recovery.antt =====
-- RecoverOpenTasks of core/supervisor/supervisor.go: the open tasks of the store after a restart.
pub mod Partition
use ai_solo_startup_framewor.Common.{
  Bool, true, false, not, ◌&&◌, List, [], ◌∷◌, ◌==◌, keep_if, if◌then◌else◌,
}
use ai_solo_startup_framewor.Fsm
use ai_solo_startup_framewor.Store
use ai_solo_startup_framewor.Task.{TaskRecord}
use ai_solo_startup_framewor.Supervisor.World.{
  Config, Env, resubmitted, registered, M, pure, ◌>>=◌, ◌>>◌, perform, get_resumer, move_fsm,
  load_all,
}
use ai_solo_startup_framewor.Supervisor.Watchers.{is_input_required, arm_watcher}

-- filterInputRequiredTasks
unfoldable pub filter_input_required_tasks : List TaskRecord → List TaskRecord
filter_input_required_tasks rs = keep_if (λ r. is_input_required r.state) rs

-- handler.SendMessage for each task; a failed one does not stop the others.
unfoldable pub resubmit_all : List TaskRecord → M (Unit {0})
unfolding ◌>>=◌
resubmit_all [] = pure tt
resubmit_all (r ∷ rs) = do perform (resubmitted r.task_id r.input); resubmit_all rs

-- registerFn for each task.
unfoldable pub register_all : List TaskRecord → M (Unit {0})
unfolding ◌>>=◌
register_all [] = pure tt
register_all (r ∷ rs) = do perform (registered r.task_id r.input); register_all rs

unfoldable pub arm_one : TaskRecord → M (Unit {0})
arm_one r =
    if r.awaiting_peer_task_id == ""
    then pure tt
    else arm_watcher r.task_id r.awaiting_peer_role r.awaiting_peer_task_id

unfoldable pub arm_all : List TaskRecord → M (Unit {0})
unfolding arm_one ◌>>=◌
arm_all [] = pure tt
arm_all (r ∷ rs) = do arm_one r; arm_all rs

-- `if s.resumer != nil`
unfoldable pub arm_if_resumer : List TaskRecord → M (Unit {0})
unfolding arm_all ◌>>=◌
arm_if_resumer rs = do r ← get_resumer; if r then arm_all rs else pure tt

unfoldable pub recover_tasks : List TaskRecord → List TaskRecord → M (Unit {0})
unfolding resubmit_all register_all arm_if_resumer ◌>>=◌
recover_tasks [] [] = pure tt
recover_tasks working parked = do
  move_fsm Fsm.recover
  resubmit_all working
  register_all parked
  arm_if_resumer parked

module _ (env : Env) (cfg : Config) where
  -- filterWorkingTasks
  unfoldable pub filter_working_tasks : List TaskRecord → List TaskRecord
  filter_working_tasks rs =
      keep_if (λ r. not (env.protocol.terminal r.state) && not (is_input_required r.state)) rs

  unfoldable pub recover_loaded : Store.Result (List TaskRecord) → M Bool
  unfolding recover_tasks filter_working_tasks ◌>>=◌
  recover_loaded (Store.err e) = pure false
  recover_loaded (Store.ok rs) = do
    recover_tasks (filter_working_tasks rs) (filter_input_required_tasks rs)
    pure true

  -- RecoverOpenTasks; false is its error.
  unfoldable pub recover_open_tasks : M Bool
  unfolding recover_loaded ◌>>=◌
  recover_open_tasks = do r ← load_all env cfg; recover_loaded r
