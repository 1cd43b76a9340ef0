-- ===== src/Supervisor/Execute.antt =====
-- Execute and Cancel, the entry points of the a2asrv runtime (core/supervisor/supervisor.go).
use ai_solo_startup_framewor.Common.{
  String, Bool, true, false, Option, none, some, List, [], ◌∷◌, ◌==◌, if◌then◌else◌,
}
use ai_solo_startup_framewor.Fsm
use ai_solo_startup_framewor.Store
use ai_solo_startup_framewor.Task.{TaskRecord, working, failed, canceled, new_record}
use ai_solo_startup_framewor.Supervisor.World.{
  Config, Env, Outcome, submitted_task, status, ret, panic, stuck, M, pure, ◌>>=◌, ◌>>◌, raise,
  notify, move_fsm, yield, emit, save, delete, mark_failed, error_message,
}
use ai_solo_startup_framewor.Supervisor.Watchers.{stop_watcher}
use ai_solo_startup_framewor.Supervisor.FollowUp.{Seed, seeded, refused, seed_follow_up}
use ai_solo_startup_framewor.Supervisor.Resume.{execute_with_policy, execute_resume}

-- a2a.Message: the text of each part, "" of one that is no text, and the tasks it refers to.
pub record Message : Type 0 where
  pub parts : List String
  pub reference_tasks : List String

-- a2asrv.ExecutorContext; `stored` holds if StoredTask is not nil.
pub record ExecutorContext : Type 0 where
  pub task_id : String
  pub context_id : String
  pub message : Option Message
  pub stored : Bool

unfoldable pub first_text : List String → String
first_text [] = ""
first_text (t ∷ ts) = if t == "" then first_text ts else t

-- messageText
unfoldable pub message_text : Option Message → String
unfolding first_text
message_text none = ""
message_text (some m) = first_text m.parts

unfoldable pub handle_panic : Env → Outcome (Unit {0}) → M (Unit {0})
handle_panic env (ret u) w = (ret tt, w)
handle_panic env panic w = (ret tt, (emit env (status failed error_message) w).1)
handle_panic env stuck w = (stuck, w)

-- The panic handler that Execute defers, which swallows a second panic.
unfoldable pub recover_panic : Env → M (Unit {0}) → M (Unit {0})
unfolding handle_panic
recover_panic env m w = let r = m w in handle_panic env r.0 r.1

unfoldable pub start_worker : M (Unit {0})
unfolding ◌>>=◌
start_worker = do move_fsm Fsm.task_started; notify

unfoldable pub end_worker : M (Unit {0})
unfolding ◌>>=◌
end_worker = do move_fsm Fsm.task_done; notify

-- A worker from taskStarted to the deferred taskDone, which runs on a panic too.
unfoldable pub with_worker : M (Unit {0}) → M (Unit {0})
unfolding start_worker end_worker
with_worker m w = let r = m (start_worker w).1 in (r.0, (end_worker r.1).1)

module _ (env : Env) (cfg : Config) where
  unfoldable pub announce : TaskRecord → Bool → M (Unit {0})
  announce rec true = execute_with_policy env cfg rec
  announce rec false = pure tt

  unfoldable pub started : TaskRecord → Store.Result (Unit {0}) → M (Unit {0})
  unfolding announce ◌>>=◌
  started rec (Store.err e) = emit env (status failed error_message)
  started rec (Store.ok u) = do notify; go_on ← yield env (status working none); announce rec go_on

  unfoldable pub save_new : TaskRecord → M (Unit {0})
  unfolding started ◌>>=◌
  save_new rec = do r ← save env cfg rec; started rec r

  unfoldable pub seeded_task : TaskRecord → Seed → M (Unit {0})
  unfolding save_new ◌>>=◌
  seeded_task rec (seeded rec') = save_new rec'
  seeded_task rec (refused text) = do
    mark_failed env cfg (record rec { output = text })
    emit env (status failed error_message)

  unfoldable pub referring_task : TaskRecord → List String → M (Unit {0})
  unfolding seeded_task ◌>>=◌
  referring_task rec [] = save_new rec
  referring_task rec (id ∷ ids) = do s ← seed_follow_up env cfg rec (id ∷ ids); seeded_task rec s

  -- The new task path; without a message `execCtx.Message.ReferenceTasks` panics.
  unfoldable pub new_task : ExecutorContext → Option Message → M (Unit {0})
  unfolding referring_task
  new_task ctx none = raise
  new_task ctx (some m) =
      referring_task
        (new_record ctx.task_id working (message_text (some m)) cfg.addr ctx.context_id)
        m.reference_tasks

  unfoldable pub submitted : ExecutorContext → Bool → M (Unit {0})
  unfolding new_task
  submitted ctx true = with_worker (new_task ctx ctx.message)
  submitted ctx false = pure tt

  unfoldable pub execute_body : ExecutorContext → M (Unit {0})
  unfolding submitted ◌>>=◌
  execute_body ctx =
      if ctx.stored
      then with_worker (execute_resume env cfg ctx.task_id (message_text ctx.message))
      else do go_on ← yield env submitted_task; submitted ctx go_on

  -- Execute
  unfoldable pub execute : ExecutorContext → M (Unit {0})
  unfolding execute_body
  execute ctx = recover_panic env (execute_body ctx)

  -- Cancel
  unfoldable pub cancel : ExecutorContext → M (Unit {0})
  unfolding ◌>>=◌
  cancel ctx = do
    stop_watcher ctx.task_id
    delete env cfg ctx.task_id
    emit env (status canceled none)
