-- ===== src/Supervisor/Keeps/Executions.antt =====
-- Execute keeps what the elementary steps keep, for new tasks and for resumed ones
-- (core/supervisor/supervisor.go).
use ai_solo_startup_framewor.Common.{
  String, Bool, true, false, ◌≡◌, Option, none, some, List, [], ◌∷◌,
}
use ai_solo_startup_framewor.Fsm.{Fsm}
use ai_solo_startup_framewor.Store
use ai_solo_startup_framewor.Task.{TaskRecord}
use ai_solo_startup_framewor.Supervisor.World.{
  Config, Env, Effect, World, Outcome, M, ret, panic, stuck, move_fsm, notify,
}
use ai_solo_startup_framewor.Supervisor.Resume.{resume_loaded, execute_resume}
use ai_solo_startup_framewor.Supervisor.FollowUp.{Seed, seeded, refused, seed_from, seed_follow_up}
use ai_solo_startup_framewor.Supervisor.Execute.{
  ExecutorContext, Message, message_text, announce, started, save_new, seeded_task, referring_task,
  new_task, submitted, with_worker, recover_panic, handle_panic, execute,
}
use ai_solo_startup_framewor.Supervisor.Keeps.{
  Keeps, Keeps-pure, Keeps-if, Keeps-emit, Keeps-raise, Acts, Closed, keeps_rules,
}
use ai_solo_startup_framewor.Supervisor.Keeps.Tasks.{execute_with_policy-Keeps, resume_record-Keeps}

module _ (env : Env) (cfg : Config) {P : World → Type 0} {Ok : Effect → Type 0}
    (closed : Closed env cfg P Ok) where
  announce-Keeps : (rec : TaskRecord) (go_on : Bool) → Keeps P (announce env cfg rec go_on)
  unfolding announce
  announce-Keeps rec true = execute_with_policy-Keeps env cfg closed rec
  announce-Keeps rec false = Keeps-pure tt

  started-Keeps : (rec : TaskRecord) (r : Store.Result (Unit {0})) → Keeps P (started env cfg rec r)
  unfolding started
  started-Keeps rec (Store.err e) = search keeps_rules
  started-Keeps rec (Store.ok u) = search (keeps_rules, announce-Keeps) depth 8

  save_new-Keeps : (rec : TaskRecord) → Keeps P (save_new env cfg rec)
  unfolding save_new
  save_new-Keeps rec = search (keeps_rules, started-Keeps) depth 8

  seeded_task-Keeps : (rec : TaskRecord) (s : Seed) → Keeps P (seeded_task env cfg rec s)
  unfolding seeded_task
  seeded_task-Keeps rec (seeded rec') = save_new-Keeps rec'
  seeded_task-Keeps rec (refused text) = search keeps_rules depth 8

  seed_from-Keeps :
      (rec : TaskRecord) (id : String) (r : Store.Result TaskRecord)
      → Keeps P (seed_from env cfg rec id r)
  unfolding seed_from
  seed_from-Keeps rec id (Store.ok prev) = search keeps_rules depth 8
  seed_from-Keeps rec id (Store.err Store.task_not_found) = Keeps-pure _
  seed_from-Keeps rec id (Store.err _) = Keeps-pure _

  seed_follow_up-Keeps :
      (rec : TaskRecord) (refs : List String) → Keeps P (seed_follow_up env cfg rec refs)
  unfolding seed_follow_up
  seed_follow_up-Keeps rec [] = Keeps-pure _
  seed_follow_up-Keeps rec (id ∷ []) = search (keeps_rules, seed_from-Keeps) depth 8
  seed_follow_up-Keeps rec (id ∷ j ∷ ids) = Keeps-pure _

  referring_task-Keeps :
      (rec : TaskRecord) (refs : List String) → Keeps P (referring_task env cfg rec refs)
  unfolding referring_task
  referring_task-Keeps rec [] = save_new-Keeps rec
  referring_task-Keeps rec (id ∷ ids) =
      search (keeps_rules, seed_follow_up-Keeps, seeded_task-Keeps) depth 8

  -- A new task: only what the policy permits the role acts.
  pub new_task-Keeps :
      (ctx : ExecutorContext) (m : Option Message) → Keeps P (new_task env cfg ctx m)
  unfolding new_task
  new_task-Keeps ctx none = Keeps-raise
  new_task-Keeps ctx (some m) = referring_task-Keeps _ m.reference_tasks

  handle_panic-Keeps : (r : Outcome (Unit {0})) → Keeps P (handle_panic env r)
  unfolding handle_panic
  handle_panic-Keeps (ret u) = record { at = λ w h. h }
  handle_panic-Keeps panic = record { at = λ w h. (Keeps-emit env cfg closed _).at w h }
  handle_panic-Keeps stuck = record { at = λ w h. h }

  pub recover_panic-Keeps : (m : M (Unit {0})) → Keeps P m → Keeps P (recover_panic env m)
  unfolding recover_panic
  recover_panic-Keeps m k = record {
    at = λ w h. (handle_panic-Keeps (m w).0).at (m w).1 (k.at w h);
  }

  module _ (any : (kind : String) → Acts Ok kind) where
    resume_loaded-Keeps :
        (input : String) (r : Store.Result TaskRecord) → Keeps P (resume_loaded env cfg input r)
    unfolding resume_loaded
    resume_loaded-Keeps input (Store.err e) = search keeps_rules
    resume_loaded-Keeps input (Store.ok rec) =
        resume_record-Keeps env cfg closed rec input (λ _. any _)

    -- A resume, where every kind may act.
    pub execute_resume-Keeps : (id input : String) → Keeps P (execute_resume env cfg id input)
    unfolding execute_resume
    execute_resume-Keeps id input = search (keeps_rules, resume_loaded-Keeps) depth 8

  module _ (ctx : ExecutorContext)
      (new : Keeps P (with_worker (new_task env cfg ctx ctx.message))) where
    submitted-Keeps : (go_on : Bool) → Keeps P (submitted env cfg ctx go_on)
    unfolding submitted
    submitted-Keeps true = new
    submitted-Keeps false = Keeps-pure tt

    -- Execute of a task that is not stored yet.
    pub execute_new-Keeps : ctx.stored ≡ false → Keeps P (execute env cfg ctx)
    unfolding execute
    execute_new-Keeps h =
        recover_panic-Keeps _
          (Keeps-if ctx.stored _ _ (λ e. cc) (λ _. search (keeps_rules, submitted-Keeps) depth 8))

    -- Execute of any task.
    pub execute-Keeps :
        Keeps P (with_worker (execute_resume env cfg ctx.task_id (message_text ctx.message)))
        → Keeps P (execute env cfg ctx)
    unfolding execute
    execute-Keeps resume =
        recover_panic-Keeps _ (
          Keeps-if ctx.stored _ _ (λ _. resume)
            (λ _. search (keeps_rules, submitted-Keeps) depth 8))

  -- A worker moves the lifecycle machine too.
  pub with_worker-Keeps :
      ((f : Fsm) (w : World) → P w → P (record w { fsm = f }))
      → (m : M (Unit {0})) → Keeps P m
      → Keeps P (with_worker m)
  unfolding with_worker move_fsm notify
  with_worker-Keeps moves m k = record {
    at = λ w h. closed.told _ (moves _ _ (k.at _ (closed.told _ (moves _ w h))));
  }
