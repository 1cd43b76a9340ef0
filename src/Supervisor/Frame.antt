-- ===== src/Supervisor/Frame.antt =====
-- What an execution leaves as it was (core/supervisor/supervisor.go): the worker count of the
-- lifecycle machine, and the records of other agents.
use ai_solo_startup_framewor.Common.{String, ◌≡◌, ◌≢◌, ◌∙◌, refl, ◌⊎◌, arith, ap, Option}
use ai_solo_startup_framewor.Fsm
use ai_solo_startup_framewor.Fsm.{Fsm, State}
use ai_solo_startup_framewor.Fsm.Laws.{IsSound}
use ai_solo_startup_framewor.Store.{Content, filename_for}
use ai_solo_startup_framewor.Store.Laws.{file}
use ai_solo_startup_framewor.Store.Isolation.{save-other, load-other}
use ai_solo_startup_framewor.Supervisor.World.{Config, Env, Effect, World, M, move_fsm, notify}
use ai_solo_startup_framewor.Supervisor.Execute.{ExecutorContext, with_worker, execute}
use ai_solo_startup_framewor.Supervisor.Keeps.{Keeps, Acts, Closed}
use ai_solo_startup_framewor.Supervisor.Keeps.Executions.{
  new_task-Keeps, with_worker-Keeps, execute-Keeps, execute_resume-Keeps,
}

abbrev Any : Effect → Type 0
Any e = Unit

Any-kind : (kind : String) → Acts Any kind
Any-kind kind = record { sends = λ m. tt; delegates = λ role body e. tt }

module _ (env : Env) (cfg : Config) (b : String) (c : Option Content)
    (apart : filename_for cfg.addr ≢ filename_for b) where
  other_file-Closed : Closed env cfg (λ w. file b w.disk ≡ c) Any
  other_file-Closed = record {
    asked = λ w h. h;
    performed = λ e w ok h. h;
    told = λ w h. h;
    tokens = λ ts w h. h;
    watched = λ ws w h. h;
    yielded = λ e d w h. h;
    saved = λ rec w h. save-other env.faults cfg.addr b apart rec w.disk ∙ h;
    loaded = λ id w h. load-other env.faults cfg.addr b apart id w.disk ∙ h;
    acts = λ kind d. Any-kind kind;
    runs = λ id input. tt;
    polls = λ role id. tt;
  }

-- Whatever a task does and however it ends, the file of every address whose file name differs from
-- that of the agent's own address is as it was.
pub execute_leaves_other_files :
    (env : Env) (cfg : Config) (ctx : ExecutorContext) (w : World) (b : String)
    → filename_for cfg.addr ≢ filename_for b
    → file b (execute env cfg ctx w).1.disk ≡ file b w.disk
execute_leaves_other_files env cfg ctx w b apart =
    let closed = other_file-Closed env cfg b (file b w.disk) apart in
    (execute-Keeps env cfg closed ctx
        (with_worker-Keeps env cfg closed (λ f w' h. h) _ (new_task-Keeps env cfg closed ctx _))
        (with_worker-Keeps env cfg closed (λ f w' h. h) _
          (execute_resume-Keeps env cfg closed Any-kind _ _))).at
      w refl

module _ (env : Env) (cfg : Config) (f : Fsm) where
  fsm-Closed : Closed env cfg (λ w. w.fsm ≡ f) Any
  fsm-Closed = record {
    asked = λ w h. h;
    performed = λ e w ok h. h;
    told = λ w h. h;
    tokens = λ ts w h. h;
    watched = λ ws w h. h;
    yielded = λ e d w h. h;
    saved = λ rec w h. h;
    loaded = λ id w h. h;
    acts = λ kind d. Any-kind kind;
    runs = λ id input. tt;
    polls = λ role id. tt;
  }

-- One start and one end of a worker.
abbrev pub worked : Fsm → Fsm
worked f = Fsm.task_done (Fsm.task_started f)

with_worker-fsm :
    (m : M (Unit {0})) (f : Fsm)
    → Keeps (λ w. w.fsm ≡ Fsm.task_started f) m
    → worked f ≡ f
    → Keeps (λ w. w.fsm ≡ f) (with_worker m)
unfolding with_worker move_fsm notify
with_worker-fsm m f k e = record {
  at = λ w h. ap Fsm.task_done (k.at _ (ap Fsm.task_started h)) ∙ e;
}

worked-IsSound :
    (f : Fsm)
    → IsSound f
    → (f.state ≡ State.idle) ⊎ ((f.state ≡ State.working) ⊎ (f.state ≡ State.draining))
    → worked f ≡ f
unfolding Fsm.task_done Fsm.task_started
worked-IsSound f v s = grind arith

-- An execution gives its worker back, also when the provider or the consumer panics: a sound
-- machine that is IDLE, WORKING or DRAINING is after it what it was before.
pub execute_returns_worker :
    (env : Env) (cfg : Config) (ctx : ExecutorContext) (w : World)
    → IsSound w.fsm
    → (w.fsm.state ≡ State.idle) ⊎ ((w.fsm.state ≡ State.working) ⊎ (w.fsm.state ≡ State.draining))
    → (execute env cfg ctx w).1.fsm ≡ w.fsm
execute_returns_worker env cfg ctx w v s =
    let inner = fsm-Closed env cfg (Fsm.task_started w.fsm) in
    let e = worked-IsSound w.fsm v s in
    (execute-Keeps env cfg (fsm-Closed env cfg w.fsm) ctx
        (with_worker-fsm _ w.fsm (new_task-Keeps env cfg inner ctx _) e)
        (with_worker-fsm _ w.fsm (execute_resume-Keeps env cfg inner Any-kind _ _) e)).at
      w refl
