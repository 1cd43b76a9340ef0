-- ===== src/Supervisor/Safety.antt =====
-- What an execution may do outside the process (core/supervisor/supervisor.go): every action goes
-- through the policy or through a human's approval.
use ai_solo_startup_framewor.Common.{
  String, false, ◌≡◌, refl, sym, ap, subst, ◌⊎◌, inl, inr, List, [], ◌∷◌, ◌++◌, All, Bool-cases,
}
use ai_solo_startup_framewor.Policy.Laws.{Declared}
use ai_solo_startup_framewor.Port.{kind_delegate_task}
use ai_solo_startup_framewor.Task.{TaskRecord}
use ai_solo_startup_framewor.Supervisor.World.{
  ret, panic, stuck, Outcome, then_do, ◌>>=◌, emit, yield, mint_approval_token, Config, Env, Effect,
  ran, sent, delegated, polled, resubmitted, registered, resumed, World,
}
use ai_solo_startup_framewor.Supervisor.Resume.{resume_record, approve_resume, after_approved}
use ai_solo_startup_framewor.Supervisor.Execute.{ExecutorContext, execute}
use ai_solo_startup_framewor.Supervisor.Approval.{ByApproval, execute_action-ByApproval}
use ai_solo_startup_framewor.Supervisor.Keeps.{Closed}
use ai_solo_startup_framewor.Supervisor.Keeps.Tasks.{after_approved-Keeps, resume_record-branches}
use ai_solo_startup_framewor.Supervisor.Action.{Done}
use ai_solo_startup_framewor.Supervisor.Keeps.Executions.{
  new_task-Keeps, with_worker-Keeps, execute_new-Keeps,
}

-- Calls of the provider and reads of a peer are free; a message to the gateway or to a peer needs a
-- kind with `Granted`; nothing else happens during an execution.
abbrev pub Justified : (String → Type 0) → Effect → Type 0
Justified Granted (ran id input) = Unit
Justified Granted (polled role id) = Unit
Justified Granted (sent kind m) = Granted kind
Justified Granted (delegated role body) = Granted kind_delegate_task
Justified Granted (resubmitted id input) = ⊥
Justified Granted (registered id input) = ⊥
Justified Granted (resumed id input) = ⊥

-- The effects since `old`, all of them justified.
abbrev pub Since : (String → Type 0) → List Effect → World → Type 0
Since Granted old w = (new : List Effect) × (w.effects ≡ new ++ old) × All (Justified Granted) new

abbrev pub ByPolicy : Config → String → Type 0
ByPolicy cfg kind = Declared cfg.policies kind cfg.role false

-- The effects since `old`: first what the approval does, which only the input "approve" sets off,
-- and then effects that the policy grants.
abbrev pub ByVerdict : Config → TaskRecord → String → List Effect → World → Type 0
ByVerdict cfg rec input old w =
    (approved : List Effect) × ((approved ≡ []) ⊎ ((input ≡ "approve") × ByApproval rec approved))
    × Since (ByPolicy cfg) (approved ++ old) w

module _ (env : Env) (cfg : Config) (Granted : String → Type 0) (old : List Effect) where
  Since-Closed :
      ((kind : String) → ByPolicy cfg kind → Granted kind)
      → Closed env cfg (Since Granted old) (Justified Granted)
  Since-Closed grants = record {
    asked = λ w h. h;
    performed = λ e w ok h. (e ∷ h.0, ap (λ l. e ∷ l) h.1, (ok, h.2));
    told = λ w h. h;
    tokens = λ ts w h. h;
    watched = λ ws w h. h;
    yielded = λ e b w h. h;
    saved = λ rec w h. h;
    loaded = λ id w h. h;
    acts = λ kind d. record {
      sends = λ m. grants kind d;
      delegates = λ role body e. subst Granted e (grants kind d);
    };
    runs = λ id input. tt;
    polls = λ role id. tt;
  }

-- A new task, from its message to its end or park: every message that it sends and every task that
-- it delegates is of a kind that the policy declares for the role, and not as risky. It resubmits,
-- registers and resumes nothing.
pub execute_acts-ByPolicy :
    (env : Env) (cfg : Config) (ctx : ExecutorContext) (w : World)
    → ctx.stored ≡ false
    → Since (ByPolicy cfg) w.effects (execute env cfg ctx w).1
execute_acts-ByPolicy env cfg ctx w new =
    let closed = Since-Closed env cfg (ByPolicy cfg) w.effects (λ k d. d) in
    (execute_new-Keeps env cfg closed ctx
        (with_worker-Keeps env cfg closed (λ f w' h. h) _ (new_task-Keeps env cfg closed ctx _))
        new).at
      w ([], refl, tt)

module _ (env : Env) (cfg : Config) (rec : TaskRecord) (old : List Effect) where
  after_approved-ByVerdict :
      (r : Outcome Done) (w : World) (approved : List Effect)
      → ByApproval rec approved
      → w.effects ≡ approved ++ old
      → ByVerdict cfg rec "approve" old (then_do r (after_approved env cfg rec) w).1
  after_approved-ByVerdict (ret d) w approved a h = (
    approved,
    inr (refl, a),
    (after_approved-Keeps env cfg (Since-Closed env cfg (ByPolicy cfg) (approved ++ old) (λ k d. d))
          rec d).at
        w ([], h, tt),
  )
  after_approved-ByVerdict panic w approved a h = (approved, inr (refl, a), ([], h, tt))
  after_approved-ByVerdict stuck w approved a h = (approved, inr (refl, a), ([], h, tt))

approve_resume-ByVerdict :
    (env : Env) (cfg : Config) (rec : TaskRecord) (w : World)
    → ByVerdict cfg rec "approve" w.effects (approve_resume env cfg rec w).1
unfolding approve_resume emit yield mint_approval_token ◌>>=◌
approve_resume-ByVerdict env cfg rec w = elim (Bool-cases w.consumer_done) [
  | inl d ↦ rw d ([], inl refl, ([], refl, tt))
  | inr d ↦
      rw d
        let (approved, a, h) = execute_action-ByApproval env cfg rec _ _ in
          after_approved-ByVerdict env cfg rec w.effects _ _ approved a h
]

-- A resumed task: what it sends or delegates is declared for the role and not risky, but for one
-- effect at most, the first one. That one occurs only if the input was the approval, and it is the
-- pending intent of the record: a message of its kind with its body, or, if the intent is a
-- delegation, the delegation of its body to its target. The resumed task resubmits, registers and
-- resumes nothing.
pub resume_acts-ByVerdict :
    (env : Env) (cfg : Config) (rec : TaskRecord) (input : String) (w : World)
    → ByVerdict cfg rec input w.effects (resume_record env cfg rec input w).1
resume_acts-ByVerdict env cfg rec input w =
    let closed = Since-Closed env cfg (ByPolicy cfg) w.effects (λ k d. d) in
    elim (resume_record-branches env cfg closed rec input) [
      | inr k ↦ ([], inl refl, k.at w ([], refl, tt))
      | inl b ↦
          subst (λ m. ByVerdict cfg rec input w.effects (m w).1) (sym b.1)
            (rw b.0 (approve_resume-ByVerdict env cfg rec w))
    ]
