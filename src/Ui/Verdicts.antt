-- ===== src/Ui/Verdicts.antt =====
-- Which supervisor gets a verdict of the user interface (cmd/company/company_ui.go, cmd/company/wire.go).
use ai_solo_startup_framewor.Common.{
  ◌≤◌, String, Bool, true, Option, none, some, List, [], ◌∷◌, ◌≡◌, refl, sym, subst, inl, inr,
  arith, eq_iff, length, All, Bool-cases, Option-cases,
}
use ai_solo_startup_framewor.Task.{Protocol, TaskRecord}
use ai_solo_startup_framewor.Supervisor.Watchers.{is_input_required}
use ai_solo_startup_framewor.Ui.Adapter.{
  UiMessage, Called, Runtime, find_task, verdict_text, send_verdict, verdict_on, verdict_in,
  runtime_post_verdict,
}
use ai_solo_startup_framewor.Ui.Company.{
  Company, runtimes, verdict_id, task_with, post_found, post_listed, post_from, post_verdict,
}
use ai_solo_startup_framewor.Ui.Routing.{AnyOf}

module _ (encode : String → String) (protocol : Protocol) (c : Company) (id : String)
    (approve : Bool) where
  -- The message is this verdict on a task of this supervisor that waits for input and has this ID.
  pub record IsVerdict (m : UiMessage) (rt : Runtime) : Type 0 where
    pub addressed : m.agent ≡ rt.name
    pub named : verdict_id encode protocol c m.agent m.task_id ≡ id
    pub says : m.body ≡ verdict_text approve
    pub tasks : List TaskRecord
    pub listed : rt.tasks ≡ some tasks
    pub found : TaskRecord
    pub finds : find_task m.task_id tasks ≡ some found
    pub waits : is_input_required found.state ≡ true

  -- At most one message is sent, and it is such a verdict.
  pub record IsRouted (rts : List Runtime) (k : Called) : Type 0 where
    pub single : length k.messages ≤ 1
    pub each : All (λ m. AnyOf (IsVerdict m) rts) k.messages

  task_with-named :
      (agent task : String) (rs : List TaskRecord)
      → task_with encode protocol c id agent rs ≡ some task
      → verdict_id encode protocol c agent task ≡ id
  unfolding task_with
  task_with-named agent task [] h = cc
  task_with-named agent task (r ∷ rs) h = ground (
    arith,
    h,
    task_with-named agent task rs,
    eq_iff (verdict_id encode protocol c agent r.task_id) id,
  )

  verdict_on-IsRouted :
      (rt : Runtime) (rts : List Runtime) (task : String) (rs : List TaskRecord)
      → rt.tasks ≡ some rs
      → verdict_id encode protocol c rt.name task ≡ id
      → IsRouted (rt ∷ rts) (verdict_on rt task approve (find_task task rs))
  unfolding verdict_on send_verdict
  verdict_on-IsRouted rt rts task rs h n = elim (Option-cases (find_task task rs)) [
    | inl e ↦ rw e (record { single = omega arith; each = tt })
    | inr (r, e) ↦ rw e (elim (Bool-cases (is_input_required r.state)) [
      | inr f ↦ rw f (record { single = omega arith; each = tt })
      | inl f ↦ rw f (record {
        single = omega arith;
        each = (
          inl (record {
            addressed = refl;
            named = n;
            says = refl;
            tasks = rs;
            listed = h;
            found = r;
            finds = e;
            waits = f;
          }),
          tt,
        );
      })
    ])
  ]

  All-weaken :
      (rt : Runtime) (rts : List Runtime) (ms : List UiMessage)
      → All (λ m. AnyOf (IsVerdict m) rts) ms
      → All (λ m. AnyOf (IsVerdict m) (rt ∷ rts)) ms
  All-weaken rt rts [] h = tt
  All-weaken rt rts (m ∷ ms) h = (inr h.0, All-weaken rt rts ms h.1)

  post_found-IsRouted :
      (rt : Runtime) (rts : List Runtime) (rs : List TaskRecord) (o : Option String) (k : Called)
      → rt.tasks ≡ some rs
      → task_with encode protocol c id rt.name rs ≡ o
      → IsRouted rts k
      → IsRouted (rt ∷ rts) (post_found encode protocol c approve rt o k)
  unfolding post_found runtime_post_verdict verdict_in
  post_found-IsRouted rt rts rs none k h f rest = record {
    single = rest.single;
    each = All-weaken rt rts _ rest.each;
  }
  post_found-IsRouted rt rts rs (some task) k h f rest =
      subst (λ o. IsRouted (rt ∷ rts) (verdict_in rt task approve o)) (sym h)
        (verdict_on-IsRouted rt rts task rs h (task_with-named rt.name task rs f))

  post_listed-IsRouted :
      (rt : Runtime) (rts : List Runtime) (o : Option (List TaskRecord)) (k : Called)
      → rt.tasks ≡ o
      → IsRouted rts k
      → IsRouted (rt ∷ rts) (post_listed encode protocol c id approve rt o k)
  unfolding post_listed
  post_listed-IsRouted rt rts none k h rest = record { single = omega arith; each = tt }
  post_listed-IsRouted rt rts (some rs) k h rest =
      post_found-IsRouted rt rts rs (task_with encode protocol c id rt.name rs) k h refl rest

  post_from-IsRouted :
      (rts : List Runtime) → IsRouted rts (post_from encode protocol c id approve rts)
  unfolding post_from
  post_from-IsRouted [] = record { single = omega arith; each = tt }
  post_from-IsRouted (rt ∷ rts) =
      post_listed-IsRouted rt rts rt.tasks _ refl (post_from-IsRouted rts)

  -- A verdict that is posted for an ID is sent at most once, as the text of that verdict, to the
  -- supervisor of the company and on the task that this ID names, and only if that task waits for input.
  pub post_verdict-IsRouted : IsRouted (runtimes c) (post_verdict encode protocol c id approve)
  unfolding post_verdict
  post_verdict-IsRouted = post_from-IsRouted (runtimes c)
