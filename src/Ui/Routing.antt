-- ===== src/Ui/Routing.antt =====
-- Where the calls of the user interface go (cmd/company/company_ui.go).
use Prim.Native.Char.{Char, code}
use Prim.Native.String.{◌++◌ as ◌+s+◌}
use text.Mathlib.TextLemmas.{nil-append, cons-append}
use ai_solo_startup_framewor.Common.{
  String, Bool, true, false, none, some, List, [], ◌∷◌, ◌||◌, ◌≡◌, refl, sym, ap, ◌∙◌, ◌⊎◌, inl,
  inr, arith, eqb, eq_iff, Bool-cases, if◌then◌else◌,
}
use ai_solo_startup_framewor.Task.{Protocol, TaskRecord}
use ai_solo_startup_framewor.Ui.Adapter.{
  not_terminal, find_task, follow_up_on, follow_up_in, runtime_follow_up, ui_task,
}
use ai_solo_startup_framewor.Ui.Company.{
  Company, is_single, verdict_id, qualify, task_with, follow_found, follow_listed, follow_up,
}

abbrev pub AnyOf {ℓ} : {A : Type ℓ} → (A → Type 0) → List A → Type 0
AnyOf P [] = false ≡ true
AnyOf P (x ∷ xs) = P x ⊎ AnyOf P xs

abbrev pub is_dot : Char → Bool
is_dot c = eqb (code c) b'.'

-- The text has the delimiter of verdict IDs.
unfoldable pub has_dot : String → Bool
has_dot String.[] = false
has_dot (String.◌∷◌ c s) = is_dot c || has_dot s

dotted : String → String → String
dotted String.[] t = String.◌∷◌ "." t
dotted (String.◌∷◌ c s) t = String.◌∷◌ c (dotted s t)

dotted-append : (s t : String) → s +s+ ("." +s+ t) ≡ dotted s t
unfolding dotted
dotted-append String.[] t = nil-append _ ∙ cons-append "." "" t ∙ ap (String.◌∷◌ ".") (nil-append t)
dotted-append (String.◌∷◌ c s) t = cons-append c s _ ∙ ap (String.◌∷◌ c) (dotted-append s t)

tail : String → String
tail String.[] = ""
tail (String.◌∷◌ c s) = s

head : String → Char
head String.[] = "."
head (String.◌∷◌ c s) = c

dotted-injective :
    (s t u v : String)
    → has_dot s ≡ false
    → has_dot u ≡ false
    → dotted s t ≡ dotted u v
    → (s ≡ u) × (t ≡ v)
unfolding dotted has_dot tail head
dotted-injective String.[] t String.[] v h k e = (refl, ap tail e)
dotted-injective String.[] t (String.◌∷◌ d u) v h k e =
    ground (arith, k, ap (λ s. is_dot (head s)) e)
dotted-injective (String.◌∷◌ c s) t String.[] v h k e =
    ground (arith, h, ap (λ s. is_dot (head s)) e)
dotted-injective (String.◌∷◌ c s) t (String.◌∷◌ d u) v h k e =
    let r = dotted-injective s t u v (ground (arith, h)) (ground (arith, k)) (ap tail e) in
    (rw r.0 (ap (λ x. String.◌∷◌ x u) (ap head e)), r.1)

module _ (encode : String → String) (protocol : Protocol) (c : Company)
    (injective : (s t : String) → encode s ≡ encode t → s ≡ t)
    (plain : (s : String) → has_dot (encode s) ≡ false) where
  -- In a company of several agents the verdict ID determines the agent and the task, if base64url is
  -- injective and its texts have no dot.
  pub verdict_id-injective :
      (agent task other other_task : String)
      → is_single c.others ≡ false
      → verdict_id encode protocol c agent task ≡ verdict_id encode protocol c other other_task
      → (agent ≡ other) × (task ≡ other_task)
  unfolding verdict_id
  verdict_id-injective agent task other other_task m e =
      let f : dotted (encode agent) (encode task) ≡ dotted (encode other) (encode other_task) =
        sym (dotted-append (encode agent) (encode task))
        ∙ (rw m at e)
        ∙ dotted-append (encode other) (encode other_task) in
      let r = dotted-injective _ _ _ _ (plain agent) (plain other) f in
      (injective agent other r.0, injective task other_task r.1)

  verdict_id-task :
      (agent task other_task : String)
      → verdict_id encode protocol c agent task ≡ verdict_id encode protocol c agent other_task
      → task ≡ other_task
  unfolding verdict_id
  verdict_id-task agent task other_task e = elim (Bool-cases (is_single c.others)) [
    | inl s ↦ rw s at e
    | inr s ↦ (verdict_id-injective agent task agent other_task s e).1
  ]

  task_with-first :
      (agent task : String) (rs : List TaskRecord) (r : TaskRecord)
      → find_task task rs ≡ some r
      → task_with encode protocol c (verdict_id encode protocol c agent task) agent rs ≡ some task
  unfolding task_with find_task
  task_with-first agent task [] r h = cc
  task_with-first agent task (x ∷ rs) r h = ground (
    arith,
    h,
    task_with-first agent task rs r,
    eq_iff x.task_id task,
    eq_iff (verdict_id encode protocol c agent x.task_id) (verdict_id encode protocol c agent task),
    verdict_id-task agent x.task_id task,
  )

  -- The user interface offers a follow-up of a task of the CEO just where one is accepted: with the
  -- listed verdict ID it is accepted if the listed record says so, and is refused as not terminal
  -- otherwise. The record is the first of its task, and base64url is injective and has no dot.
  pub follow_up-mirrors :
      (text : String) (rs : List TaskRecord) (r : TaskRecord)
      → c.ceo.tasks ≡ some rs
      → find_task r.task_id rs ≡ some r
      → (follow_up encode protocol c
          (qualify encode protocol c true c.ceo.name (ui_task r)).verdict_id
          text).error
        ≡ (if (qualify encode protocol c true c.ceo.name (ui_task r)).can_follow_up
            then none
            else some not_terminal)
  unfolding follow_up follow_listed follow_found runtime_follow_up follow_up_in follow_up_on qualify
      ui_task
  follow_up-mirrors text rs r h f =
      ground (arith, h, f, task_with-first c.ceo.name r.task_id rs r f)
