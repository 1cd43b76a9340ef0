-- ===== src/Task/Rounds.antt =====
-- Counting the rounds of a transcript that grows (TaskRecord.rounds of core/supervisor/supervisor.go).
use ai_solo_startup_framewor.Common.{
  ℕ, ◌+◌, ◌-◌, ◌≤◌, ◌<◌, ◌≡◌, refl, ap, ◌∙◌, sym, true, List, [], ◌∷◌, ◌++◌, arith, ◌==◌, length,
  length-append, drop, drop-append, ltb, append_assoc, append-nil, if◌then◌else◌,
}
use ai_solo_startup_framewor.Port.{ContextMessage}
use ai_solo_startup_framewor.Task.{TaskRecord, assistant_turns, rounds}

-- The record with more turns behind the old ones.
pub record Grown (rec rec' : TaskRecord) : Type 0 where
  pub more : List ContextMessage
  pub turns : rec'.turns ≡ rec.turns ++ more
  pub base : rec'.base_turns ≡ rec.base_turns
  pub id : rec'.task_id ≡ rec.task_id

-- The new turns begin with one of the provider.
pub record Advanced (rec rec' : TaskRecord) : Type 0 where
  pub answer : ContextMessage
  pub more : List ContextMessage
  pub by_provider : (answer.role == "assistant") ≡ true
  pub turns : rec'.turns ≡ rec.turns ++ answer ∷ more
  pub base : rec'.base_turns ≡ rec.base_turns

pub Grown-refl : (rec : TaskRecord) → Grown rec rec
Grown-refl rec = record { more = []; turns = sym (append-nil rec.turns); base = refl; id = refl }

pub Grown-trans : {a b c : TaskRecord} → Grown a b → Grown b c → Grown a c
Grown-trans {a} {b} {c} g h = record {
  more = g.more ++ h.more;
  turns = h.turns ∙ ap (λ t. t ++ h.more) g.turns ∙ append_assoc a.turns g.more h.more;
  base = h.base ∙ g.base;
  id = h.id ∙ g.id;
}

assistant_turns-append :
    (xs ys : List ContextMessage)
    → assistant_turns (xs ++ ys) ≡ assistant_turns xs + assistant_turns ys
unfolding assistant_turns
assistant_turns-append [] ys = omega arith
assistant_turns-append (x ∷ xs) ys = ground (arith, assistant_turns-append xs ys)

-- What is left of the loop: turns up to the inherited ones, and rounds up to the cap.
abbrev pub left : ℕ → TaskRecord → ℕ
left cap rec = (rec.base_turns - length rec.turns) + (cap - rounds rec)

rounds_within :
    (base : ℕ) (turns new : List ContextMessage)
    → base ≤ length turns
    → assistant_turns (drop base (turns ++ new))
      ≡ assistant_turns (drop base turns) + assistant_turns new
rounds_within base turns new h =
    ap assistant_turns (drop-append base turns new h) ∙ assistant_turns-append (drop base turns) new

answer_counts :
    (answer : ContextMessage) (more : List ContextMessage)
    → (answer.role == "assistant") ≡ true
    → 0 < assistant_turns (answer ∷ more)
unfolding assistant_turns
answer_counts answer more h = ground arith

abbrev counted : ℕ → List ContextMessage → ℕ
counted base turns = if ltb (length turns) base then 0 else assistant_turns (drop base turns)

abbrev left_of : ℕ → ℕ → List ContextMessage → ℕ
left_of cap base turns = (base - length turns) + (cap - counted base turns)

left_of-append :
    (cap base : ℕ) (turns : List ContextMessage) (answer : ContextMessage)
    (more : List ContextMessage)
    → (answer.role == "assistant") ≡ true
    → left_of cap base (turns ++ answer ∷ more) ≤ left_of cap base turns - 1
left_of-append cap base turns answer more h = ground (
  arith,
  length-append turns (answer ∷ more),
  rounds_within base turns (answer ∷ more),
  answer_counts answer more h,
)

left_of-eq : (cap : ℕ) (rec : TaskRecord) → left cap rec ≡ left_of cap rec.base_turns rec.turns
unfolding rounds
left_of-eq cap rec = refl

-- A round uses up one step of what is left.
pub left-Advanced :
    (cap : ℕ) (rec rec' : TaskRecord) → Advanced rec rec' → left cap rec' ≤ left cap rec - 1
left-Advanced cap rec rec' a =
    rw (left_of-eq cap rec, left_of-eq cap rec', a.base, a.turns)
      (left_of-append cap rec.base_turns rec.turns a.answer a.more a.by_provider)
