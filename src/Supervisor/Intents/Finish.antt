-- ===== src/Supervisor/Intents/Finish.antt =====
-- The control intent is told apart from the actions (splitFinishTask of
-- core/supervisor/supervisor.go).
use ai_solo_startup_framewor.Common.{
  String, ◌≡◌, refl, Bool, true, false, not, Option, some, none, List, [], ◌∷◌, arith, ◌==◌,
  keep_if, All, if◌then◌else◌,
}
use ai_solo_startup_framewor.Port.{ActionIntent, kind_finish_task}
use ai_solo_startup_framewor.Supervisor.Intents.{
  extract_body, split_finish_task, to_pending_intents,
}

abbrev pub is_finish : ActionIntent → Bool
is_finish i = i.kind == kind_finish_task

-- The first finish_task of a turn.
abbrev pub first_finish : List ActionIntent → Option ActionIntent
first_finish [] = none
first_finish (i ∷ is) = if is_finish i then some i else first_finish is

abbrev pub answer_of : Option ActionIntent → String
answer_of none = ""
answer_of (some i) = extract_body i

abbrev pub is_some {ℓ} : {A : Type ℓ} → Option A → Bool
is_some none = false
is_some (some a) = true

actions_of :
    (is : List ActionIntent) → (split_finish_task is).actions ≡ keep_if (λ i. not (is_finish i)) is
unfolding split_finish_task
actions_of [] = refl
actions_of (i ∷ is) = ground (arith, actions_of is)

answer_first :
    (is : List ActionIntent)
    → ((split_finish_task is).answer ≡ answer_of (first_finish is))
      × ((split_finish_task is).finished ≡ is_some (first_finish is))
unfolding split_finish_task
answer_first [] = (refl, refl)
answer_first (i ∷ is) = ground (arith, answer_first is)

never_finish :
    (is : List ActionIntent)
    → All
        (λ p. (p.kind == kind_finish_task) ≡ false)
        (to_pending_intents (keep_if (λ i. not (is_finish i)) is))
unfolding to_pending_intents
never_finish [] = tt
never_finish (i ∷ is) = ground (arith, never_finish is)

-- The split keeps every action in its order, takes the answer of the first finish_task, which need
-- not exist, and leaves no finish_task among the intents that are classified and executed.
pub split_finish_task-keep_if :
    (is : List ActionIntent)
    → ((split_finish_task is).actions ≡ keep_if (λ i. not (is_finish i)) is)
      × ((split_finish_task is).answer ≡ answer_of (first_finish is))
      × ((split_finish_task is).finished ≡ is_some (first_finish is))
      × All
          (λ p. (p.kind == kind_finish_task) ≡ false)
          (to_pending_intents (split_finish_task is).actions)
split_finish_task-keep_if is =
    (actions_of is, (answer_first is).0, (answer_first is).1, rw (actions_of is) (never_finish is))
