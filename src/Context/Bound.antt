-- ===== src/Context/Bound.antt =====
-- What the cut transcript keeps, and how large it is (core/supervisor/context.go).
use Prim.Native.String.{len}
use mathlib.Core.List.{reverse, reverse-append, reverse-reverse, reverse-cons}
use ai_solo_startup_framewor.Common.{
  ℕ, zero, suc, ◌+◌, ◌-◌, ◌≤◌, ◌<◌, ◌≡◌, refl, ap, ◌∙◌, sym, List, [], ◌∷◌, ◌++◌, arith, length,
  length-append, drop, drop-length, Bool-cases, inl, inr, ltb, subst,
}
use ai_solo_startup_framewor.Port.{ContextMessage}
use ai_solo_startup_framewor.Context.{
  truncation_marker, total, walk, trimmed, assemble_bounded_context,
}

-- The first of the messages, if there is one, no longer fits.
abbrev pub Full : ℕ → ℕ → List ContextMessage → Type 0
Full room used [] = Unit
Full room used (m ∷ ms) = room < used + len m.content

total-append : (xs ys : List ContextMessage) → total (xs ++ ys) ≡ total xs + total ys
total-append [] ys = omega arith
total-append (x ∷ xs) ys = omega (arith, total-append xs ys)

total-reverse : (xs : List ContextMessage) → total (reverse xs) ≡ total xs
total-reverse [] = refl
total-reverse (x ∷ xs) =
    rw reverse-cons (omega (arith, total-append (reverse xs) (x ∷ []), total-reverse xs))

length-reverse : (xs : List ContextMessage) → length (reverse xs) ≡ length xs
length-reverse [] = refl
length-reverse (x ∷ xs) =
    rw reverse-cons (omega (arith, length-append (reverse xs) (x ∷ []), length-reverse xs))

-- The walk splits off the newest messages that fit, and as many as fit.
walk_splits :
    (room used : ℕ) (ms : List ContextMessage)
    → used ≤ room
    → (new old : List ContextMessage) × (ms ≡ new ++ old)
      × (length new ≡ walk room used ms)
      × (used + total new ≤ room)
      × Full room (used + total new) old
unfolding walk
walk_splits room used [] h = ([], [], refl, refl, omega arith, tt)
walk_splits room used (m ∷ ms) h = elim (Bool-cases (ltb room (used + len m.content))) [
  | inl full ↦ ([], m ∷ ms, refl, rw full, omega arith, ground arith)
  | inr fits ↦
      let (new, old, e, l, b, f) = walk_splits room (used + len m.content) ms (ground arith) in
      (
        m ∷ new,
        old,
        ap (λ r. m ∷ r) e,
        rw fits (ap suc l),
        omega arith,
        subst (λ u. Full room u old) (omega arith) f,
      )
]

abbrev room_of : ℕ → ℕ
room_of budget = budget - len truncation_marker

drop_to :
    (new old ms : List ContextMessage) (n : ℕ)
    → ms ≡ reverse old ++ reverse new
    → n ≡ length new
    → drop (length ms - n) ms ≡ reverse new
drop_to new old ms n e l = rw e (
    subst (λ k. drop k (reverse old ++ reverse new) ≡ reverse new)
      (omega (
        arith,
        l,
        length-append (reverse old) (reverse new),
        length-reverse new,
        length-reverse old,
      ))
      (drop-length (reverse old) (reverse new)))

-- A cut keeps the newest messages, in order, that fit beside the marker, and as many of them as
-- fit: with the next older message they would not.
pub trimmed-longest :
    (messages : List ContextMessage) (budget : ℕ)
    → (old new : List ContextMessage) × (messages ≡ old ++ new)
      × (trimmed messages budget ≡ new)
      × (total new ≤ budget - len truncation_marker)
      × Full (budget - len truncation_marker) (total new) (reverse old)
unfolding trimmed
trimmed-longest ms budget =
    let (new, old, e, l, b, f) = walk_splits (room_of budget) 0 (reverse ms) (omega arith) in
    let back : ms ≡ reverse old ++ reverse new =
      sym (reverse-reverse ms) ∙ ap reverse e ∙ reverse-append new old in
    (
      reverse old,
      reverse new,
      back,
      drop_to new old ms _ back (sym l),
      rw total-reverse (omega arith),
      rw (reverse-reverse, total-reverse)
          (subst (λ u. Full (room_of budget) u old) (omega arith) f),
    )

-- With room for the marker the assembled messages stay within a budget that is not 0.
pub assemble_bounded_context_bound :
    (messages : List ContextMessage) (budget : ℕ)
    → 0 < budget
    → len truncation_marker ≤ budget
    → total (assemble_bounded_context messages budget).messages ≤ budget
unfolding assemble_bounded_context
assemble_bounded_context_bound ms zero z h = absurd (omega arith)
assemble_bounded_context_bound [] (suc b) z h = omega arith
assemble_bounded_context_bound (m ∷ ms) (suc b) z h =
    let (old, new, e, t, fits, _) = trimmed-longest (m ∷ ms) (suc b) in
    ground (arith, ap total t, fits)

-- A budget below the marker's own length is exceeded whenever it cuts at all.
pub small_budget_overflows :
    (messages : List ContextMessage) (budget : ℕ)
    → 0 < budget
    → budget < len truncation_marker
    → budget < total messages
    → budget < total (assemble_bounded_context messages budget).messages
unfolding assemble_bounded_context
small_budget_overflows ms zero z h o = absurd (omega arith)
small_budget_overflows [] (suc b) z h o = absurd (omega arith)
small_budget_overflows (m ∷ ms) (suc b) z h o = ground arith
