-- ===== src/Policy/Laws.antt =====
-- What a classification and a token are worth (core/policy/engine.go, core/policy/token.go).
use ai_solo_startup_framewor.Common.{
  String, ◌≡◌, refl, ◌↔◌, Bool, true, false, some, [], ◌∷◌, arith, ◌==◌, eq_iff, contains,
  Option-cases, inl, inr, if◌then◌else◌,
}
use ai_solo_startup_framewor.Common.Dict.{Dict, lookup}
use ai_solo_startup_framewor.Policy.{Policy, ResultKind, Issued, mint, discard, validate, classify}

-- A kind is declared for the role, and with which risk.
pub record Declared (policies : Dict Policy) (kind role : String) (risky : Bool) : Type 0 where
  pub entry : Policy
  pub found : lookup kind policies ≡ some entry
  pub allowed : contains entry.allowed_roles role ≡ true
  pub risk : (entry.risk == "risky") ≡ risky

pub contains-discard : (t : String) (ts : Issued) → contains (discard t ts) t ≡ false
unfolding discard contains
contains-discard t [] = refl
contains-discard t (x ∷ ts) = ground (arith, contains-discard t ts)

pub contains-discard_ne :
    (t u : String) (ts : Issued) → (t == u) ≡ false → contains (discard t ts) u ≡ contains ts u
unfolding discard contains
contains-discard_ne t u [] h = refl
contains-discard_ne t u (x ∷ ts) h =
    ground (arith, contains-discard_ne t u ts, eq_iff x t, eq_iff x u, eq_iff t u)

-- A token is accepted exactly if it was issued, and is accepted once: after the question, whatever
-- its answer, the same token is refused, and every other is worth what it was worth before.
pub validate_once :
    (t u : String) (ts : Issued)
    → ((validate t ts).0 ≡ contains ts t)
      × ((validate u (validate t ts).1).0 ≡ (if t == u then false else (validate u ts).0))
unfolding validate
validate_once t u ts = ground (arith, contains-discard t ts, contains-discard_ne t u ts, eq_iff t u)

abbrev pub is_permit : ResultKind → Bool
is_permit ResultKind.permit = true
is_permit _ = false

-- Classification permits exactly the declared kinds that the role is allowed and that are not
-- risky, and escalates exactly those that are risky. It issues the drawn token on a permit, as the
-- result's token, and otherwise issues none.
pub classify_decides :
    (policies : Dict Policy) (kind role token : String) (ts : Issued)
    → let r = classify policies kind role token ts in
      ((r.0.kind ≡ ResultKind.permit) ↔ Declared policies kind role false)
      × ((r.0.kind ≡ ResultKind.escalate) ↔ Declared policies kind role true)
      × (r.0.approval_token ≡ (if is_permit r.0.kind then token else ""))
      × (r.1 ≡ (if is_permit r.0.kind then mint token ts else ts))
unfolding classify
classify_decides policies kind role token ts = elim (Option-cases (lookup kind policies)) [
  | inl e ↦ (
    (λ h. ground arith, λ d. ground arith),
    (λ h. ground arith, λ d. ground arith),
    ground arith,
    ground arith,
  )
  | inr (p, e) ↦ (
    (
      λ h. record { entry = p; found = e; allowed = ground arith; risk = ground arith },
      λ d. ground arith,
    ),
    (
      λ h. record { entry = p; found = e; allowed = ground arith; risk = ground arith },
      λ d. ground arith,
    ),
    ground arith,
    ground arith,
  )
]
