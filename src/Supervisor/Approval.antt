-- ===== src/Supervisor/Approval.antt =====
-- What the approval of a pending intent does outside the process (executeAction of
-- core/supervisor/supervisor.go).
use ai_solo_startup_framewor.Common.{
  String, ◌≡◌, ◌≢◌, refl, ◌⊎◌, inl, inr, List, [], ◌∷◌, ◌++◌, Bool-cases, eq_iff, ◌==◌, arith,
}
use ai_solo_startup_framewor.Policy
use ai_solo_startup_framewor.Port.{kind_delegate_task}
use ai_solo_startup_framewor.Task.{TaskRecord}
use ai_solo_startup_framewor.Supervisor.World.{
  ◌>>=◌, ask, perform, get_resumer, validate_token, DelegateAnswer, accepted, deadline, refused,
  Config, Env, Effect, sent, delegated, World,
}
use ai_solo_startup_framewor.Supervisor.Action.{
  Done, fine, broke, needs_resumer, after_delegate, execute_delegation, route, execute_action,
}

-- What the approval of a record's pending intent does outside: at most one effect, which executes
-- that intent, its body and its target included.
abbrev pub ByApproval : TaskRecord → List Effect → Type 0
ByApproval rec es =
    (es ≡ [])
    ⊎ ((rec.pending_intent_kind ≢ kind_delegate_task)
        × (es
            ≡ sent rec.pending_intent_kind
                (record { channel = "telegram"; body = rec.pending_intent_body })
              ∷ []))
    ⊎ ((rec.pending_intent_kind ≡ kind_delegate_task)
        × (es ≡ delegated rec.pending_intent_target rec.pending_intent_body ∷ []))

module _ (env : Env) where
  needs_resumer-effects : (d : Done) (w : World) → (needs_resumer env d w).1.effects ≡ w.effects
  unfolding needs_resumer get_resumer ◌>>=◌
  needs_resumer-effects (broke o e) w = refl
  needs_resumer-effects (fine o) w = ground arith

  after_delegate-effects :
      (role : String) (a : DelegateAnswer) (w : World)
      → (after_delegate env role a w).1.effects ≡ w.effects
  unfolding after_delegate
  after_delegate-effects role (accepted res) w = needs_resumer-effects _ w
  after_delegate-effects role deadline w = refl
  after_delegate-effects role refused w = refl

module _ (env : Env) (cfg : Config) where
  execute_delegation-effects :
      (role body : String) (w : World)
      → let es = (execute_delegation env cfg role body w).1.effects in
        (es ≡ w.effects) ⊎ (es ≡ delegated role body ∷ w.effects)
  unfolding execute_delegation perform ask ◌>>=◌
  execute_delegation-effects role body w = elim (Bool-cases cfg.has_delegator) [
    | inr d ↦ rw d (inl refl)
    | inl d ↦ elim (Bool-cases (role == "")) [
      | inl r ↦ rw (d, r) (inl refl)
      | inr r ↦ rw (d, r) (inr (after_delegate-effects env role _ _))
    ]
  ]

  -- What the routing of a record's pending intent does outside.
  route-ByApproval :
      (rec : TaskRecord) (w : World)
      → (approved : List Effect) × ByApproval rec approved
        × ((route env cfg rec.pending_intent_kind rec.pending_intent_body rec.pending_intent_target
              w).1.effects
            ≡ approved ++ w.effects)
  unfolding route perform ask ◌>>=◌
  route-ByApproval rec w = elim (Bool-cases (rec.pending_intent_kind == kind_delegate_task)) [
    | inl k ↦
        rw k elim (execute_delegation-effects rec.pending_intent_target rec.pending_intent_body w) [
          | inl e ↦ ([], inl refl, e)
          | inr e ↦ (_ ∷ [], inr (inr ((eq_iff _ kind_delegate_task).0 k, refl)), e)
        ]
    | inr k ↦ elim (Bool-cases cfg.has_gateway) [
      | inl g ↦
          rw (k, g)
            (
              _ ∷ [],
              inr (
                  inl (
                    λ e. ground (arith, e, k, eq_iff rec.pending_intent_kind kind_delegate_task),
                    refl,
                  )),
              refl,
            )
      | inr g ↦ rw (k, g) ([], inl refl, refl)
    ]
  ]

  pub execute_action-ByApproval :
      (rec : TaskRecord) (token : String) (w : World)
      → (approved : List Effect) × ByApproval rec approved
        × ((execute_action env cfg rec.pending_intent_kind rec.pending_intent_body
              rec.pending_intent_target token w).1.effects
            ≡ approved ++ w.effects)
  unfolding execute_action validate_token ◌>>=◌
  execute_action-ByApproval rec token w = elim (Bool-cases (Policy.validate token w.issued).0) [
    | inl v ↦ rw v (route-ByApproval rec _)
    | inr v ↦ rw v ([], inl refl, refl)
  ]
