-- ===== src/Supervisor/Keeps/Methods.antt =====
-- Every method below Execute keeps what the elementary steps keep (core/supervisor/supervisor.go).
use ai_solo_startup_framewor.Common.{
  String, Bool, true, false, ◌≡◌, refl, List, [], ◌∷◌, ◌==◌, eq_iff, if◌then◌else◌,
}
use ai_solo_startup_framewor.Common.Dict
use ai_solo_startup_framewor.Policy.{ResultKind, ClassificationResult, hard_deny, escalate, permit}
use ai_solo_startup_framewor.Policy.Laws.{Declared, classify_decides}
use ai_solo_startup_framewor.Port.{kind_delegate_task}
use ai_solo_startup_framewor.Task.{TaskRecord, PendingIntent}
use ai_solo_startup_framewor.Supervisor.World.{
  Config, Env, Effect, World, Outcome, DelegateAnswer, accepted, deadline, refused, M, ret, ◌>>=◌,
  classify, get_resumer, delegated,
}
use ai_solo_startup_framewor.Supervisor.Action.{
  ActionOutcome, Done, fine, broke, execute_action, route, execute_delegation, needs_resumer,
  after_delegate,
}
use ai_solo_startup_framewor.Supervisor.Watchers.{arm_watcher, stop_watcher, repark, park_on_peer}
use ai_solo_startup_framewor.Supervisor.Intents.{
  Turn, deny, park_for_verdict, fail_turn, take_peer_turn, run_intents, after_action, dispatch,
}
use ai_solo_startup_framewor.Supervisor.Keeps.{
  Keeps, Keeps-pure, Keeps-bind, Keeps-if, Acts, Closed, keeps_rules,
}

either_way :
    (P : World → Type 0) {A : Type 0} (b : Bool) (r s : Outcome A × World)
    → P r.1
    → P s.1
    → P (if b then r else s).1
either_way P true r s h k = h
either_way P false r s h k = k

module _ (env : Env) (cfg : Config) {P : World → Type 0} {Ok : Effect → Type 0}
    (closed : Closed env cfg P Ok) where
  get_resumer-Keeps : Keeps P get_resumer
  unfolding get_resumer
  get_resumer-Keeps = record { at = λ w h. h }

  needs_resumer-Keeps : (d : Done) → Keeps P (needs_resumer env d)
  unfolding needs_resumer
  needs_resumer-Keeps (broke o e) = search keeps_rules
  needs_resumer-Keeps (fine o) = search (keeps_rules, get_resumer-Keeps) depth 8

  after_delegate-Keeps : (role : String) (a : DelegateAnswer) → Keeps P (after_delegate env role a)
  unfolding after_delegate
  after_delegate-Keeps role (accepted res) = needs_resumer-Keeps _
  after_delegate-Keeps role deadline = search keeps_rules
  after_delegate-Keeps role refused = search keeps_rules

  execute_delegation-Keeps :
      (role body : String)
      → Ok (delegated role body)
      → Keeps P (execute_delegation env cfg role body)
  unfolding execute_delegation
  execute_delegation-Keeps role body ok = search (keeps_rules, after_delegate-Keeps) depth 12

  route-Keeps :
      (kind body target : String) → Acts Ok kind → Keeps P (route env cfg kind body target)
  unfolding route
  route-Keeps kind body target acts =
      Keeps-if (kind == kind_delegate_task) _ _
        (λ e.
          execute_delegation-Keeps target body (acts.delegates target body ((eq_iff kind _).0 e)))
        (λ e.
          Keeps-if cfg.has_gateway _ _ (λ g. search (keeps_rules, acts.sends) depth 12)
            (λ g. search keeps_rules))

  pub execute_action-Keeps :
      (kind body target token : String)
      → Acts Ok kind
      → Keeps P (execute_action env cfg kind body target token)
  unfolding execute_action
  execute_action-Keeps kind body target token acts = search (keeps_rules, route-Keeps) depth 12

  arm_watcher-Keeps : (id role peer : String) → Keeps P (arm_watcher id role peer)
  unfolding arm_watcher
  arm_watcher-Keeps id role peer = record {
    at = λ w h.
        either_way P {A = Unit {0}} w.watch_stopped (ret tt, w) _ h
          (closed.watched (Dict.put id (role, peer) w.watchers) w h);
  }

  pub stop_watcher-Keeps : (id : String) → Keeps P (stop_watcher id)
  unfolding stop_watcher
  stop_watcher-Keeps id = record { at = λ w h. closed.watched _ w h }

  pub repark-Keeps : (rec : TaskRecord) → Keeps P (repark env cfg rec)
  unfolding repark
  repark-Keeps rec = search (keeps_rules, arm_watcher-Keeps) depth 8

  pub park_on_peer-Keeps :
      (rec : TaskRecord) (o : ActionOutcome) (rest : List PendingIntent)
      → Keeps P (park_on_peer env cfg rec o rest)
  unfolding park_on_peer
  park_on_peer-Keeps rec o rest = search (keeps_rules, repark-Keeps) depth 8

  deny-Keeps : (rec : TaskRecord) → Keeps P (deny env cfg rec)
  unfolding deny
  deny-Keeps rec = search keeps_rules depth 8

  park_for_verdict-Keeps :
      (rec : TaskRecord) (i : PendingIntent) (rest : List PendingIntent)
      → Keeps P (park_for_verdict env cfg rec i rest)
  unfolding park_for_verdict
  park_for_verdict-Keeps rec i rest = search keeps_rules depth 8

  pub fail_turn-Keeps : (rec : TaskRecord) → Keeps P (fail_turn env cfg rec)
  unfolding fail_turn
  fail_turn-Keeps rec = search keeps_rules depth 8

  pub take_peer_turn-Keeps :
      (rec : TaskRecord) (o : ActionOutcome) → Keeps P (take_peer_turn env cfg rec o)
  unfolding take_peer_turn
  take_peer_turn-Keeps rec o = search keeps_rules depth 8

  after_action-Keeps :
      (rest : List PendingIntent) (next : TaskRecord → M Turn) (rec : TaskRecord) (d : Done)
      → ((r : TaskRecord) → Keeps P (next r))
      → Keeps P (after_action env cfg rest next rec d)
  unfolding after_action
  after_action-Keeps rest next rec (broke o e) k = fail_turn-Keeps _
  after_action-Keeps rest next rec (fine o) k =
      search (keeps_rules, park_on_peer-Keeps, take_peer_turn-Keeps, k) depth 12

  dispatch-Keeps :
      (i : PendingIntent) (rest : List PendingIntent) (next : TaskRecord → M Turn)
      (rec : TaskRecord) (kind : ResultKind) (token : String)
      → ((r : TaskRecord) → Keeps P (next r))
      → (kind ≡ permit → Acts Ok i.kind)
      → Keeps P (dispatch env cfg i rest next rec kind token)
  unfolding dispatch
  dispatch-Keeps i rest next rec hard_deny token k acts = deny-Keeps rec
  dispatch-Keeps i rest next rec escalate token k acts = park_for_verdict-Keeps rec i rest
  dispatch-Keeps i rest next rec permit token k acts =
      Keeps-bind _ _ (execute_action-Keeps i.kind i.body i.target token (acts refl))
        (λ d. after_action-Keeps rest next rec d k)

  -- What follows a classification may use that a permit is one by the policy.
  classify-Keeps :
      {A : Type 0} (kind : String) (f : ClassificationResult → M A)
      → ((c : ClassificationResult)
          → (c.kind ≡ permit → Declared cfg.policies kind cfg.role false)
          → Keeps P (f c))
      → Keeps P (classify env cfg kind >>= f)
  unfolding classify ◌>>=◌
  classify-Keeps kind f k = record {
    at = λ w h.
        let token = env.random_token w.questions in
        (k _ ((classify_decides cfg.policies kind cfg.role token w.issued).0.0)).at _
          (closed.tokens _ _ (closed.asked w h));
  }

  -- The walk over a turn's intents: only permitted kinds act.
  pub run_intents-Keeps :
      (intents : List PendingIntent) (rec : TaskRecord) → Keeps P (run_intents env cfg intents rec)
  unfolding run_intents
  run_intents-Keeps [] rec = Keeps-pure _
  run_intents-Keeps (i ∷ rest) rec = classify-Keeps i.kind _ λ c declared.
      dispatch-Keeps i rest (run_intents env cfg rest) rec c.kind c.approval_token
        (run_intents-Keeps rest) (λ e. closed.acts i.kind (declared e))
