-- ===== src/Supervisor/Total/Intents.antt =====
-- A walk over intents ends, and only appends to the transcript (runIntents of
-- core/supervisor/supervisor.go).
use ai_solo_startup_framewor.Common.{
  ℕ, sym, append-nil, ◌∙◌, Bool-cases, inl, inr, String, Bool, true, false, ◌≡◌, refl, List, [],
  ◌∷◌, ◌==◌, if◌then◌else◌,
}
use ai_solo_startup_framewor.Policy.{ResultKind, hard_deny, escalate, permit}
use ai_solo_startup_framewor.Task.{TaskRecord, PendingIntent, add_turn}
use ai_solo_startup_framewor.Task.Rounds.{Grown, Grown-refl, Grown-trans}
use ai_solo_startup_framewor.Supervisor.World.{
  Config, Env, DelegateAnswer, accepted, deadline, refused, World, Outcome, M,
}
use ai_solo_startup_framewor.Supervisor.Action.{
  ActionOutcome, Done, fine, broke, needs_resumer, after_delegate, execute_delegation, route,
  execute_action,
}
use ai_solo_startup_framewor.Supervisor.Watchers.{arm_watcher, repark, park_on_peer, park_record}
use ai_solo_startup_framewor.Supervisor.Intents.{
  Turn, deny, park_for_verdict, fail_turn, take_peer_turn, record_delegation, after_action,
  dispatch, run_intents,
}
use ai_solo_startup_framewor.Supervisor.Total.{
  Total, Ends, Anything, Total-pure, Total-bind, Total-step, Total-two, Total-weaken, Total-if,
  Total-emit, Total-save_and_notify, Total-mark_failed, Total-ask, Total-classify, total_rules,
}

-- Records whose transcripts agree.
pub same-turns :
    (rec rec' : TaskRecord)
    → rec'.turns ≡ rec.turns
    → rec'.base_turns ≡ rec.base_turns
    → rec'.task_id ≡ rec.task_id
    → Grown rec rec'
same-turns rec rec' t b i = record {
  more = [];
  turns = t ∙ sym (append-nil rec.turns);
  base = b;
  id = i;
}

pub add_turn-Grown :
    (rec : TaskRecord) (role content : String) (at : ℕ) → Grown rec (add_turn rec role content at)
unfolding add_turn
add_turn-Grown rec role content at = record { more = _; turns = refl; base = refl; id = refl }

pub record_delegation-Grown :
    (rec : TaskRecord) (o : ActionOutcome) → Grown rec (record_delegation rec o)
unfolding record_delegation
record_delegation-Grown rec o = elim (Bool-cases (o.peer_task_id == "")) [
  | inl e ↦ rw e (Grown-refl rec)
  | inr e ↦ rw e (same-turns rec _ refl refl refl)
]

regrow :
    {rec r : TaskRecord} (m : M Turn)
    → Grown rec r
    → Total (λ t. Grown r t.0) m
    → Total (λ t. Grown rec t.0) m
regrow m g k = Total-weaken m k (λ t h. Grown-trans g h)

module _ (env : Env) (cfg : Config) where
  needs_resumer-Total : (d : Done) → Total Anything (needs_resumer env d)
  unfolding needs_resumer
  needs_resumer-Total (broke o e) = search total_rules
  needs_resumer-Total (fine o) = search total_rules depth 8

  after_delegate-Total :
      (role : String) (a : DelegateAnswer) → Total Anything (after_delegate env role a)
  unfolding after_delegate
  after_delegate-Total role (accepted res) = needs_resumer-Total _
  after_delegate-Total role deadline = search total_rules
  after_delegate-Total role refused = search total_rules

  execute_delegation-Total :
      (role body : String) → Total Anything (execute_delegation env cfg role body)
  unfolding execute_delegation
  execute_delegation-Total role body = search (total_rules, after_delegate-Total) depth 12

  route-Total : (kind body target : String) → Total Anything (route env cfg kind body target)
  unfolding route
  route-Total kind body target = search (total_rules, execute_delegation-Total) depth 12

  pub execute_action-Total :
      (kind body target token : String)
      → Total Anything (execute_action env cfg kind body target token)
  unfolding execute_action
  execute_action-Total kind body target token = search (total_rules, route-Total) depth 12

  either_way :
      {A : Type 0} (b : Bool) (r s : Outcome A × World)
      → Ends Anything r.0
      → Ends Anything s.0
      → Ends Anything (if b then r else s).0
  either_way true r s h k = h
  either_way false r s h k = k

  arm_watcher-Total : (id role peer : String) → Total Anything (arm_watcher id role peer)
  unfolding arm_watcher
  arm_watcher-Total id role peer = record {
    at = λ w. either_way {A = Unit {0}} w.watch_stopped _ _ tt tt;
  }

  pub repark-Total : (rec : TaskRecord) → Total Anything (repark env cfg rec)
  unfolding repark
  repark-Total rec = search (total_rules, arm_watcher-Total) depth 8

  pub park_on_peer-Total :
      (rec : TaskRecord) (o : ActionOutcome) (rest : List PendingIntent)
      → Total (Grown rec) (park_on_peer env cfg rec o rest)
  unfolding park_on_peer park_record
  park_on_peer-Total rec o rest =
      Total-step _ _ (repark-Total (park_record env cfg rec o rest))
        (λ _. Total-pure _ (same-turns rec (park_record env cfg rec o rest) refl refl refl))

  deny-Total : (rec : TaskRecord) → Total (λ t. Grown rec t.0) (deny env cfg rec)
  unfolding deny
  deny-Total rec =
      Total-two _ _ _ (Total-save_and_notify env cfg _) (Total-emit env _)
        (same-turns rec _ refl refl refl)

  park_for_verdict-Total :
      (rec : TaskRecord) (i : PendingIntent) (rest : List PendingIntent)
      → Total (λ t. Grown rec t.0) (park_for_verdict env cfg rec i rest)
  unfolding park_for_verdict
  park_for_verdict-Total rec i rest =
      Total-two _ _ _ (Total-save_and_notify env cfg _) (Total-emit env _)
        (same-turns rec _ refl refl refl)

  fail_turn-Total : (rec : TaskRecord) → Total (λ t. Grown rec t.0) (fail_turn env cfg rec)
  unfolding fail_turn
  fail_turn-Total rec =
      Total-two _ _ _ (Total-mark_failed env cfg _) (Total-emit env _) (Grown-refl rec)

  pub take_peer_turn-Total :
      (rec : TaskRecord) (o : ActionOutcome) → Total (Grown rec) (take_peer_turn env cfg rec o)
  unfolding take_peer_turn
  take_peer_turn-Total rec o =
      Total-step _ _ (Total-ask _) (λ at. Total-pure _ (add_turn-Grown rec "peer" o.output at))

  after_action-Total :
      (rest : List PendingIntent) (next : TaskRecord → M Turn) (rec : TaskRecord) (d : Done)
      → ((r : TaskRecord) → Total (λ t. Grown r t.0) (next r))
      → Total (λ t. Grown rec t.0) (after_action env cfg rest next rec d)
  unfolding after_action
  after_action-Total rest next rec (broke o e) k =
      regrow _
        (Grown-trans (record_delegation-Grown rec o)
          (same-turns (record_delegation rec o) _ refl refl refl))
        (fail_turn-Total _)
  after_action-Total rest next rec (fine o) k =
      Total-if o.parked _ _
        (λ _.
          Total-bind _ _ (park_on_peer-Total (record_delegation rec o) o rest)
            (λ r g. Total-pure _ (Grown-trans (record_delegation-Grown rec o) g)))
        (λ _.
          Total-if o.delegated _ _
            (λ _.
              Total-bind _ _ (take_peer_turn-Total (record_delegation rec o) o)
                (λ r g. regrow _ (Grown-trans (record_delegation-Grown rec o) g) (k r)))
            (λ _. regrow _ (record_delegation-Grown rec o) (k (record_delegation rec o))))

  dispatch-Total :
      (i : PendingIntent) (rest : List PendingIntent) (next : TaskRecord → M Turn)
      (rec : TaskRecord) (kind : ResultKind) (token : String)
      → ((r : TaskRecord) → Total (λ t. Grown r t.0) (next r))
      → Total (λ t. Grown rec t.0) (dispatch env cfg i rest next rec kind token)
  unfolding dispatch
  dispatch-Total i rest next rec hard_deny token k = deny-Total rec
  dispatch-Total i rest next rec escalate token k = park_for_verdict-Total rec i rest
  dispatch-Total i rest next rec permit token k =
      Total-step _ _ (execute_action-Total i.kind i.body i.target token)
        (λ d. after_action-Total rest next rec d k)

  pub run_intents-Total :
      (intents : List PendingIntent) (rec : TaskRecord)
      → Total (λ t. Grown rec t.0) (run_intents env cfg intents rec)
  unfolding run_intents
  run_intents-Total [] rec = Total-pure _ (Grown-refl rec)
  run_intents-Total (i ∷ rest) rec = Total-step _ _ (Total-classify env cfg i.kind) (λ c.
      dispatch-Total i rest (run_intents env cfg rest) rec c.kind c.approval_token
        (run_intents-Total rest))
