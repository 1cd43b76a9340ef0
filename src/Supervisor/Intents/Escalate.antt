-- ===== src/Supervisor/Intents/Escalate.antt =====
-- A risky intent is parked for a human verdict (runIntents of core/supervisor/supervisor.go).
use ai_solo_startup_framewor.Common.{
  String, false, ◌==◌, ◌&&◌, ◌≡◌, refl, ap, ◌∙◌, true, List, ◌∷◌, Bool-cases, inl, inr,
  if◌then◌else◌,
}
use ai_solo_startup_framewor.Policy
use ai_solo_startup_framewor.Policy.{ResultKind}
use ai_solo_startup_framewor.Policy.Laws.{Declared, is_permit, classify_decides}
use ai_solo_startup_framewor.Store
use ai_solo_startup_framewor.Store.{Faults}
use ai_solo_startup_framewor.Store.Laws.{is_ok}
use ai_solo_startup_framewor.Store.Saved.{load-saved}
use ai_solo_startup_framewor.Task.{TaskRecord, PendingIntent, input_required}
use ai_solo_startup_framewor.Supervisor.World.{
  Config, Env, Event, World, pure, ◌>>=◌, ◌>>◌, classify, load, save, save_and_notify, notify, emit,
  yield,
}
use ai_solo_startup_framewor.Supervisor.Intents.{
  Turn, escalated_record, park_for_verdict, dispatch, run_intents,
}

module _ (env : Env) (cfg : Config) where
  emit_last :
      (e : Event) (t : Turn) (w : World)
      → let w' = ((emit env e >> pure t) w).1 in
        (w'.effects ≡ w.effects) × (w'.issued ≡ w.issued) × (w'.disk ≡ w.disk)
  unfolding emit yield ◌>>=◌
  emit_last e t w = elim (Bool-cases w.consumer_done) [
    | inl d ↦ rw d (refl, refl, refl)
    | inr d ↦ rw d (refl, refl, refl)
  ]

  -- The disk after a risky intent is that after the save of the record that is parked on it.
  run_intents-escalated :
      (i : PendingIntent) (rest : List PendingIntent) (rec : TaskRecord) (w : World)
      → Declared cfg.policies i.kind cfg.role true
      → let w' = (run_intents env cfg (i ∷ rest) rec w).1 in
        (w'.effects ≡ w.effects)
        × (w'.issued ≡ w.issued)
        × (w'.disk
            ≡ (Store.save env.faults cfg.addr (escalated_record env cfg rec i rest) w.disk).1)
  unfolding run_intents dispatch park_for_verdict classify save save_and_notify notify ◌>>=◌
  run_intents-escalated i rest rec w d =
      let c =
        classify_decides cfg.policies i.kind cfg.role (env.random_token w.questions) w.issued in
      let k = c.1.1 d in
      let s =
        c.3
        ∙ ap
            (λ x.
              if is_permit x then Policy.mint (env.random_token w.questions) w.issued else w.issued)
            k in
      let (e, t, f) = emit_last _ _ _ in rw k (e, t ∙ s, f)

  -- An intent that the policy declares for the role and as risky is not executed, nor is any behind
  -- it: nothing is sent or delegated and no token is issued. If the record can be saved, Load returns
  -- it afterwards in INPUT_REQUIRED, with the kind, the body and the target of this intent as pending
  -- and with all the intents behind it as remaining. Every other task loads as before, and so does
  -- this one if the save fails. The loads are those whose own read succeeds.
  pub run_intents-escalated_record :
      (i : PendingIntent) (rest : List PendingIntent) (rec : TaskRecord) (w : World) (id : String)
      (reads : Faults)
      → Declared cfg.policies i.kind cfg.role true
      → let w' = (run_intents env cfg (i ∷ rest) rec w).1 in
        let parked : TaskRecord = record rec {
          state = input_required;
          pending_intent_kind = i.kind;
          pending_intent_body = i.body;
          pending_intent_target = i.target;
          remaining_intents = rest;
        } in
        reads w.disk.ops ≡ false
        → reads w'.disk.ops ≡ false
        → (w'.effects ≡ w.effects)
          × (w'.issued ≡ w.issued)
          × ((Store.load reads cfg.addr id w'.disk).0 ≡ (
              if is_ok (Store.save env.faults cfg.addr parked w.disk).0 && (rec.task_id == id)
              then Store.ok parked
              else (Store.load reads cfg.addr id w.disk).0))
  unfolding escalated_record
  run_intents-escalated_record i rest rec w id reads d before after =
      let (e, t, f) = run_intents-escalated i rest rec w d in
      let saved = escalated_record env cfg rec i rest in
      let readable : reads (Store.save env.faults cfg.addr saved w.disk).1.ops ≡ false =
        rw (← f) after in
      (e, t, rw f (load-saved env.faults cfg.addr saved w.disk id reads before readable))
