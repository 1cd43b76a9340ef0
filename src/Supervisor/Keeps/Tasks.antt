-- ===== src/Supervisor/Keeps/Tasks.antt =====
-- The provider loop and the resumes keep what the elementary steps keep
-- (core/supervisor/supervisor.go).
use ai_solo_startup_framewor.Common.{
  ℕ, zero, suc, String, ◌≡◌, refl, ◌⊎◌, inl, inr, Bool-cases, Option, none, some, List, [], ◌∷◌,
  ◌==◌, eq_iff,
}
use ai_solo_startup_framewor.Port.{ContextMessage, ProviderResult}
use ai_solo_startup_framewor.Store
use ai_solo_startup_framewor.Task.{TaskRecord, PendingIntent}
use ai_solo_startup_framewor.Supervisor.World.{
  Config, Env, Effect, World, DelegationResult, RunAnswer, result, failure, panics, M,
}
use ai_solo_startup_framewor.Supervisor.Action.{ActionOutcome, Done, fine, broke}
use ai_solo_startup_framewor.Supervisor.Intents.{Turn}
use ai_solo_startup_framewor.Supervisor.Rounds.{
  take_turn, answered, run_round, complete, exhaust, saved_turn, continue_rounds, end_turn,
  after_round, run_rounds_with, run_rounds, run_mid_turn, fuel,
}
use ai_solo_startup_framewor.Supervisor.Resume.{
  seed_turns, execute_with_policy, mid_turn, finish_turn, fail_peer, release, peer_settled,
  peer_answered, resume_from_peer, re_execute, reject_resume, take_outcome, after_approved,
  approve_resume, resume_record,
}
use ai_solo_startup_framewor.Supervisor.Keeps.{
  Keeps, Keeps-pure, Keeps-bind, Keeps-out_of_fuel, Keeps-raise, Acts, Closed, keeps_rules,
}
use ai_solo_startup_framewor.Supervisor.Keeps.Methods.{
  execute_action-Keeps, stop_watcher-Keeps, repark-Keeps, park_on_peer-Keeps, fail_turn-Keeps,
  take_peer_turn-Keeps, run_intents-Keeps,
}

module _ (env : Env) (cfg : Config) {P : World → Type 0} {Ok : Effect → Type 0}
    (closed : Closed env cfg P Ok) where
  take_turn-Keeps : (rec : TaskRecord) (r : ProviderResult) → Keeps P (take_turn env cfg rec r)
  unfolding take_turn
  take_turn-Keeps rec r = search (keeps_rules, run_intents-Keeps) depth 8

  answered-Keeps : (rec : TaskRecord) (a : RunAnswer) → Keeps P (answered env cfg rec a)
  unfolding answered
  answered-Keeps rec (result r) = take_turn-Keeps rec r
  answered-Keeps rec failure = fail_turn-Keeps env cfg closed rec
  answered-Keeps rec panics = Keeps-raise

  run_round-Keeps : (rec : TaskRecord) → Keeps P (run_round env cfg rec)
  unfolding run_round
  run_round-Keeps rec = search (keeps_rules, answered-Keeps, closed.runs) depth 8

  complete-Keeps : (rec : TaskRecord) → Keeps P (complete env cfg rec)
  unfolding complete
  complete-Keeps rec = search keeps_rules depth 8

  exhaust-Keeps : (rec : TaskRecord) → Keeps P (exhaust env cfg rec)
  unfolding exhaust
  exhaust-Keeps rec = search keeps_rules depth 8

  module _ (next : TaskRecord → M (Unit {0})) (k : (r : TaskRecord) → Keeps P (next r)) where
    saved_turn-Keeps :
        (rec : TaskRecord) (r : Store.Result (Unit {0})) → Keeps P (saved_turn env cfg next rec r)
    unfolding saved_turn
    saved_turn-Keeps rec (Store.err e) = search keeps_rules depth 8
    saved_turn-Keeps rec (Store.ok u) = search (keeps_rules, exhaust-Keeps, k) depth 8

    continue_rounds-Keeps : (rec : TaskRecord) → Keeps P (continue_rounds env cfg next rec)
    unfolding continue_rounds
    continue_rounds-Keeps rec = search (keeps_rules, saved_turn-Keeps) depth 8

    end_turn-Keeps : (rec : TaskRecord) → Keeps P (end_turn env cfg next rec)
    unfolding end_turn
    end_turn-Keeps rec = search (keeps_rules, continue_rounds-Keeps, complete-Keeps) depth 8

    after_round-Keeps : (t : Turn) → Keeps P (after_round env cfg next t)
    unfolding after_round
    after_round-Keeps (rec, halted) = search (keeps_rules, end_turn-Keeps) depth 8

  run_rounds_with-Keeps : (f : ℕ) (rec : TaskRecord) → Keeps P (run_rounds_with env cfg f rec)
  unfolding run_rounds_with
  run_rounds_with-Keeps zero rec = Keeps-out_of_fuel
  run_rounds_with-Keeps (suc f) rec =
      Keeps-bind _ _ (run_round-Keeps rec)
        (after_round-Keeps (run_rounds_with env cfg f) (run_rounds_with-Keeps f))

  run_rounds-Keeps : (rec : TaskRecord) → Keeps P (run_rounds env cfg rec)
  unfolding run_rounds
  run_rounds-Keeps rec = run_rounds_with-Keeps (fuel env cfg rec) rec

  run_mid_turn-Keeps : (rec : TaskRecord) → Keeps P (run_mid_turn env cfg rec)
  unfolding run_mid_turn
  run_mid_turn-Keeps rec = end_turn-Keeps _ (λ r. run_rounds_with-Keeps (fuel env cfg r) r) rec

  seed_turns-Keeps :
      (ts : List ContextMessage) (rec : TaskRecord) → Keeps P (seed_turns env cfg ts rec)
  unfolding seed_turns
  seed_turns-Keeps [] rec = search keeps_rules depth 8
  seed_turns-Keeps (t ∷ ts) rec = Keeps-pure _

  pub execute_with_policy-Keeps : (rec : TaskRecord) → Keeps P (execute_with_policy env cfg rec)
  unfolding execute_with_policy
  execute_with_policy-Keeps rec = search (keeps_rules, seed_turns-Keeps, run_rounds-Keeps) depth 8

  mid_turn-Keeps : (t : Turn) → Keeps P (mid_turn env cfg t)
  unfolding mid_turn
  mid_turn-Keeps (rec, halted) = search (keeps_rules, run_mid_turn-Keeps) depth 8

  finish_turn-Keeps :
      (rec : TaskRecord) (rest : List PendingIntent) → Keeps P (finish_turn env cfg rec rest)
  unfolding finish_turn
  finish_turn-Keeps rec rest = search (keeps_rules, run_intents-Keeps, mid_turn-Keeps) depth 8

  fail_peer-Keeps : (rec : TaskRecord) → Keeps P (fail_peer env cfg rec)
  unfolding fail_peer
  fail_peer-Keeps rec = search (keeps_rules, stop_watcher-Keeps) depth 8

  release-Keeps : (rec : TaskRecord) (o : ActionOutcome) → Keeps P (release env cfg rec o)
  unfolding release
  release-Keeps rec o = search (keeps_rules, stop_watcher-Keeps, finish_turn-Keeps) depth 12

  peer_settled-Keeps :
      (rec : TaskRecord) (input : String) (d : Done) → Keeps P (peer_settled env cfg rec input d)
  unfolding peer_settled
  peer_settled-Keeps rec input (broke o e) = fail_peer-Keeps rec
  peer_settled-Keeps rec input (fine o) =
      search (keeps_rules, fail_peer-Keeps, repark-Keeps, release-Keeps) depth 8

  peer_answered-Keeps :
      (rec : TaskRecord) (input : String) (r : Option DelegationResult)
      → Keeps P (peer_answered env cfg rec input r)
  unfolding peer_answered
  peer_answered-Keeps rec input none = repark-Keeps env cfg closed rec
  peer_answered-Keeps rec input (some res) = peer_settled-Keeps rec input _

  resume_from_peer-Keeps :
      (rec : TaskRecord) (input : String) → Keeps P (resume_from_peer env cfg rec input)
  unfolding resume_from_peer
  resume_from_peer-Keeps rec input =
      search (keeps_rules, peer_answered-Keeps, fail_peer-Keeps, closed.polls) depth 8

  re_execute-Keeps : (rec : TaskRecord) → Keeps P (re_execute env cfg rec)
  unfolding re_execute
  re_execute-Keeps rec = search (keeps_rules, execute_with_policy-Keeps) depth 8

  pub reject_resume-Keeps : (rec : TaskRecord) → Keeps P (reject_resume env cfg rec)
  unfolding reject_resume
  reject_resume-Keeps rec = search keeps_rules depth 8

  take_outcome-Keeps : (rec : TaskRecord) (o : ActionOutcome) → Keeps P (take_outcome env cfg rec o)
  unfolding take_outcome
  take_outcome-Keeps rec o = search (keeps_rules, take_peer_turn-Keeps) depth 8

  pub after_approved-Keeps : (rec : TaskRecord) (d : Done) → Keeps P (after_approved env cfg rec d)
  unfolding after_approved
  after_approved-Keeps rec (broke o e) = search keeps_rules depth 8
  after_approved-Keeps rec (fine o) =
      search (keeps_rules, park_on_peer-Keeps, take_outcome-Keeps, finish_turn-Keeps) depth 8

  approve_resume-Keeps :
      (rec : TaskRecord) → Acts Ok rec.pending_intent_kind → Keeps P (approve_resume env cfg rec)
  unfolding approve_resume
  approve_resume-Keeps rec acts =
      search (keeps_rules, execute_action-Keeps, after_approved-Keeps) depth 12

  -- A resume: but for the approval of a pending intent, every branch keeps `P`.
  pub resume_record-branches :
      (rec : TaskRecord) (input : String)
      → ((input ≡ "approve") × (resume_record env cfg rec input ≡ approve_resume env cfg rec))
        ⊎ Keeps P (resume_record env cfg rec input)
  unfolding resume_record
  resume_record-branches rec input = elim (Bool-cases (rec.awaiting_peer_task_id == "")) [
    | inr a ↦ inr (rw a (resume_from_peer-Keeps rec input))
    | inl a ↦ elim (Bool-cases (rec.pending_intent_kind == "")) [
      | inl k ↦ inr (rw (a, k) (re_execute-Keeps rec))
      | inr k ↦ elim (Bool-cases (input == "approve")) [
        | inl v ↦ inl ((eq_iff input "approve").0 v, rw (a, k, v) refl)
        | inr v ↦ inr (rw (a, k, v) (reject_resume-Keeps rec))
      ]
    ]
  ]

  -- A resume: the pending intent acts only if the input approves it.
  pub resume_record-Keeps :
      (rec : TaskRecord) (input : String)
      → (input ≡ "approve" → Acts Ok rec.pending_intent_kind)
      → Keeps P (resume_record env cfg rec input)
  resume_record-Keeps rec input acts = elim (resume_record-branches rec input) [
    | inl b ↦ rw b.1 (approve_resume-Keeps rec (acts b.0))
    | inr k ↦ k
  ]
