-- ===== src/Supervisor/Total/Execute.antt =====
-- Resuming and executing end (executeResume and Execute of core/supervisor/supervisor.go).
use ai_solo_startup_framewor.Common.{
  String, true, false, Bool, Option, none, some, ◌≡◌, List, [], ◌∷◌, refl,
}
use ai_solo_startup_framewor.Port.{ContextMessage}
use ai_solo_startup_framewor.Store
use ai_solo_startup_framewor.Task.{TaskRecord, PendingIntent}
use ai_solo_startup_framewor.Supervisor.World.{
  Config, Env, Outcome, ret, panic, stuck, DelegationResult, World, M, submitted_task,
}
use ai_solo_startup_framewor.Supervisor.Action.{ActionOutcome, Done, fine, broke}
use ai_solo_startup_framewor.Supervisor.Watchers.{stop_watcher}
use ai_solo_startup_framewor.Supervisor.Intents.{Turn}
use ai_solo_startup_framewor.Supervisor.FollowUp.{Seed, seeded, refused, seed_from, seed_follow_up}
use ai_solo_startup_framewor.Supervisor.Resume.{
  seed_turns, execute_with_policy, mid_turn, finish_turn, fail_peer, release, peer_settled,
  peer_answered, resume_from_peer, re_execute, reject_resume, take_outcome, after_approved,
  approve_resume, resume_record, resume_loaded, execute_resume,
}
use ai_solo_startup_framewor.Supervisor.Execute.{
  ExecutorContext, Message, handle_panic, recover_panic, with_worker, announce, started, save_new,
  seeded_task, referring_task, new_task, submitted, execute_body, execute,
}
use ai_solo_startup_framewor.Supervisor.Total.{
  Total, Ends, Anything, Total-pure, Total-step, Total-weaken, Total-if, Total-yield, total_rules,
}
use ai_solo_startup_framewor.Supervisor.Total.Intents.{
  run_intents-Total, repark-Total, park_on_peer-Total, take_peer_turn-Total, execute_action-Total,
}
use ai_solo_startup_framewor.Supervisor.Total.Loop.{run_rounds-Total, run_mid_turn-Total}

forget : {A : Type 0} {R : A → Type 0} (m : M A) → Total R m → Total Anything m
forget m k = Total-weaken m k (λ a h. tt)

stop_watcher-Total : (id : String) → Total Anything (stop_watcher id)
unfolding stop_watcher
stop_watcher-Total id = record { at = λ w. tt }

module _ (env : Env) (cfg : Config) where
  seed_turns-Total :
      (ts : List ContextMessage) (rec : TaskRecord) → Total Anything (seed_turns env cfg ts rec)
  unfolding seed_turns
  seed_turns-Total [] rec = search total_rules depth 8
  seed_turns-Total (t ∷ ts) rec = search total_rules

  execute_with_policy-Total : (rec : TaskRecord) → Total Anything (execute_with_policy env cfg rec)
  unfolding execute_with_policy
  execute_with_policy-Total rec =
      Total-step _ _ (seed_turns-Total rec.turns rec) (run_rounds-Total env cfg)

  mid_turn-Total : (t : Turn) → Total Anything (mid_turn env cfg t)
  unfolding mid_turn
  mid_turn-Total (rec, halted) =
      Total-if halted _ _ (λ _. Total-pure tt tt) (λ _. run_mid_turn-Total env cfg rec)

  finish_turn-Total :
      (rec : TaskRecord) (rest : List PendingIntent) → Total Anything (finish_turn env cfg rec rest)
  unfolding finish_turn
  finish_turn-Total rec rest =
      Total-step _ _ (forget _ (run_intents-Total env cfg rest rec)) mid_turn-Total

  fail_peer-Total : (rec : TaskRecord) → Total Anything (fail_peer env cfg rec)
  unfolding fail_peer
  fail_peer-Total rec = search (total_rules, stop_watcher-Total) depth 12

  release-Total : (rec : TaskRecord) (o : ActionOutcome) → Total Anything (release env cfg rec o)
  unfolding release
  release-Total rec o = search (total_rules, stop_watcher-Total, finish_turn-Total) depth 16

  peer_settled-Total :
      (rec : TaskRecord) (input : String) (d : Done)
      → Total Anything (peer_settled env cfg rec input d)
  unfolding peer_settled
  peer_settled-Total rec input (broke o e) = fail_peer-Total rec
  peer_settled-Total rec input (fine o) =
      search (total_rules, fail_peer-Total, repark-Total, release-Total) depth 8

  peer_answered-Total :
      (rec : TaskRecord) (input : String) (res : Option DelegationResult)
      → Total Anything (peer_answered env cfg rec input res)
  unfolding peer_answered
  peer_answered-Total rec input none = repark-Total env cfg rec
  peer_answered-Total rec input (some res) = peer_settled-Total rec input _

  resume_from_peer-Total :
      (rec : TaskRecord) (input : String) → Total Anything (resume_from_peer env cfg rec input)
  unfolding resume_from_peer
  resume_from_peer-Total rec input =
      search (total_rules, peer_answered-Total, fail_peer-Total) depth 12

  re_execute-Total : (rec : TaskRecord) → Total Anything (re_execute env cfg rec)
  unfolding re_execute
  re_execute-Total rec = search (total_rules, execute_with_policy-Total) depth 12

  reject_resume-Total : (rec : TaskRecord) → Total Anything (reject_resume env cfg rec)
  unfolding reject_resume
  reject_resume-Total rec = search total_rules depth 8

  take_outcome-Total :
      (rec : TaskRecord) (o : ActionOutcome) → Total Anything (take_outcome env cfg rec o)
  unfolding take_outcome
  take_outcome-Total rec o =
      Total-if o.delegated _ _ (λ _. forget _ (take_peer_turn-Total env cfg rec o))
        (λ _. Total-pure rec tt)

  after_approved-Total :
      (rec : TaskRecord) (d : Done) → Total Anything (after_approved env cfg rec d)
  unfolding after_approved
  after_approved-Total rec (broke o e) = search total_rules depth 8
  after_approved-Total rec (fine o) =
      Total-if o.parked _ _
        (λ _.
          Total-step _ _ (forget _ (park_on_peer-Total env cfg _ o rec.remaining_intents))
            (λ r. Total-pure tt tt))
        (λ _.
          Total-step _ _ (take_outcome-Total _ o) (λ r. finish_turn-Total _ rec.remaining_intents))

  approve_resume-Total : (rec : TaskRecord) → Total Anything (approve_resume env cfg rec)
  unfolding approve_resume
  approve_resume-Total rec =
      search (total_rules, execute_action-Total, after_approved-Total) depth 16

  pub resume_record-Total :
      (rec : TaskRecord) (input : String) → Total Anything (resume_record env cfg rec input)
  unfolding resume_record
  resume_record-Total rec input =
      search
        (
          total_rules, re_execute-Total, approve_resume-Total, reject_resume-Total,
          resume_from_peer-Total,
        )
        depth 12

  resume_loaded-Total :
      (input : String) (r : Store.Result TaskRecord)
      → Total Anything (resume_loaded env cfg input r)
  unfolding resume_loaded
  resume_loaded-Total input (Store.err e) = search total_rules
  resume_loaded-Total input (Store.ok rec) = resume_record-Total rec input

  execute_resume-Total : (id input : String) → Total Anything (execute_resume env cfg id input)
  unfolding execute_resume
  execute_resume-Total id input = search (total_rules, resume_loaded-Total) depth 8

  announce-Total : (rec : TaskRecord) (b : Bool) → Total Anything (announce env cfg rec b)
  unfolding announce
  announce-Total rec true = execute_with_policy-Total rec
  announce-Total rec false = Total-pure tt tt

  started-Total :
      (rec : TaskRecord) (r : Store.Result (Unit {0})) → Total Anything (started env cfg rec r)
  unfolding started
  started-Total rec (Store.err e) = search total_rules
  started-Total rec (Store.ok u) = search (total_rules, announce-Total) depth 12

  save_new-Total : (rec : TaskRecord) → Total Anything (save_new env cfg rec)
  unfolding save_new
  save_new-Total rec = search (total_rules, started-Total) depth 8

  seeded_task-Total : (rec : TaskRecord) (s : Seed) → Total Anything (seeded_task env cfg rec s)
  unfolding seeded_task
  seeded_task-Total rec (seeded r) = save_new-Total r
  seeded_task-Total rec (refused text) = search total_rules depth 8

  seed_from-Total :
      (rec : TaskRecord) (id : String) (r : Store.Result TaskRecord)
      → Total Anything (seed_from env cfg rec id r)
  unfolding seed_from
  seed_from-Total rec id (Store.err Store.task_not_found) = search total_rules
  seed_from-Total rec id (Store.err e) = search total_rules
  seed_from-Total rec id (Store.ok prev) = search total_rules depth 8

  seed_follow_up-Total :
      (rec : TaskRecord) (refs : List String) → Total Anything (seed_follow_up env cfg rec refs)
  unfolding seed_follow_up
  seed_follow_up-Total rec [] = search total_rules
  seed_follow_up-Total rec (id ∷ []) = search (total_rules, seed_from-Total) depth 8
  seed_follow_up-Total rec (id ∷ other ∷ refs) = search total_rules

  referring_task-Total :
      (rec : TaskRecord) (refs : List String) → Total Anything (referring_task env cfg rec refs)
  unfolding referring_task
  referring_task-Total rec [] = save_new-Total rec
  referring_task-Total rec (id ∷ ids) =
      Total-step _ _ (seed_follow_up-Total rec (id ∷ ids)) (seeded_task-Total rec)

  new_task-Total :
      (ctx : ExecutorContext) (m : Option Message) → Total Anything (new_task env cfg ctx m)
  unfolding new_task
  new_task-Total ctx none = search total_rules
  new_task-Total ctx (some m) = referring_task-Total _ m.reference_tasks

  with_worker-Total : (m : M (Unit {0})) → Total Anything m → Total Anything (with_worker m)
  unfolding with_worker
  with_worker-Total m k = record { at = λ w. k.at _ }

  execute_body-Total : (ctx : ExecutorContext) → Total Anything (execute_body env cfg ctx)
  unfolding execute_body submitted
  execute_body-Total ctx =
      Total-if ctx.stored _ _ (λ _. with_worker-Total _ (execute_resume-Total _ _))
        (λ _. Total-step _ _ (Total-yield env submitted_task) submitted-Total)
    where
      submitted-Total : (b : Bool) → Total Anything (submitted env cfg ctx b)
      submitted-Total true = with_worker-Total _ (new_task-Total ctx ctx.message)
      submitted-Total false = Total-pure tt tt

Returned : Outcome (Unit {0}) → Type 0
Returned (ret u) = Unit
Returned panic = ⊥
Returned stuck = ⊥

-- Execute returns, for every configuration, whatever the surroundings answer: its provider loop
-- has enough fuel, and a panic of the provider or of the consumer is caught.
pub execute_returns :
    (env : Env) (cfg : Config) (ctx : ExecutorContext) (w : World)
    → (execute env cfg ctx w).0 ≡ ret tt
unfolding execute recover_panic handle_panic
execute_returns env cfg ctx w = handled _ ((execute_body-Total env cfg ctx).at w)
  where
    handled :
        (r : Outcome (Unit {0}) × World) → Ends Anything r.0 → (handle_panic env r.0 r.1).0 ≡ ret tt
    handled (ret u, w') h = refl
    handled (panic, w') h = refl
    handled (stuck, w') h = absurd h
