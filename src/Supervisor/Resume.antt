-- ===== src/Supervisor/Resume.antt =====
-- Resuming a parked task (executeResume, resumeFromPeer of core/supervisor/supervisor.go).
use Prim.Native.String.{◌++◌ as ◌+s+◌}
use ai_solo_startup_framewor.Common.{
  String, true, false, ◌&&◌, Option, none, some, List, [], ◌∷◌, ◌==◌, if◌then◌else◌,
}
use ai_solo_startup_framewor.Port.{ContextMessage}
use ai_solo_startup_framewor.Store
use ai_solo_startup_framewor.Task.{TaskRecord, PendingIntent, working, rejected, failed, add_turn}
use ai_solo_startup_framewor.Supervisor.World.{
  Config, Env, DelegationResult, polled, status, M, pure, ◌>>=◌, ◌>>◌, ask, perform, emit, load,
  save_and_notify, mark_failed, mint_approval_token, error_message,
}
use ai_solo_startup_framewor.Supervisor.Action.{
  ActionOutcome, Done, fine, broke, no_outcome, outcome_for_peer, execute_action,
}
use ai_solo_startup_framewor.Supervisor.Watchers.{repark, park_on_peer, stop_watcher, peer_timeout}
use ai_solo_startup_framewor.Supervisor.Intents.{
  Turn, run_intents, record_delegation, take_peer_turn,
}
use ai_solo_startup_framewor.Supervisor.Rounds.{run_mid_turn, run_rounds}

-- The record with its peer wait cleared.
unfoldable pub clear_peer : TaskRecord → TaskRecord
clear_peer rec = record rec {
  awaiting_peer_role = "";
  awaiting_peer_task_id = "";
  awaiting_peer_approval = false;
  remaining_intents = [];
}

-- The record with its pending intent cleared.
unfoldable pub clear_pending : TaskRecord → TaskRecord
clear_pending rec = record rec {
  pending_intent_kind = "";
  pending_intent_body = "";
  pending_intent_target = "";
}

module _ (env : Env) (cfg : Config) where
  unfoldable pub seed_turns : List ContextMessage → TaskRecord → M TaskRecord
  unfolding ◌>>=◌
  seed_turns [] rec = do at ← ask env.now; pure (add_turn rec "user" rec.input at)
  seed_turns (t ∷ ts) rec = pure rec

  -- executeWithPolicy
  unfoldable pub execute_with_policy : TaskRecord → M (Unit {0})
  unfolding seed_turns ◌>>=◌
  execute_with_policy rec = do rec' ← seed_turns rec.turns rec; run_rounds env cfg rec'

  unfoldable pub mid_turn : Turn → M (Unit {0})
  mid_turn (rec, halted) = if halted then pure tt else run_mid_turn env cfg rec

  -- What both resumes do with the rest of the turn: its intents, then the loop.
  unfoldable pub finish_turn : TaskRecord → List PendingIntent → M (Unit {0})
  unfolding mid_turn ◌>>=◌
  finish_turn rec remaining = do t ← run_intents env cfg remaining rec; mid_turn t

  -- `fail` of resumeFromPeer.
  unfoldable pub fail_peer : TaskRecord → M (Unit {0})
  unfolding clear_peer ◌>>=◌
  fail_peer rec = do
    stop_watcher rec.task_id
    mark_failed env cfg (clear_peer rec)
    emit env (status failed error_message)

  -- A peer that stopped advancing releases the task, back to WORKING.
  unfoldable pub release : TaskRecord → ActionOutcome → M (Unit {0})
  unfolding clear_peer finish_turn ◌>>=◌
  release rec o = do
    stop_watcher rec.task_id
    at ← ask env.now
    let rec' : TaskRecord = record (clear_peer (add_turn rec "peer" o.output at)) {
      state = working;
    }
    save_and_notify env cfg rec'
    emit env (status working none)
    finish_turn rec' rec.remaining_intents

  unfoldable pub ended_text : DelegationResult → String
  ended_text res =
      "peer task "
      +s+ (env.quote res.peer_task_id
          +s+ (" ended in state " +s+ (env.state_text res.state +s+ " without output")))

  -- The peer's own end under chained approval is its turn to be read, not this task's failure.
  unfoldable pub forgive : TaskRecord → DelegationResult → Done → Done
  unfolding ended_text
  forgive rec res (fine o) = fine o
  forgive rec res (broke o e) =
      if rec.awaiting_peer_approval && env.protocol.terminal res.state
      then fine (record no_outcome { delegated = true; output = ended_text res })
      else broke o e

  unfoldable pub peer_settled : TaskRecord → String → Done → M (Unit {0})
  unfolding release fail_peer
  peer_settled rec input (broke o e) = fail_peer rec
  peer_settled rec input (fine o) =
      if o.parked
      then (if input == peer_timeout
          then fail_peer rec
          else repark env cfg (record rec { awaiting_peer_approval = o.peer_approval }))
      else release rec o

  unfoldable pub peer_answered : TaskRecord → String → Option DelegationResult → M (Unit {0})
  unfolding peer_settled forgive
  peer_answered rec input none = repark env cfg rec
  peer_answered rec input (some res) =
      peer_settled rec input (forgive rec res (outcome_for_peer env rec.awaiting_peer_role res))

  -- resumeFromPeer
  unfoldable pub resume_from_peer : TaskRecord → String → M (Unit {0})
  unfolding peer_answered fail_peer ◌>>=◌
  resume_from_peer rec input =
      if cfg.has_delegator
      then (do
        perform (polled rec.awaiting_peer_role rec.awaiting_peer_task_id)
        res ← ask (λ n. env.peer_task_state n rec.awaiting_peer_role rec.awaiting_peer_task_id)
        peer_answered rec input res)
      else fail_peer rec

  -- A resume with no pending intent executes the task anew.
  unfoldable pub re_execute : TaskRecord → M (Unit {0})
  unfolding execute_with_policy ◌>>=◌
  re_execute rec = do
    save_and_notify env cfg (record rec { state = working })
    emit env (status working none)
    execute_with_policy (record rec { state = working })

  unfoldable pub reject_resume : TaskRecord → M (Unit {0})
  unfolding ◌>>=◌
  reject_resume rec = do
    save_and_notify env cfg (record rec { state = rejected })
    emit env (status rejected none)

  unfoldable pub take_outcome : TaskRecord → ActionOutcome → M TaskRecord
  take_outcome rec o = if o.delegated then take_peer_turn env cfg rec o else pure rec

  unfoldable pub after_approved : TaskRecord → Done → M (Unit {0})
  unfolding finish_turn take_outcome clear_pending record_delegation ◌>>=◌
  after_approved rec (broke o e) = do
    mark_failed env cfg (record_delegation rec o)
    emit env (status failed error_message)
  after_approved rec (fine o) =
      if o.parked
      then (do
        _ ← park_on_peer env cfg (clear_pending (record_delegation rec o)) o rec.remaining_intents
        pure tt)
      else (do
        rec' ← take_outcome (record_delegation rec o) o
        finish_turn (record (clear_pending rec') { remaining_intents = [] }) rec.remaining_intents)

  unfoldable pub approve_resume : TaskRecord → M (Unit {0})
  unfolding after_approved ◌>>=◌
  approve_resume rec = do
    emit env (status working none)
    token ← mint_approval_token env
    d ←
        execute_action env cfg rec.pending_intent_kind rec.pending_intent_body
          rec.pending_intent_target token
    after_approved rec d

  -- The branches of executeResume on the record that was loaded.
  unfoldable pub resume_record : TaskRecord → String → M (Unit {0})
  unfolding resume_from_peer re_execute reject_resume approve_resume
  resume_record rec input =
      if rec.awaiting_peer_task_id == ""
      then (if rec.pending_intent_kind == ""
          then re_execute rec
          else if input == "approve"
          then approve_resume rec
          else reject_resume rec)
      else resume_from_peer rec input

  unfoldable pub resume_loaded : String → Store.Result TaskRecord → M (Unit {0})
  unfolding resume_record
  resume_loaded input (Store.err e) = emit env (status failed error_message)
  resume_loaded input (Store.ok rec) = resume_record rec input

  -- executeResume
  unfoldable pub execute_resume : String → String → M (Unit {0})
  unfolding resume_loaded ◌>>=◌
  execute_resume id input = do r ← load env cfg id; resume_loaded input r
