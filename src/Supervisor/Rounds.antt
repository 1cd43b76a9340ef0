-- ===== src/Supervisor/Rounds.antt =====
-- The provider loop (runRounds of core/supervisor/supervisor.go): a turn of the provider, its
-- intents, and another round for as long as the last turn took in a peer's result.
use Prim.Native.String.{◌++◌ as ◌+s+◌}
use ai_solo_startup_framewor.Common.{
  ℕ, zero, suc, ◌+◌, String, Bool, true, false, not, ◌&&◌, List, [], ◌∷◌, ◌==◌, leb, ltb, eqb,
  if◌then◌else◌, length,
}
use ai_solo_startup_framewor.Port.{ContextMessage, ProviderResult}
use ai_solo_startup_framewor.Context.{assemble_bounded_context, context_text}
use ai_solo_startup_framewor.Store
use ai_solo_startup_framewor.Task.{TaskRecord, completed, failed, rounds, add_turn}
use ai_solo_startup_framewor.Supervisor.World.{
  Config, Env, RunAnswer, result, failure, panics, ran, status, M, out_of_fuel, pure, ◌>>=◌, ◌>>◌,
  ask, perform, raise, notify, emit, save, save_and_notify, mark_failed, error_message,
  output_message,
}
use ai_solo_startup_framewor.Supervisor.Intents.{
  Turn, Split, fail_turn, run_intents, split_finish_task, has_delegation, to_pending_intents,
}

-- defaultMaxRounds
abbrev pub default_max_rounds : ℕ
default_max_rounds = 8

-- Supervisor.MaxRounds
unfoldable pub max_rounds : Config → ℕ
max_rounds cfg = if eqb cfg.max_rounds 0 then default_max_rounds else cfg.max_rounds

-- rec.Turns[n-1].Role == "peer", and false of no turns.
unfoldable pub last_is_peer : List ContextMessage → Bool
last_is_peer [] = false
last_is_peer (t ∷ []) = t.role == "peer"
last_is_peer (t ∷ u ∷ ts) = last_is_peer (u ∷ ts)

-- The finish that counts: one beside a delegation is discarded.
unfoldable pub finishes : Split → Bool
finishes s = s.finished && not (has_delegation s.actions)

unfoldable pub finish_record : TaskRecord → Split → TaskRecord
unfolding finishes
finish_record rec s =
    if finishes s
    then (if s.answer == ""
        then record rec { finish_requested = true }
        else record rec { output = s.answer; finish_requested = true })
    else record rec { finish_requested = false }

module _ (env : Env) (cfg : Config) where
  -- effectiveBudget
  unfoldable pub effective_budget : ℕ
  effective_budget = if eqb cfg.context_budget 0 then env.provider_budget else cfg.context_budget

  -- What the provider is given: the input itself in the first round, the bounded transcript later.
  unfoldable pub round_input : TaskRecord → String
  unfolding effective_budget
  round_input rec =
      if ltb 1 (length rec.turns)
      then context_text (assemble_bounded_context rec.turns effective_budget).messages
      else rec.input

  unfoldable pub take_turn : TaskRecord → ProviderResult → M Turn
  unfolding finish_record ◌>>=◌
  take_turn rec r = do
    at ← ask env.now
    let s : Split = split_finish_task r.action_intents
    let rec' : TaskRecord = add_turn (record rec { output = r.output }) "assistant" r.output at
    run_intents env cfg (to_pending_intents s.actions) (finish_record rec' s)

  unfoldable pub answered : TaskRecord → RunAnswer → M Turn
  unfolding take_turn
  answered rec (result r) = take_turn rec r
  answered rec failure = fail_turn env cfg rec
  answered rec panics = raise

  -- A round: RunTask, then its intents.
  unfoldable pub run_round : TaskRecord → M Turn
  unfolding answered ◌>>=◌
  run_round rec = do
    perform (ran rec.task_id (round_input rec))
    a ← ask (λ n. env.run_task n rec.task_id (round_input rec))
    answered rec a

  unfoldable pub complete : TaskRecord → M (Unit {0})
  unfolding ◌>>=◌
  complete rec = do
    save_and_notify env cfg (record rec { state = completed })
    emit env (status completed (output_message rec.output))

  unfoldable pub limit_text : String
  limit_text =
      "supervisor: provider round limit ("
      +s+ (env.decimal (max_rounds cfg) +s+ ") exhausted after delegation")

  unfoldable pub exhaust : TaskRecord → M (Unit {0})
  unfolding limit_text ◌>>=◌
  exhaust rec = do
    mark_failed env cfg (record rec { output = limit_text })
    emit env (status failed (output_message limit_text))

  unfoldable pub saved_turn :
      (TaskRecord → M (Unit {0})) → TaskRecord → Store.Result (Unit {0}) → M (Unit {0})
  unfolding exhaust ◌>>=◌
  saved_turn next rec (Store.err e) = do
    mark_failed env cfg rec
    emit env (status failed error_message)
  saved_turn next rec (Store.ok u) = do
    notify
    if leb (max_rounds cfg) (rounds rec) then exhaust rec else next rec

  unfoldable pub continue_rounds : (TaskRecord → M (Unit {0})) → TaskRecord → M (Unit {0})
  unfolding saved_turn ◌>>=◌
  continue_rounds next rec = do r ← save env cfg rec; saved_turn next rec r

  -- The end of a turn: finished, nothing to feed back, or another round.
  unfoldable pub end_turn : (TaskRecord → M (Unit {0})) → TaskRecord → M (Unit {0})
  unfolding continue_rounds complete
  end_turn next rec =
      if rec.finish_requested
      then complete (record rec { finish_requested = false })
      else if last_is_peer rec.turns
      then continue_rounds next (record rec { finish_requested = false })
      else complete (record rec { finish_requested = false })

  unfoldable pub after_round : (TaskRecord → M (Unit {0})) → Turn → M (Unit {0})
  unfolding end_turn
  after_round next (rec, halted) = if halted then pure tt else end_turn next rec

  -- runRounds, with fuel for its loop.
  unfoldable pub run_rounds_with : ℕ → TaskRecord → M (Unit {0})
  unfolding run_round after_round ◌>>=◌
  run_rounds_with zero rec = out_of_fuel
  run_rounds_with (suc f) rec = do t ← run_round rec; after_round (run_rounds_with f) t

  -- Enough for every record: each further round adds to the transcript.
  unfoldable pub fuel : TaskRecord → ℕ
  fuel rec = suc (max_rounds cfg + rec.base_turns)

  -- runRounds with midTurn false, and with midTurn true.
  unfoldable pub run_rounds : TaskRecord → M (Unit {0})
  unfolding run_rounds_with fuel
  run_rounds rec = run_rounds_with (fuel rec) rec

  unfoldable pub run_mid_turn : TaskRecord → M (Unit {0})
  unfolding run_rounds_with fuel end_turn
  run_mid_turn rec = end_turn (λ r. run_rounds_with (fuel r) r) rec
