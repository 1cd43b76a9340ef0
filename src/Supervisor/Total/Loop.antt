-- ===== src/Supervisor/Total/Loop.antt =====
-- The provider loop ends within its fuel (runRounds of core/supervisor/supervisor.go).
use ai_solo_startup_framewor.Common.{
  ℕ, zero, suc, ◌<◌, String, true, false, ◌≡◌, refl, ap, ◌∙◌, ◌⊎◌, inl, inr, ◌++◌, arith, leb,
  eq_self, append_assoc,
}
use ai_solo_startup_framewor.Port.{ProviderResult}
use ai_solo_startup_framewor.Store
use ai_solo_startup_framewor.Task.{TaskRecord, rounds, add_turn}
use ai_solo_startup_framewor.Task.Rounds.{Grown, Advanced, left, left-Advanced}
use ai_solo_startup_framewor.Supervisor.World.{Config, Env, RunAnswer, result, failure, panics, M}
use ai_solo_startup_framewor.Supervisor.Intents.{Turn, Split, fail_turn}
use ai_solo_startup_framewor.Supervisor.Rounds.{
  max_rounds, last_is_peer, finish_record, take_turn, answered, run_round, complete, exhaust,
  saved_turn, end_turn, after_round, run_rounds_with, fuel, run_rounds, run_mid_turn,
}
use ai_solo_startup_framewor.Supervisor.Total.{
  Total, Anything, Total-pure, Total-bind, Total-step, Total-two, Total-weaken, Total-if,
  Total-raise, Total-emit, Total-ask, Total-mark_failed, Total-save, Total-notify, Total-perform,
  total_rules,
}
use ai_solo_startup_framewor.Supervisor.Total.Intents.{run_intents-Total}

finish_record-turns :
    (rec : TaskRecord) (s : Split)
    → ((finish_record rec s).turns ≡ rec.turns)
      × ((finish_record rec s).base_turns ≡ rec.base_turns)
unfolding finish_record
finish_record-turns rec s = (ground arith, ground arith)

-- Unless it halts, a round adds the provider's answer to the transcript.
abbrev Moved : TaskRecord → Turn → Type 0
Moved rec t = (t.1 ≡ true) ⊎ Advanced rec t.0

answer_turn-Advanced :
    (rec rec' : TaskRecord) (output : String) (at : ℕ) (s : Split)
    → Grown (finish_record (add_turn (record rec { output = output }) "assistant" output at) s) rec'
    → Advanced rec rec'
unfolding add_turn
answer_turn-Advanced rec rec' output at s g = record {
  answer = record { role = "assistant"; content = output; at = at };
  more = g.more;
  by_provider = eq_self "assistant";
  turns =
      g.turns
      ∙ ap (λ t. t ++ g.more)
          (finish_record-turns (add_turn (record rec { output = output }) "assistant" output at)
            s).0
      ∙ append_assoc rec.turns _ g.more;
  base =
      g.base
      ∙ (finish_record-turns (add_turn (record rec { output = output }) "assistant" output at) s).1;
}

module _ (env : Env) (cfg : Config) where
  take_turn-Total :
      (rec : TaskRecord) (r : ProviderResult) → Total (Moved rec) (take_turn env cfg rec r)
  unfolding take_turn
  take_turn-Total rec r = Total-step _ _ (Total-ask _) λ at.
      Total-weaken _ (run_intents-Total env cfg _ _)
        λ t g. inr (answer_turn-Advanced rec t.0 r.output at _ g)

  answered-Total : (rec : TaskRecord) (a : RunAnswer) → Total (Moved rec) (answered env cfg rec a)
  unfolding answered fail_turn
  answered-Total rec (result r) = take_turn-Total rec r
  answered-Total rec failure =
      Total-two _ _ _ (Total-mark_failed env cfg rec) (Total-emit env _) (inl refl)
  answered-Total rec panics = Total-raise

  run_round-Total : (rec : TaskRecord) → Total (Moved rec) (run_round env cfg rec)
  unfolding run_round
  run_round-Total rec =
      Total-step _ _ (Total-perform _) (λ _. Total-step _ _ (Total-ask _) (answered-Total rec))

  complete-Total : (rec : TaskRecord) → Total Anything (complete env cfg rec)
  unfolding complete
  complete-Total rec = search total_rules depth 8

  exhaust-Total : (rec : TaskRecord) → Total Anything (exhaust env cfg rec)
  unfolding exhaust
  exhaust-Total rec = search total_rules depth 8

  -- The loop's continuation is only entered below the cap.
  module _ (next : TaskRecord → M (Unit {0})) where
    saved_turn-Total :
        (rec : TaskRecord) (r : Store.Result (Unit {0}))
        → (rounds rec < max_rounds cfg → Total Anything (next rec))
        → Total Anything (saved_turn env cfg next rec r)
    unfolding saved_turn
    saved_turn-Total rec (Store.err e) k = search total_rules depth 8
    saved_turn-Total rec (Store.ok u) k = Total-step _ _ Total-notify λ _.
        Total-if (leb (max_rounds cfg) (rounds rec)) _ _ (λ _. exhaust-Total rec)
          (λ e. k (ground arith))

    end_turn-Total :
        (rec : TaskRecord)
        → (rounds rec < max_rounds cfg
            → Total Anything (next (record rec { finish_requested = false })))
        → Total Anything (end_turn env cfg next rec)
    unfolding end_turn rounds
    end_turn-Total rec k =
        Total-if rec.finish_requested _ _
          (λ _. complete-Total (record rec { finish_requested = false }))
          (λ _.
            Total-if (last_is_peer rec.turns) _ _
              (λ _.
                Total-step _ _ (Total-save env cfg (record rec { finish_requested = false }))
                  (λ r. saved_turn-Total (record rec { finish_requested = false }) r k))
              (λ _. complete-Total (record rec { finish_requested = false })))

  -- A round leaves less to do, so what follows it fits the rest of the fuel.
  fits :
      (f : ℕ) (rec rec' : TaskRecord)
      → left (max_rounds cfg) rec < suc f
      → Advanced rec rec'
      → rounds rec' < max_rounds cfg
      → left (max_rounds cfg) rec' < f
  fits f rec rec' h a below = ground (arith, left-Advanced (max_rounds cfg) rec rec' a)

  unfinished :
      (rec : TaskRecord)
      → left (max_rounds cfg) (record rec { finish_requested = false }) ≡ left (max_rounds cfg) rec
  unfolding rounds
  unfinished rec = refl

  after_round-Total :
      (f : ℕ) (rec : TaskRecord) (t : Turn)
      → left (max_rounds cfg) rec < suc f
      → Moved rec t
      → ((r : TaskRecord)
          → left (max_rounds cfg) r < f
          → Total Anything (run_rounds_with env cfg f r))
      → Total Anything (after_round env cfg (run_rounds_with env cfg f) t)
  unfolding after_round
  after_round-Total f rec (rec', halted) h (inl e) k = rw e (Total-pure tt tt)
  after_round-Total f rec (rec', halted) h (inr a) k =
      Total-if halted _ _ (λ _. Total-pure tt tt)
        (λ _. end_turn-Total (run_rounds_with env cfg f) rec' (λ below.
          k (record rec' { finish_requested = false })
            (rw (unfinished rec') (fits f rec rec' h a below))))

  run_rounds_with-Total :
      (f : ℕ) (rec : TaskRecord)
      → left (max_rounds cfg) rec < f
      → Total Anything (run_rounds_with env cfg f rec)
  unfolding run_rounds_with
  run_rounds_with-Total zero rec h = absurd (omega arith)
  run_rounds_with-Total (suc f) rec h =
      Total-bind _ _ (run_round-Total rec)
        (λ t m. after_round-Total f rec t h m (run_rounds_with-Total f))

  fuel-left : (rec : TaskRecord) → left (max_rounds cfg) rec < fuel env cfg rec
  unfolding fuel
  fuel-left rec = omega arith

  pub run_rounds-Total : (rec : TaskRecord) → Total Anything (run_rounds env cfg rec)
  unfolding run_rounds
  run_rounds-Total rec = run_rounds_with-Total (fuel env cfg rec) rec (fuel-left rec)

  pub run_mid_turn-Total : (rec : TaskRecord) → Total Anything (run_mid_turn env cfg rec)
  unfolding run_mid_turn
  run_mid_turn-Total rec =
      end_turn-Total (λ r. run_rounds_with env cfg (fuel env cfg r) r) rec
        (λ _. run_rounds-with_fuel (record rec { finish_requested = false }))
    where
      run_rounds-with_fuel :
          (r : TaskRecord) → Total Anything (run_rounds_with env cfg (fuel env cfg r) r)
      run_rounds-with_fuel r = run_rounds_with-Total (fuel env cfg r) r (fuel-left r)
