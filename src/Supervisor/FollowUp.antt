-- ===== src/Supervisor/FollowUp.antt =====
-- seedFollowUp of core/supervisor/supervisor.go: a new task that follows a finished one.
pub mod Fresh
use Prim.Native.String.{◌++◌ as ◌+s+◌}
use ai_solo_startup_framewor.Common.{ℕ, String, List, [], ◌∷◌, ◌++◌, ◌==◌, length, if◌then◌else◌}
use ai_solo_startup_framewor.Port.{ContextMessage}
use ai_solo_startup_framewor.Store
use ai_solo_startup_framewor.Task.{TaskRecord}
use ai_solo_startup_framewor.Supervisor.World.{Config, Env, M, pure, ◌>>=◌, ask, load}

-- The seeded record, or the text of the error.
pub data Seed : Type 0 where
  seeded : TaskRecord → Seed
  refused : String → Seed

module _ (env : Env) (cfg : Config) where
  -- The followed task's outcome, as the follow-up reads it.
  unfoldable pub outcome_text : TaskRecord → String → String
  outcome_text prev id =
      let head =
        "previous task "
        +s+ (env.quote id +s+ (" ended in state " +s+ env.state_text prev.state)) in
      if prev.output == ""
      then head +s+ " with no output"
      else head +s+ (" with output:\n" +s+ prev.output)

  -- The inherited transcript, or the input of a record written before transcripts existed.
  unfoldable pub inherited : TaskRecord → ℕ → List ContextMessage → List ContextMessage
  inherited prev at [] = record { role = "user"; content = prev.input; at = at } ∷ []
  inherited prev at (t ∷ ts) = t ∷ ts

  unfoldable pub context_of : TaskRecord → TaskRecord → String
  context_of rec prev = if rec.context_id == "" then prev.context_id else rec.context_id

  unfoldable pub seeded_turns : TaskRecord → String → ℕ → List ContextMessage
  unfolding inherited outcome_text
  seeded_turns prev id at =
      inherited prev at prev.turns
      ++ record { role = "system"; content = outcome_text prev id; at = at } ∷ []

  unfoldable pub seed_record : TaskRecord → TaskRecord → String → ℕ → TaskRecord
  unfolding seeded_turns context_of
  seed_record rec prev id at = record rec {
    turns = seeded_turns prev id at ++ record { role = "user"; content = rec.input; at = at } ∷ [];
    context_id = context_of rec prev;
    follow_up_of = id;
    base_turns = length (seeded_turns prev id at);
  }

  unfoldable pub seed_from : TaskRecord → String → Store.Result TaskRecord → M Seed
  unfolding seed_record ◌>>=◌
  seed_from rec id (Store.err Store.task_not_found) =
      pure (refused ("supervisor: follow-up of unknown task " +s+ env.quote id))
  seed_from rec id (Store.err e) = pure (
      refused
        ("supervisor: follow-up of task " +s+ (env.quote id +s+ (": " +s+ env.store_error_text e))))
  seed_from rec id (Store.ok prev) =
      if env.protocol.terminal prev.state
      then (do at ← ask env.now; pure (seeded (seed_record rec prev id at)))
      else pure (
          refused (
            "supervisor: follow-up of task "
            +s+ (env.quote id
                +s+ (": task is not terminal (" +s+ (env.state_text prev.state +s+ ")")))))

  -- seedFollowUp
  unfoldable pub seed_follow_up : TaskRecord → List String → M Seed
  unfolding seed_from ◌>>=◌
  seed_follow_up rec (id ∷ []) = do r ← load env cfg id; seed_from rec id r
  seed_follow_up rec refs = pure (
      refused (
        "supervisor: follow-up must reference exactly one task, got "
        +s+ env.decimal (length refs)))
