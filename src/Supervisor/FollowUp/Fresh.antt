-- ===== src/Supervisor/FollowUp/Fresh.antt =====
-- What a follow-up inherits (seedFollowUp of core/supervisor/supervisor.go).
use ai_solo_startup_framewor.Common.{
  ℕ, String, ◌≡◌, refl, ap, ◌∙◌, sym, true, Bool-cases, inl, inr, List, [], ◌∷◌, ◌++◌, arith,
  drop-length, length-append,
}
use ai_solo_startup_framewor.Port.{ContextMessage}
use ai_solo_startup_framewor.Store
use ai_solo_startup_framewor.Task.{TaskRecord, rounds, assistant_turns}
use ai_solo_startup_framewor.Supervisor.World.{Config, Env, World, Outcome, ret, ask, load}
use ai_solo_startup_framewor.Supervisor.FollowUp.{
  Seed, seeded, seeded_turns, seed_record, seed_from, seed_follow_up, outcome_text, inherited,
}

abbrev seeded_or : TaskRecord → Outcome Seed → TaskRecord
seeded_or rec (ret (seeded r)) = r
seeded_or rec o = rec

abbrev pub outcome : Env → Config → TaskRecord → String → ℕ → ContextMessage
outcome env cfg prev id at = record {
  role = "system";
  content = outcome_text env cfg prev id;
  at = at;
}

abbrev pub says_user : TaskRecord → ℕ → ContextMessage
says_user rec at = record { role = "user"; content = rec.input; at = at }

module _ (env : Env) (cfg : Config) (rec : TaskRecord) where
  seed_record-rounds :
      (prev : TaskRecord) (id : String) (at : ℕ) → rounds (seed_record env cfg rec prev id at) ≡ 0
  unfolding seed_record rounds assistant_turns
  seed_record-rounds prev id at = ground (
    arith,
    drop-length (seeded_turns env cfg prev id at)
        (record { role = "user"; content = rec.input; at = at } ∷ []),
    length-append (seeded_turns env cfg prev id at)
        (record { role = "user"; content = rec.input; at = at } ∷ []),
  )

  seed_from-seeded :
      (id : String) (r : Store.Result TaskRecord) (w : World) (rec' : TaskRecord)
      → (seed_from env cfg rec id r w).0 ≡ ret (seeded rec')
      → (prev : TaskRecord) × (at : ℕ) × (r ≡ Store.ok prev)
        × (env.protocol.terminal prev.state ≡ true)
        × (rec' ≡ seed_record env cfg rec prev id at)
  unfolding seed_from ask
  seed_from-seeded id (Store.err Store.task_not_found) w rec' h = ground arith
  seed_from-seeded id (Store.err Store.read_failed) w rec' h = ground arith
  seed_from-seeded id (Store.err Store.unmarshal_failed) w rec' h = ground arith
  seed_from-seeded id (Store.err Store.marshal_failed) w rec' h = ground arith
  seed_from-seeded id (Store.err Store.write_failed) w rec' h = ground arith
  seed_from-seeded id (Store.err Store.rename_failed) w rec' h = ground arith
  seed_from-seeded id (Store.ok prev) w rec' h =
      elim (Bool-cases (env.protocol.terminal prev.state)) [
        | inl e ↦ (prev, env.now w.questions, refl, e, sym (ap (seeded_or rec') (rw e at h)))
        | inr e ↦ ground arith
      ]

  -- A task that is seeded as a follow-up references exactly one task, whose record was loaded and is
  -- terminal. It starts with no round spent, whatever the transcript that it inherits, and its
  -- transcript is the inherited one, the outcome of the followed task and the new input.
  pub seed_follow_up-rounds :
      (refs : List String) (w : World) (rec' : TaskRecord)
      → (seed_follow_up env cfg rec refs w).0 ≡ ret (seeded rec')
      → (id : String) × (prev : TaskRecord) × (at : ℕ) × (refs ≡ id ∷ [])
        × ((Store.load env.faults cfg.addr id w.disk).0 ≡ Store.ok prev)
        × (env.protocol.terminal prev.state ≡ true)
        × (rounds rec' ≡ 0)
        × (rec'.turns
            ≡ (inherited env cfg prev at prev.turns ++ outcome env cfg prev id at ∷ [])
              ++ says_user rec at ∷ [])
  unfolding seed_follow_up load
  seed_follow_up-rounds [] w rec' h = ground arith
  seed_follow_up-rounds (id ∷ other ∷ refs) w rec' h = ground arith
  seed_follow_up-rounds (id ∷ []) w rec' h =
      let (prev, at, found, ended, e) =
        seed_from-seeded id (Store.load env.faults cfg.addr id w.disk).0 _ rec' h in
      (
        id,
        prev,
        at,
        refl,
        found,
        ended,
        ap rounds e ∙ seed_record-rounds prev id at,
        ap (λ r. r.turns) e ∙ (unfold seed_record seeded_turns in refl),
      )
