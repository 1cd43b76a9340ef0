-- ===== src/Mcp/Drained.antt =====
-- What the adapter drains at the end of a turn (transport/mcp/registry.go, transport/mcp/tools.go),
-- with the steps of other invocations in between.
use ai_solo_startup_framewor.Common.{
  ℕ, ◌≤◌, ◌<◌, ◌≡◌, refl, String, false, some, List, [], ◌∷◌, map, ◌==◌, arith, length, eq_iff,
  eq_self, Bool-cases, inl, inr, All,
}
use ai_solo_startup_framewor.Common.Dict.{lookup, lookup-put}
use ai_solo_startup_framewor.Port.{ActionIntent}
use ai_solo_startup_framewor.Mcp.Sink.{default_intent_cap, new_sink, read}
use ai_solo_startup_framewor.Mcp.Registry.{Registry, write, new_invocation, mint, drain}
use ai_solo_startup_framewor.Mcp.Tools.{ToolCall, intent_of}
use ai_solo_startup_framewor.Mcp.Accepts.{
  length-map, FinishesFirst, Represents, accepted, IsOrderly, accepted-IsOrderly,
}
use ai_solo_startup_framewor.Mcp.Steps.{
  Step, called, verified, minted, drained, steps, step, calls_of, Fair, Owns, step-Owns,
  step-Represents,
}

accepted-calls_of :
    (token : String) (done : List ToolCall) (s : Step) (ss : List Step)
    → accepted token default_intent_cap done (calls_of token (s ∷ ss))
      ≡ accepted token default_intent_cap
          (accepted token default_intent_cap done (calls_of token (s ∷ [])))
          (calls_of token ss)
accepted-calls_of token done (called q) ss = elim (Bool-cases (q.token == token)) [
  | inl e ↦ rw e refl
  | inr e ↦ rw e refl
]
accepted-calls_of token done (verified now t) ss = refl
accepted-calls_of token done (minted t b c d e) ss = refl
accepted-calls_of token done (drained d) ss = refl

steps-Represents :
    (token tenant : String) (exp a : ℕ) (ss : List Step) (r : Registry) (done : List ToolCall)
    → All (Fair token exp) ss
    → Owns token tenant exp a r
    → Represents token default_intent_cap done (r.heap a)
    → Represents token default_intent_cap
        (accepted token default_intent_cap done (calls_of token ss))
        ((steps tenant ss r).heap a)
steps-Represents token tenant exp a [] r done h w p = p
steps-Represents token tenant exp a (s ∷ ss) r done h w p = rw (accepted-calls_of token done s ss) (
    steps-Represents token tenant exp a ss (step tenant s r)
      (accepted token default_intent_cap done (calls_of token (s ∷ []))) h.1
      (step-Owns token tenant exp a r w s h.0)
      (step-Represents token tenant exp a r w s done h.0 p))

-- No entry leads to an address that is still free.
abbrev pub IsSound : Registry → Type 0
IsSound r = (t : String) (a : ℕ) → lookup t r.entries ≡ some a → a < r.next

-- An adapter's turn as a whole: a token is drawn, the steps happen, and the handle is drained.
abbrev pub drained_after :
    String → String → String → String → ℕ → List Step → Registry → List ActionIntent
drained_after token tenant agent task_id exp ss r =
    let m = mint token tenant agent task_id exp r in (drain m.0 (steps tenant ss m.1)).0

mint-Owns :
    (token tenant agent task_id : String) (exp : ℕ) (r : Registry)
    → IsSound r
    → Owns token tenant exp r.next (mint token tenant agent task_id exp r).1
unfolding mint write new_invocation
mint-Owns token tenant agent task_id exp r v = record {
  entry = ground (arith, lookup-put token token r.next r.entries, eq_self token);
  below = ground arith;
  only = λ t e.
      ground
        (arith, lookup-put token t r.next r.entries, v t r.next, eq_iff token t, eq_iff t token);
  tenant_of = ground arith;
  exp_of = ground arith;
}

mint-Represents :
    (token tenant agent task_id : String) (exp : ℕ) (r : Registry)
    → Represents token default_intent_cap [] ((mint token tenant agent task_id exp r).1.heap r.next)
unfolding mint write new_invocation new_sink lookup
mint-Represents token tenant agent task_id exp r = record {
  intents = ground arith;
  capacity = ground arith;
  flag = ground arith;
  keys = λ k. ground arith;
}

-- From a registry whose entries lead to created invocations, an adapter that draws a token for the
-- server's tenant and later drains its handle gets the intents of exactly the accepted calls that carried the token, in order,
-- where a call is accepted unless it repeats an accepted one, finishes the task after an accepted
-- delegation, or comes when 100 are held. Other calls, verified tokens, and other invocations that
-- are begun or drained in between make no difference; requests with the token must not come after it
-- expires, and no other invocation has the token.
pub drain-accepted :
    (token tenant agent task_id : String) (exp : ℕ) (ss : List Step) (r : Registry)
    → IsSound r
    → All (Fair token exp) ss
    → drained_after token tenant agent task_id exp ss r
      ≡ map intent_of (accepted token default_intent_cap [] (calls_of token ss))
unfolding drain read mint
drain-accepted token tenant agent task_id exp ss r v h =
    (steps-Represents token tenant exp r.next ss _ [] h
      (mint-Owns token tenant agent task_id exp r v)
      (mint-Represents token tenant agent task_id exp r)).intents

accepted_none : (token : String) → IsOrderly token default_intent_cap []
accepted_none token = record { bounded = omega arith; finishes = tt }

-- From a registry whose entries lead to created invocations, what an adapter drains is at most 100
-- intents, and no finish_task comes after a delegation among them. The token is for the server's tenant,
-- requests with it must not come after it expires, and no other invocation has it.
pub drained-orderly :
    (token tenant agent task_id : String) (exp : ℕ) (ss : List Step) (r : Registry)
    → IsSound r
    → All (Fair token exp) ss
    → (length (drained_after token tenant agent task_id exp ss r) ≤ 100)
      × FinishesFirst false (drained_after token tenant agent task_id exp ss r)
drained-orderly token tenant agent task_id exp ss r v h =
    let o =
      accepted-IsOrderly token default_intent_cap [] (calls_of token ss) (accepted_none token) in
    rw (drain-accepted token tenant agent task_id exp ss r v h) (
      (omega (
        arith,
        o.bounded,
        length-map (accepted token default_intent_cap [] (calls_of token ss)),
      )),
      o.finishes,
    )
