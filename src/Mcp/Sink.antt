-- ===== src/Mcp/Sink.antt =====
-- transport/mcp/sink.go: the bounded buffer of the intents of one invocation.
use ai_solo_startup_framewor.Common.{
  ℕ, Bool, true, false, List, [], ◌∷◌, ◌++◌, length, leb, eqb, if◌then◌else◌,
}
use ai_solo_startup_framewor.Port.{ActionIntent}

abbrev pub default_intent_cap : ℕ
default_intent_cap = 100

pub record Sink : Type 0 where
  pub intents : List ActionIntent
  pub capacity : ℕ

-- NewSink; 0 stands for every capacity that is not positive.
unfoldable pub new_sink : ℕ → Sink
new_sink capacity = record {
  intents = [];
  capacity = if eqb capacity 0 then default_intent_cap else capacity;
}

-- Record: false is ErrSinkFull.
unfoldable pub record_intent : ActionIntent → Sink → Bool × Sink
record_intent intent s =
    if leb s.capacity (length s.intents)
    then (false, s)
    else (true, record s { intents = s.intents ++ intent ∷ [] })

-- Read
unfoldable pub read : Sink → List ActionIntent
read s = s.intents
