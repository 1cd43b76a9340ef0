-- ===== src/Context.antt =====
-- core/supervisor/context.go: the transcript handed to a provider, cut to a budget of bytes.
-- `len(m.Content)` counts bytes of UTF-8, as `len` of the texts does.
pub mod Bound
use Prim.Native.String.{◌++◌ as ◌+s+◌, len}
use mathlib.Core.List.{reverse}
use ai_solo_startup_framewor.Common.{
  ℕ, zero, suc, ◌+◌, ◌-◌, String, Bool, true, false, List, [], ◌∷◌, length, drop, ltb, leb,
  if◌then◌else◌,
}
use ai_solo_startup_framewor.Port.{ContextMessage, BoundedContext}

abbrev pub truncation_marker : String
truncation_marker = "[context truncated: oldest messages dropped to fit budget]"

-- The sum that the first loop accumulates.
abbrev pub total : List ContextMessage → ℕ
total [] = 0
total (m ∷ ms) = len m.content + total ms

-- The backward walk, over the messages newest first: how many fit in `remaining`.
unfoldable pub walk : ℕ → ℕ → List ContextMessage → ℕ
walk remaining acc [] = 0
walk remaining acc (m ∷ older) =
    if ltb remaining (acc + len m.content)
    then 0
    else suc (walk remaining (acc + len m.content) older)

abbrev pub whole : List ContextMessage → BoundedContext
whole messages = record { messages = messages; truncated = false; truncation_marker = "" }

-- `time.Time{}` is the marker message's zero time stamp.
abbrev pub marker : ContextMessage
marker = record { role = "system"; content = truncation_marker; at = 0 }

unfoldable pub trimmed : List ContextMessage → ℕ → List ContextMessage
trimmed messages budget =
    drop (length messages - walk (budget - len truncation_marker) 0 (reverse messages)) messages

cut : List ContextMessage → ℕ → BoundedContext
cut messages budget = record {
  messages = marker ∷ trimmed messages budget;
  truncated = true;
  truncation_marker = truncation_marker;
}

-- assembleBoundedContext; a budget of 0 is no cap.
unfoldable pub assemble_bounded_context : List ContextMessage → ℕ → BoundedContext
unfolding cut
assemble_bounded_context messages zero = whole messages
assemble_bounded_context [] (suc b) = whole []
assemble_bounded_context messages (suc b) =
    if leb (total messages) (suc b) then whole messages else cut messages (suc b)

render : ContextMessage → String
render m = m.role +s+ (": " +s+ m.content)

-- The loop of contextText past its first message.
later_lines : List ContextMessage → String
later_lines [] = ""
later_lines (m ∷ ms) = "\n" +s+ (render m +s+ later_lines ms)

-- contextText
unfoldable pub context_text : List ContextMessage → String
unfolding render later_lines
context_text [] = ""
context_text (m ∷ ms) = render m +s+ later_lines ms
