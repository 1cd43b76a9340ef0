-- ===== src/Mcp/Logging.antt =====
-- transport/mcp/logging.go: the record that the middleware writes of a call of a tool. The logger and
-- the texts of errors are left out.
use ai_solo_startup_framewor.Common.{
  String, Bool, true, false, not, ◌&&◌, Option, none, some, [], ◌∷◌, ◌++◌, ◌==◌, ◌≡◌, refl, arith,
  Bool-cases, inl, inr, if◌then◌else◌,
}
use ai_solo_startup_framewor.Common.Dict.{lookup}
use ai_solo_startup_framewor.Port.{kind_finish_task}
use ai_solo_startup_framewor.Mcp.Sink.{Sink, record_intent}
use ai_solo_startup_framewor.Mcp.Registry.{Invocation}
use ai_solo_startup_framewor.Mcp.Tools.{
  ToolCall, ToolResult, ack, error, dedupe_key, intent_of, remember, record_call, new_call,
  deduplicate, locked_call,
}

-- What the handler of a method returned: an error of the protocol, a result of a tool, or another
-- result.
pub data Answered : Type 0 where
  failed : Answered
  tool_result : ToolResult → Answered
  other_result : Answered

-- The outcome in the record, with intent_recorded where it is logged.
pub data LoggedOutcome : Type 0 where
  log_error log_tool_error : LoggedOutcome
  log_ok : Option Bool → LoggedOutcome

-- isErrorResult
unfoldable pub is_error_result : Answered → Bool
is_error_result failed = false
is_error_result (tool_result (ack r k d)) = false
is_error_result (tool_result (error e)) = true
is_error_result other_result = false

-- What intentRecorded reads of the StructuredContent of a result.
pub record Acknowledgement : Type 0 where
  pub status : String
  pub duplicate : Bool

-- The StructuredContent that buildAckResult writes; a result that is an error has none.
unfoldable pub structured_content : ToolResult → Option Acknowledgement
structured_content (ack receipt kind repeated) =
    some (record { status = "recorded"; duplicate = repeated })
structured_content (error e) = none

-- intentRecorded
unfoldable pub content_recorded : Option Acknowledgement → Bool
content_recorded none = false
content_recorded (some a) = (a.status == "recorded") && not a.duplicate

unfoldable pub intent_recorded : ToolResult → Bool
unfolding structured_content content_recorded
intent_recorded r = content_recorded (structured_content r)

unfoldable pub log_success : Answered → LoggedOutcome
unfolding intent_recorded
log_success (tool_result r) = log_ok (some (intent_recorded r))
log_success failed = log_ok none
log_success other_result = log_ok none

-- The switch of requestLoggingMiddleware.
unfoldable pub logged_outcome : Answered → LoggedOutcome
unfolding is_error_result log_success
logged_outcome failed = log_error
logged_outcome (tool_result r) =
    if is_error_result (tool_result r) then log_tool_error else log_success (tool_result r)
logged_outcome other_result =
    if is_error_result other_result then log_tool_error else log_success other_result

-- What a record says of the intents of the invocation before and after the call.
pub record TellsTruth (c : ToolCall) (before after : Sink) (o : LoggedOutcome) : Type 0 where
  pub recorded : o ≡ log_ok (some true) → after.intents ≡ before.intents ++ intent_of c ∷ []
  pub repeated : o ≡ log_ok (some false) → after ≡ before
  pub refused : o ≡ log_tool_error → after ≡ before
  pub told : (o ≡ log_error → ⊥) × (o ≡ log_ok none → ⊥)

module _ (token receipt : String) (c : ToolCall) (inv : Invocation) where
  record_call-TellsTruth :
      TellsTruth c inv.sink
        (record_call token receipt c inv).1.sink
        (logged_outcome (tool_result (record_call token receipt c inv).0))
  unfolding record_call record_intent remember logged_outcome
  record_call-TellsTruth = elim (Bool-cases (record_intent (intent_of c) inv.sink).0) [
    | inl e ↦ rw e (record {
      recorded = λ h. ground (arith, e);
      repeated = λ h. ground (arith, h);
      refused = λ h. cc;
      told = (λ h. cc, λ h. cc);
    })
    | inr e ↦ rw e (record {
      recorded = λ h. cc;
      repeated = λ h. refl;
      refused = λ h. refl;
      told = (λ h. cc, λ h. cc);
    })
  ]

  new_call-TellsTruth :
      TellsTruth c inv.sink
        (new_call token receipt c inv).1.sink
        (logged_outcome (tool_result (new_call token receipt c inv).0))
  unfolding new_call logged_outcome
  new_call-TellsTruth = elim (Bool-cases ((c.kind == kind_finish_task) && inv.delegated)) [
    | inl e ↦ rw e (record {
      recorded = λ h. cc;
      repeated = λ h. refl;
      refused = λ h. refl;
      told = (λ h. cc, λ h. cc);
    })
    | inr e ↦ rw e record_call-TellsTruth
  ]

  deduplicate-TellsTruth :
      (o : Option String)
      → TellsTruth c inv.sink
          (deduplicate token receipt c inv o).1.sink
          (logged_outcome (tool_result (deduplicate token receipt c inv o).0))
  unfolding deduplicate logged_outcome
  deduplicate-TellsTruth none = new_call-TellsTruth
  deduplicate-TellsTruth (some r) = record {
    recorded = λ h. ground (arith, h);
    repeated = λ h. refl;
    refused = λ h. refl;
    told = (λ h. cc, λ h. cc);
  }

  -- The record of a call that reached its invocation tells what happened to the sink: intent_recorded
  -- is true only if the call's intent was added at the end, and on every other outcome, which is a
  -- duplicate or an error of the tool, the sink is as before.
  pub locked_call-TellsTruth :
      TellsTruth c inv.sink
        (locked_call token receipt c inv).1.sink
        (logged_outcome (tool_result (locked_call token receipt c inv).0))
  unfolding locked_call
  locked_call-TellsTruth = deduplicate-TellsTruth (lookup (dedupe_key token c) inv.dedupe)
