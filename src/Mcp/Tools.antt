-- ===== src/Mcp/Tools.antt =====
-- transport/mcp/tools.go: a tool for each action kind, whose call is recorded and not executed. The
-- texts for the model (descriptions, acknowledgements) are left out; an acknowledgement is its
-- structured content. The schemas are in Advertised.
use Prim.Native.String.{◌++◌ as ◌+s+◌}
use ai_solo_startup_framewor.Common.{
  ℕ, String, Bool, true, false, ◌&&◌, Option, none, some, List, [], ◌∷◌, ◌==◌, if◌then◌else◌,
}
use ai_solo_startup_framewor.Common.Dict.{Dict, lookup, put}
use ai_solo_startup_framewor.Policy.{Policy}
use ai_solo_startup_framewor.Port.{Value, ActionIntent, kind_finish_task, kind_delegate_task}
use ai_solo_startup_framewor.Mcp.Sink.{record_intent}
use ai_solo_startup_framewor.Mcp.Registry.{
  Invocation, Registry, ResolveError, Resolved, ok, err, write, resolve,
}

-- A call of a tool: the verified token of the request, the kind that the tool is for, its arguments,
-- and the text that json.Marshal makes of them, keys sorted.
pub record ToolCall : Type 0 where
  pub token : Option String
  pub kind : String
  pub args : Dict Value
  pub encoded : String

pub data ToolError : Type 0 where
  no_token finish_rejected sink_full : ToolError
  unauthorized : ResolveError → ToolError

-- The receipt, the kind, and whether the call is a duplicate.
pub data ToolResult : Type 0 where
  ack : String → String → Bool → ToolResult
  error : ToolError → ToolResult

-- dedupeKey
unfoldable pub dedupe_key : String → ToolCall → String
dedupe_key token c = token +s+ ("\0" +s+ (c.kind +s+ ("\0" +s+ c.encoded)))

unfoldable pub intent_of : ToolCall → ActionIntent
intent_of c = record { kind = c.kind; payload = c.args }

-- A recorded call sets the flag of a delegation and remembers its receipt.
unfoldable pub remember : String → String → ToolCall → Invocation → Invocation
unfolding dedupe_key
remember token receipt c inv = record inv {
  delegated = if c.kind == kind_delegate_task then true else inv.delegated;
  dedupe = put (dedupe_key token c) receipt inv.dedupe;
}

unfoldable pub record_call : String → String → ToolCall → Invocation → ToolResult × Invocation
unfolding record_intent intent_of remember
record_call token receipt c inv =
    let r = record_intent (intent_of c) inv.sink in
    if r.0
    then (ack receipt c.kind false, remember token receipt c (record inv { sink = r.1 }))
    else (error sink_full, inv)

-- A call that is no duplicate.
unfoldable pub new_call : String → String → ToolCall → Invocation → ToolResult × Invocation
unfolding record_call
new_call token receipt c inv =
    if (c.kind == kind_finish_task) && inv.delegated
    then (error finish_rejected, inv)
    else record_call token receipt c inv

unfoldable pub deduplicate :
    String → String → ToolCall → Invocation → Option String → ToolResult × Invocation
unfolding new_call
deduplicate token receipt c inv (some existing) = (ack existing c.kind true, inv)
deduplicate token receipt c inv none = new_call token receipt c inv

-- The part of the handler that holds the invocation's lock; `receipt` is the text that newReceipt
-- would draw.
unfoldable pub locked_call : String → String → ToolCall → Invocation → ToolResult × Invocation
unfolding deduplicate dedupe_key
locked_call token receipt c inv =
    deduplicate token receipt c inv (lookup (dedupe_key token c) inv.dedupe)

unfoldable pub resolved_call :
    String → String → ToolCall → Registry → Resolved → ToolResult × Registry
unfolding locked_call write
resolved_call token receipt c r (err e) = (error (unauthorized e), r)
resolved_call token receipt c r (ok a) =
    let s = locked_call token receipt c (r.heap a) in (s.0, record r { heap = write a s.1 r.heap })

unfoldable pub call_with :
    ℕ → String → String → ToolCall → Registry → Option String → ToolResult × Registry
unfolding resolved_call resolve
call_with now tenant receipt c r none = (error no_token, r)
call_with now tenant receipt c r (some token) =
    resolved_call token receipt c r (resolve now token tenant r)

-- The handler of registerTools for the kind of the call.
unfoldable pub handle_call : ℕ → String → String → ToolCall → Registry → ToolResult × Registry
unfolding call_with
handle_call now tenant receipt c r = call_with now tenant receipt c r c.token

-- The kinds that registerTools registers; a policy on finish_task is ignored.
unfoldable pub policy_kinds : Dict Policy → List String
policy_kinds [] = []
policy_kinds ((k, p) ∷ ps) = if k == kind_finish_task then policy_kinds ps else k ∷ policy_kinds ps

unfoldable pub tool_kinds : Dict Policy → List String
unfolding policy_kinds
tool_kinds policies = kind_finish_task ∷ policy_kinds policies
