-- ===== src/Tests/Cli.antt =====
-- The adapters of Claude Code and opencode at concrete inputs.
use ai_solo_startup_framewor.Common.{
  arith, ◌≡◌, refl, true, false, none, some, [], ◌∷◌, map, contains,
}
use ai_solo_startup_framewor.Common.Dict.{Dict, lookup, put, remove}
use ai_solo_startup_framewor.Policy.{Policy}
use ai_solo_startup_framewor.Port.{kind_finish_task}
use ai_solo_startup_framewor.Mcp.Sink.{default_intent_cap}
use ai_solo_startup_framewor.Mcp.Registry.{verify}
use ai_solo_startup_framewor.Mcp.Tools.{intent_of, handle_call, tool_kinds}
use ai_solo_startup_framewor.Mcp.Accepts.{accepted}
use ai_solo_startup_framewor.Mcp.Steps.{calls_of}
use ai_solo_startup_framewor.Pi.Stream.{Bytes}
use ai_solo_startup_framewor.Pi.Turn.{whole, ProviderResult, ok}
use ai_solo_startup_framewor.Wire.Agents.{policy_kind_keys}
use ai_solo_startup_framewor.Cli.Turn.{CliAdapter, CliProcess, run_command, run_cli}
use ai_solo_startup_framewor.Cli.Claude.{ClaudeEvent, claude_output, mcp_tool_name, claude_args}
use ai_solo_startup_framewor.Cli.Opencode.{OpencodeEvent, opencode_output}
use ai_solo_startup_framewor.Cli.Streams.{EndsWell, run_claude-stream}
use ai_solo_startup_framewor.Cli.Events.{run_opencode-stream}
use ai_solo_startup_framewor.Cli.Report.{run_cli-accepted}
use ai_solo_startup_framewor.Cli.Grants.{behind, claude_args-names}
use ai_solo_startup_framewor.Tests.Transport.{
  empty_registry, empty_registry-IsSound, turn_steps, turn_steps-Fair,
}

-- A policy on one kind of action.
abbrev policies : Dict Policy
policies = ("send_message", record { risk = "low"; allowed_roles = [] }) ∷ []

abbrev adapter : CliAdapter
adapter = record {
  limit = 100;
  model = "opus";
  wired = true;
  mcp_server_addr = "127.0.0.1:4000";
  tenant = "acme";
  agent_name = "ceo";
  policy_action_kinds = policy_kind_keys policies;
  context_budget = 0;
  token_lifetime = 70;
}

abbrev process : Bytes → CliProcess
process output = record {
  now = 0;
  deadline = none;
  token = "t";
  healthy = true;
  configured = true;
  started = true;
  output = output;
  timed_out = false;
  exited_well = true;
  read_well = true;
}

abbrev claude_event : ClaudeEvent
claude_event = record { kind = "text"; text = 104 ∷ 105 ∷ []; message = none }

abbrev opencode_event : OpencodeEvent
opencode_event = record { kind = "text"; part = some (104 ∷ 105 ∷ []) }

-- {1} stands for either event.
abbrev line : Bytes
line = 123 ∷ 49 ∷ 125 ∷ []

abbrev stream : Bytes
stream = 123 ∷ 49 ∷ 125 ∷ 10 ∷ []

abbrev process-EndsWell : EndsWell 100 stream (process stream)
process-EndsWell = record {
  started = refl;
  in_time = refl;
  exited = refl;
  read = refl;
  wrote = refl;
  short = omega arith;
}

run_claude-stream_example :
    run_command (claude_output (λ l. some claude_event)) adapter "task-1" (process stream)
    ≡ ok (whole (104 ∷ 105 ∷ []))
run_claude-stream_example =
    run_claude-stream (λ l. some claude_event) adapter "task-1" (λ e. line) (claude_event ∷ [])
      (process stream) (record { framed = (49 ∷ [], refl); single = refl; decoded = refl }, tt)
      process-EndsWell

run_opencode-stream_example :
    run_command (opencode_output (λ l. some opencode_event)) adapter "task-1" (process stream)
    ≡ ok (whole (104 ∷ 105 ∷ []))
run_opencode-stream_example =
    run_opencode-stream (λ l. some opencode_event) adapter "task-1" (λ e. line) opencode_event []
      (process stream) (record { framed = (49 ∷ [], refl); single = refl; decoded = refl }, tt) refl
      process-EndsWell

abbrev provider_result : ProviderResult
provider_result = record {
  output = whole (104 ∷ 105 ∷ []);
  action_intents = map intent_of (accepted "t" default_intent_cap [] (calls_of "t" turn_steps));
}

run_cli-accepted_example :
    provider_result.action_intents
    ≡ map intent_of (accepted "t" default_intent_cap [] (calls_of "t" turn_steps))
unfolding run_cli claude_output handle_call lookup remove put verify
run_cli-accepted_example =
    run_cli-accepted (claude_output (λ l. some claude_event)) adapter "task-1" (process stream)
      turn_steps empty_registry provider_result refl empty_registry-IsSound turn_steps-Fair refl

-- finish_task is registered and not named.
claude_args-names_example :
    contains
      (behind "--allowedTools" (claude_args adapter "" "/tmp/mcp.json"))
      (mcp_tool_name kind_finish_task)
    ≡ false
unfolding contains tool_kinds policy_kind_keys
claude_args-names_example =
    claude_args-names adapter policies "" "/tmp/mcp.json" kind_finish_task refl refl refl refl refl
      refl refl
