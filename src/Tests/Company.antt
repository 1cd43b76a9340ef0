-- ===== src/Tests/Company.antt =====
-- The company file and pi's adapter at concrete inputs.
use ai_solo_startup_framewor.Common.{
  ◌≡◌, refl, String, true, false, Option, none, some, List, [], ◌∷◌, map, contains, ◌⊎◌,
}
use ai_solo_startup_framewor.Common.Dict.{Dict, lookup, put, remove}
use ai_solo_startup_framewor.Mcp.Sink.{default_intent_cap}
use ai_solo_startup_framewor.Mcp.Registry.{verify}
use ai_solo_startup_framewor.Mcp.Tools.{intent_of, handle_call}
use ai_solo_startup_framewor.Mcp.Accepts.{accepted}
use ai_solo_startup_framewor.Mcp.Steps.{calls_of, steps}
use ai_solo_startup_framewor.Schema.Names.{normalize, has_double_low, ends_low}
use ai_solo_startup_framewor.Schema.Yaml.{entry, end_entries, text, integer, pos}
use ai_solo_startup_framewor.Schema.Agent.{Files}
use ai_solo_startup_framewor.Schema.Load.{RawCompany, CompanyConfig, load}
use ai_solo_startup_framewor.Schema.Company.{IsGoodCompany, load-IsGoodCompany}
use ai_solo_startup_framewor.Pi.Probe.{listed, tool, Session, connected, probe_mcp, tools_allowlist}
use ai_solo_startup_framewor.Pi.Allowlist.{allowlist-servers}
use ai_solo_startup_framewor.Pi.Stream.{
  Bytes, StreamEvent, Chunk, no_failure, max_line_size, parse_stream,
}
use ai_solo_startup_framewor.Pi.Capped.{Tracks}
use ai_solo_startup_framewor.Pi.Lines.{
  all_output, all_text, complete_lines, last_failure, parse_stream-Tracks,
}
use ai_solo_startup_framewor.Pi.Turn.{Adapter, Process, ProviderResult, whole, run_task}
use ai_solo_startup_framewor.Pi.Report.{run_task-releases, run_task-accepted}
use ai_solo_startup_framewor.Tests.Transport.{
  empty_registry, empty_registry-IsSound, turn_steps, turn_steps-Fair,
}

-- A company of one agent with a round limit of its own.
abbrev raw_company : RawCompany
raw_company = record {
  tenant = "acme";
  auth_token_env = "ASF_TOKEN";
  agents = entry "name" (text "ceo") (entry "max_rounds" (integer (pos 5)) end_entries) ∷ [];
  telegram = none;
  risk_policy = [];
}

abbrev files : Files
files = record { join = λ d p. p; abs = λ p. some p; exists = λ p. false }

abbrev company_config : CompanyConfig
company_config = record {
  tenant = "acme";
  auth_token_env = "ASF_TOKEN";
  agents =
      record {
        name = "ceo";
        role = "";
        provider = "pi";
        model = "";
        system_prompt = "";
        extensions = [];
        mcp_servers = [];
        max_rounds = 5;
      }
      ∷ [];
  telegram = none;
  risk_policy = [];
}

load-IsGoodCompany_example : IsGoodCompany files "/etc" company_config
unfolding load contains
load-IsGoodCompany_example =
    load-IsGoodCompany (λ p. some p) (λ s. some raw_company) (λ p. "/etc") files "/etc/company.yaml"
      company_config refl

abbrev session : String → Session
session name = connected (tool "read-issue" (tool "search" listed))

abbrev probed_tools : Dict (List String)
probed_tools = ("git-hub", "mcp__git_hub__read_issue" ∷ "mcp__git_hub__search" ∷ []) ∷ []

allowlist-servers_example :
    (n : String) × (normalize "git_hub" ≡ normalize n)
    × ((n ≡ "framework") ⊎ (contains ("git-hub" ∷ []) n ≡ true))
unfolding probe_mcp has_double_low ends_low contains put remove tools_allowlist lookup
allowlist-servers_example =
    allowlist-servers session ("send_message" ∷ []) ("git-hub" ∷ []) probed_tools true "git_hub"
      "search" refl refl

-- A stream of one line, which is cut in two reads.
abbrev event : StreamEvent
event = record {
  kind = "message_end";
  message = some (record {
    role = "assistant";
    content = record { kind = "text"; text = 104 ∷ 105 ∷ [] } ∷ [];
    stop_reason = "stop";
    error_message = "";
  });
}

abbrev chunks : List Chunk
chunks =
    record { bytes = 1 ∷ 2 ∷ []; goes_on = true } ∷ record { bytes = 3 ∷ []; goes_on = false } ∷ []

abbrev decode_line : Bytes → Option StreamEvent
decode_line line = some event

parse_stream-Tracks_example :
    Tracks 1
      (all_output chunks)
      (all_text decode_line (complete_lines [] chunks))
      (last_failure decode_line no_failure (complete_lines [] chunks))
      (parse_stream decode_line 1 chunks)
parse_stream-Tracks_example = parse_stream-Tracks decode_line 1 chunks

abbrev adapter : Adapter
adapter = record {
  limit = 100;
  tenant = "acme";
  agent_name = "ceo";
  token_lifetime = 70;
  wired = true;
  mcp_server_names = [];
  mcp_tools = [];
}

abbrev process : Process
process = record {
  now = 0;
  deadline = none;
  token = "t";
  healthy = true;
  written = true;
  started = true;
  output = chunks;
  timed_out = false;
  exited_well = true;
  read_well = true;
}

run_task-releases_example :
    lookup "t"
      (run_task decode_line adapter "task-1" process
        (steps "acme" turn_steps)
        empty_registry).1.entries
    ≡ none
unfolding lookup
run_task-releases_example =
    run_task-releases decode_line adapter "task-1" process (steps "acme" turn_steps) empty_registry
      refl

abbrev provider_result : ProviderResult
provider_result = record {
  output = whole (104 ∷ 105 ∷ []);
  action_intents = map intent_of (accepted "t" default_intent_cap [] (calls_of "t" turn_steps));
}

run_task-accepted_example :
    provider_result.action_intents
    ≡ map intent_of (accepted "t" default_intent_cap [] (calls_of "t" turn_steps))
unfolding run_task max_line_size handle_call lookup remove put verify
run_task-accepted_example =
    run_task-accepted decode_line adapter "task-1" process turn_steps empty_registry provider_result
      refl empty_registry-IsSound turn_steps-Fair refl
