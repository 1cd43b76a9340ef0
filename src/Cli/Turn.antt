-- ===== src/Cli/Turn.antt =====
-- RunTask as adapters/claudecode/adapter.go and adapters/opencode/adapter.go share it: they differ in
-- how the output of the process is read (a parameter), and in the arguments, which are apart. The end
-- of a turn is that of the adapter of pi, which is written the same way.
use ai_solo_startup_framewor.Common.{
  ℕ, ◌+◌, String, Bool, not, Option, none, some, List, take, length, leb, eqb, if◌then◌else◌,
}
use ai_solo_startup_framewor.Mcp.Registry.{Registry, mint, drain}
use ai_solo_startup_framewor.Pi.Stream.{Bytes}
use ai_solo_startup_framewor.Pi.Turn.{
  Output, truncated, whole, trim_newlines, ProviderResult, Ran, ok, err, not_written, unhealthy,
  not_started, deadline_exceeded, bad_exit, bad_read, wired_result, unwired_result,
}

-- defaultOutputLimit: 1 << 20; times in seconds: defaultTokenGrace, defaultMintTimeout
unfoldable pub default_output_limit : ℕ
default_output_limit = 1048576

abbrev pub default_token_grace : ℕ
default_token_grace = 30

unfoldable pub default_mint_timeout : ℕ
default_mint_timeout = 86400

-- Options, with 0 for a value that is not set; `wired` is that there is a registry.
pub record Options : Type 0 where
  pub output_limit : ℕ
  pub wired : Bool
  pub mcp_server_addr : String
  pub tenant : String
  pub agent_name : String
  pub policy_action_kinds : List String
  pub context_budget : ℕ
  pub token_lifetime : ℕ

-- Adapter, the fields that both have.
pub record CliAdapter : Type 0 where
  pub limit : ℕ
  pub model : String
  pub wired : Bool
  pub mcp_server_addr : String
  pub tenant : String
  pub agent_name : String
  pub policy_action_kinds : List String
  pub context_budget : ℕ
  pub token_lifetime : ℕ

unfoldable pub or_default : ℕ → ℕ → ℕ
or_default d n = if eqb n 0 then d else n

-- The part of New that both have.
unfoldable pub new_cli : Options → String → String → CliAdapter
unfolding or_default default_output_limit default_mint_timeout
new_cli opts model agent_name = record {
  limit = or_default default_output_limit opts.output_limit;
  model = model;
  wired = opts.wired;
  mcp_server_addr = opts.mcp_server_addr;
  tenant = opts.tenant;
  agent_name = agent_name;
  policy_action_kinds = opts.policy_action_kinds;
  context_budget = opts.context_budget;
  token_lifetime = or_default default_mint_timeout opts.token_lifetime;
}

-- What happens outside: `deadline` is the context's, `healthy` what the health check says,
-- `configured` that the configuration of the MCP server was written, `output` all that the process
-- writes.
pub record CliProcess : Type 0 where
  pub now : ℕ
  pub deadline : Option ℕ
  pub token : String
  pub healthy : Bool
  pub configured : Bool
  pub started : Bool
  pub output : Bytes
  pub timed_out : Bool
  pub exited_well : Bool
  pub read_well : Bool

-- parseOutput
unfoldable pub parse_output : ℕ → Bytes → Output
unfolding trim_newlines
parse_output limit raw =
    if leb limit (length raw) then truncated (trim_newlines raw) else whole (trim_newlines raw)

unfoldable pub token_expiry : CliAdapter → CliProcess → ℕ
token_expiry a p = elim p.deadline [
  | none ↦ p.now + a.token_lifetime + default_token_grace
  | some d ↦ d + default_token_grace
]

module _ (read_output : ℕ → Bytes → Output) (a : CliAdapter) (task_id : String) where
  -- From the start of the process to its output; io.LimitReader yields the first `limit` bytes.
  unfoldable pub run_command : CliProcess → Ran Output
  run_command p =
      if not p.started
      then err not_started
      else if p.timed_out
      then err deadline_exceeded
      else if not p.exited_well
      then err bad_exit
      else if not p.read_well
      then err bad_read
      else ok (read_output a.limit (take a.limit p.output))

  unfoldable pub run_minted :
      CliProcess → (Registry → Registry) → Registry → Ran ProviderResult × Registry
  unfolding mint token_expiry wired_result run_command drain
  run_minted p meanwhile r =
      let m = mint p.token a.tenant a.agent_name task_id (token_expiry a p) r in
      if not p.configured
      then (err not_written, (drain m.0 m.1).2)
      else wired_result m.0 (run_command p) (meanwhile m.1)

  -- RunTask
  unfoldable pub run_cli :
      CliProcess → (Registry → Registry) → Registry → Ran ProviderResult × Registry
  unfolding run_minted unwired_result run_command
  run_cli p meanwhile r =
      if not a.wired
      then (unwired_result (run_command p), r)
      else if not p.healthy
      then (err unhealthy, r)
      else run_minted p meanwhile r
