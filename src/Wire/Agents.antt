-- ===== src/Wire/Agents.antt =====
-- The loop of materializeAgents (cmd/company/wire.go) over one agent, with New of
-- transport/a2a/server.go. What the file system, the probes of the providers and the ports of the
-- machine answer is a parameter; supervisor.New fails only without a policy engine and is given one.
use ai_solo_startup_framewor.Common.{
  ℕ, String, Bool, true, false, not, ◌&&◌, Option, none, some, List, [], ◌∷◌, ◌++◌, length, ◌==◌,
  if◌then◌else◌,
}
use ai_solo_startup_framewor.Common.Dict.{Dict}
use ai_solo_startup_framewor.Policy.{Policy}
use ai_solo_startup_framewor.Address
use ai_solo_startup_framewor.Schema.Agent.{McpServer}
use ai_solo_startup_framewor.Schema.Load.{AgentConfig, CompanyConfig}
use ai_solo_startup_framewor.Gateway.{TelegramGateway, GatewayError}
use ai_solo_startup_framewor.A2a.Directory.{PeerDirectory, DirectoryError, bind}

-- The options that New of every adapter gets.
pub record Wiring : Type 0 where
  pub mcp_server_addr : String
  pub tenant : String
  pub agent_name : String
  pub policy_action_kinds : List String
  pub model : String
  pub system_prompt : String

-- What stands behind port.Provider; pi gets extensions and MCP servers as well.
pub data Provider : Type 0 where
  overridden : Provider
  pi : Wiring → List String → Dict McpServer → Provider
  claude_code opencode : Wiring → Provider

-- The shared gateway: none, the override, or Telegram's.
pub data GatewayChoice : Type 0 where
  no_gateway override_gateway : GatewayChoice
  telegram_gateway : TelegramGateway → GatewayChoice

pub data ServerError : Type 0 where
  empty_token tenantless no_listener recovery_failed : ServerError

pub data WireError : Type 0 where
  gateway_closed : GatewayError → WireError
  mcp_unstarted mcp_unaddressed no_auth_token duplicate_role : WireError
  bad_address : Address.AddressError → WireError
  no_store unknown_provider model_probe_failed mcp_probe_failed : WireError
  no_transport : ServerError → WireError
  unbindable : DirectoryError → WireError

pub data Result (A : Type 0) : Type 0 where
  ok : A → Result A
  err : WireError → Result A

-- agentRuntime, with what its supervisor was built from.
pub record AgentRuntime : Type 0 where
  pub address : String
  pub role : String
  pub provider : Provider
  pub gateway : GatewayChoice
  pub store_dir : String
  pub max_rounds : ℕ
  pub url : String

-- What the call has set up: whether its MCP server runs, the directory, and the base URLs of the A2A
-- servers that listen, in the order of their starts.
pub record Site : Type 0 where
  pub mcp_running : Bool
  pub directory : PeerDirectory
  pub listening : List String

-- The answers from outside. `listen` is asked with the number of servers that listen already;
-- `recover` is the success of RecoverOpenTasks behind a base URL.
pub record Machine : Type 0 where
  pub getenv : String → String
  pub temp_dir : String
  pub join : String → String → String
  pub make_store : String → Bool
  pub probe_model : Provider → Bool
  pub probe_mcp : Provider → Bool
  pub mcp_start : Option String
  pub listen : ℕ → Option String
  pub recover : String → Bool

-- policyKindKeys
unfoldable pub policy_kind_keys : Dict Policy → List String
policy_kind_keys [] = []
policy_kind_keys ((k, p) ∷ ps) = k ∷ policy_kind_keys ps

-- What the agents share: the company, the outside, the gateway, the address of the MCP server, the
-- base directory of the stores, the token of the A2A servers, and whether the provider is overridden.
pub record Shared : Type 0 where
  pub company : CompanyConfig
  pub outside : Machine
  pub gateway : GatewayChoice
  pub mcp_addr : String
  pub store_root : String
  pub server_token : String
  pub provider_override : Bool

unfoldable pub wiring : Shared → AgentConfig → Wiring
unfolding policy_kind_keys
wiring s a = record {
  mcp_server_addr = s.mcp_addr;
  tenant = s.company.tenant;
  agent_name = a.name;
  policy_action_kinds = policy_kind_keys s.company.risk_policy;
  model = a.model;
  system_prompt = a.system_prompt;
}

-- The switch over the provider's name.
unfoldable pub provider_for : Shared → AgentConfig → Option Provider
unfolding wiring
provider_for s a =
    if s.provider_override
    then some overridden
    else if a.provider == "pi"
    then some (pi (wiring s a) a.extensions a.mcp_servers)
    else if a.provider == "claude-code"
    then some (claude_code (wiring s a))
    else if a.provider == "opencode"
    then some (opencode (wiring s a))
    else none

-- The assertions to modelProber and mcpProber.
unfoldable pub is_model_prober : Provider → Bool
is_model_prober overridden = false
is_model_prober (pi w es ms) = true
is_model_prober (claude_code w) = true
is_model_prober (opencode w) = true

unfoldable pub is_mcp_prober : Provider → Bool
is_mcp_prober overridden = false
is_mcp_prober (pi w es ms) = true
is_mcp_prober (claude_code w) = false
is_mcp_prober (opencode w) = false

unfoldable pub recover_at : Machine → String → Site → (Option ServerError × String) × Site
recover_at out url w = ((if out.recover url then none else some recovery_failed, url), w)

-- A listener that serves; a failure of the recovery leaves it open.
unfoldable pub serve_on : Machine → Option String → Site → (Option ServerError × String) × Site
unfolding recover_at
serve_on out none w = ((some no_listener, ""), w)
serve_on out (some url) w = recover_at out url (record w { listening = w.listening ++ url ∷ [] })

-- New of transport/a2a/server.go: an error or a base URL.
unfoldable pub new_server : Machine → String → String → Site → (Option ServerError × String) × Site
unfolding serve_on
new_server out token address w =
    if token == ""
    then ((some empty_token, ""), w)
    else if Address.tenant address == ""
    then ((some tenantless, ""), w)
    else serve_on out (out.listen (length w.listening)) w

unfoldable pub published :
    AgentRuntime → Option DirectoryError × PeerDirectory → Site → Result AgentRuntime × Site
published rt (none, d) w = (ok rt, record w { directory = d })
published rt (some e, d) w = (err (unbindable e), record w { directory = d })

unfoldable pub publish :
    AgentRuntime → (Option ServerError × String) × Site → Result AgentRuntime × Site
unfolding published
publish rt ((some e, url), w) = (err (no_transport e), w)
publish rt ((none, url), w) = published (record rt { url = url }) (bind rt.role url w.directory) w

unfoldable pub add_runtime :
    AgentRuntime → Result (List AgentRuntime) × Site → Result (List AgentRuntime) × Site
add_runtime rt (ok rts, w) = (ok (rt ∷ rts), w)
add_runtime rt (err e, w) = (err e, w)

module _ (s : Shared) where
  -- The runtime of an agent, before its server has a base URL.
  abbrev pub planned : AgentConfig → String → Provider → AgentRuntime
  planned a address p = record {
    address = address;
    role = a.role;
    provider = p;
    gateway = s.gateway;
    store_dir = s.outside.join s.store_root a.name;
    max_rounds = a.max_rounds;
    url = "";
  }

  unfoldable pub start_provided :
      AgentConfig → String → Option Provider → Site → Result AgentRuntime × Site
  unfolding is_model_prober is_mcp_prober new_server publish
  start_provided a address none w = (err unknown_provider, w)
  start_provided a address (some p) w =
      if is_model_prober p && not (s.outside.probe_model p)
      then (err model_probe_failed, w)
      else if is_mcp_prober p && not (s.outside.probe_mcp p)
      then (err mcp_probe_failed, w)
      else publish (planned a address p) (new_server s.outside s.server_token address w)

  unfoldable pub start_addressed : AgentConfig → Address.Result → Site → Result AgentRuntime × Site
  unfolding provider_for start_provided
  start_addressed a (Address.err e) w = (err (bad_address e), w)
  start_addressed a (Address.ok address) w =
      if not (s.outside.make_store (s.outside.join s.store_root a.name))
      then (err no_store, w)
      else start_provided a address (provider_for s a) w

  -- The body of the loop over the agents.
  unfoldable pub start_agent : AgentConfig → Site → Result AgentRuntime × Site
  unfolding start_addressed
  start_agent a w = start_addressed a (Address.new a.name s.company.tenant) w

  -- The loop; an error leaves it, with what the agents before have set up.
  unfoldable pub start_agents : List AgentConfig → Site → Result (List AgentRuntime) × Site
  unfolding start_agent add_runtime
  start_agents [] w = (ok [], w)
  start_agents (a ∷ more) w = elim (start_agent a w).0 [
    | ok rt ↦ add_runtime rt (start_agents more (start_agent a w).1)
    | err e ↦ (err e, (start_agent a w).1)
  ]
