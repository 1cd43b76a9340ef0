-- ===== src/Wire/Startup.antt =====
-- materializeAgents (cmd/company/wire.go) around its loop.
use Prim.Native.String.{◌++◌}
use ai_solo_startup_framewor.Common.{
  String, Bool, true, false, Option, none, some, List, [], map, ◌==◌, if◌then◌else◌,
}
use ai_solo_startup_framewor.Schema.Load.{TelegramConfig, CompanyConfig}
use ai_solo_startup_framewor.Gateway.{Opened, opened, closed, new_gateway}
use ai_solo_startup_framewor.Gateway.Opening.{recipient_name}
use ai_solo_startup_framewor.A2a.Directory.{PeerDirectory, new_peer_directory}
use ai_solo_startup_framewor.Wire.Agents.{
  GatewayChoice, no_gateway, override_gateway, telegram_gateway, gateway_closed, mcp_unstarted,
  mcp_unaddressed, no_auth_token, duplicate_role, Result, ok, err, AgentRuntime, Site, Machine,
  Shared, start_agents,
}

-- The MCP server of the options: none, so that the call starts its own, or one with its address,
-- which it has once it was started.
pub data McpOption : Type 0 where
  own : McpOption
  given : Option String → McpOption

-- wireOptions, apart from its writer and its timeout.
pub record WireOptions : Type 0 where
  pub provider_override : Bool
  pub gateway_override : Bool
  pub store_dir : String
  pub auth_token_override : String
  pub mcp_server : McpOption

unfoldable pub gateway_of : Opened → Result GatewayChoice
gateway_of (opened g) = ok (telegram_gateway g)
gateway_of (closed e) = err (gateway_closed e)

unfoldable pub open_gateway :
    (String → String) → WireOptions → Option TelegramConfig → Result GatewayChoice
unfolding gateway_of new_gateway recipient_name
open_gateway getenv opts tg = if opts.gateway_override then ok override_gateway else elim tg [
  | none ↦ ok no_gateway
  | some t ↦ gateway_of (new_gateway getenv t.token_env (recipient_name t))
]

-- The deferred shutdown of the server that the call has started.
unfoldable pub shut_down_on_error :
    McpOption → Result (List AgentRuntime) × Site → Result (List AgentRuntime) × Site
shut_down_on_error own (err e, w) = (err e, record w { mcp_running = false })
shut_down_on_error own (ok rts, w) = (ok rts, w)
shut_down_on_error (given addr) r = r

abbrev pub no_directory : PeerDirectory
no_directory = record { declared = []; bound = [] }

module _ (c : CompanyConfig) (out : Machine) (opts : WireOptions) where
  abbrev pub nothing_up : Site
  nothing_up = record { mcp_running = false; directory = no_directory; listening = [] }

  abbrev pub mcp_up : Site
  mcp_up = record nothing_up { mcp_running = true }

  unfoldable pub auth_token : String
  auth_token =
      if opts.auth_token_override == ""
      then out.getenv c.auth_token_env
      else opts.auth_token_override

  unfoldable pub store_base : String
  store_base =
      if opts.store_dir == ""
      then out.join out.temp_dir ("company-store-" ++ c.tenant)
      else opts.store_dir

  abbrev pub shared : GatewayChoice → String → Shared
  shared gw mcp_addr = record {
    company = c;
    outside = out;
    gateway = gw;
    mcp_addr = mcp_addr;
    store_root = store_base;
    server_token = auth_token;
    provider_override = opts.provider_override;
  }

  unfoldable pub start_declared :
      Shared → Option PeerDirectory → Site → Result (List AgentRuntime) × Site
  unfolding start_agents
  start_declared s none w = (err duplicate_role, w)
  start_declared s (some d) w = start_agents s c.agents (record w { directory = d })

  -- From the address of the MCP server on.
  unfoldable pub start_with_mcp :
      GatewayChoice → Option String → Site → Result (List AgentRuntime) × Site
  unfolding auth_token start_declared new_peer_directory
  start_with_mcp gw none w = (err mcp_unaddressed, w)
  start_with_mcp gw (some addr) w =
      if auth_token == ""
      then (err no_auth_token, w)
      else start_declared (shared gw addr) (new_peer_directory (map (λ a. a.role) c.agents)) w

  unfoldable pub start_own : GatewayChoice → Option String → Result (List AgentRuntime) × Site
  unfolding start_with_mcp shut_down_on_error
  start_own gw none = (err mcp_unstarted, nothing_up)
  start_own gw (some addr) = shut_down_on_error own (start_with_mcp gw (some addr) mcp_up)

  -- From the choice of the MCP server on.
  unfoldable pub start_chosen : GatewayChoice → McpOption → Result (List AgentRuntime) × Site
  unfolding start_own start_with_mcp shut_down_on_error
  start_chosen gw own = start_own gw out.mcp_start
  start_chosen gw (given addr) = shut_down_on_error (given addr) (start_with_mcp gw addr mcp_up)

  unfoldable pub start_opened : Result GatewayChoice → Result (List AgentRuntime) × Site
  unfolding start_chosen
  start_opened (err e) = (err e, nothing_up)
  start_opened (ok gw) = start_chosen gw opts.mcp_server

  -- materializeAgents
  unfoldable pub materialize_agents : Result (List AgentRuntime) × Site
  unfolding start_opened open_gateway
  materialize_agents = start_opened (open_gateway out.getenv opts c.telegram)
