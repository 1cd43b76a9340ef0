-- ===== src/Wire/Loaded.antt =====
-- From the company file (Load of config/schema.go) to running agents (materializeAgents of
-- cmd/company/wire.go).
use ai_solo_startup_framewor.Common.{
  String, false, Option, none, some, List, [], map, ◌==◌, ◌≡◌, refl, All,
}
use ai_solo_startup_framewor.Address
use ai_solo_startup_framewor.Schema.Yaml
use ai_solo_startup_framewor.Schema.Agent.{Files}
use ai_solo_startup_framewor.Schema.Load.{TelegramConfig, RawCompany, CompanyConfig, load}
use ai_solo_startup_framewor.Schema.Company.{IsGoodTelegram, load-IsGoodCompany}
use ai_solo_startup_framewor.Gateway.{
  TelegramGateway, trim_slashes, default_base, opened, with_values, new_with_base, new_gateway,
}
use ai_solo_startup_framewor.Gateway.Opening.{recipient_name, recipient_name-named}
use ai_solo_startup_framewor.A2a.Directory.{PeerDirectory, new_peer_directory}
use ai_solo_startup_framewor.Wire.Agents.{
  GatewayChoice, no_gateway, telegram_gateway, Result, ok, err, AgentRuntime, Site, Machine,
}
use ai_solo_startup_framewor.Wire.Startup.{
  own, WireOptions, gateway_of, open_gateway, shut_down_on_error, mcp_up, auth_token, shared,
  start_declared, start_with_mcp, start_own, start_chosen, start_opened, materialize_agents,
}
use ai_solo_startup_framewor.Wire.Directed.{new_peer_directory-IsFree}
use ai_solo_startup_framewor.Wire.Starts.{IsWell, IsNamed, start_agents-well}

-- An environment variable that is set.
abbrev pub IsGiven : (String → String) → String → Type 0
IsGiven getenv name = (getenv name == "") ≡ false

abbrev pub IsReachable : (String → String) → Option TelegramConfig → Type 0
IsReachable getenv none = Unit
IsReachable getenv (some tg) = IsGiven getenv tg.token_env × IsGiven getenv (recipient_name tg)

-- What a company needs besides what Load has checked: variables that are set, names without slashes,
-- known providers, roles of which no two are the same, and an MCP server that can listen.
pub record IsReady (c : CompanyConfig) (out : Machine) : Type 0 where
  pub outside : IsWell out
  pub token : IsGiven out.getenv c.auth_token_env
  pub gateway : IsReachable out.getenv c.telegram
  pub tools : (addr : String) × (out.mcp_start ≡ some addr)
  pub plain : Address.has_slash c.tenant ≡ false
  pub agents : All IsNamed c.agents
  pub roles : (d : PeerDirectory) × (new_peer_directory (map (λ a. a.role) c.agents) ≡ some d)

-- The options of the program itself, which overrides nothing.
abbrev pub no_override : String → WireOptions
no_override store_dir = record {
  provider_override = false;
  gateway_override = false;
  store_dir = store_dir;
  auth_token_override = "";
  mcp_server = own;
}

new_gateway-opens :
    (getenv : String → String) (tg : TelegramConfig)
    → IsGoodTelegram (some tg)
    → IsReachable getenv (some tg)
    → (g : TelegramGateway) × (new_gateway getenv tg.token_env (recipient_name tg) ≡ opened g)
unfolding new_gateway new_with_base with_values
new_gateway-opens getenv tg h r = (
  record {
    token = getenv tg.token_env;
    owner_id = getenv (recipient_name tg);
    base = trim_slashes default_base;
  },
  rw (h.0, recipient_name-named tg h, r.0, r.1) refl,
)

shut_down_on_error-starts :
    (r : Result (List AgentRuntime) × Site) (rts : List AgentRuntime)
    → r.0 ≡ ok rts
    → (shut_down_on_error own r).0 ≡ ok rts
unfolding shut_down_on_error
shut_down_on_error-starts (ok l, w) rts h = h
shut_down_on_error-starts (err e, w) rts h = cc

module _ (c : CompanyConfig) (out : Machine) (store_dir : String) where
  open_gateway-opens :
      (tg : Option TelegramConfig)
      → IsGoodTelegram tg
      → IsReachable out.getenv tg
      → (gw : GatewayChoice) × (open_gateway out.getenv (no_override store_dir) tg ≡ ok gw)
  unfolding open_gateway gateway_of
  open_gateway-opens none h r = (no_gateway, refl)
  open_gateway-opens (some tg) h r =
      let g = new_gateway-opens out.getenv tg h r in (telegram_gateway g.0, rw g.1 refl)

  start_with_mcp-starts :
      (gw : GatewayChoice) (addr : String)
      → IsReady c out
      → (c.tenant == "") ≡ false
      → (rts : List AgentRuntime) × ((start_with_mcp c out
            (no_override store_dir)
            gw
            (some addr)
            (mcp_up c out (no_override store_dir))).0
          ≡ ok rts)
  unfolding start_with_mcp start_declared auth_token
  start_with_mcp-starts gw addr r t =
      let (d, e) = r.roles in
      let up =
        start_agents-well (shared c out (no_override store_dir) gw addr) r.outside [] c.agents
          (record (mcp_up c out (no_override store_dir)) { directory = d }) r.token t r.plain
          r.agents (new_peer_directory-IsFree c.agents d e) in
      (up.0, rw (r.token, e) up.1)

  start_own-starts :
      (gw : GatewayChoice) (o : Option String) (addr : String)
      → o ≡ some addr
      → IsReady c out
      → (c.tenant == "") ≡ false
      → (rts : List AgentRuntime) × ((start_own c out (no_override store_dir) gw o).0 ≡ ok rts)
  unfolding start_own
  start_own-starts gw none addr e r t = cc
  start_own-starts gw (some b) addr e r t =
      let up = start_with_mcp-starts gw b r t in (up.0, shut_down_on_error-starts _ up.0 up.1)

  start_opened-starts :
      (g : Result GatewayChoice) (gw : GatewayChoice)
      → g ≡ ok gw
      → IsReady c out
      → (c.tenant == "") ≡ false
      → (rts : List AgentRuntime) × ((start_opened c out (no_override store_dir) g).0 ≡ ok rts)
  unfolding start_opened start_chosen
  start_opened-starts (err e) gw k r t = cc
  start_opened-starts (ok x) gw k r t = start_own-starts x out.mcp_start r.tools.0 r.tools.1 r t

  -- A company that Load returns is started by the program with no overrides, if its tenant and its
  -- agents' names have no slash, its agents have names, known providers and roles of which no two are
  -- the same, the variables that it names are set, and, outside, directories can be made, all probes
  -- pass, ports are free and open tasks are recovered.
  pub loaded-starts :
      (read : String → Option String) (decode : String → Option RawCompany) (dir : String → String)
      (fs : Files) (path : String)
      → load read decode dir fs path ≡ Yaml.ok c
      → IsReady c out
      → (rts : List AgentRuntime) × ((materialize_agents c out (no_override store_dir)).0 ≡ ok rts)
  unfolding materialize_agents
  loaded-starts read decode dir fs path h r =
      let good = load-IsGoodCompany read decode dir fs path c h in
      let g = open_gateway-opens c.telegram good.reached r.gateway in
      start_opened-starts (open_gateway out.getenv (no_override store_dir) c.telegram) g.0 g.1 r
        good.owned
