-- ===== src/Wire/Company.antt =====
-- What materializeAgents (cmd/company/wire.go) returns.
use ai_solo_startup_framewor.Common.{
  String, true, Option, none, some, List, map, ◌==◌, ◌≡◌, refl, All, Bool-cases, inl, inr,
}
use ai_solo_startup_framewor.Address
use ai_solo_startup_framewor.Schema.Load.{CompanyConfig}
use ai_solo_startup_framewor.A2a.Directory.{PeerDirectory, found, base_url, new_peer_directory}
use ai_solo_startup_framewor.Wire.Agents.{
  GatewayChoice, Result, ok, err, AgentRuntime, Site, Machine,
}
use ai_solo_startup_framewor.Wire.Startup.{
  McpOption, own, given, WireOptions, open_gateway, shut_down_on_error, mcp_up, auth_token, shared,
  start_declared, start_with_mcp, start_own, start_chosen, start_opened, materialize_agents,
}
use ai_solo_startup_framewor.Wire.Up.{start_agents-IsUp}

-- The runtimes of a company, in the order of its agents.
pub record IsCompanyUp (c : CompanyConfig) (rts : List AgentRuntime) (v : Site) : Type 0 where
  pub roles : map (λ rt. rt.role) rts ≡ map (λ a. a.role) c.agents
  pub names : map (λ rt. Address.name rt.address) rts ≡ map (λ a. a.name) c.agents
  pub owned : All (λ rt. Address.tenant rt.address ≡ c.tenant) rts
  pub rounds : map (λ rt. rt.max_rounds) rts ≡ map (λ a. a.max_rounds) c.agents
  pub leads : All (λ rt. base_url rt.role v.directory ≡ found rt.url) rts
  pub serving : v.listening ≡ map (λ rt. rt.url) rts
  pub tools : v.mcp_running ≡ true

module _ (c : CompanyConfig) (out : Machine) (opts : WireOptions) where
  start_declared-IsCompanyUp :
      (gw : GatewayChoice) (addr : String) (o : Option PeerDirectory) (rts : List AgentRuntime)
      → (start_declared c out opts (shared c out opts gw addr) o (mcp_up c out opts)).0 ≡ ok rts
      → IsCompanyUp c rts
          (start_declared c out opts (shared c out opts gw addr) o (mcp_up c out opts)).1
  unfolding start_declared
  start_declared-IsCompanyUp gw addr none rts h = cc
  start_declared-IsCompanyUp gw addr (some d) rts h =
      let u =
        start_agents-IsUp (shared c out opts gw addr) c.agents
          (record (mcp_up c out opts) { directory = d }) rts h in
      record {
        roles = u.roles;
        names = u.names;
        owned = u.owned;
        rounds = u.rounds;
        leads = u.leads;
        serving = u.serving;
        tools = u.tools;
      }

  start_with_mcp-IsCompanyUp :
      (gw : GatewayChoice) (o : Option String) (rts : List AgentRuntime)
      → (start_with_mcp c out opts gw o (mcp_up c out opts)).0 ≡ ok rts
      → IsCompanyUp c rts (start_with_mcp c out opts gw o (mcp_up c out opts)).1
  unfolding start_with_mcp
  start_with_mcp-IsCompanyUp gw none rts h = cc
  start_with_mcp-IsCompanyUp gw (some addr) rts h =
      elim (Bool-cases (auth_token c out opts == "")) [
        | inl e ↦ cc
        | inr e ↦ rw e (
            start_declared-IsCompanyUp gw addr (new_peer_directory (map (λ a. a.role) c.agents)) rts
              (rw e at h))
      ]

  shut_down_on_error-ok :
      (m : McpOption) (r : Result (List AgentRuntime) × Site) (rts : List AgentRuntime)
      → (shut_down_on_error m r).0 ≡ ok rts
      → (r.0 ≡ ok rts) × ((shut_down_on_error m r).1 ≡ r.1)
  unfolding shut_down_on_error
  shut_down_on_error-ok own (err e, w) rts h = cc
  shut_down_on_error-ok own (ok l, w) rts h = (h, refl)
  shut_down_on_error-ok (given a) r rts h = (h, refl)

  start_own-IsCompanyUp :
      (gw : GatewayChoice) (o : Option String) (rts : List AgentRuntime)
      → (start_own c out opts gw o).0 ≡ ok rts
      → IsCompanyUp c rts (start_own c out opts gw o).1
  unfolding start_own
  start_own-IsCompanyUp gw none rts h = cc
  start_own-IsCompanyUp gw (some addr) rts h =
      let r =
        shut_down_on_error-ok own (start_with_mcp c out opts gw (some addr) (mcp_up c out opts)) rts
          h in
      rw r.1 (start_with_mcp-IsCompanyUp gw (some addr) rts r.0)

  start_chosen-IsCompanyUp :
      (gw : GatewayChoice) (m : McpOption) (rts : List AgentRuntime)
      → (start_chosen c out opts gw m).0 ≡ ok rts
      → IsCompanyUp c rts (start_chosen c out opts gw m).1
  unfolding start_chosen
  start_chosen-IsCompanyUp gw own rts h = start_own-IsCompanyUp gw out.mcp_start rts h
  start_chosen-IsCompanyUp gw (given a) rts h =
      let r =
        shut_down_on_error-ok (given a) (start_with_mcp c out opts gw a (mcp_up c out opts)) rts
          h in
      rw r.1 (start_with_mcp-IsCompanyUp gw a rts r.0)

  start_opened-IsCompanyUp :
      (g : Result GatewayChoice) (rts : List AgentRuntime)
      → (start_opened c out opts g).0 ≡ ok rts
      → IsCompanyUp c rts (start_opened c out opts g).1
  unfolding start_opened
  start_opened-IsCompanyUp (err e) rts h = cc
  start_opened-IsCompanyUp (ok gw) rts h = start_chosen-IsCompanyUp gw opts.mcp_server rts h

  -- When materializeAgents succeeds there is a runtime for each agent of the company, in the order of
  -- the company file, with the agent's role, name and rounds and the company's tenant; the directory
  -- leads from each role to that agent's own server; exactly these servers listen; and the MCP server
  -- runs.
  pub materialize_agents-IsCompanyUp :
      (rts : List AgentRuntime)
      → (materialize_agents c out opts).0 ≡ ok rts
      → IsCompanyUp c rts (materialize_agents c out opts).1
  unfolding materialize_agents
  materialize_agents-IsCompanyUp rts h =
      start_opened-IsCompanyUp (open_gateway out.getenv opts c.telegram) rts h
