-- ===== src/Wire/Down.antt =====
-- What materializeAgents (cmd/company/wire.go) leaves on its errors.
use ai_solo_startup_framewor.Common.{
  String, false, Option, none, some, List, [], map, ◌==◌, ◌≡◌, ◌≢◌, refl, arith, Bool-cases, inl,
  inr, ap, ◌∙◌,
}
use ai_solo_startup_framewor.Schema.Load.{TelegramConfig, CompanyConfig}
use ai_solo_startup_framewor.Gateway.{Opened, opened, closed, new_gateway}
use ai_solo_startup_framewor.Gateway.Opening.{recipient_name}
use ai_solo_startup_framewor.A2a.Directory.{PeerDirectory, DirectoryError, new_peer_directory}
use ai_solo_startup_framewor.Wire.Agents.{
  GatewayChoice, WireError, unbindable, Result, ok, err, AgentRuntime, Site, Machine, Shared,
}
use ai_solo_startup_framewor.Wire.Startup.{
  McpOption, own, given, WireOptions, gateway_of, open_gateway, shut_down_on_error, mcp_up,
  auth_token, shared, start_declared, start_with_mcp, start_own, start_chosen, start_opened,
  materialize_agents,
}
use ai_solo_startup_framewor.Wire.Directed.{new_peer_directory-IsFree}
use ai_solo_startup_framewor.Wire.Failed.{start_agents_bindable}

-- What an error leaves of the MCP server, and that no error comes from the directory's Bind.
pub record IsDown (m : McpOption) (e : WireError) (v : Site) : Type 0 where
  pub stopped : m ≡ own → v.mcp_running ≡ false
  pub bindable : (d : DirectoryError) → e ≢ unbindable d

module _ (c : CompanyConfig) (out : Machine) (opts : WireOptions) where
  start_declared_bindable :
      (s : Shared) (o : Option PeerDirectory) (w : Site) (d : DirectoryError)
      → new_peer_directory (map (λ a. a.role) c.agents) ≡ o
      → (start_declared c out opts s o w).0 ≢ err (unbindable d)
  unfolding start_declared
  start_declared_bindable s none w d h = λ k. cc
  start_declared_bindable s (some p) w d h =
      start_agents_bindable s [] c.agents (record w { directory = p }) d
        (new_peer_directory-IsFree c.agents p h)

  start_with_mcp_bindable :
      (gw : GatewayChoice) (o : Option String) (w : Site) (d : DirectoryError)
      → (start_with_mcp c out opts gw o w).0 ≢ err (unbindable d)
  unfolding start_with_mcp
  start_with_mcp_bindable gw none w d = λ k. cc
  start_with_mcp_bindable gw (some addr) w d = elim (Bool-cases (auth_token c out opts == "")) [
    | inl e ↦ rw e (λ k. cc)
    | inr e ↦ rw e (start_declared_bindable (shared c out opts gw addr) _ w d refl)
  ]

  shut_down_on_error-IsDown :
      (m : McpOption) (r : Result (List AgentRuntime) × Site) (e : WireError)
      → ((d : DirectoryError) → r.0 ≢ err (unbindable d))
      → (shut_down_on_error m r).0 ≡ err e
      → IsDown m e (shut_down_on_error m r).1
  unfolding shut_down_on_error
  shut_down_on_error-IsDown own (ok l, w) e p h = cc
  shut_down_on_error-IsDown own (err x, w) e p h = record {
    stopped = λ q. refl;
    bindable = λ d k. p d (h ∙ ap err k);
  }
  shut_down_on_error-IsDown (given a) r e p h = record {
    stopped = λ q. cc;
    bindable = λ d k. p d (h ∙ ap err k);
  }

  gateway_of_bindable : (o : Opened) (d : DirectoryError) → gateway_of o ≢ err (unbindable d)
  unfolding gateway_of
  gateway_of_bindable (opened g) d = λ k. cc
  gateway_of_bindable (closed e) d = λ k. cc

  open_gateway_bindable :
      (tg : Option TelegramConfig) (d : DirectoryError)
      → open_gateway out.getenv opts tg ≢ err (unbindable d)
  unfolding open_gateway
  open_gateway_bindable none d = elim (Bool-cases opts.gateway_override) [
    | inl e ↦ rw e (λ k. cc)
    | inr e ↦ rw e (λ k. cc)
  ]
  open_gateway_bindable (some t) d = elim (Bool-cases opts.gateway_override) [
    | inl e ↦ rw e (λ k. cc)
    | inr e ↦ rw e (gateway_of_bindable (new_gateway out.getenv t.token_env (recipient_name t)) d)
  ]

  start_own-IsDown :
      (gw : GatewayChoice) (o : Option String) (e : WireError)
      → (start_own c out opts gw o).0 ≡ err e
      → IsDown own e (start_own c out opts gw o).1
  unfolding start_own
  start_own-IsDown gw none e h = record { stopped = λ k. refl; bindable = λ d k. cc (h, k) }
  start_own-IsDown gw (some addr) e h =
      shut_down_on_error-IsDown own (start_with_mcp c out opts gw (some addr) (mcp_up c out opts)) e
        (start_with_mcp_bindable gw (some addr) (mcp_up c out opts)) h

  start_chosen-IsDown :
      (gw : GatewayChoice) (m : McpOption) (e : WireError)
      → (start_chosen c out opts gw m).0 ≡ err e
      → IsDown m e (start_chosen c out opts gw m).1
  unfolding start_chosen
  start_chosen-IsDown gw own e h = start_own-IsDown gw out.mcp_start e h
  start_chosen-IsDown gw (given a) e h =
      shut_down_on_error-IsDown (given a) (start_with_mcp c out opts gw a (mcp_up c out opts)) e
        (start_with_mcp_bindable gw a (mcp_up c out opts)) h

  start_opened-IsDown :
      (g : Result GatewayChoice) (e : WireError)
      → ((d : DirectoryError) → g ≢ err (unbindable d))
      → (start_opened c out opts g).0 ≡ err e
      → IsDown opts.mcp_server e (start_opened c out opts g).1
  unfolding start_opened
  start_opened-IsDown (err x) e p h = record {
    stopped = λ k. refl;
    bindable = λ d k. p d (ap err (ground (arith, h, k)));
  }
  start_opened-IsDown (ok gw) e p h = start_chosen-IsDown gw opts.mcp_server e h

  -- When materializeAgents fails, an MCP server that it started itself no longer runs, and the failure
  -- is never one of the directory's Bind: the check of NewPeerDirectory has excluded those.
  pub materialize_agents-IsDown :
      (e : WireError)
      → (materialize_agents c out opts).0 ≡ err e
      → IsDown opts.mcp_server e (materialize_agents c out opts).1
  unfolding materialize_agents
  materialize_agents-IsDown e h =
      start_opened-IsDown (open_gateway out.getenv opts c.telegram) e
        (open_gateway_bindable c.telegram) h
