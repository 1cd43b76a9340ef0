-- ===== src/Wire/Left.antt =====
-- The servers that materializeAgents (cmd/company/wire.go) leaves when a later agent fails a probe.
use ai_solo_startup_framewor.Common.{
  String, Bool, true, false, not, ◌&&◌, Option, none, some, List, [], ◌∷◌, ◌++◌, map, ◌≡◌, refl, ap,
  ◌∙◌, arith, Bool-cases, inl, inr,
}
use ai_solo_startup_framewor.Address
use ai_solo_startup_framewor.Schema.Load.{AgentConfig}
use ai_solo_startup_framewor.A2a.Directory.{PeerDirectory, DirectoryError}
use ai_solo_startup_framewor.Wire.Agents.{
  ServerError, WireError, gateway_closed, mcp_unstarted, mcp_unaddressed, no_auth_token,
  duplicate_role, bad_address, no_store, unknown_provider, model_probe_failed, mcp_probe_failed,
  unbindable, no_transport, Result, ok, err, AgentRuntime, Site, Provider, Shared, provider_for,
  planned, is_model_prober, is_mcp_prober, new_server, published, publish, start_provided,
  start_addressed, start_agent, start_agents,
}
use ai_solo_startup_framewor.Wire.Up.{start_agents-first, start_agents-IsUp}

abbrev pub is_probe_failure : WireError → Bool
is_probe_failure model_probe_failed = true
is_probe_failure mcp_probe_failed = true
is_probe_failure (gateway_closed e) = false
is_probe_failure mcp_unstarted = false
is_probe_failure mcp_unaddressed = false
is_probe_failure no_auth_token = false
is_probe_failure duplicate_role = false
is_probe_failure (bad_address e) = false
is_probe_failure no_store = false
is_probe_failure unknown_provider = false
is_probe_failure (no_transport e) = false
is_probe_failure (unbindable e) = false

-- A result that is no failure of a probe.
abbrev IsPastProbes : Result AgentRuntime → Type 0
IsPastProbes r = (e : WireError) → is_probe_failure e ≡ true → (r ≡ err e) → ⊥

published-IsPastProbes :
    (rt : AgentRuntime) (b : Option DirectoryError × PeerDirectory) (w : Site)
    → IsPastProbes (published rt b w).0
unfolding published
published-IsPastProbes rt (none, d) w e p h = cc
published-IsPastProbes rt (some x, d) w e p h =
    let q : unbindable x ≡ e = ground (arith, h) in cc (ap is_probe_failure q, p)

publish-IsPastProbes :
    (rt : AgentRuntime) (r : (Option ServerError × String) × Site) → IsPastProbes (publish rt r).0
unfolding publish
publish-IsPastProbes rt ((none, url), w) e p h = published-IsPastProbes _ _ w e p h
publish-IsPastProbes rt ((some x, url), w) e p h =
    let q : no_transport x ≡ e = ground (arith, h) in cc (ap is_probe_failure q, p)

module _ (s : Shared) where
  start_provided-probe :
      (a : AgentConfig) (address : String) (p : Option Provider) (w : Site) (e : WireError)
      → is_probe_failure e ≡ true
      → (start_provided s a address p w).0 ≡ err e
      → (start_provided s a address p w).1 ≡ w
  unfolding start_provided
  start_provided-probe a address none w e q h = refl
  start_provided-probe a address (some p) w e q h =
      elim (Bool-cases (is_model_prober p && not (s.outside.probe_model p))) [
        | inl f ↦ rw f refl
        | inr f ↦ elim (Bool-cases (is_mcp_prober p && not (s.outside.probe_mcp p))) [
          | inl g ↦ rw (f, g) refl
          | inr g ↦
              elim (publish-IsPastProbes (planned s a address p)
                (new_server s.outside s.server_token address w) e q (rw (f, g) at h)) [ ]
        ]
      ]

  start_addressed-probe :
      (a : AgentConfig) (r : Address.Result) (w : Site) (e : WireError)
      → is_probe_failure e ≡ true
      → (start_addressed s a r w).0 ≡ err e
      → (start_addressed s a r w).1 ≡ w
  unfolding start_addressed
  start_addressed-probe a (Address.err x) w e q h = refl
  start_addressed-probe a (Address.ok address) w e q h =
      elim (Bool-cases (s.outside.make_store (s.outside.join s.store_root a.name))) [
        | inl f ↦ rw f (start_provided-probe a address (provider_for s a) w e q (rw f at h))
        | inr f ↦ rw f refl
      ]

  -- The first agent that cannot be started ends the loop.
  start_agents-stop :
      (before : List AgentConfig) (a : AgentConfig) (more : List AgentConfig) (w : Site)
      (rts : List AgentRuntime) (e : WireError)
      → (start_agents s before w).0 ≡ ok rts
      → (start_agent s a (start_agents s before w).1).0 ≡ err e
      → start_agents s (before ++ a ∷ more) w
        ≡ (err e, (start_agent s a (start_agents s before w).1).1)
  unfolding start_agents
  start_agents-stop [] a more w rts e h k = rw (start_agents, k) refl
  start_agents-stop (b ∷ l) a more w rts e h k =
      let f = start_agents-first s b l w rts h in
      let i = start_agents-stop l a more _ f.rest e f.others (rw f.world at k) in
      rw f.world (rw (start_agents, f.one, i) refl)

  -- When a probe fails for an agent, the loop ends with that failure, and the servers of all agents
  -- before it still listen, one for each, though none of their runtimes is returned.
  pub start_agents-probe_leaves :
      (before : List AgentConfig) (a : AgentConfig) (more : List AgentConfig) (w : Site)
      (rts : List AgentRuntime) (e : WireError)
      → (start_agents s before w).0 ≡ ok rts
      → (start_agent s a (start_agents s before w).1).0 ≡ err e
      → is_probe_failure e ≡ true
      → ((start_agents s (before ++ a ∷ more) w).0 ≡ err e)
        × ((start_agents s (before ++ a ∷ more) w).1.listening
            ≡ w.listening ++ map (λ rt. rt.url) rts)
  unfolding start_agent
  start_agents-probe_leaves before a more w rts e h k p =
      let r = start_agents-stop before a more w rts e h k in
      let v = (start_agents s before w).1 in
      (
        ap (λ x. x.0) r,
        ap (λ x. x.1.listening) r
            ∙ ap (λ x. x.listening)
                (start_addressed-probe a (Address.new a.name s.company.tenant) v e p k)
            ∙ (start_agents-IsUp s before w rts h).serving,
      )
