-- ===== src/Wire/Starts.antt =====
-- When materializeAgents (cmd/company/wire.go) succeeds for a company that Load of config/schema.go
-- has accepted.
use Prim.Native.String.{◌++◌ as ◌+s+◌}
use ai_solo_startup_framewor.Common.{
  ℕ, String, true, false, not, ◌&&◌, Option, none, some, List, [], ◌∷◌, ◌++◌, length, ◌==◌, ◌≡◌,
  refl, ap, ◌∙◌, arith, eq_iff, All, Option-cases, inl, inr, contains,
}
use ai_solo_startup_framewor.Address
use ai_solo_startup_framewor.Address.RoundTrip.{parse-new}
use ai_solo_startup_framewor.Schema.Load.{AgentConfig}
use ai_solo_startup_framewor.A2a.Directory.{PeerDirectory, DirectoryError, bind}
use ai_solo_startup_framewor.Wire.Agents.{
  Result, ok, err, AgentRuntime, Site, Machine, Provider, Shared, provider_for, planned,
  is_model_prober, is_mcp_prober, serve_on, recover_at, new_server, published, publish,
  start_provided, start_addressed, start_agent, start_agents, add_runtime,
}
use ai_solo_startup_framewor.Wire.Started.{start_agent-IsStarted}
use ai_solo_startup_framewor.Wire.Directed.{IsFree, IsFree-bind, IsStarted-IsFree}

abbrev pub known_providers : List String
known_providers = "pi" ∷ "claude-code" ∷ "opencode" ∷ []

-- Machine all goes well: probes pass, ports are free, open tasks are recovered.
pub record IsWell (out : Machine) : Type 0 where
  pub stores : (dir : String) → out.make_store dir ≡ true
  pub models : (p : Provider) → out.probe_model p ≡ true
  pub tools : (p : Provider) → out.probe_mcp p ≡ true
  pub listens : (n : ℕ) → (url : String) × (out.listen n ≡ some url)
  pub recovers : (url : String) → out.recover url ≡ true

-- What Load does not check of an agent: its name and the name of its provider.
pub record IsNamed (a : AgentConfig) : Type 0 where
  pub named : (a.name == "") ≡ false
  pub plain : Address.has_slash a.name ≡ false
  pub known : contains known_providers a.provider ≡ true

module _ (s : Shared) (well : IsWell s.outside) where
  provider_for-known :
      (a : AgentConfig)
      → contains known_providers a.provider ≡ true
      → (p : Provider) × (provider_for s a ≡ some p)
  unfolding provider_for contains
  provider_for-known a h = elim (Option-cases (provider_for s a)) [
    | inl n ↦ elim (contradiction n) [ ]
    | inr (p, e) ↦ (p, e)
  ]
    where
      contradiction : provider_for s a ≡ none → ⊥
      contradiction n = ground (
        arith,
        h,
        n,
        eq_iff "pi" a.provider,
        eq_iff a.provider "pi",
        eq_iff "claude-code" a.provider,
        eq_iff a.provider "claude-code",
        eq_iff "opencode" a.provider,
        eq_iff a.provider "opencode",
      )

  serve_on-well :
      (url : String) (w : Site)
      → serve_on s.outside (some url) w
        ≡ ((none, url), record w { listening = w.listening ++ url ∷ [] })
  unfolding serve_on recover_at
  serve_on-well url w = rw (well.recovers url) refl

  new_server-well :
      (address : String) (w : Site)
      → (s.server_token == "") ≡ false
      → (Address.tenant address == "") ≡ false
      → (url : String) × (new_server s.outside s.server_token address w
          ≡ ((none, url), record w { listening = w.listening ++ url ∷ [] }))
  unfolding new_server
  new_server-well address w t n =
      let l = well.listens (length w.listening) in (l.0, rw (t, n, l.1) (serve_on-well l.0 w))

  published-ok :
      (rt : AgentRuntime) (b : Option DirectoryError × PeerDirectory) (w : Site)
      → b.0 ≡ none
      → (published rt b w).0 ≡ ok rt
  unfolding published
  published-ok rt (none, d) w h = refl
  published-ok rt (some e, d) w h = cc

  start_provided-well :
      (a : AgentConfig) (address : String) (p : Provider) (w : Site)
      → (s.server_token == "") ≡ false
      → (Address.tenant address == "") ≡ false
      → ((url : String) → (bind a.role url w.directory).0 ≡ none)
      → (rt : AgentRuntime) × ((start_provided s a address (some p) w).0 ≡ ok rt)
  unfolding start_provided publish
  start_provided-well a address p w t n b =
      let f : (is_model_prober p && not (s.outside.probe_model p)) ≡ false =
        ground (arith, well.models p) in
      let g : (is_mcp_prober p && not (s.outside.probe_mcp p)) ≡ false =
        ground (arith, well.tools p) in
      let v = new_server-well address w t n in
      (
        record (planned s a address p) { url = v.0 },
        rw (f, g, v.1)
            (published-ok (record (planned s a address p) { url = v.0 })
              (bind a.role v.0 w.directory) _ (b v.0)),
      )

  new-ok :
      (name : String)
      → (name == "") ≡ false
      → Address.has_slash name ≡ false
      → (s.company.tenant == "") ≡ false
      → Address.has_slash s.company.tenant ≡ false
      → Address.new name s.company.tenant ≡ Address.ok (name +s+ ("/" +s+ s.company.tenant))
  unfolding Address.new
  new-ok name a b c d = rw (a, b, c, d) refl

  start_agent-well :
      (a : AgentConfig) (w : Site)
      → (s.server_token == "") ≡ false
      → (s.company.tenant == "") ≡ false
      → Address.has_slash s.company.tenant ≡ false
      → IsNamed a
      → ((url : String) → (bind a.role url w.directory).0 ≡ none)
      → (rt : AgentRuntime) × ((start_agent s a w).0 ≡ ok rt)
  unfolding start_agent start_addressed
  start_agent-well a w t o p i b =
      let e = new-ok a.name i.named i.plain o p in
      let n = parse-new a.name s.company.tenant _ e in
      let q = provider_for-known a i.known in
      let r =
        start_provided-well a (a.name +s+ ("/" +s+ s.company.tenant)) q.0 w t
          (ap (λ x. x == "") n.2 ∙ o) b in
      (r.0, rw (e, well.stores (s.outside.join s.store_root a.name), q.1) r.1)

  add_runtime-first :
      (rt : AgentRuntime) (r : Result (List AgentRuntime) × Site) (rts : List AgentRuntime)
      → r.0 ≡ ok rts
      → (add_runtime rt r).0 ≡ ok (rt ∷ rts)
  unfolding add_runtime
  add_runtime-first rt (ok l, w) rts h = ground (arith, h)
  add_runtime-first rt (err e, w) rts h = cc

  -- The loop starts every agent.
  pub start_agents-well :
      (taken : List String) (agents : List AgentConfig) (w : Site)
      → (s.server_token == "") ≡ false
      → (s.company.tenant == "") ≡ false
      → Address.has_slash s.company.tenant ≡ false
      → All IsNamed agents
      → IsFree taken agents w.directory
      → (rts : List AgentRuntime) × ((start_agents s agents w).0 ≡ ok rts)
  unfolding start_agents add_runtime
  start_agents-well taken [] w t o p i f = ([], refl)
  start_agents-well taken (a ∷ more) w t o p i f =
      let r = start_agent-well a w t o p i.0 (λ url. IsFree-bind taken a more w.directory url f) in
      let l = start_agents-well (a.role ∷ taken) more (start_agent s a w).1 t o p i.1 (
        IsStarted-IsFree taken a more s.company.tenant w _ r.0 (start_agent-IsStarted s a w r.0 r.1)
          f) in
      (r.0 ∷ l.0, rw (start_agents, r.1) (add_runtime-first r.0 _ l.0 l.1))
