-- ===== src/Wire/Started.antt =====
-- What one round of the loop of materializeAgents (cmd/company/wire.go) has done when it succeeds,
-- and what it leaves when it fails.
use ai_solo_startup_framewor.Common.{
  String, true, false, not, ◌&&◌, Option, none, some, [], ◌∷◌, ◌++◌, length, ◌≡◌, refl, sym, ap,
  subst, arith, contains, inl, inr, Bool-cases,
}
use ai_solo_startup_framewor.Common.Dict.{lookup, put}
use ai_solo_startup_framewor.Address
use ai_solo_startup_framewor.Address.RoundTrip.{parse-new}
use ai_solo_startup_framewor.Schema.Load.{AgentConfig}
use ai_solo_startup_framewor.A2a.Directory.{PeerDirectory, DirectoryError, bind, is_bound}
use ai_solo_startup_framewor.Wire.Agents.{
  Provider, ServerError, ok, AgentRuntime, Site, Machine, Shared, provider_for, planned,
  is_model_prober, is_mcp_prober, serve_on, recover_at, new_server, published, publish,
  start_provided, start_addressed, start_agent,
}

-- A runtime that stands for an agent, and the world after its start.
pub record IsStarted (tenant : String) (a : AgentConfig) (w : Site) (rt : AgentRuntime) (v : Site)
    : Type 0 where
  pub role : rt.role ≡ a.role
  pub named : Address.name rt.address ≡ a.name
  pub owned : Address.tenant rt.address ≡ tenant
  pub rounds : rt.max_rounds ≡ a.max_rounds
  pub served : v.listening ≡ w.listening ++ rt.url ∷ []
  pub tools : v.mcp_running ≡ w.mcp_running
  pub declared : v.directory.declared ≡ w.directory.declared
  pub known : contains w.directory.declared a.role ≡ true
  pub free : lookup a.role w.directory.bound ≡ none
  pub bound : v.directory.bound ≡ put a.role rt.url w.directory.bound

-- A binding that was made.
record IsPut (role url : String) (d e : PeerDirectory) : Type 0 where
  declared : e.declared ≡ d.declared
  known : contains d.declared role ≡ true
  free : lookup role d.bound ≡ none
  bound : e.bound ≡ put role url d.bound

is_bound-none : (o : Option String) → is_bound o ≡ false → o ≡ none
unfolding is_bound
is_bound-none none h = refl
is_bound-none (some u) h = cc

bind-IsPut :
    (role url : String) (d : PeerDirectory)
    → (bind role url d).0 ≡ none
    → IsPut role url d (bind role url d).1
unfolding bind
bind-IsPut role url d h = record {
  declared = ground (arith, h);
  known = ground (arith, h);
  free = is_bound-none _ (ground (arith, h));
  bound = ground (arith, h);
}

-- What New of transport/a2a/server.go has done when it returns a base URL.
serve_on-listens :
    (out : Machine) (o : Option String) (w : Site)
    → (serve_on out o w).0.0 ≡ none
    → (serve_on out o w).1 ≡ record w { listening = w.listening ++ (serve_on out o w).0.1 ∷ [] }
unfolding serve_on recover_at
serve_on-listens out none w h = cc
serve_on-listens out (some url) w h = refl

new_server-listens :
    (out : Machine) (token address : String) (w : Site)
    → (new_server out token address w).0.0 ≡ none
    → (new_server out token address w).1
      ≡ record w { listening = w.listening ++ (new_server out token address w).0.1 ∷ [] }
unfolding new_server
new_server-listens out token address w h =
    ground (arith, h, serve_on-listens out (out.listen (length w.listening)) w)

-- The parts of a runtime that the loop fills in before the server starts.
record IsPlanned (tenant : String) (a : AgentConfig) (rt : AgentRuntime) : Type 0 where
  role : rt.role ≡ a.role
  named : Address.name rt.address ≡ a.name
  owned : Address.tenant rt.address ≡ tenant
  rounds : rt.max_rounds ≡ a.max_rounds

published-IsStarted :
    (tenant url : String) (a : AgentConfig) (rt rt' : AgentRuntime)
    (b : Option DirectoryError × PeerDirectory) (w v : Site)
    → IsPlanned tenant a rt
    → v ≡ record w { listening = w.listening ++ url ∷ [] }
    → (b.0 ≡ none → IsPut a.role url w.directory b.1)
    → rt.url ≡ url
    → (published rt b v).0 ≡ ok rt'
    → IsStarted tenant a w rt' (published rt b v).1
unfolding published
published-IsStarted tenant url a rt rt' (some e, d) w v p q put u h = cc
published-IsStarted tenant url a rt rt' (none, d) w v p q put u h =
    let e : rt ≡ rt' = ground (arith, h) in
    let i = put refl in
    rw (← e) (record {
      role = p.role;
      named = p.named;
      owned = p.owned;
      rounds = p.rounds;
      served = ground (arith, q, u);
      tools = ground (arith, q);
      declared = i.declared;
      known = i.known;
      free = i.free;
      bound = rw u i.bound;
    })

publish-IsStarted :
    (tenant : String) (a : AgentConfig) (rt rt' : AgentRuntime)
    (r : (Option ServerError × String) × Site) (w : Site)
    → IsPlanned tenant a rt
    → (r.0.0 ≡ none → r.1 ≡ record w { listening = w.listening ++ r.0.1 ∷ [] })
    → (publish rt r).0 ≡ ok rt'
    → IsStarted tenant a w rt' (publish rt r).1
unfolding publish
publish-IsStarted tenant a rt rt' ((some e, url), v) w p q h = cc
publish-IsStarted tenant a rt rt' ((none, url), v) w p q h =
    published-IsStarted tenant url a (record rt { url = url }) rt' (bind rt.role url v.directory) w
      v (record { role = p.role; named = p.named; owned = p.owned; rounds = p.rounds }) (q refl)
      (λ e.
        subst (λ r. IsPut r url w.directory (bind rt.role url v.directory).1) p.role
          (subst (λ d. IsPut rt.role url d (bind rt.role url v.directory).1)
            (ap (λ x. x.directory) (q refl)) (bind-IsPut rt.role url v.directory e)))
      refl h

module _ (s : Shared) where
  start_provided-IsStarted :
      (a : AgentConfig) (address : String) (p : Option Provider) (w : Site) (rt : AgentRuntime)
      → Address.name address ≡ a.name
      → Address.tenant address ≡ s.company.tenant
      → (start_provided s a address p w).0 ≡ ok rt
      → IsStarted s.company.tenant a w rt (start_provided s a address p w).1
  unfolding start_provided
  start_provided-IsStarted a address none w rt n t h = cc
  start_provided-IsStarted a address (some p) w rt n t h =
      elim (Bool-cases (is_model_prober p && not (s.outside.probe_model p))) [
        | inl e ↦ cc
        | inr e ↦ elim (Bool-cases (is_mcp_prober p && not (s.outside.probe_mcp p))) [
          | inl f ↦ cc
          | inr f ↦
              rw (e, f)
                (publish-IsStarted s.company.tenant a (planned s a address p) rt
                  (new_server s.outside s.server_token address w) w
                  (record { role = refl; named = n; owned = t; rounds = refl })
                  (new_server-listens s.outside s.server_token address w) (rw (e, f) at h))
        ]
      ]

  start_addressed-IsStarted :
      (a : AgentConfig) (r : Address.Result) (w : Site) (rt : AgentRuntime)
      → r ≡ Address.new a.name s.company.tenant
      → (start_addressed s a r w).0 ≡ ok rt
      → IsStarted s.company.tenant a w rt (start_addressed s a r w).1
  unfolding start_addressed
  start_addressed-IsStarted a (Address.err e) w rt q h = cc
  start_addressed-IsStarted a (Address.ok address) w rt q h =
      let n = parse-new a.name s.company.tenant address (sym q) in
      ground (arith, h, start_provided-IsStarted a address (provider_for s a) w rt n.1 n.2)

  -- An agent whose start succeeds has an address of its name and the company's tenant, a server that
  -- listens and a role that was free and now leads there.
  pub start_agent-IsStarted :
      (a : AgentConfig) (w : Site) (rt : AgentRuntime)
      → (start_agent s a w).0 ≡ ok rt
      → IsStarted s.company.tenant a w rt (start_agent s a w).1
  unfolding start_agent
  start_agent-IsStarted a w rt h = start_addressed-IsStarted a _ w rt refl h
