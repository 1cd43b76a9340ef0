-- ===== src/Wire/Up.antt =====
-- What materializeAgents (cmd/company/wire.go) has set up when its loop succeeds.
use ai_solo_startup_framewor.Common.{
  String, List, [], ◌∷◌, ◌++◌, map, append-nil, append_assoc, ◌≡◌, refl, sym, ◌∙◌, arith, eq_self,
  eq_iff, All, ◌⊎◌, inl, inr,
}
use ai_solo_startup_framewor.Common.Dict.{lookup-put}
use ai_solo_startup_framewor.Address
use ai_solo_startup_framewor.Schema.Load.{AgentConfig}
use ai_solo_startup_framewor.A2a.Directory.{found, found_or, base_url}
use ai_solo_startup_framewor.Wire.Agents.{
  WireError, Result, ok, err, AgentRuntime, Site, Shared, start_agent, start_agents, add_runtime,
}
use ai_solo_startup_framewor.Wire.Started.{IsStarted, start_agent-IsStarted}

pub Result-cases :
    {A : Type 0} (r : Result A) → ((x : A) × (r ≡ ok x)) ⊎ ((e : WireError) × (r ≡ err e))
Result-cases (ok x) = inl (x, refl)
Result-cases (err e) = inr (e, refl)

module _ {t : String} {a : AgentConfig} {w v : Site} {rt : AgentRuntime}
    (i : IsStarted t a w rt v) where
  -- The role of a started agent leads to its server.
  started-leads : base_url rt.role v.directory ≡ found rt.url
  unfolding base_url found_or
  started-leads =
      rw (i.role, i.declared, i.bound)
        (ground (arith, i.known, lookup-put a.role a.role rt.url w.directory.bound, eq_self a.role))

  -- A role that led somewhere still leads there.
  started-keeps :
      (r u : String) → base_url r w.directory ≡ found u → base_url r v.directory ≡ found u
  unfolding base_url found_or
  started-keeps r u h =
      rw (i.declared, i.bound)
        (ground (arith, h, i.free, lookup-put a.role r rt.url w.directory.bound, eq_iff a.role r))

module _ (s : Shared) where
  -- A loop that succeeds has started its first agent and then the others.
  pub record FirstStarted (a : AgentConfig) (more : List AgentConfig) (w : Site)
      (rts : List AgentRuntime) : Type 0 where
    pub first : AgentRuntime
    pub rest : List AgentRuntime
    pub one : (start_agent s a w).0 ≡ ok first
    pub others : (start_agents s more (start_agent s a w).1).0 ≡ ok rest
    pub all : rts ≡ first ∷ rest
    pub world : (start_agents s (a ∷ more) w).1 ≡ (start_agents s more (start_agent s a w).1).1

  add_runtime-ok :
      (rt : AgentRuntime) (r : Result (List AgentRuntime) × Site) (rts : List AgentRuntime)
      → (add_runtime rt r).0 ≡ ok rts
      → (rest : List AgentRuntime) × (r.0 ≡ ok rest) × (rts ≡ rt ∷ rest)
  unfolding add_runtime
  add_runtime-ok rt (ok rest, w) rts h = (rest, refl, ground (arith, h))
  add_runtime-ok rt (err e, w) rts h = cc

  pub add_runtime_world :
      (rt : AgentRuntime) (r : Result (List AgentRuntime) × Site) → (add_runtime rt r).1 ≡ r.1
  unfolding add_runtime
  add_runtime_world rt (ok rest, w) = refl
  add_runtime_world rt (err e, w) = refl

  pub start_agents-first :
      (a : AgentConfig) (more : List AgentConfig) (w : Site) (rts : List AgentRuntime)
      → (start_agents s (a ∷ more) w).0 ≡ ok rts
      → FirstStarted a more w rts
  unfolding start_agents
  start_agents-first a more w rts h = elim (Result-cases (start_agent s a w).0) [
    | inr (e, p) ↦ cc
    | inl (rt, p) ↦
        let q =
          add_runtime-ok rt (start_agents s more (start_agent s a w).1) rts
            (rw (start_agents, p) at h) in
        record {
          first = rt;
          rest = q.0;
          one = p;
          others = q.1;
          all = q.2;
          world = rw (start_agents, p) (add_runtime_world rt _);
        }
  ]

  start_agents-keeps :
      (as' : List AgentConfig) (w : Site) (rts : List AgentRuntime) (r u : String)
      → (start_agents s as' w).0 ≡ ok rts
      → base_url r w.directory ≡ found u
      → base_url r (start_agents s as' w).1.directory ≡ found u
  unfolding start_agents
  start_agents-keeps [] w rts r u h k = k
  start_agents-keeps (a ∷ more) w rts r u h k =
      let f = start_agents-first a more w rts h in
      rw f.world (
        start_agents-keeps more _ f.rest r u f.others
          (started-keeps (start_agent-IsStarted s a w f.first f.one) r u k))

  -- The runtimes, in the order of their agents; each leads to its own server.
  pub record IsUp (agents : List AgentConfig) (w : Site) (rts : List AgentRuntime) (v : Site)
      : Type 0 where
    pub roles : map (λ rt. rt.role) rts ≡ map (λ a. a.role) agents
    pub names : map (λ rt. Address.name rt.address) rts ≡ map (λ a. a.name) agents
    pub owned : All (λ rt. Address.tenant rt.address ≡ s.company.tenant) rts
    pub rounds : map (λ rt. rt.max_rounds) rts ≡ map (λ a. a.max_rounds) agents
    pub leads : All (λ rt. base_url rt.role v.directory ≡ found rt.url) rts
    pub serving : v.listening ≡ w.listening ++ map (λ rt. rt.url) rts
    pub tools : v.mcp_running ≡ w.mcp_running

  pub start_agents-IsUp :
      (as' : List AgentConfig) (w : Site) (rts : List AgentRuntime)
      → (start_agents s as' w).0 ≡ ok rts
      → IsUp as' w rts (start_agents s as' w).1
  unfolding start_agents
  start_agents-IsUp [] w rts h =
      let e : [] ≡ rts = ground (arith, h) in
      rw (← e) (record {
        roles = refl;
        names = refl;
        owned = tt;
        rounds = refl;
        leads = tt;
        serving = sym (append-nil _);
        tools = refl;
      })
  start_agents-IsUp (a ∷ more) w rts h =
      let f = start_agents-first a more w rts h in
      let i = start_agent-IsStarted s a w f.first f.one in
      let u = start_agents-IsUp more _ f.rest f.others in
      rw (f.all, f.world)
        (record {
          roles = cc (i.role, u.roles);
          names = cc (i.named, u.names);
          owned = (i.owned, u.owned);
          rounds = cc (i.rounds, u.rounds);
          leads = (start_agents-keeps more _ f.rest _ _ f.others (started-leads i), u.leads);
          serving = u.serving ∙ rw i.served (append_assoc w.listening (f.first.url ∷ []) _);
          tools = u.tools ∙ i.tools;
        })
