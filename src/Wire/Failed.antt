-- ===== src/Wire/Failed.antt =====
-- What materializeAgents (cmd/company/wire.go) leaves when an agent cannot be started.
use ai_solo_startup_framewor.Common.{
  String, not, ◌&&◌, Option, none, some, List, [], ◌∷◌, ◌≡◌, ◌≢◌, refl, ap, ◌∙◌, arith, Bool-cases,
  inl, inr, length,
}
use ai_solo_startup_framewor.Address
use ai_solo_startup_framewor.Schema.Load.{AgentConfig}
use ai_solo_startup_framewor.A2a.Directory.{PeerDirectory, DirectoryError, bind}
use ai_solo_startup_framewor.Wire.Agents.{
  ServerError, WireError, unbindable, Result, ok, err, AgentRuntime, Site, Machine, Provider,
  Shared, provider_for, planned, is_model_prober, is_mcp_prober, serve_on, recover_at, new_server,
  published, publish, start_provided, start_addressed, start_agent, start_agents, add_runtime,
}
use ai_solo_startup_framewor.Wire.Started.{start_agent-IsStarted}
use ai_solo_startup_framewor.Wire.Up.{Result-cases}
use ai_solo_startup_framewor.Wire.Directed.{IsFree, IsFree-bind, IsStarted-IsFree}

serve_on_directory :
    (out : Machine) (o : Option String) (w : Site) → (serve_on out o w).1.directory ≡ w.directory
unfolding serve_on recover_at
serve_on_directory out none w = refl
serve_on_directory out (some url) w = refl

new_server_directory :
    (out : Machine) (token address : String) (w : Site)
    → (new_server out token address w).1.directory ≡ w.directory
unfolding new_server
new_server_directory out token address w =
    ground (arith, serve_on_directory out (out.listen (length w.listening)) w)

published_bindable :
    (rt : AgentRuntime) (b : Option DirectoryError × PeerDirectory) (w : Site) (d : DirectoryError)
    → b.0 ≡ none
    → (published rt b w).0 ≢ err (unbindable d)
unfolding published
published_bindable rt (none, e) w d h = λ k. cc
published_bindable rt (some x, e) w d h = λ k. cc

-- The role of an agent can be bound, whatever its server's URL.
abbrev CanBind : AgentConfig → PeerDirectory → Type 0
CanBind a d = (url : String) → (bind a.role url d).0 ≡ none

publish_bindable :
    (a : AgentConfig) (rt : AgentRuntime) (r : (Option ServerError × String) × Site)
    (e : DirectoryError)
    → rt.role ≡ a.role
    → CanBind a r.1.directory
    → (publish rt r).0 ≢ err (unbindable e)
unfolding publish
publish_bindable a rt ((some x, url), v) e p h = λ k. cc
publish_bindable a rt ((none, url), v) e p h =
    published_bindable _ (bind rt.role url v.directory) v e (rw p (h url))

module _ (s : Shared) where
  start_provided_bindable :
      (a : AgentConfig) (address : String) (p : Option Provider) (w : Site) (e : DirectoryError)
      → CanBind a w.directory
      → (start_provided s a address p w).0 ≢ err (unbindable e)
  unfolding start_provided
  start_provided_bindable a address none w e h = λ k. cc
  start_provided_bindable a address (some p) w e h =
      elim (Bool-cases (is_model_prober p && not (s.outside.probe_model p))) [
        | inl f ↦ rw f (λ k. cc)
        | inr f ↦ elim (Bool-cases (is_mcp_prober p && not (s.outside.probe_mcp p))) [
          | inl g ↦ rw (f, g) (λ k. cc)
          | inr g ↦
              rw (f, g)
                (publish_bindable a (planned s a address p)
                  (new_server s.outside s.server_token address w) e refl
                  (rw (new_server_directory s.outside s.server_token address w) h))
        ]
      ]

  start_addressed_bindable :
      (a : AgentConfig) (r : Address.Result) (w : Site) (e : DirectoryError)
      → CanBind a w.directory
      → (start_addressed s a r w).0 ≢ err (unbindable e)
  unfolding start_addressed
  start_addressed_bindable a (Address.err x) w e h = λ k. cc
  start_addressed_bindable a (Address.ok address) w e h =
      elim (Bool-cases (s.outside.make_store (s.outside.join s.store_root a.name))) [
        | inl f ↦ rw f (start_provided_bindable a address (provider_for s a) w e h)
        | inr f ↦ rw f (λ k. cc)
      ]

  add_runtime_err :
      (rt : AgentRuntime) (r : Result (List AgentRuntime) × Site) (e : WireError)
      → r.0 ≢ err e
      → (add_runtime rt r).0 ≢ err e
  unfolding add_runtime
  add_runtime_err rt (ok rts, w) e h = λ k. cc
  add_runtime_err rt (err x, w) e h = λ k. h (ground (arith, k))

  -- While the roles of its agents are declared and free, the loop never fails to bind one.
  pub start_agents_bindable :
      (taken : List String) (agents : List AgentConfig) (w : Site) (e : DirectoryError)
      → IsFree taken agents w.directory
      → (start_agents s agents w).0 ≢ err (unbindable e)
  unfolding start_agents start_agent
  start_agents_bindable taken [] w e f = λ k. cc
  start_agents_bindable taken (a ∷ more) w e f =
      let bindable =
        start_addressed_bindable a (Address.new a.name s.company.tenant) w e
          (λ url. IsFree-bind taken a more w.directory url f) in
      elim (Result-cases (start_agent s a w).0) [
        | inl (rt, p) ↦
            rw (start_agents, p)
              (add_runtime_err rt (start_agents s more (start_agent s a w).1) (unbindable e) (
                start_agents_bindable (a.role ∷ taken) more _ e (
                  IsStarted-IsFree taken a more s.company.tenant w _ rt
                    (start_agent-IsStarted s a w rt p) f)))
        | inr (x, p) ↦ rw (start_agents, p) (λ k. bindable (p ∙ ap err (ground (arith, k))))
      ]
