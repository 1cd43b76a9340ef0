-- ===== src/Wire/Directed.antt =====
-- The directory in the loop of materializeAgents (cmd/company/wire.go): the roles that NewPeerDirectory
-- (transport/a2a/directory.go) declared are free until the loop comes to their agents.
use ai_solo_startup_framewor.Common.{
  String, true, false, ◌||◌, none, some, List, [], ◌∷◌, map, ◌≡◌, refl, arith, eq_self, contains,
  Option-cases, inl, inr,
}
use ai_solo_startup_framewor.Common.Dict.{lookup, lookup-put}
use ai_solo_startup_framewor.Schema.Load.{AgentConfig}
use ai_solo_startup_framewor.A2a.Directory.{
  PeerDirectory, declare, with_declared, new_peer_directory, bind, is_bound,
}
use ai_solo_startup_framewor.Wire.Agents.{AgentRuntime, Site}
use ai_solo_startup_framewor.Wire.Started.{IsStarted}

declare-contains :
    (acc roles d : List String) (r : String)
    → declare acc roles ≡ some d
    → contains d r ≡ (contains acc r || contains roles r)
unfolding declare contains
declare-contains acc [] d r h = ground (arith, h)
declare-contains acc (x ∷ roles) d r h = ground (arith, h, declare-contains (x ∷ acc) roles d r)

-- The roles in `taken` are done with, those of the agents are declared and not bound.
pub record IsFree (taken : List String) (agents : List AgentConfig) (d : PeerDirectory)
    : Type 0 where
  pub to_come : declare taken (map (λ a. a.role) agents) ≡ some d.declared
  pub done : (r u : String) → lookup r d.bound ≡ some u → contains taken r ≡ true

pub new_peer_directory-IsFree :
    (agents : List AgentConfig) (d : PeerDirectory)
    → new_peer_directory (map (λ a. a.role) agents) ≡ some d
    → IsFree [] agents d
unfolding new_peer_directory with_declared lookup
new_peer_directory-IsFree agents d h = elim (Option-cases (declare [] (map (λ a. a.role) agents))) [
  | inl e ↦ cc
  | inr (l, e) ↦
      let p : record { declared = l; bound = [] } ≡ d = ground (arith, h, e) in
      rw (← p) (record { to_come = e; done = λ r u k. cc })
]

module _ (taken : List String) (a : AgentConfig) (more : List AgentConfig) where
  IsFree-head :
      (d : PeerDirectory)
      → IsFree taken (a ∷ more) d
      → (contains taken a.role ≡ false) × (contains d.declared a.role ≡ true)
  unfolding declare contains
  IsFree-head d f =
      let t : contains taken a.role ≡ false = ground (arith, f.to_come) in
      (
        t,
        ground (
          arith,
          eq_self a.role,
          declare-contains taken (a.role ∷ map (λ b. b.role) more) d.declared a.role f.to_come,
        ),
      )

  -- The role of the next agent can be bound.
  pub IsFree-bind :
      (d : PeerDirectory) (url : String) → IsFree taken (a ∷ more) d → (bind a.role url d).0 ≡ none
  unfolding bind is_bound
  IsFree-bind d url f =
      let h = IsFree-head d f in
      elim (Option-cases (lookup a.role d.bound)) [
        | inl e ↦ rw (h.1, e) refl
        | inr (u, e) ↦ ground (arith, h.0, f.done a.role u e)
      ]

  -- After its start the roles of the others are free still.
  pub IsStarted-IsFree :
      (t : String) (w v : Site) (rt : AgentRuntime)
      → IsStarted t a w rt v
      → IsFree taken (a ∷ more) w.directory
      → IsFree (a.role ∷ taken) more v.directory
  unfolding declare contains
  IsStarted-IsFree t w v rt i f = record {
    to_come = rw i.declared (ground (arith, f.to_come));
    done = λ r u h. ground (
      arith,
      h,
      i.bound,
      lookup-put a.role r rt.url w.directory.bound,
      f.done r u,
      eq_self a.role,
    );
  }
