-- ===== src/Schema/Valid.antt =====
-- What the checks of config/schema.go promise of an agent.
use ai_solo_startup_framewor.Common.{
  ℕ, String, true, false, ◌≤◌, ◌||◌, Option, none, some, List, [], ◌∷◌, ◌==◌, ◌≡◌, refl, inl, inr,
  arith, eq_iff, All, Bool-cases, starts_with,
}
use ai_solo_startup_framewor.Schema.Yaml.{
  Yaml, null, other, text, integer, sequence, mapping, pos, negsuc, Items, end_items, item, Entries,
  get, as_text, ok, ◌>>=◌, refuse_if, SchemaError,
}
use ai_solo_startup_framewor.Schema.Agent.{
  Files, default_provider, resolve_path, existing, resolve_extension, resolve_items, items_of,
  is_null, text_of, resolve_extensions, resolve_max_rounds, builtin_extension_prefix,
}
use ai_solo_startup_framewor.Schema.Servers.{resolve_mcp_servers}
use ai_solo_startup_framewor.Schema.Accepted.{
  IsGoodServer, IsApart, resolve_mcp_servers-IsGoodServer, resolve_mcp_servers-IsApart,
  resolve_mcp_servers-provider,
}
use ai_solo_startup_framewor.Schema.Load.{
  AgentConfig, resolve_prompt, provider_of, load_agent, load_agents,
}

-- An extension is a builtin of pi, or a file.
abbrev pub IsGoodExtension : Files → String → Type 0
IsGoodExtension fs e = (starts_with e builtin_extension_prefix || fs.exists e) ≡ true

resolve_max_rounds-bounded :
    (raw : Yaml) (n : ℕ) → resolve_max_rounds raw ≡ ok n → (1 ≤ n) × (n ≤ 50)
unfolding resolve_max_rounds
resolve_max_rounds-bounded null n h = (ground (arith, h), ground (arith, h))
resolve_max_rounds-bounded other n h = cc
resolve_max_rounds-bounded (text s) n h = cc
resolve_max_rounds-bounded (integer (pos k)) n h = (ground (arith, h), ground (arith, h))
resolve_max_rounds-bounded (integer (negsuc k)) n h = cc
resolve_max_rounds-bounded (sequence l) n h = cc
resolve_max_rounds-bounded (mapping m) n h = cc

module _ (fs : Files) (basedir : String) where
  existing-exists :
      (bad missing : SchemaError) (o : Option String) (p : String)
      → existing fs bad missing o ≡ ok p
      → fs.exists p ≡ true
  unfolding existing
  existing-exists bad missing none p h = cc
  existing-exists bad missing (some q) p h = ground (arith, h)

  resolve_path-exists :
      (bad missing : SchemaError) (path p : String)
      → resolve_path fs bad missing basedir path ≡ ok p
      → fs.exists p ≡ true
  unfolding resolve_path
  resolve_path-exists bad missing path p h = existing-exists bad missing _ p h

  resolve_extension-IsGoodExtension :
      (ext p : String) → resolve_extension fs basedir ext ≡ ok p → IsGoodExtension fs p
  unfolding resolve_extension
  resolve_extension-IsGoodExtension ext p h = ground (arith, h, resolve_path-exists _ _ ext p)

  resolve_items-IsGoodExtension :
      (l : Items) (ps : List String)
      → resolve_items fs basedir l ≡ ok ps
      → All (IsGoodExtension fs) ps
  unfolding resolve_items text_of ◌>>=◌
  resolve_items-IsGoodExtension l [] h = tt
  resolve_items-IsGoodExtension end_items (p ∷ ps) h = cc
  resolve_items-IsGoodExtension (item (text s) l) (p ∷ ps) h = (
    resolve_extension-IsGoodExtension s p (ground (arith, h)),
    resolve_items-IsGoodExtension l ps (ground (arith, h)),
  )
  resolve_items-IsGoodExtension (item null l) (p ∷ ps) h = cc
  resolve_items-IsGoodExtension (item other l) (p ∷ ps) h = cc
  resolve_items-IsGoodExtension (item (integer n) l) (p ∷ ps) h = cc
  resolve_items-IsGoodExtension (item (sequence m) l) (p ∷ ps) h = cc
  resolve_items-IsGoodExtension (item (mapping m) l) (p ∷ ps) h = cc

  resolve_extensions-IsGoodExtension :
      (raw : Yaml) (provider : String) (ps : List String)
      → resolve_extensions fs raw provider basedir ≡ ok ps
      → All (IsGoodExtension fs) ps
  unfolding resolve_extensions refuse_if items_of is_null ◌>>=◌
  resolve_extensions-IsGoodExtension raw provider [] h = tt
  resolve_extensions-IsGoodExtension (sequence l) provider (p ∷ ps) h =
      resolve_items-IsGoodExtension l (p ∷ ps) (ground (arith, h))
  resolve_extensions-IsGoodExtension null provider (p ∷ ps) h = cc
  resolve_extensions-IsGoodExtension other provider (p ∷ ps) h = ground (arith, h)
  resolve_extensions-IsGoodExtension (text s) provider (p ∷ ps) h = ground (arith, h)
  resolve_extensions-IsGoodExtension (integer n) provider (p ∷ ps) h = ground (arith, h)
  resolve_extensions-IsGoodExtension (mapping m) provider (p ∷ ps) h = ground (arith, h)

  resolve_extensions-provider :
      (raw : Yaml) (provider : String) (ps : List String)
      → resolve_extensions fs raw provider basedir ≡ ok ps
      → (provider == default_provider) ≡ false
      → ps ≡ []
  unfolding resolve_extensions refuse_if ◌>>=◌
  resolve_extensions-provider raw provider ps h e = ground (arith, h)

  -- What is promised of an agent.
  pub record IsGoodAgent (a : AgentConfig) : Type 0 where
    pub rounds : (1 ≤ a.max_rounds) × (a.max_rounds ≤ 50)
    pub provided : (a.provider == "") ≡ false
    pub prompt : (a.system_prompt == "" || fs.exists a.system_prompt) ≡ true
    pub extended : All (IsGoodExtension fs) a.extensions
    pub served : All IsGoodServer a.mcp_servers
    pub apart : IsApart a.mcp_servers
    pub plain :
        (a.provider == default_provider) ≡ false → (a.extensions ≡ []) × (a.mcp_servers ≡ [])

  load_agent_rounds :
      (m : Entries) (a : AgentConfig)
      → load_agent fs basedir m ≡ ok a
      → resolve_max_rounds (get "max_rounds" m) ≡ ok a.max_rounds
  unfolding load_agent refuse_if ◌>>=◌
  load_agent_rounds m a h = ground (arith, h)

  load_agent_servers :
      (m : Entries) (a : AgentConfig)
      → load_agent fs basedir m ≡ ok a
      → resolve_mcp_servers (get "mcp_servers" m) a.provider ≡ ok a.mcp_servers
  unfolding load_agent refuse_if ◌>>=◌
  load_agent_servers m a h = ground (arith, h)

  load_agent_extensions :
      (m : Entries) (a : AgentConfig)
      → load_agent fs basedir m ≡ ok a
      → resolve_extensions fs (get "extensions" m) a.provider basedir ≡ ok a.extensions
  unfolding load_agent refuse_if ◌>>=◌
  load_agent_extensions m a h = ground (arith, h)

  load_agent_prompt :
      (m : Entries) (a : AgentConfig)
      → load_agent fs basedir m ≡ ok a
      → resolve_prompt fs basedir (as_text (get "system_prompt" m)) ≡ ok a.system_prompt
  unfolding load_agent refuse_if ◌>>=◌
  load_agent_prompt m a h = ground (arith, h)

  load_agent_provider :
      (m : Entries) (a : AgentConfig)
      → load_agent fs basedir m ≡ ok a
      → a.provider ≡ provider_of (as_text (get "provider" m))
  unfolding load_agent refuse_if ◌>>=◌
  load_agent_provider m a h = ground (arith, h)

  provider_of-given : (s : String) → (provider_of s == "") ≡ false
  unfolding provider_of
  provider_of-given s = elim (Bool-cases (s == "")) [ inl e ↦ rw e refl | inr e ↦ rw e e ]

  resolve_prompt-exists :
      (raw p : String) → resolve_prompt fs basedir raw ≡ ok p → (p == "" || fs.exists p) ≡ true
  unfolding resolve_prompt
  resolve_prompt-exists raw p h = ground (arith, h, resolve_path-exists _ _ raw p, eq_iff p "")

  load_agent-IsGoodAgent :
      (m : Entries) (a : AgentConfig) → load_agent fs basedir m ≡ ok a → IsGoodAgent a
  load_agent-IsGoodAgent m a h = record {
    rounds = resolve_max_rounds-bounded _ _ (load_agent_rounds m a h);
    provided = rw (load_agent_provider m a h) (provider_of-given _);
    prompt = resolve_prompt-exists _ _ (load_agent_prompt m a h);
    extended = resolve_extensions-IsGoodExtension _ _ _ (load_agent_extensions m a h);
    served = resolve_mcp_servers-IsGoodServer _ _ _ (load_agent_servers m a h);
    apart = resolve_mcp_servers-IsApart _ _ _ (load_agent_servers m a h);
    plain = λ e. (
      resolve_extensions-provider _ _ _ (load_agent_extensions m a h) e,
      resolve_mcp_servers-provider _ _ _ (load_agent_servers m a h) e,
    );
  }

  pub load_agents-IsGoodAgent :
      (l : List Entries) (agents : List AgentConfig)
      → load_agents fs basedir l ≡ ok agents
      → All IsGoodAgent agents
  unfolding load_agents ◌>>=◌
  load_agents-IsGoodAgent l [] h = tt
  load_agents-IsGoodAgent [] (a ∷ agents) h = cc
  load_agents-IsGoodAgent (m ∷ l) (a ∷ agents) h = (
    load_agent-IsGoodAgent m a (ground (arith, h)),
    load_agents-IsGoodAgent l agents (ground (arith, h)),
  )
