-- ===== src/Schema/Load.antt =====
-- Load of config/schema.go. Reading the file and decoding its YAML, which also refuses unknown
-- top-level fields, are parameters; the decoded value is the record RawCompany.
use ai_solo_startup_framewor.Common.{
  ℕ, String, not, Option, none, some, List, [], ◌∷◌, ◌==◌, contains, if◌then◌else◌,
}
use ai_solo_startup_framewor.Common.Dict.{Dict}
use ai_solo_startup_framewor.Policy.{Policy}
use ai_solo_startup_framewor.Schema.Names.{is_env_var_name}
use ai_solo_startup_framewor.Schema.Yaml.{
  Entries, end_entries, entry, get, has, as_text, unreadable, malformed, empty_tenant, empty_env,
  inline_secret, gateways_on_agent, unknown_field, bad_prompt_path, no_prompt_file, Checked, ok,
  err, ◌>>=◌, ◌>>◌, refuse_if,
}
use ai_solo_startup_framewor.Schema.Agent.{
  Files, McpServer, default_provider, resolve_path, resolve_extensions, resolve_max_rounds,
}
use ai_solo_startup_framewor.Schema.Servers.{resolve_mcp_servers}

-- AgentConfig
pub record AgentConfig : Type 0 where
  pub name : String
  pub role : String
  pub provider : String
  pub model : String
  pub system_prompt : String
  pub extensions : List String
  pub mcp_servers : Dict McpServer
  pub max_rounds : ℕ

-- TelegramGatewayConfig
pub record TelegramConfig : Type 0 where
  pub token_env : String
  pub recipient_env : String

-- The local type of `raw`, whose agents are still maps.
pub record RawCompany : Type 0 where
  pub tenant : String
  pub auth_token_env : String
  pub agents : List Entries
  pub telegram : Option TelegramConfig
  pub risk_policy : Dict Policy

-- CompanyConfig
pub record CompanyConfig : Type 0 where
  pub tenant : String
  pub auth_token_env : String
  pub agents : List AgentConfig
  pub telegram : Option TelegramConfig
  pub risk_policy : Dict Policy

-- requireEnvRef
unfoldable pub require_env_ref : String → Checked (Unit {0})
unfolding is_env_var_name refuse_if ◌>>=◌
require_env_ref value = do
  refuse_if (value == "") empty_env
  refuse_if (not (is_env_var_name value)) inline_secret

abbrev pub agent_fields : List String
agent_fields =
    "name" ∷ "role" ∷ "provider" ∷ "model" ∷ "system_prompt" ∷ "extensions" ∷ "mcp_servers"
    ∷ "max_rounds" ∷ []

unfoldable pub check_fields : Entries → Checked (Unit {0})
check_fields end_entries = ok tt
check_fields (entry k v m) = if contains agent_fields k then check_fields m else err unknown_field

unfoldable pub resolve_prompt : Files → String → String → Checked String
unfolding resolve_path
resolve_prompt fs basedir raw =
    if raw == "" then ok "" else resolve_path fs bad_prompt_path no_prompt_file basedir raw

unfoldable pub provider_of : String → String
provider_of raw = if raw == "" then default_provider else raw

-- The body of the loop over the agents.
unfoldable pub load_agent : Files → String → Entries → Checked AgentConfig
unfolding has get as_text check_fields provider_of resolve_prompt resolve_extensions
    resolve_mcp_servers resolve_max_rounds refuse_if ◌>>=◌
load_agent fs basedir a = do
  refuse_if (has "gateways" a) gateways_on_agent
  check_fields a
  let provider = provider_of (as_text (get "provider" a))
  system_prompt ← resolve_prompt fs basedir (as_text (get "system_prompt" a))
  extensions ← resolve_extensions fs (get "extensions" a) provider basedir
  mcp_servers ← resolve_mcp_servers (get "mcp_servers" a) provider
  max_rounds ← resolve_max_rounds (get "max_rounds" a)
  ok (record {
    name = as_text (get "name" a);
    role = as_text (get "role" a);
    provider = provider;
    model = as_text (get "model" a);
    system_prompt = system_prompt;
    extensions = extensions;
    mcp_servers = mcp_servers;
    max_rounds = max_rounds;
  })

unfoldable pub load_agents : Files → String → List Entries → Checked (List AgentConfig)
unfolding load_agent ◌>>=◌
load_agents fs basedir [] = ok []
load_agents fs basedir (a ∷ l) = do
  agent ← load_agent fs basedir a
  agents ← load_agents fs basedir l
  ok (agent ∷ agents)

unfoldable pub check_recipient : String → Checked (Unit {0})
unfolding require_env_ref
check_recipient recipient_env = if recipient_env == "" then ok tt else require_env_ref recipient_env

unfoldable pub check_telegram : Option TelegramConfig → Checked (Unit {0})
unfolding require_env_ref check_recipient ◌>>=◌
check_telegram none = ok tt
check_telegram (some tg) = do require_env_ref tg.token_env; check_recipient tg.recipient_env

-- Load, after the file was decoded.
unfoldable pub check_company : Files → String → RawCompany → Checked CompanyConfig
unfolding refuse_if require_env_ref load_agents check_telegram ◌>>=◌
check_company fs basedir raw = do
  refuse_if (raw.tenant == "") empty_tenant
  require_env_ref raw.auth_token_env
  agents ← load_agents fs basedir raw.agents
  check_telegram raw.telegram
  ok (record {
    tenant = raw.tenant;
    auth_token_env = raw.auth_token_env;
    agents = agents;
    telegram = raw.telegram;
    risk_policy = raw.risk_policy;
  })

unfoldable pub load_decoded : Files → String → Option RawCompany → Checked CompanyConfig
unfolding check_company
load_decoded fs basedir none = err malformed
load_decoded fs basedir (some raw) = check_company fs basedir raw

unfoldable pub load_read :
    (String → Option RawCompany) → Files → String → Option String → Checked CompanyConfig
unfolding load_decoded
load_read decode fs basedir none = err unreadable
load_read decode fs basedir (some file) = load_decoded fs basedir (decode file)

-- Load: `read` is os.ReadFile, `decode` the decoder of YAML, `dir` filepath.Dir.
unfoldable pub load :
    (String → Option String)
    → (String → Option RawCompany)
    → (String → String)
    → Files
    → String
    → Checked CompanyConfig
unfolding load_read
load read decode dir fs path = load_read decode fs (dir path) (read path)
