-- ===== src/Schema/Company.antt =====
-- What Load of config/schema.go promises of the configuration that it returns, and how pi's startup
-- check (adapters/pi/mcp_probe.go) reads its servers.
use ai_solo_startup_framewor.Common.{
  String, true, false, ◌||◌, Option, none, some, ◌==◌, ◌≡◌, refl, sym, arith, All, Option-cases,
  inl, inr,
}
use ai_solo_startup_framewor.Schema.Names.{
  is_env_var_name, is_mcp_server_name, all_server_chars, low_lines, normalize,
}
use ai_solo_startup_framewor.Schema.Yaml.{ok, ◌>>=◌, refuse_if}
use ai_solo_startup_framewor.Schema.Agent.{Files}
use ai_solo_startup_framewor.Schema.Accepted.{IsGoodName}
use ai_solo_startup_framewor.Schema.Load.{
  TelegramConfig, RawCompany, CompanyConfig, require_env_ref, check_recipient, check_telegram,
  check_company, load_decoded, load_read, load,
}
use ai_solo_startup_framewor.Schema.Valid.{IsGoodAgent, load_agents-IsGoodAgent}
use ai_solo_startup_framewor.Pi.Flat.{is_ambiguous_server}

-- Both references of the Telegram gateway are names of variables; the second may be left out.
abbrev pub IsGoodTelegram : Option TelegramConfig → Type 0
IsGoodTelegram none = Unit
IsGoodTelegram (some tg) =
    (is_env_var_name tg.token_env ≡ true)
    × ((tg.recipient_env == "" || is_env_var_name tg.recipient_env) ≡ true)

pub record IsGoodCompany (fs : Files) (basedir : String) (c : CompanyConfig) : Type 0 where
  pub owned : (c.tenant == "") ≡ false
  pub token_named : is_env_var_name c.auth_token_env ≡ true
  pub staffed : All (IsGoodAgent fs basedir) c.agents
  pub reached : IsGoodTelegram c.telegram

require_env_ref-named : (v : String) → require_env_ref v ≡ ok tt → is_env_var_name v ≡ true
unfolding require_env_ref refuse_if ◌>>=◌
require_env_ref-named v h = ground (arith, h)

check_telegram-IsGoodTelegram :
    (tg : Option TelegramConfig) → check_telegram tg ≡ ok tt → IsGoodTelegram tg
unfolding check_telegram check_recipient ◌>>=◌
check_telegram-IsGoodTelegram none h = tt
check_telegram-IsGoodTelegram (some tg) h = (
  ground (arith, h, require_env_ref-named tg.token_env),
  ground (arith, h, require_env_ref-named tg.recipient_env),
)

module _ (fs : Files) (basedir : String) where
  check_company-IsGoodCompany :
      (raw : RawCompany) (c : CompanyConfig)
      → check_company fs basedir raw ≡ ok c
      → IsGoodCompany fs basedir c
  unfolding check_company refuse_if ◌>>=◌
  check_company-IsGoodCompany raw c h = record {
    owned = ground (arith, h);
    token_named = ground (arith, h, require_env_ref-named raw.auth_token_env);
    staffed = load_agents-IsGoodAgent fs basedir raw.agents c.agents (ground (arith, h));
    reached = check_telegram-IsGoodTelegram c.telegram (ground (arith, h));
  }

load_read-IsGoodCompany :
    (decode : String → Option RawCompany) (fs : Files) (basedir : String) (file : Option String)
    (c : CompanyConfig)
    → load_read decode fs basedir file ≡ ok c
    → IsGoodCompany fs basedir c
unfolding load_read load_decoded
load_read-IsGoodCompany decode fs basedir none c h = cc
load_read-IsGoodCompany decode fs basedir (some file) c h = elim (Option-cases (decode file)) [
  | inl e ↦ cc
  | inr (raw, e) ↦ check_company-IsGoodCompany fs basedir raw c (ground (arith, h, e))
]

-- The company that Load returns has a tenant; the names of its secrets are names of environment
-- variables; each agent has a provider, between 1 and 50 rounds, a system prompt whose path exists where
-- there is one, extensions that are builtins or exist, and MCP servers with commands and with names of
-- the required form, none of them reserved, none ambiguous and no two the same to pi; and only agents
-- of the provider pi have extensions or MCP servers. A path exists where os.Stat succeeds on it.
pub load-IsGoodCompany :
    (read : String → Option String) (decode : String → Option RawCompany) (dir : String → String)
    (fs : Files) (path : String) (c : CompanyConfig)
    → load read decode dir fs path ≡ ok c
    → IsGoodCompany fs (dir path) c
unfolding load
load-IsGoodCompany read decode dir fs path c h =
    load_read-IsGoodCompany decode fs (dir path) (read path) c h

-- On the characters of a declared server's name the two ways to write a hyphen agree.
low_lines-normalize : (s : String) → all_server_chars s ≡ true → low_lines s ≡ normalize s
unfolding low_lines normalize all_server_chars
low_lines-normalize String.[] h = refl
low_lines-normalize (String.◌∷◌ c s) h = ground (arith, low_lines-normalize s)

-- The key under which config/schema.go compares the names of declared servers is the name that pi
-- gives them.
pub low_lines-normalize_name :
    (s : String) → is_mcp_server_name s ≡ true → low_lines s ≡ normalize s
unfolding is_mcp_server_name
low_lines-normalize_name String.[] h = cc
low_lines-normalize_name (String.◌∷◌ c s) h =
    low_lines-normalize (String.◌∷◌ c s) (unfold all_server_chars in (ground (arith, h)))

-- No server that Load accepted is refused by the name check of pi's startup probe.
pub good_name-passes_probe :
    (name : String) → IsGoodName name → is_ambiguous_server (normalize name) ≡ false
unfolding is_ambiguous_server
good_name-passes_probe name g =
    rw (sym (low_lines-normalize_name name g.form)) (ground (arith, g.clear))
