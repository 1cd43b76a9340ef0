-- ===== src/Tests/Startup.antt =====
-- The start of a company with two agents.
use ai_solo_startup_framewor.Common.{
  ℕ, zero, suc, ◌≡◌, refl, String, Bool, true, false, Option, none, some, List, [], ◌∷◌, contains,
}
use ai_solo_startup_framewor.Common.Dict.{lookup, put, remove}
use ai_solo_startup_framewor.Address
use ai_solo_startup_framewor.Schema.Yaml.{entry, end_entries, text}
use ai_solo_startup_framewor.Schema.Agent.{Files}
use ai_solo_startup_framewor.Schema.Load.{RawCompany, AgentConfig, CompanyConfig, load}
use ai_solo_startup_framewor.A2a.Directory.{bind, new_peer_directory}
use ai_solo_startup_framewor.Wire.Agents.{
  Provider, pi, claude_code, opencode, overridden, no_gateway, model_probe_failed, ok, err,
  AgentRuntime, Site, Machine, Shared, planned, start_agent, start_agents,
}
use ai_solo_startup_framewor.Wire.Startup.{own, shared, auth_token, store_base, materialize_agents}
use ai_solo_startup_framewor.Wire.Company.{IsCompanyUp, materialize_agents-IsCompanyUp}
use ai_solo_startup_framewor.Wire.Down.{IsDown, materialize_agents-IsDown}
use ai_solo_startup_framewor.Wire.Left.{start_agents-probe_leaves}
use ai_solo_startup_framewor.Wire.Loaded.{IsReady, no_override, loaded-starts}

abbrev agent : String → String → String → AgentConfig
agent name role provider = record {
  name = name;
  role = role;
  provider = provider;
  model = "";
  system_prompt = "";
  extensions = [];
  mcp_servers = [];
  max_rounds = 8;
}

abbrev two_agents : CompanyConfig
two_agents = record {
  tenant = "acme";
  auth_token_env = "ASF_TOKEN";
  agents = agent "ada" "ceo" "pi" ∷ agent "bob" "engineer" "opencode" ∷ [];
  telegram = none;
  risk_policy = [];
}

abbrev raw_agents : RawCompany
raw_agents = record {
  tenant = "acme";
  auth_token_env = "ASF_TOKEN";
  agents =
      entry "name" (text "ada") (entry "role" (text "ceo") end_entries)
      ∷ entry "name" (text "bob")
          (entry "role" (text "engineer") (entry "provider" (text "opencode") end_entries))
      ∷ [];
  telegram = none;
  risk_policy = [];
}

abbrev files : Files
files = record { join = λ d p. p; abs = λ p. some p; exists = λ p. false }

-- The first server is served at one port, all others at another.
abbrev port_of : ℕ → Option String
port_of zero = some "http://127.0.0.1:4001"
port_of (suc n) = some "http://127.0.0.1:4002"

abbrev machine : (Provider → Bool) → Machine
machine probe = record {
  getenv = λ name. "secret";
  temp_dir = "/tmp";
  join = λ d p. d;
  make_store = λ d. true;
  probe_model = probe;
  probe_mcp = λ p. true;
  mcp_start = some "127.0.0.1:4000";
  listen = port_of;
  recover = λ url. true;
}

abbrev is_pi : Provider → Bool
is_pi (pi w es ms) = true
is_pi (claude_code w) = false
is_pi (opencode w) = false
is_pi overridden = false

port_of-listens : (n : ℕ) → (url : String) × (port_of n ≡ some url)
port_of-listens zero = ("http://127.0.0.1:4001", refl)
port_of-listens (suc n) = ("http://127.0.0.1:4002", refl)

ready : IsReady two_agents (machine (λ p. true))
unfolding new_peer_directory contains Address.has_slash
ready = record {
  outside = record {
    stores = λ d. refl;
    models = λ p. refl;
    tools = λ p. refl;
    listens = port_of-listens;
    recovers = λ url. refl;
  };
  token = refl;
  gateway = tt;
  tools = ("127.0.0.1:4000", refl);
  plain = refl;
  agents = (
    record { named = refl; plain = refl; known = refl },
    (record { named = refl; plain = refl; known = refl }, tt),
  );
  roles = (record { declared = "engineer" ∷ "ceo" ∷ []; bound = [] }, refl);
}

loaded-starts_example :
    (rts : List AgentRuntime) × ((materialize_agents two_agents
        (machine (λ p. true))
        (no_override "/store")).0
      ≡ ok rts)
unfolding load contains
loaded-starts_example =
    loaded-starts two_agents (machine (λ p. true)) "/store" (λ p. some p) (λ s. some raw_agents)
      (λ p. "/etc") files "/etc/company.yaml" refl ready

abbrev both_started : List AgentRuntime
both_started =
    record {
      address = "ada/acme";
      role = "ceo";
      provider =
          pi
            (record {
              mcp_server_addr = "127.0.0.1:4000";
              tenant = "acme";
              agent_name = "ada";
              policy_action_kinds = [];
              model = "";
              system_prompt = "";
            })
            [] [];
      gateway = no_gateway;
      store_dir = "/store";
      max_rounds = 8;
      url = "http://127.0.0.1:4001";
    }
    ∷ record {
      address = "bob/acme";
      role = "engineer";
      provider = opencode (record {
        mcp_server_addr = "127.0.0.1:4000";
        tenant = "acme";
        agent_name = "bob";
        policy_action_kinds = [];
        model = "";
        system_prompt = "";
      });
      gateway = no_gateway;
      store_dir = "/store";
      max_rounds = 8;
      url = "http://127.0.0.1:4002";
    }
    ∷ []

materialize_agents-IsCompanyUp_example :
    IsCompanyUp two_agents both_started
      (materialize_agents two_agents (machine (λ p. true)) (no_override "/store")).1
unfolding materialize_agents contains Address.new Address.has_slash Address.tenant Address.cut_slash
    bind lookup put remove store_base
materialize_agents-IsCompanyUp_example =
    materialize_agents-IsCompanyUp two_agents (machine (λ p. true)) (no_override "/store")
      both_started refl

materialize_agents-IsDown_example :
    IsDown own model_probe_failed
      (materialize_agents two_agents (machine is_pi) (no_override "/store")).1
unfolding materialize_agents contains Address.new Address.has_slash Address.tenant Address.cut_slash
    bind lookup
materialize_agents-IsDown_example =
    materialize_agents-IsDown two_agents (machine is_pi) (no_override "/store") model_probe_failed
      refl

-- The second agent's model cannot be reached.
abbrev half : Shared
half = shared two_agents (machine is_pi) (no_override "/store") no_gateway "127.0.0.1:4000"

abbrev before : Site
before = record {
  mcp_running = true;
  directory = record { declared = "engineer" ∷ "ceo" ∷ []; bound = [] };
  listening = [];
}

abbrev first_started : List AgentRuntime
first_started =
    record (planned half (agent "ada" "ceo" "pi") "ada/acme" (
      pi
        (record {
          mcp_server_addr = "127.0.0.1:4000";
          tenant = "acme";
          agent_name = "ada";
          policy_action_kinds = [];
          model = "";
          system_prompt = "";
        })
        [] [])) { url = "http://127.0.0.1:4001" }
    ∷ []

start_agents-probe_leaves_example :
    ((start_agents half (two_agents.agents) before).0 ≡ err model_probe_failed)
    × ((start_agents half (two_agents.agents) before).1.listening ≡ "http://127.0.0.1:4001" ∷ [])
unfolding start_agents start_agent contains Address.new Address.has_slash Address.tenant
    Address.cut_slash bind lookup put remove auth_token
start_agents-probe_leaves_example =
    start_agents-probe_leaves half (agent "ada" "ceo" "pi" ∷ []) (agent "bob" "engineer" "opencode")
      [] before first_started model_probe_failed refl refl refl
