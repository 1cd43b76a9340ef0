-- ===== src/Gateway.antt =====
-- gateways/telegram/gateway.go: the gateway that sends messages to the owner. The environment and the
-- HTTP service of Telegram are parameters; the texts of the errors are constructors.
pub mod Opening
use Prim.Native.Char.{code}
use Prim.Native.String.{◌++◌}
use ai_solo_startup_framewor.Common.{
  String, Bool, true, false, not, ◌&&◌, Option, none, some, List, [], ◌∷◌, ◌==◌, eqb, if◌then◌else◌,
}
use ai_solo_startup_framewor.Port.{OutboundMessage, validate_channel}
use ai_solo_startup_framewor.Schema.Names.{is_env_var_name}

-- TelegramGateway
pub record TelegramGateway : Type 0 where
  pub token : String
  pub owner_id : String
  pub base : String

pub data GatewayError : Type 0 where
  inline_token bad_owner_name unset_token unset_owner : GatewayError
  unknown_channel request_failed bad_response api_error : GatewayError

pub data Opened : Type 0 where
  opened : TelegramGateway → Opened
  closed : GatewayError → Opened

-- strings.TrimRight(base, "/")
unfoldable pub trim_slashes : String → String
trim_slashes String.[] = ""
trim_slashes (String.◌∷◌ c s) =
    let rest = trim_slashes s in if eqb (code c) b'/' && (rest == "") then "" else String.◌∷◌ c rest

unfoldable pub with_values : String → String → String → Opened
unfolding trim_slashes
with_values token owner_id base =
    if token == ""
    then closed unset_token
    else if owner_id == ""
    then closed unset_owner
    else opened (record { token = token; owner_id = owner_id; base = trim_slashes base })

-- NewWithBase: `getenv` is os.Getenv.
unfoldable pub new_with_base : (String → String) → String → String → String → Opened
unfolding is_env_var_name with_values
new_with_base getenv token_env_name owner_env_name base =
    if not (is_env_var_name token_env_name)
    then closed inline_token
    else if not (is_env_var_name owner_env_name)
    then closed bad_owner_name
    else with_values (getenv token_env_name) (getenv owner_env_name) base

abbrev pub default_base : String
default_base = "https://api.telegram.org"

-- New
unfoldable pub new_gateway : (String → String) → String → String → Opened
unfolding new_with_base
new_gateway getenv token_env_name owner_env_name =
    new_with_base getenv token_env_name owner_env_name default_base

-- The request of Send.
pub record SendRequest : Type 0 where
  pub endpoint : String
  pub chat_id : String
  pub text : String

-- What the service answers: nothing, something that does not decode, or its flag.
pub data Reply : Type 0 where
  lost garbled : Reply
  replied : Bool → Reply

-- The error of a call of Send, and the requests that it made.
pub record Delivery : Type 0 where
  pub error : Option GatewayError
  pub requests : List SendRequest

unfoldable pub error_of : Reply → Option GatewayError
error_of lost = some request_failed
error_of garbled = some bad_response
error_of (replied true) = none
error_of (replied false) = some api_error

unfoldable pub send_request : TelegramGateway → OutboundMessage → SendRequest
send_request g msg = record {
  endpoint = g.base ++ ("/bot" ++ (g.token ++ "/sendMessage"));
  chat_id = g.owner_id;
  text = msg.body;
}

-- Send
unfoldable pub send_message : (SendRequest → Reply) → TelegramGateway → OutboundMessage → Delivery
unfolding validate_channel error_of send_request
send_message reply g msg =
    if validate_channel msg.channel
    then record {
      error = error_of (reply (send_request g msg));
      requests = send_request g msg ∷ [];
    }
    else record { error = some unknown_channel; requests = [] }
