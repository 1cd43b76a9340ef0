-- ===== src/Port.antt =====
-- core/port: the data that crosses the seam between the core and its providers, peers and gateways.
use ai_solo_startup_framewor.Common.{ℕ, String, Bool, List, ◌==◌, ◌||◌}
use ai_solo_startup_framewor.Common.Dict.{Dict}

-- A value of a `map[string]any` payload: the code only asks whether it is a string.
pub data Value : Type 0 where
  text : String → Value
  other : Value

-- provider.go; a nil payload is the empty map.
pub record ActionIntent : Type 0 where
  pub kind : String
  pub payload : Dict Value

pub record ProviderResult : Type 0 where
  pub output : String
  pub action_intents : List ActionIntent

-- `at` is the time stamp.
pub record ContextMessage : Type 0 where
  pub role : String
  pub content : String
  pub at : ℕ

pub record BoundedContext : Type 0 where
  pub messages : List ContextMessage
  pub truncated : Bool
  pub truncation_marker : String

-- control.go, delegator.go
abbrev pub kind_finish_task : String
kind_finish_task = "finish_task"

abbrev pub kind_delegate_task : String
kind_delegate_task = "delegate_task"

abbrev pub target_arg : String
target_arg = "target"

-- gateway.go
pub record OutboundMessage : Type 0 where
  pub channel : String
  pub body : String

-- ValidateChannel: true stands for the nil error.
unfoldable pub validate_channel : String → Bool
validate_channel ch = ch == "telegram" || ch == "email"
