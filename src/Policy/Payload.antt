-- ===== src/Policy/Payload.antt =====
-- core/policy/payload.go: the versioned payload of a request for approval. JSON is a parameter.
use ai_solo_startup_framewor.Common.{String, Option, none, some, ◌==◌, ◌≡◌, refl, if◌then◌else◌}

abbrev pub payload_version : String
payload_version = "1"

-- EscalationPayload
pub record EscalationPayload : Type 0 where
  pub version : String
  pub action_kind : String
  pub task_id : String

pub data PayloadError : Type 0 where
  bad_payload unknown_version : PayloadError

pub data Validated : Type 0 where
  valid : EscalationPayload → Validated
  invalid : PayloadError → Validated

unfoldable pub stamped : EscalationPayload → EscalationPayload
stamped p = record p { version = payload_version }

-- MarshalPayload
unfoldable pub marshal_payload : {A : Type 0} → (EscalationPayload → A) → EscalationPayload → A
unfolding stamped
marshal_payload encode p = encode (stamped p)

unfoldable pub check_version : Option EscalationPayload → Validated
check_version none = invalid bad_payload
check_version (some p) = if p.version == payload_version then valid p else invalid unknown_version

-- ValidatePayload
unfoldable pub validate_payload : {A : Type 0} → (A → Option EscalationPayload) → A → Validated
unfolding check_version
validate_payload decode data' = check_version (decode data')

-- A payload that was marshalled is valid and comes back with the current version, whatever version it
-- had, where the decoder reads what the encoder wrote.
pub validate-marshal_payload :
    {A : Type 0} (encode : EscalationPayload → A) (decode : A → Option EscalationPayload)
    (p : EscalationPayload)
    → decode (encode (stamped p)) ≡ some (stamped p)
    → validate_payload decode (marshal_payload encode p) ≡ valid (stamped p)
unfolding validate_payload marshal_payload check_version stamped
validate-marshal_payload encode decode p h = rw h refl
