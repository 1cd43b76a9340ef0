-- ===== src/Mcp/Advertised.antt =====
-- The input schema of a tool (transport/mcp/tools.go) and what the supervisor reads of a call that
-- satisfies it (extractBody and extractTarget of core/supervisor/supervisor.go). The descriptions for
-- the model are left out. How a schema is to be read is the standard of JSON Schema; the MCP library
-- checks calls against it.
use ai_solo_startup_framewor.Common.{
  String, true, Option, some, List, [], ◌∷◌, ◌++◌, ◌==◌, ◌≡◌, refl, All, Bool-cases, inl, inr,
  if◌then◌else◌,
}
use ai_solo_startup_framewor.Common.Dict.{Dict, lookup}
use ai_solo_startup_framewor.Port.{Value, text, kind_delegate_task, target_arg}
use ai_solo_startup_framewor.Mcp.Tools.{ToolCall, intent_of}
use ai_solo_startup_framewor.Supervisor.Intents.{
  as_text, extract_body, extract_target, to_pending_intents,
}

abbrev pub body_arg : String
body_arg = "body"

-- The type of a property; all that the tools have are strings.
pub data PropertyType : Type 0 where
  string : PropertyType

-- A schema of an object, to which properties may be added.
pub record InputSchema : Type 0 where
  pub properties : Dict PropertyType
  pub required : List String

-- targetSchema
unfoldable pub target_schema : PropertyType
target_schema = string

-- buildInputSchema
unfoldable pub build_input_schema : String → InputSchema
unfolding target_schema
build_input_schema kind =
    if kind == kind_delegate_task
    then record {
      properties = (body_arg, string) ∷ (target_arg, target_schema) ∷ [];
      required = (body_arg ∷ []) ++ target_arg ∷ [];
    }
    else record { properties = (body_arg, string) ∷ []; required = body_arg ∷ [] }

-- A value has a type; a property that is there has its type; a required one is there.
abbrev pub HasType : Value → PropertyType → Type 0
HasType v string = (s : String) × (v ≡ text s)

pub record Conforms (schema : InputSchema) (args : Dict Value) : Type 0 where
  pub typed : All (λ p. (v : Value) → lookup p.0 args ≡ some v → HasType v p.1) schema.properties
  pub present : All (λ k. (v : Value) × (lookup k args ≡ some v)) schema.required

-- What the supervisor makes of the intent of a call.
pub record IsRead (c : ToolCall) : Type 0 where
  pub body : String
  pub target : String
  pub sent : lookup body_arg c.args ≡ some (text body)
  pub addressed :
      (c.kind == kind_delegate_task) ≡ true → lookup target_arg c.args ≡ some (text target)
  pub read :
      to_pending_intents (intent_of c ∷ [])
      ≡ record { kind = c.kind; body = body; target = target } ∷ []

as_text-text : (o : Option Value) (s : String) → o ≡ some (text s) → as_text o ≡ s
unfolding as_text
as_text-text o s h = rw h refl

-- From a call whose arguments satisfy the schema that its tool advertises, the supervisor reads
-- exactly the text that was sent as the body, and for a delegation the text that was sent as the
-- target.
pub conforming-IsRead : (c : ToolCall) → Conforms (build_input_schema c.kind) c.args → IsRead c
unfolding build_input_schema to_pending_intents extract_body extract_target intent_of
conforming-IsRead c h = elim (Bool-cases (c.kind == kind_delegate_task)) [
  | inl e ↦
      let k : Conforms (build_input_schema kind_delegate_task) c.args = rw e at h in
      let (v, p) = k.present.0 in
      let (w, q) = k.present.1.0 in
      let (b, s) = k.typed.0 v p in
      let (t, u) = k.typed.1.0 w q in
      record {
        body = b;
        target = t;
        sent = rw s at p;
        addressed = λ d. rw u at q;
        read =
            rw
              (
                as_text-text (lookup "body" c.args) b (rw s at p),
                as_text-text (lookup target_arg c.args) t (rw u at q),
              )
              refl;
      }
  | inr e ↦
      let k : Conforms (build_input_schema "") c.args = rw e at h in
      let (v, p) = k.present.0 in
      let (b, s) = k.typed.0 v p in
      record {
        body = b;
        target = as_text (lookup target_arg c.args);
        sent = rw s at p;
        addressed = λ d. cc (d, e);
        read = rw (as_text-text (lookup "body" c.args) b (rw s at p)) refl;
      }
]
