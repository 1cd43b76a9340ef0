-- ===== src/Cli/Grants.antt =====
-- The tools that the arguments of the claude command line tool (adapters/claudecode/adapter.go)
-- name, against those that the tool server registers (transport/mcp/tools.go) for the same policies
-- (cmd/company/wire.go). How the command line tool itself reads its arguments is not modelled.
use Prim.Native.Char.{code}
use text.Mathlib.TextLemmas.{cons-append, append_cancel_left}
use ai_solo_startup_framewor.Common.{
  ℕ, ◌≢◌, String, true, false, not, ◌&&◌, List, [], ◌∷◌, ◌++◌, map, ◌==◌, ◌≡◌, refl, ap, ◌∙◌, arith,
  eq_iff, Bool-cases, inl, inr, contains, if◌then◌else◌,
}
use ai_solo_startup_framewor.Common.Dict.{Dict}
use ai_solo_startup_framewor.Policy.{Policy}
use ai_solo_startup_framewor.Port.{kind_finish_task}
use ai_solo_startup_framewor.Mcp.Tools.{policy_kinds, tool_kinds}
use ai_solo_startup_framewor.Wire.Agents.{policy_kind_keys}
use ai_solo_startup_framewor.Cli.Turn.{CliAdapter}
use ai_solo_startup_framewor.Cli.Claude.{
  mcp_tool_name, with_value, allowed_tools, mcp_args, claude_args,
}

-- The arguments behind the first occurrence of a flag.
abbrev pub behind : String → List String → List String
behind flag [] = []
behind flag (x ∷ xs) = if x == flag then xs else behind flag xs

-- What every command line ends with.
abbrev output_args : List String
output_args = "--output-format" ∷ "stream-json" ∷ "--verbose" ∷ []

mcp_tool_name-injective : (j k : String) → mcp_tool_name j ≡ mcp_tool_name k → j ≡ k
unfolding mcp_tool_name
mcp_tool_name-injective j k h =
    append_cancel_left "__" j k
      (append_cancel_left "framework" _ _ (append_cancel_left "mcp__" _ _ h))

abbrev initial : String → ℕ
initial String.[] = 0
initial (String.◌∷◌ c s) = code c

initial-mcp_tool_name : (k : String) → initial (mcp_tool_name k) ≡ b'm'
unfolding mcp_tool_name
initial-mcp_tool_name k = rw cons-append refl

mcp_tool_name-ne : (s k : String) → initial s ≢ b'm' → (s == mcp_tool_name k) ≡ false
mcp_tool_name-ne s k h =
    ground (arith, h, eq_iff s (mcp_tool_name k), initial-mcp_tool_name k, ap initial)

output_args-names : (k : String) → contains output_args (mcp_tool_name k) ≡ false
unfolding contains
output_args-names k =
    rw
      (
        mcp_tool_name-ne "--output-format" k (λ e. omega arith),
        mcp_tool_name-ne "stream-json" k (λ e. omega arith),
        mcp_tool_name-ne "--verbose" k (λ e. omega arith),
      )
      refl

contains-names :
    (ks : List String) (k : String)
    → contains (map mcp_tool_name ks ++ output_args) (mcp_tool_name k) ≡ contains ks k
unfolding contains
contains-names [] k = output_args-names k
contains-names (j ∷ ks) k = ground (
  arith,
  contains-names ks k,
  eq_iff (mcp_tool_name j) (mcp_tool_name k),
  eq_iff j k,
  mcp_tool_name-injective j k,
  ap mcp_tool_name {x = j} {y = k},
)

contains-allowed_tools :
    (ks : List String) (k : String)
    → contains (behind "--allowedTools" (allowed_tools ks ++ output_args)) (mcp_tool_name k)
      ≡ contains ks k
unfolding allowed_tools contains
contains-allowed_tools [] k = refl
contains-allowed_tools (j ∷ ks) k = contains-names (j ∷ ks) k

-- A name that is not taken for the flag itself.
abbrev pub IsNoFlag : String → Type 0
IsNoFlag s = (s == "--allowedTools") ≡ false

behind-value :
    (flag value : String) (rest : List String)
    → IsNoFlag flag
    → IsNoFlag value
    → behind "--allowedTools" (with_value flag value ++ rest) ≡ behind "--allowedTools" rest
unfolding with_value
behind-value flag value rest h k = elim (Bool-cases (value == "")) [
  | inl e ↦ rw e refl
  | inr e ↦ rw (e, h, k) refl
]

behind-args :
    (a : CliAdapter) (path config : String)
    → a.wired ≡ true
    → IsNoFlag a.model
    → IsNoFlag path
    → IsNoFlag config
    → behind "--allowedTools" (claude_args a path config)
      ≡ behind "--allowedTools" (allowed_tools a.policy_action_kinds ++ output_args)
unfolding claude_args mcp_args
behind-args a path config w m p c =
    let tools = allowed_tools a.policy_action_kinds ++ output_args in
    let mcp = "--mcp-config" ∷ config ∷ "--strict-mcp-config" ∷ tools in
    let third : behind "--allowedTools" mcp ≡ behind "--allowedTools" tools = rw c refl in
    rw w (
      behind-value "--model" a.model (with_value "--system-prompt-file" path ++ mcp) refl m
      ∙ behind-value "--system-prompt-file" path mcp refl p
      ∙ third)

-- The kinds without a tool of their own for the control of a turn.
contains-policy_kinds :
    (ps : Dict Policy) (k : String)
    → contains (policy_kinds ps) k
      ≡ (not (k == kind_finish_task) && contains (policy_kind_keys ps) k)
unfolding contains policy_kinds policy_kind_keys
contains-policy_kinds [] k = ground arith
contains-policy_kinds ((j, p) ∷ ps) k = ground (
  arith,
  contains-policy_kinds ps k,
  eq_iff j k,
  eq_iff j kind_finish_task,
  eq_iff k kind_finish_task,
)

-- Where no policy is named finish_task, the arguments behind the first --allowedTools of a run with
-- a registry have, of the tools that the tool server registers for the same policies, the names of
-- all but finish_task, each as an argument of its own. The model, the system prompt and the
-- configuration are not called --allowedTools.
pub claude_args-names :
    (a : CliAdapter) (policies : Dict Policy) (path config k : String)
    → a.wired ≡ true
    → a.policy_action_kinds ≡ policy_kind_keys policies
    → IsNoFlag a.model
    → IsNoFlag path
    → IsNoFlag config
    → contains (policy_kind_keys policies) kind_finish_task ≡ false
    → contains (tool_kinds policies) k ≡ true
    → contains (behind "--allowedTools" (claude_args a path config)) (mcp_tool_name k)
      ≡ not (k == kind_finish_task)
unfolding contains tool_kinds
claude_args-names a policies path config k w q m p c f t =
    ap (λ l. contains l (mcp_tool_name k)) (behind-args a path config w m p c)
    ∙ contains-allowed_tools a.policy_action_kinds k
    ∙ ap (λ l. contains l k) q
    ∙ elim (Bool-cases (k == kind_finish_task)) [
      | inl e ↦ rw (e, (eq_iff k kind_finish_task).0 e) f
      | inr e ↦ ground (
        arith,
        e,
        t,
        eq_iff k kind_finish_task,
        eq_iff kind_finish_task k,
        contains-policy_kinds policies k,
      )
    ]
