-- ===== src/Cli/Opencode.antt =====
-- adapters/opencode/adapter.go: how the output of an opencode process is read, its arguments, and the
-- probe of its flags. Decoding a line as JSON is a parameter.
use Prim.Native.String.{◌++◌ as ◌+s+◌}
use ai_solo_startup_framewor.Common.{
  ℕ, String, Bool, true, false, ◌&&◌, ◌||◌, Option, none, some, List, [], ◌∷◌, ◌++◌, ◌==◌, length,
  leb, eqb, if◌then◌else◌,
}
use ai_solo_startup_framewor.Mcp.Registry.{Registry}
use ai_solo_startup_framewor.Pi.Stream.{Bytes}
use ai_solo_startup_framewor.Pi.Turn.{Output, whole, trim_newlines, ProviderResult, Ran}
use ai_solo_startup_framewor.Cli.Text.{split_lines, trim_space}
use ai_solo_startup_framewor.Cli.Turn.{
  Options, CliAdapter, CliProcess, new_cli, parse_output, run_cli,
}
use ai_solo_startup_framewor.Cli.Claude.{with_value, has_part}

-- streamEvent; `part` is the text of the part, where there is one.
pub record OpencodeEvent : Type 0 where
  pub kind : String
  pub part : Option Bytes

-- The builder, and whether a line was recognised.
pub record Collected : Type 0 where
  pub text : Bytes
  pub recognised : Bool

unfoldable pub collect_part : Option Bytes → Bytes → Bytes
collect_part none sb = sb
collect_part (some t) sb = sb ++ t

unfoldable pub collect_event : Option OpencodeEvent → Collected → Collected
unfolding collect_part
collect_event none c = c
collect_event (some ev) c =
    if ev.kind == ""
    then c
    else if ev.kind == "text"
    then record { text = collect_part ev.part c.text; recognised = true }
    else record { text = c.text; recognised = true }

module _ (decode : Bytes → Option OpencodeEvent) where
  unfoldable pub collect_line : Bytes → Collected → Collected
  unfolding collect_event trim_space
  collect_line line c =
      let t = trim_space line in if eqb (length t) 0 then c else collect_event (decode t) c

  unfoldable pub collect_lines : List Bytes → Collected → Collected
  unfolding collect_line
  collect_lines [] c = c
  collect_lines (l ∷ ls) c = collect_lines ls (collect_line l c)

  -- parseStreamText
  unfoldable pub opencode_text : Bytes → Collected
  unfolding collect_lines split_lines trim_newlines
  opencode_text raw =
      collect_lines (split_lines (trim_newlines raw)) (record { text = []; recognised = false })

  unfoldable pub opencode_output : ℕ → Bytes → Output
  unfolding parse_output opencode_text trim_newlines
  opencode_output limit raw =
      let c = opencode_text raw in
      if leb limit (length raw)
      then parse_output limit raw
      else if c.recognised
      then whole c.text
      else if eqb (length (trim_newlines raw)) 0
      then whole c.text
      else whole (trim_newlines raw)

  -- RunTask
  unfoldable pub run_opencode :
      CliAdapter
      → String
      → CliProcess
      → (Registry → Registry)
      → Registry
      → Ran ProviderResult × Registry
  unfolding run_cli opencode_output
  run_opencode a task_id p meanwhile r = run_cli opencode_output a task_id p meanwhile r

-- New: the name for the registry falls back to that of the agent.
unfoldable pub new_opencode : Options → String → String → CliAdapter
unfolding new_cli
new_opencode opts model agent_name =
    new_cli opts model (if opts.agent_name == "" then agent_name else opts.agent_name)

-- The prompt with the system prompt in front, if there is one.
unfoldable pub effective_input : String → String → String
effective_input system input =
    if system == "" then input else "[SYSTEM]\n" +s+ (system +s+ ("\n\n" +s+ input))

-- The arguments of RunTask.
unfoldable pub opencode_args : CliAdapter → String → String → String → List String
unfolding with_value effective_input
opencode_args a agent_name system input =
    "run"
    ∷ "--pure"
    ∷ (with_value "--model" a.model
        ++ (with_value "--agent" agent_name
            ++ ("--format" ∷ "json" ∷ effective_input system input ∷ [])))

unfoldable pub has_one_of : List String → String → Bool
unfolding has_part
has_one_of [] s = false
has_one_of (m ∷ ms) s = has_part s m || has_one_of ms s

-- isFormatFlagRejection; `to_lower` is strings.ToLower.
unfoldable pub is_format_flag_rejection : (String → String) → String → Bool
unfolding has_part has_one_of
is_format_flag_rejection to_lower stderr =
    has_part (to_lower stderr) "--format"
    && has_one_of
        ("unknown flag" ∷ "unrecognized flag" ∷ "unknown option" ∷ "invalid flag" ∷ "no such flag"
          ∷ "not a valid flag" ∷ [])
        (to_lower stderr)

pub data FlagProbe : Type 0 where
  accepted probe_timed_out flag_rejected : FlagProbe

-- ProbeModel
unfoldable pub probe_opencode_flags : (String → String) → Bool → String → FlagProbe
unfolding is_format_flag_rejection
probe_opencode_flags to_lower timed_out stderr =
    if timed_out
    then probe_timed_out
    else if is_format_flag_rejection to_lower stderr
    then flag_rejected
    else accepted
