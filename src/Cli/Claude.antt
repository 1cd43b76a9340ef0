-- ===== src/Cli/Claude.antt =====
-- adapters/claudecode/adapter.go: how the output of a claude process is read, its arguments, and the
-- probe of its model. Decoding a line as JSON is a parameter.
use Prim.Native.String.{◌++◌ as ◌+s+◌}
use ai_solo_startup_framewor.Common.{
  ℕ, String, Bool, ◌||◌, Option, none, some, List, [], ◌∷◌, ◌++◌, map, ◌==◌, length, leb, eqb,
  starts_with, if◌then◌else◌,
}
use ai_solo_startup_framewor.Mcp.Registry.{Registry}
use ai_solo_startup_framewor.Pi.Stream.{Bytes, ContentBlock}
use ai_solo_startup_framewor.Pi.Turn.{Output, whole, trim_newlines, ProviderResult, Ran}
use ai_solo_startup_framewor.Cli.Text.{split_lines, trim_space}
use ai_solo_startup_framewor.Cli.Turn.{
  Options, CliAdapter, CliProcess, new_cli, parse_output, run_cli,
}

-- streamEvent; `message` is the content of the message, where there is one.
pub record ClaudeEvent : Type 0 where
  pub kind : String
  pub text : Bytes
  pub message : Option (List ContentBlock)

unfoldable pub write_blocks : List ContentBlock → Bytes → Bytes
write_blocks [] sb = sb
write_blocks (b ∷ bs) sb = write_blocks bs (if b.kind == "text" then sb ++ b.text else sb)

unfoldable pub write_message : Option (List ContentBlock) → Bytes → Bytes
unfolding write_blocks
write_message none sb = sb
write_message (some bs) sb = write_blocks bs sb

-- One line that was decoded, or not.
unfoldable pub write_event : Option ClaudeEvent → Bytes → Bytes
unfolding write_message
write_event none sb = sb
write_event (some ev) sb =
    if ev.kind == "text"
    then sb ++ ev.text
    else if ev.kind == "assistant"
    then write_message ev.message sb
    else sb

module _ (decode : Bytes → Option ClaudeEvent) where
  unfoldable pub write_line : Bytes → Bytes → Bytes
  unfolding write_event trim_space
  write_line line sb =
      let t = trim_space line in if eqb (length t) 0 then sb else write_event (decode t) sb

  -- The loop of parseStreamText, with the builder.
  unfoldable pub write_lines : List Bytes → Bytes → Bytes
  unfolding write_line
  write_lines [] sb = sb
  write_lines (l ∷ ls) sb = write_lines ls (write_line l sb)

  -- parseStreamText
  unfoldable pub claude_text : Bytes → Bytes
  unfolding write_lines split_lines trim_newlines
  claude_text raw = write_lines (split_lines (trim_newlines raw)) []

  -- The output that RunTask makes of the bytes that it has read.
  unfoldable pub claude_output : ℕ → Bytes → Output
  unfolding parse_output claude_text trim_newlines
  claude_output limit raw =
      let output = claude_text raw in
      if leb limit (length raw)
      then parse_output limit raw
      else if eqb (length output) 0
      then whole (trim_newlines raw)
      else whole output

  -- RunTask
  unfoldable pub run_claude :
      CliAdapter
      → String
      → CliProcess
      → (Registry → Registry)
      → Registry
      → Ran ProviderResult × Registry
  unfolding run_cli claude_output
  run_claude a task_id p meanwhile r = run_cli claude_output a task_id p meanwhile r

-- New
unfoldable pub new_claude : Options → String → CliAdapter
unfolding new_cli
new_claude opts model = new_cli opts model opts.agent_name

abbrev pub mcp_server_key : String
mcp_server_key = "framework"

-- mcpToolName
unfoldable pub mcp_tool_name : String → String
mcp_tool_name kind = "mcp__" +s+ (mcp_server_key +s+ ("__" +s+ kind))

unfoldable pub with_value : String → String → List String
with_value flag value = if value == "" then [] else flag ∷ value ∷ []

unfoldable pub allowed_tools : List String → List String
unfolding mcp_tool_name
allowed_tools [] = []
allowed_tools (k ∷ ks) = "--allowedTools" ∷ map mcp_tool_name (k ∷ ks)

unfoldable pub mcp_args : Bool → String → List String → List String
unfolding allowed_tools
mcp_args wired config_path kinds =
    if wired then "--mcp-config" ∷ config_path ∷ "--strict-mcp-config" ∷ allowed_tools kinds else []

-- The arguments of RunTask; the prompt goes to the standard input.
unfoldable pub claude_args : CliAdapter → String → String → List String
unfolding with_value mcp_args
claude_args a system_prompt_path config_path =
    "-p"
    ∷ "--no-session-persistence"
    ∷ "--setting-sources"
    ∷ ""
    ∷ "--disable-slash-commands"
    ∷ (with_value "--model" a.model
        ++ (with_value "--system-prompt-file" system_prompt_path
            ++ (mcp_args a.wired config_path a.policy_action_kinds
                ++ ("--output-format" ∷ "stream-json" ∷ "--verbose" ∷ []))))

-- strings.Contains(s, part)
unfoldable pub has_part : String → String → Bool
has_part String.[] part = starts_with "" part
has_part (String.◌∷◌ c s) part = starts_with (String.◌∷◌ c s) part || has_part s part

pub data ModelProbe : Type 0 where
  accepted probe_timed_out invalid_model : ModelProbe

-- ProbeModel, from whether its time is over and what the process wrote to its standard error.
unfoldable pub probe_claude_model : Bool → String → ModelProbe
unfolding has_part
probe_claude_model timed_out stderr =
    if timed_out
    then probe_timed_out
    else if has_part stderr "issue with the selected model"
        || has_part stderr "isn't described by this version"
    then invalid_model
    else accepted
