-- ===== src/Tests/Tools.antt =====
-- The schema of a tool and the record of its call at concrete inputs.
use ai_solo_startup_framewor.Common.{refl, some, [], ◌∷◌, arith}
use ai_solo_startup_framewor.Common.Dict.{lookup}
use ai_solo_startup_framewor.Port.{text}
use ai_solo_startup_framewor.Mcp.Registry.{Invocation, new_invocation}
use ai_solo_startup_framewor.Mcp.Tools.{ToolCall, locked_call}
use ai_solo_startup_framewor.Mcp.Advertised.{
  Conforms, build_input_schema, IsRead, conforming-IsRead,
}
use ai_solo_startup_framewor.Mcp.Logging.{
  tool_result, logged_outcome, TellsTruth, locked_call-TellsTruth,
}

abbrev delegation : ToolCall
delegation = record {
  token = some "t";
  kind = "delegate_task";
  args = ("body", text "build it") ∷ ("target", text "engineer") ∷ [];
  encoded = "{}";
}

delegation-Conforms : Conforms (build_input_schema "delegate_task") (delegation.args)
unfolding build_input_schema lookup
delegation-Conforms = record {
  typed = (λ v h. ("build it", ground (arith, h)), (λ v h. ("engineer", ground (arith, h)), tt));
  present = ((text "build it", refl), ((text "engineer", refl), tt));
}

conforming-IsRead_example : IsRead delegation
conforming-IsRead_example = conforming-IsRead delegation delegation-Conforms

abbrev invocation : Invocation
invocation = new_invocation "acme" "ceo" "task-1" 100

locked_call-TellsTruth_example :
    TellsTruth delegation
      (invocation.sink)
      (locked_call "t" "r" delegation invocation).1.sink
      (logged_outcome (tool_result (locked_call "t" "r" delegation invocation).0))
locked_call-TellsTruth_example = locked_call-TellsTruth "t" "r" delegation invocation
