-- ===== src/Cli/Report.antt =====
-- What RunTask of adapters/claudecode/adapter.go and adapters/opencode/adapter.go reports, and what
-- becomes of its token.
use ai_solo_startup_framewor.Common.{
  ℕ, ◌≡◌, refl, ◌∙◌, String, true, none, List, [], map, arith, All,
}
use ai_solo_startup_framewor.Common.Dict.{lookup}
use ai_solo_startup_framewor.Mcp.Sink.{default_intent_cap}
use ai_solo_startup_framewor.Mcp.Registry.{Registry, mint}
use ai_solo_startup_framewor.Mcp.Tools.{intent_of}
use ai_solo_startup_framewor.Mcp.Accepts.{accepted}
use ai_solo_startup_framewor.Mcp.Steps.{Step, steps, calls_of, Fair}
use ai_solo_startup_framewor.Mcp.Drained.{IsSound, drain-accepted}
use ai_solo_startup_framewor.Pi.Stream.{Bytes}
use ai_solo_startup_framewor.Pi.Turn.{Output, ProviderResult, ok}
use ai_solo_startup_framewor.Pi.Released.{released, wired_result-released, wired_result-intents}
use ai_solo_startup_framewor.Cli.Turn.{
  CliAdapter, CliProcess, token_expiry, run_command, run_minted, run_cli,
}

module _ (read_output : ℕ → Bytes → Output) (a : CliAdapter) (task_id : String) where
  -- However a run of either adapter ends, and whatever the tool server does meanwhile, the token that
  -- the run drew leads nowhere afterwards, if it was not in the registry before.
  pub run_cli-releases :
      (p : CliProcess) (meanwhile : Registry → Registry) (r : Registry)
      → lookup p.token r.entries ≡ none
      → lookup p.token (run_cli read_output a task_id p meanwhile r).1.entries ≡ none
  unfolding run_cli run_minted mint
  run_cli-releases p meanwhile r h =
      let m = mint p.token a.tenant a.agent_name task_id (token_expiry a p) r in
      ground (
        arith,
        h,
        wired_result-released m.0 (run_command read_output a task_id p) (meanwhile m.1) refl,
        released m.0 m.1 refl,
      )

  -- A successful run of either adapter with a registry returns the intents of exactly the accepted
  -- calls that carried its token, in order, where other calls, verifications and other invocations
  -- come in between. The tool server is that of the adapter's tenant, the registry's entries lead to
  -- created invocations, requests with the token do not come after it expires, and no other invocation
  -- has the token.
  pub run_cli-accepted :
      (p : CliProcess) (ss : List Step) (r : Registry) (res : ProviderResult)
      → a.wired ≡ true
      → IsSound r
      → All (Fair p.token (token_expiry a p)) ss
      → (run_cli read_output a task_id p (steps a.tenant ss) r).0 ≡ ok res
      → res.action_intents
        ≡ map intent_of (accepted p.token default_intent_cap [] (calls_of p.token ss))
  unfolding run_cli run_minted
  run_cli-accepted p ss r res w v f h =
      let m = mint p.token a.tenant a.agent_name task_id (token_expiry a p) r in
      wired_result-intents m.0 (run_command read_output a task_id p) (steps a.tenant ss m.1) res
        (ground (arith, w, h))
      ∙ drain-accepted p.token a.tenant a.agent_name task_id (token_expiry a p) ss r v f
