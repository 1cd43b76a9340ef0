-- ===== src/Pi/Report.antt =====
-- What RunTask of adapters/pi/adapter.go reports, and what becomes of its token.
use ai_solo_startup_framewor.Common.{
  ◌≡◌, refl, sym, ◌∙◌, String, true, not, ◌&&◌, Option, none, List, [], map, arith, All, Bool-cases,
  inl, inr,
}
use ai_solo_startup_framewor.Common.Dict.{lookup}
use ai_solo_startup_framewor.Mcp.Sink.{default_intent_cap}
use ai_solo_startup_framewor.Mcp.Registry.{Registry, Handle, mint}
use ai_solo_startup_framewor.Mcp.Tools.{intent_of}
use ai_solo_startup_framewor.Mcp.Accepts.{accepted}
use ai_solo_startup_framewor.Mcp.Steps.{Step, steps, calls_of, Fair}
use ai_solo_startup_framewor.Mcp.Drained.{IsSound, drain-accepted}
use ai_solo_startup_framewor.Pi.Stream.{Bytes, StreamEvent, StreamFailure, no_failure, parse_stream}
use ai_solo_startup_framewor.Pi.Probe.{require_probed}
use ai_solo_startup_framewor.Pi.Released.{released, wired_result-released, wired_result-intents}
use ai_solo_startup_framewor.Pi.Lines.{complete_lines, last_failure, parse_stream-Tracks}
use ai_solo_startup_framewor.Pi.Turn.{
  Adapter, Process, Output, ProviderResult, Ran, ok, err, failed_stream, output_of, run_process,
  unwired_result, wired_result, expiry, run_wired, run_unwired, run_task,
}

module _ (decode : Bytes → Option StreamEvent) (a : Adapter) (task_id : String) where
  -- However a run ends, and whatever the tool server does meanwhile, the token that the run drew
  -- leads nowhere afterwards, if it was not in the registry before.
  pub run_task-releases :
      (p : Process) (meanwhile : Registry → Registry) (r : Registry)
      → lookup p.token r.entries ≡ none
      → lookup p.token (run_task decode a task_id p meanwhile r).1.entries ≡ none
  unfolding run_task run_wired mint
  run_task-releases p meanwhile r h = ground (
    arith,
    h,
    wired_result-released (mint p.token a.tenant a.agent_name task_id (expiry a p) r).0
        (run_process decode a.limit p)
        (meanwhile (mint p.token a.tenant a.agent_name task_id (expiry a p) r).1) refl,
    released (mint p.token a.tenant a.agent_name task_id (expiry a p) r).0
        (mint p.token a.tenant a.agent_name task_id (expiry a p) r).1 refl,
  )

  -- A successful run of an adapter with a registry returns the intents of exactly the accepted calls
  -- that carried its token, in order, where other calls, verifications and other invocations come in
  -- between. The tool server is that of the adapter's tenant, the registry's entries lead to created invocations, requests with the token do not come
  -- after it expires, and no other invocation has the token.
  pub run_task-accepted :
      (p : Process) (ss : List Step) (r : Registry) (res : ProviderResult)
      → a.wired ≡ true
      → IsSound r
      → All (Fair p.token (expiry a p)) ss
      → (run_task decode a task_id p (steps a.tenant ss) r).0 ≡ ok res
      → res.action_intents
        ≡ map intent_of (accepted p.token default_intent_cap [] (calls_of p.token ss))
  unfolding run_task run_wired
  run_task-accepted p ss r res w v f h =
      wired_result-intents (mint p.token a.tenant a.agent_name task_id (expiry a p) r).0
        (run_process decode a.limit p)
        (steps a.tenant ss (mint p.token a.tenant a.agent_name task_id (expiry a p) r).1) res
        (ground (arith, w, h))
      ∙ drain-accepted p.token a.tenant a.agent_name task_id (expiry a p) ss r v f

  -- What a reported success means.
  pub record IsSuccess (p : Process) : Type 0 where
    pub probed : require_probed a.mcp_tools a.mcp_server_names ≡ true
    pub ran : (p.started && not p.timed_out && p.exited_well && p.read_well) ≡ true
    pub answered : last_failure decode no_failure (complete_lines [] p.output) ≡ no_failure
    pub served : a.wired ≡ true → (p.healthy && p.written) ≡ true

  failed_stream-none :
      (f : StreamFailure) (o q : Output) → failed_stream f o ≡ ok q → f ≡ no_failure
  unfolding failed_stream
  failed_stream-none no_failure o q h = refl
  failed_stream-none (StreamFailure.said s) o q h = cc
  failed_stream-none (StreamFailure.stopped s) o q h = cc

  run_process-answered :
      (p : Process) (o : Output)
      → run_process decode a.limit p ≡ ok o
      → last_failure decode no_failure (complete_lines [] p.output) ≡ no_failure
  unfolding run_process
  run_process-answered p o h =
      let t = parse_stream-Tracks decode a.limit p.output in
      let res = parse_stream decode a.limit p.output in
      sym t.failed ∙ failed_stream-none res.failure (output_of res) o (ground (arith, h))

  run_process-ran :
      (p : Process) (o : Output)
      → run_process decode a.limit p ≡ ok o
      → (p.started && not p.timed_out && p.exited_well && p.read_well) ≡ true
  unfolding run_process
  run_process-ran p o h = ground (arith, h)

  wired_result-ok :
      (d : Handle) (q : Ran Output) (r : Registry) (res : ProviderResult)
      → (wired_result d q r).0 ≡ ok res
      → (o : Output) × (q ≡ ok o)
  unfolding wired_result
  wired_result-ok d (err e) r res h = cc
  wired_result-ok d (ok o) r res h = (o, refl)

  unwired_result-ok :
      (q : Ran Output) (res : ProviderResult)
      → unwired_result q ≡ ok res
      → (o : Output) × (q ≡ ok o)
  unfolding unwired_result
  unwired_result-ok (err e) res h = cc
  unwired_result-ok (ok o) res h = (o, refl)

  run_task-ok :
      (p : Process) (meanwhile : Registry → Registry) (r : Registry) (res : ProviderResult)
      → (run_task decode a task_id p meanwhile r).0 ≡ ok res
      → (o : Output) × (run_process decode a.limit p ≡ ok o)
  unfolding run_task run_wired run_unwired
  run_task-ok p meanwhile r res h = elim (Bool-cases a.wired) [
    | inl w ↦
        wired_result-ok (mint p.token a.tenant a.agent_name task_id (expiry a p) r).0
          (run_process decode a.limit p)
          (meanwhile (mint p.token a.tenant a.agent_name task_id (expiry a p) r).1) res
          (ground (arith, w, h))
    | inr w ↦ unwired_result-ok (run_process decode a.limit p) res (ground (arith, w, h))
  ]

  -- A run is reported as a success only if every declared server was probed, the process started,
  -- exited well before its deadline and could be read, the last of the assistant's messages did not
  -- fail, and, where a registry is configured, the tool server was healthy and the extension that
  -- names it was written.
  pub run_task-IsSuccess :
      (p : Process) (meanwhile : Registry → Registry) (r : Registry) (res : ProviderResult)
      → (run_task decode a task_id p meanwhile r).0 ≡ ok res
      → IsSuccess p
  unfolding run_task run_wired
  run_task-IsSuccess p meanwhile r res h =
      let (o, e) = run_task-ok p meanwhile r res h in
      record {
        probed = ground (arith, h);
        ran = run_process-ran p o e;
        answered = run_process-answered p o e;
        served = λ w. ground (arith, w, h);
      }
