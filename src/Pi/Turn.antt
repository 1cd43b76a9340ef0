-- ===== src/Pi/Turn.antt =====
-- RunTask of adapters/pi/adapter.go: one run of a pi process for a turn. What the process does is a
-- parameter: whether it starts, what it writes, how it ends. What the tool server does meanwhile is a
-- function on its registry. The argument list and the files of the invocation are left out.
use ai_solo_startup_framewor.Common.{
  ℕ, ◌+◌, String, Bool, not, ◌&&◌, ◌||◌, Option, none, some, List, [], ◌∷◌, length, eqb,
  if◌then◌else◌,
}
use ai_solo_startup_framewor.Common.Dict.{Dict}
use ai_solo_startup_framewor.Port.{ActionIntent}
use ai_solo_startup_framewor.Mcp.Registry.{Registry, Handle, mint, drain, contacted}
use ai_solo_startup_framewor.Pi.Stream.{
  Bytes, StreamEvent, StreamFailure, no_failure, StreamResult, Chunk, parse_stream,
}
use ai_solo_startup_framewor.Pi.Probe.{require_probed}

-- The fields of Adapter that RunTask reads. `wired` is that a registry is configured.
pub record Adapter : Type 0 where
  pub limit : ℕ
  pub tenant : String
  pub agent_name : String
  pub token_lifetime : ℕ
  pub wired : Bool
  pub mcp_server_names : List String
  pub mcp_tools : Dict (List String)

-- What happens outside: `deadline` is the context's, `healthy` what the health check says, `written`
-- that the extension file could be written, `started` that the process started.
pub record Process : Type 0 where
  pub now : ℕ
  pub deadline : Option ℕ
  pub token : String
  pub healthy : Bool
  pub written : Bool
  pub started : Bool
  pub output : List Chunk
  pub timed_out : Bool
  pub exited_well : Bool
  pub read_well : Bool

pub data RunError : Type 0 where
  not_probed unhealthy not_written not_started deadline_exceeded bad_exit bad_read : RunError
  model_failed : StreamFailure → RunError
  never_contacted : RunError

-- Output: with the truncation marker in front, or without.
pub data Output : Type 0 where
  whole truncated : Bytes → Output

pub record ProviderResult : Type 0 where
  pub output : Output
  pub action_intents : List ActionIntent

pub data Ran (A : Type 0) : Type 0 where
  ok : A → Ran A
  err : RunError → Ran A

-- strings.TrimRight(raw, "\n")
unfoldable pub trim_newlines : Bytes → Bytes
trim_newlines [] = []
trim_newlines (b ∷ bs) =
    let rest = trim_newlines bs in if eqb b 10 && eqb (length rest) 0 then [] else b ∷ rest

abbrev pub mark : Bool → Bytes → Output
mark flag text = if flag then truncated text else whole text

unfoldable pub output_of : StreamResult → Output
unfolding trim_newlines
output_of res =
    if res.recognised || eqb (length (trim_newlines res.raw)) 0
    then mark res.text_truncated res.text
    else mark res.raw_truncated (trim_newlines res.raw)

unfoldable pub failed_stream : StreamFailure → Output → Ran Output
failed_stream no_failure o = ok o
failed_stream (StreamFailure.said s) o = err (model_failed (StreamFailure.said s))
failed_stream (StreamFailure.stopped s) o = err (model_failed (StreamFailure.stopped s))

-- The process from its start to its output.
unfoldable pub run_process : (Bytes → Option StreamEvent) → ℕ → Process → Ran Output
unfolding output_of failed_stream parse_stream
run_process decode limit p =
    let res = parse_stream decode limit p.output in
    if not p.started
    then err not_started
    else if p.timed_out
    then err deadline_exceeded
    else if not p.exited_well
    then err bad_exit
    else if not p.read_well
    then err bad_read
    else failed_stream res.failure (output_of res)

-- The end of RunTask without a registry.
unfoldable pub unwired_result : Ran Output → Ran ProviderResult
unwired_result (err e) = err e
unwired_result (ok o) = ok (record { output = o; action_intents = [] })

unfoldable pub check_contact : Bool → Output → List ActionIntent → Ran ProviderResult
check_contact was_contacted o intents =
    if eqb (length intents) 0 && not was_contacted
    then err never_contacted
    else ok (record { output = o; action_intents = intents })

-- The end of RunTask with a registry; on each path the handle is drained, on failure by the deferred
-- call.
unfoldable pub wired_result : Handle → Ran Output → Registry → Ran ProviderResult × Registry
unfolding drain contacted check_contact
wired_result h (err e) r = (err e, (drain h r).2)
wired_result h (ok o) r =
    let d = drain h r in (check_contact (contacted d.1 d.2) o d.0, (drain d.1 d.2).2)

-- The expiry of the token: the context's deadline or a lifetime from now, and 30 seconds of grace.
unfoldable pub expiry : Adapter → Process → ℕ
expiry a p = elim p.deadline [ none ↦ p.now + a.token_lifetime + 30 | some d ↦ d + 30 ]

module _ (decode : Bytes → Option StreamEvent) (a : Adapter) (task_id : String) where
  unfoldable pub run_wired :
      Process → (Registry → Registry) → Registry → Ran ProviderResult × Registry
  unfolding mint expiry wired_result run_process drain
  run_wired p meanwhile r =
      let m = mint p.token a.tenant a.agent_name task_id (expiry a p) r in
      if not p.written
      then (err not_written, (drain m.0 m.1).2)
      else wired_result m.0 (run_process decode a.limit p) (meanwhile m.1)

  unfoldable pub run_unwired : Process → Ran ProviderResult
  unfolding unwired_result run_process
  run_unwired p =
      if not (eqb (length a.mcp_server_names) 0) && not p.written
      then err not_written
      else unwired_result (run_process decode a.limit p)

  -- RunTask
  unfoldable pub run_task :
      Process → (Registry → Registry) → Registry → Ran ProviderResult × Registry
  unfolding require_probed run_wired run_unwired
  run_task p meanwhile r =
      if not (require_probed a.mcp_tools a.mcp_server_names)
      then (err not_probed, r)
      else if not a.wired
      then (run_unwired p, r)
      else if not p.healthy
      then (err unhealthy, r)
      else run_wired p meanwhile r
