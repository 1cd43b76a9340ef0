-- ===== src/Tests/Transport.antt =====
-- The tool server, the peers and the user interface at concrete inputs.
use Prim.Native.Nat.{◌*◌}
use Prim.Native.String.{◌++◌ as ◌+s+◌}
use ai_solo_startup_framewor.Common.{
  ℕ, suc, ◌+◌, ◌≤◌, ◌≡◌, ◌↔◌, zero, refl, String, false, none, some, List, [], ◌∷◌, map, contains,
  All, length, arith,
}
use ai_solo_startup_framewor.Common.Dict.{lookup}
use ai_solo_startup_framewor.Port.{kind_delegate_task, kind_finish_task}
use ai_solo_startup_framewor.Task.{TaskState}
use ai_solo_startup_framewor.Supervisor.Action.{outcome_for_peer}
use ai_solo_startup_framewor.Mcp.Sink.{default_intent_cap}
use ai_solo_startup_framewor.Mcp.Registry.{Registry, new_invocation}
use ai_solo_startup_framewor.Mcp.Tools.{ToolCall, intent_of}
use ai_solo_startup_framewor.Mcp.Accepts.{accepted, FinishesFirst}
use ai_solo_startup_framewor.Mcp.Steps.{Step, called, verified, minted, drained, calls_of, Fair}
use ai_solo_startup_framewor.Mcp.Drained.{IsSound, drained_after, drain-accepted, drained-orderly}
use ai_solo_startup_framewor.A2a.Client.{
  connected, task, PeerTask, Network, Client, send, result_from_task,
}
use ai_solo_startup_framewor.A2a.Delegated.{IsRecognized, send-IsRecognized}
use ai_solo_startup_framewor.A2a.Cancel.{
  CancelAnswer, failed_with, canceled_task, queue_closed, Outside, cancel_task, cancel_retry_window,
  retryable, is_over,
}
use ai_solo_startup_framewor.A2a.Retries.{IsOpen, cancel_task-carries}
use ai_solo_startup_framewor.A2a.Server.{admitted, intercept, bearer_prefix}
use ai_solo_startup_framewor.A2a.Admission.{intercept-admits}
use ai_solo_startup_framewor.Tests.Samples.{env, protocol}

abbrev pub empty_registry : Registry
empty_registry = record { entries = []; heap = λ a. new_invocation "" "" "" 0; next = 0 }

pub empty_registry-IsSound : IsSound empty_registry
unfolding lookup
empty_registry-IsSound t a e = cc

abbrev pub call : String → String → ToolCall
call kind encoded = record { token = none; kind = kind; args = []; encoded = encoded }

abbrev pub request : String → ℕ → ToolCall → Step
request token now c = called (record { token = token; now = now; receipt = "r"; call = c })

-- A delegation, its repetition, another agent's turn, and a finish_task that comes too late.
abbrev pub turn_steps : List Step
turn_steps =
    verified 1 "t"
    ∷ request "t" 2 (call kind_delegate_task "{}")
    ∷ minted "u" "acme" "dev" "task-2" 50
    ∷ request "u" 3 (call kind_finish_task "{}")
    ∷ request "t" 4 (call kind_delegate_task "{}")
    ∷ drained (record { inv = 1; token = "u"; drained = false })
    ∷ request "t" 5 (call kind_finish_task "{}")
    ∷ []

pub turn_steps-Fair : All (Fair "t" 100) turn_steps
turn_steps-Fair = (
  tt,
  (
    λ h. omega arith,
    (refl, (λ h. omega arith, (λ h. omega arith, (refl, (λ h. omega arith, tt))))),
  ),
)

drain-accepted_example :
    drained_after "t" "acme" "ceo" "task-1" 100 turn_steps empty_registry
    ≡ map intent_of (accepted "t" default_intent_cap [] (calls_of "t" turn_steps))
drain-accepted_example =
    drain-accepted "t" "acme" "ceo" "task-1" 100 turn_steps empty_registry empty_registry-IsSound
      turn_steps-Fair

drained-orderly_example :
    (length (drained_after "t" "acme" "ceo" "task-1" 100 turn_steps empty_registry) ≤ 100)
    × FinishesFirst false (drained_after "t" "acme" "ceo" "task-1" 100 turn_steps empty_registry)
drained-orderly_example =
    drained-orderly "t" "acme" "ceo" "task-1" 100 turn_steps empty_registry empty_registry-IsSound
      turn_steps-Fair

abbrev peer_task : PeerTask
peer_task = record { id = "p"; state = TaskState.working; message = none }

abbrev network : Network
network = record {
  connect = λ u. connected;
  send_message = λ u t p b. task peer_task;
  get_task = λ u t p. some peer_task;
}

abbrev client : Client
client = record {
  directory = record { declared = "dev" ∷ []; bound = ("dev", "http://127.0.0.1:1") ∷ [] };
  tenant = "acme";
}

send-IsRecognized_example : IsRecognized (outcome_for_peer env "dev" (result_from_task peer_task))
unfolding send contains lookup
send-IsRecognized_example =
    send-IsRecognized env network client "dev" "" "work" (result_from_task peer_task) refl

-- The execution is cleaned up during the first wait.
abbrev cancel_answer : ℕ → CancelAnswer
cancel_answer zero = failed_with queue_closed
cancel_answer (suc n) = canceled_task TaskState.canceled

abbrev outside : Outside
outside = record {
  cancel = cancel_answer;
  clock = λ n. 5 * n;
  state = λ n. some TaskState.input_required;
  context_done = λ n. false;
}

first_round : (j : ℕ) → suc j ≤ 1 → IsOpen protocol outside (0 + cancel_retry_window) j
unfolding is_over retryable
first_round zero h = record { early = omega arith; going = refl; waiting = refl; again = refl }
first_round (suc j) h = ground (arith, h)

cancel_task-carries_example :
    cancel_task protocol outside 3 0 ≡ some (canceled_task TaskState.canceled)
unfolding retryable
cancel_task-carries_example =
    cancel_task-carries protocol outside 1 3 0 (omega arith) first_round refl

intercept-admits_example :
    (intercept "secret" "acme" (some ("Bearer secret" ∷ [])) "acme" ≡ admitted) ↔ (
      ((rest : List String) × (("Bearer secret" ∷ []) ≡ (bearer_prefix +s+ "secret") ∷ rest))
      × (◌≡◌ {A = String} "acme" "acme"))
intercept-admits_example = intercept-admits "secret" "acme" "acme" ("Bearer secret" ∷ []) refl
