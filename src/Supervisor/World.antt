-- ===== src/Supervisor/World.antt =====
-- The supervisor's configuration and state, what its surroundings answer, and the monad of its
-- methods (core/supervisor/supervisor.go, core/supervisor/watcher.go).
use ai_solo_startup_framewor.Common.{
  ℕ, suc, String, Bool, true, not, Option, none, some, List, ◌∷◌, ◌==◌, if◌then◌else◌,
}
use ai_solo_startup_framewor.Common.Dict.{Dict}
use ai_solo_startup_framewor.Fsm
use ai_solo_startup_framewor.Fsm.{Fsm}
use ai_solo_startup_framewor.Policy
use ai_solo_startup_framewor.Policy.{Policy, Issued, ClassificationResult}
use ai_solo_startup_framewor.Port.{ProviderResult, OutboundMessage}
use ai_solo_startup_framewor.Store
use ai_solo_startup_framewor.Store.{Disk, Faults}
use ai_solo_startup_framewor.Task.{Protocol, TaskState, TaskRecord, failed}

-- Config. Integers are not negative: 0 stands for an unset or negative limit.
pub record Config : Type 0 where
  pub addr : String
  pub role : String
  pub policies : Dict Policy
  pub has_gateway : Bool
  pub has_delegator : Bool
  pub context_budget : ℕ
  pub max_rounds : ℕ

pub record DelegationResult : Type 0 where
  pub peer_task_id : String
  pub state : TaskState
  pub output : String

-- RunTask of the provider: a result, an error or a panic.
pub data RunAnswer : Type 0 where
  result : ProviderResult → RunAnswer
  failure panics : RunAnswer

-- Delegate: `deadline` is an error at DelegateTimeout with the caller's context still alive.
pub data DelegateAnswer : Type 0 where
  accepted : DelegationResult → DelegateAnswer
  deadline refused : DelegateAnswer

-- What lies outside: the store's failures, the provider, the gateway, the peers, the consumer of
-- the events, the resumer, the random tokens and the clock. The `n`-th question gets the answer at
-- `n`. The last five fields are the library's text formatting.
pub record Env : Type 0 where
  pub protocol : Protocol
  pub faults : Faults
  pub run_task : ℕ → String → String → RunAnswer
  pub provider_budget : ℕ
  pub send : ℕ → OutboundMessage → Bool
  pub delegate : ℕ → String → String → DelegateAnswer
  pub peer_task_state : ℕ → String → String → Option DelegationResult
  pub accepts : ℕ → Bool
  pub resume : ℕ → String → String → Bool
  pub before_deadline : ℕ → Bool
  pub random_token : ℕ → String
  pub now : ℕ → ℕ
  pub quote : String → String
  pub decimal : ℕ → String
  pub state_text : TaskState → String
  pub store_error_text : Store.StoreError → String
  pub payload_text : String → String → String

-- The events yielded to the a2asrv runtime; a nil message is `none`.
pub data Event : Type 0 where
  submitted_task : Event
  status : TaskState → Option String → Event

-- The calls that leave the process. A `sent` message names the action kind that it executes.
pub data Effect : Type 0 where
  ran : String → String → Effect
  sent : String → OutboundMessage → Effect
  delegated : String → String → Effect
  polled : String → String → Effect
  resubmitted : String → String → Effect
  registered : String → String → Effect
  resumed : String → String → Effect

-- Supervisor with its engine's tokens and its store's disk; the latest event and effect come first.
-- `consumer_done` holds once a yield returned false, `questions` counts what was asked outside.
pub record World : Type 0 where
  pub disk : Disk
  pub fsm : Fsm
  pub issued : Issued
  pub events : List Event
  pub effects : List Effect
  pub watchers : Dict (String × String)
  pub watch_stopped : Bool
  pub resumer : Bool
  pub consumer_done : Bool
  pub questions : ℕ
  pub notified : ℕ

-- `stuck` is a loop that ran out of fuel; Go's panic unwinds to the deferred functions.
pub data Outcome (A : Type 0) : Type 0 where
  ret : A → Outcome A
  panic stuck : Outcome A

abbrev pub M : Type 0 → Type 0
M A = World → Outcome A × World

abbrev pub pure : {A : Type 0} → A → M A
pure a w = (ret a, w)

abbrev pub then_do : {A B : Type 0} → Outcome A → (A → M B) → M B
then_do (ret a) f w = f a w
then_do panic f w = (panic, w)
then_do stuck f w = (stuck, w)

infixl 5 ◌>>=◌ ◌>>◌
unfoldable pub ◌>>=◌ : {A B : Type 0} → M A → (A → M B) → M B
◌>>=◌ m f w = let r = m w in then_do r.0 f r.1

abbrev pub ◌>>◌ : {B : Type 0} → M (Unit {0}) → M B → M B
m >> k = m >>= λ _. k

-- One answer from outside.
unfoldable pub ask : {A : Type 0} → (ℕ → A) → M A
ask f w = (ret (f w.questions), record w { questions = suc w.questions })

unfoldable pub perform : Effect → M (Unit {0})
perform e w = (ret tt, record w { effects = e ∷ w.effects })

unfoldable pub raise : {A : Type 0} → M A
raise w = (panic, w)

unfoldable pub out_of_fuel : {A : Type 0} → M A
out_of_fuel w = (stuck, w)

-- notify: the hook that a state change calls.
unfoldable pub notify : M (Unit {0})
notify w = (ret tt, record w { notified = suc w.notified })

-- s.resumer != nil
unfoldable pub get_resumer : M Bool
get_resumer w = (ret w.resumer, w)

unfoldable pub set_resumer : World → World
set_resumer w = record w { resumer = true }

unfoldable pub move_fsm : (Fsm → Fsm) → M (Unit {0})
move_fsm f w = (ret tt, record w { fsm = f w.fsm })

-- MarkReady
unfoldable pub mark_ready : M (Unit {0})
mark_ready = do move_fsm Fsm.ready; notify

module _ (env : Env) where
  -- yield: to go on after the consumer has stopped is a panic of Go's runtime.
  unfoldable pub yield : Event → M Bool
  yield e w = if w.consumer_done then (panic, w) else (
    ret (env.accepts w.questions),
    record w {
      events = e ∷ w.events;
      consumer_done = not (env.accepts w.questions);
      questions = suc w.questions;
    },
  )

  -- A yield whose result is ignored.
  unfoldable pub emit : Event → M (Unit {0})
  emit e = do _ ← yield e; pure tt

  -- Engine.MintApprovalToken
  unfoldable pub mint_approval_token : M String
  mint_approval_token w = (
    ret (env.random_token w.questions),
    record w {
      issued = Policy.mint (env.random_token w.questions) w.issued;
      questions = suc w.questions;
    },
  )

  -- Engine.ValidateToken
  unfoldable pub validate_token : String → M Bool
  validate_token t w = let r = Policy.validate t w.issued in (ret r.0, record w { issued = r.1 })

  module _ (cfg : Config) where
    -- Engine.Classify for the supervisor's role.
    unfoldable pub classify : String → M ClassificationResult
    classify kind w =
        let r =
          Policy.classify cfg.policies kind cfg.role (env.random_token w.questions) w.issued in
        (ret r.0, record w { issued = r.1; questions = suc w.questions })

    unfoldable pub save : TaskRecord → M (Store.Result (Unit {0}))
    save rec w =
        let r = Store.save env.faults cfg.addr rec w.disk in (ret r.0, record w { disk = r.1 })

    unfoldable pub load : String → M (Store.Result TaskRecord)
    load id w =
        let r = Store.load env.faults cfg.addr id w.disk in (ret r.0, record w { disk = r.1 })

    unfoldable pub load_all : M (Store.Result (List TaskRecord))
    load_all w =
        let r = Store.load_all env.faults cfg.addr w.disk in (ret r.0, record w { disk = r.1 })

    unfoldable pub delete : String → M (Unit {0})
    delete id w =
        let r = Store.delete env.faults cfg.addr id w.disk in (ret tt, record w { disk = r.1 })

    -- `_ = Store.Save(…); s.notify()`
    unfoldable pub save_and_notify : TaskRecord → M (Unit {0})
    save_and_notify rec = do _ ← save rec; notify

    -- markFailed
    unfoldable pub mark_failed : TaskRecord → M (Unit {0})
    mark_failed rec = save_and_notify (record rec { state = failed })

-- errorMessage: the error itself is not sent.
abbrev pub error_message : Option String
error_message = some "task execution failed"

-- outputMessage
unfoldable pub output_message : String → Option String
output_message output = if output == "" then none else some output
