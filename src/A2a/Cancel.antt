-- ===== src/A2a/Cancel.antt =====
-- transport/a2a/cancel.go: cancelling a task whose execution has just ended. What the wrapped handler
-- answers to the n-th request, the clock and the context are parameters; times are milliseconds.
use ai_solo_startup_framewor.Common.{
  ℕ, zero, suc, ◌+◌, Bool, true, false, Option, none, some, ltb, if◌then◌else◌,
}
use ai_solo_startup_framewor.Task.{Protocol, TaskState}

abbrev pub cancel_retry_window : ℕ
cancel_retry_window = 2000

abbrev pub cancel_retry_interval : ℕ
cancel_retry_interval = 5

pub data CancelError : Type 0 where
  not_cancelable queue_closed other_error : CancelError

-- What CancelTask answers: the state of the task, or an error.
pub data CancelAnswer : Type 0 where
  canceled_task : TaskState → CancelAnswer
  failed_with : CancelError → CancelAnswer

-- The n-th round: the answer to the n-th CancelTask, the clock and the state of the task (none where
-- GetTask fails) before the next one, and whether the context ends during the wait.
pub record Outside : Type 0 where
  pub cancel : ℕ → CancelAnswer
  pub clock : ℕ → ℕ
  pub state : ℕ → Option TaskState
  pub context_done : ℕ → Bool

-- retryableCancelErr
unfoldable pub retryable : CancelAnswer → Bool
retryable (canceled_task s) = false
retryable (failed_with not_cancelable) = true
retryable (failed_with queue_closed) = true
retryable (failed_with other_error) = false

module _ (protocol : Protocol) (o : Outside) where
  -- The task is gone, or ended by itself.
  unfoldable pub is_over : Option TaskState → Bool
  is_over none = true
  is_over (some s) = protocol.terminal s

  -- The loop before round `n`, whose last answer came from request `n`. `none` is that the fuel is
  -- used up.
  unfoldable pub retry : ℕ → ℕ → ℕ → Option CancelAnswer
  unfolding is_over retryable
  retry zero deadline n = none
  retry (suc fuel) deadline n =
      let next = retry fuel deadline (suc n) in
      if ltb (o.clock n) deadline
      then if is_over (o.state n)
        then some (o.cancel n)
        else if o.context_done n
        then some (o.cancel n)
        else if retryable (o.cancel (suc n))
        then next
        else some (o.cancel (suc n))
      else some (o.cancel n)

  -- CancelTask; `start` is the clock when the first answer came.
  unfoldable pub cancel_task : ℕ → ℕ → Option CancelAnswer
  unfolding retry retryable
  cancel_task fuel start =
      if retryable (o.cancel 0)
      then retry fuel (start + cancel_retry_window) 0
      else some (o.cancel 0)
