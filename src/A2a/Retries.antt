-- ===== src/A2a/Retries.antt =====
-- The retries of a cancel (transport/a2a/cancel.go): they end, and they carry the first answer that is
-- final.
use Prim.Native.Nat.{◌*◌}
use ai_solo_startup_framewor.Common.{
  ℕ, zero, suc, ◌+◌, ◌≤◌, ◌<◌, ◌≡◌, ◌≢◌, refl, ap, true, false, none, some, arith, Bool-cases, inl,
  inr,
}
use ai_solo_startup_framewor.Task.{Protocol}
use ai_solo_startup_framewor.A2a.Cancel.{
  Outside, retryable, is_over, retry, cancel_task, cancel_retry_window, cancel_retry_interval,
}

-- Every wait takes at least the interval.
abbrev pub Waits : Outside → Type 0
Waits o = (n : ℕ) → o.clock n + cancel_retry_interval ≤ o.clock (suc n)

-- The cancel may be tried again after round `j`.
pub record IsOpen (protocol : Protocol) (o : Outside) (deadline j : ℕ) : Type 0 where
  pub early : o.clock j < deadline
  pub going : is_over protocol o (o.state j) ≡ false
  pub waiting : o.context_done j ≡ false
  pub again : retryable (o.cancel j) ≡ true

module _ (protocol : Protocol) (o : Outside) where
  retry-ends :
      (fuel deadline n : ℕ)
      → Waits o
      → deadline ≤ o.clock n + 5 * fuel
      → retry protocol o (suc fuel) deadline n ≢ none
  unfolding retry
  retry-ends zero deadline n w h = ground (arith, h)
  retry-ends (suc fuel) deadline n w h =
      let e : deadline ≤ o.clock (suc n) + 5 * fuel = omega (arith, h, w n) in
      ground (arith, retry-ends fuel deadline (suc n) w e)

  -- Where each wait takes at least the interval, and the clock does not go back after the first answer,
  -- CancelTask returns after at most 401 rounds.
  pub cancel_task-returns :
      (start : ℕ) → Waits o → start ≤ o.clock 0 → cancel_task protocol o 401 start ≢ none
  unfolding cancel_task
  cancel_task-returns start w h = elim (Bool-cases (retryable (o.cancel 0))) [
    | inl e ↦ rw e (retry-ends 400 (start + cancel_retry_window) 0 w (omega (arith, h)))
    | inr e ↦ rw e (λ h. cc)
  ]

  retry-carries :
      (d fuel deadline n k : ℕ)
      → k ≡ n + suc d
      → d < fuel
      → ((j : ℕ) → n ≤ j → j < k → IsOpen protocol o deadline j)
      → retryable (o.cancel k) ≡ false
      → retry protocol o fuel deadline n ≡ some (o.cancel k)
  unfolding retry
  retry-carries d zero deadline n k e h p q = elim h [ ]
  retry-carries zero (suc fuel) deadline n k e h p q =
      let v = p n (omega arith) (omega (arith, e)) in
      let f : k ≡ suc n = omega (arith, e) in
      ground (arith, v.early, v.going, v.waiting, ap o.cancel f, q)
  retry-carries (suc d) (suc fuel) deadline n k e h p q =
      let v = p n (omega arith) (omega (arith, e)) in
      let u = p (suc n) (omega arith) (omega (arith, e)) in
      ground (
        arith,
        v.early,
        v.going,
        v.waiting,
        u.again,
        retry-carries d fuel deadline (suc n) k (omega (arith, e)) (omega (arith, h))
            (λ j a b. p j (omega (arith, a)) b) q,
      )

  -- If up to some request the errors are those that are retried, while the task is open, the context
  -- lives and the window of two seconds lasts, then the answer to that request, if it is final, is what
  -- CancelTask returns, given the fuel for as many rounds.
  pub cancel_task-carries :
      (k fuel start : ℕ)
      → k ≤ fuel
      → ((j : ℕ) → j < k → IsOpen protocol o (start + cancel_retry_window) j)
      → retryable (o.cancel k) ≡ false
      → cancel_task protocol o fuel start ≡ some (o.cancel k)
  unfolding cancel_task
  cancel_task-carries zero fuel start h p q = rw q refl
  cancel_task-carries (suc d) fuel start h p q = rw (p 0 (omega arith)).again (
      retry-carries d fuel (start + cancel_retry_window) 0 (suc d) (omega arith) (omega (arith, h))
        (λ j a b. p j b) q)
