-- ===== src/Retry/Fast.antt =====
-- retry/executor.go, `doValueFast`: the loop of attempts without hedging, circuit and timeline. What
-- stands outside the repository acts on a state `W`: the operation, the context, the clock, the
-- sleep and the random draws.
pub mod Laws
pub mod Single
pub mod Attempts
use rego.Common.{
  ℕ, zero, suc, ◌+◌, ℤ, pos, negsuc, ◌-ℤ◌, ltb_ℤ, leb_ℤ, ◌==◌, saturate, Bool, true, false, Option,
  none, some, FloatOps, if◌then◌else◌,
}
use rego.Errors.{Error, Sentinel, message, sentinel, hedging_requires_timeline}
use rego.Policy.Key.{PolicyKey}
use rego.Policy.Schema.{EffectivePolicy}
use rego.Classify.{
  Outcome, outcome_success, outcome_retryable, outcome_non_retryable, outcome_abort,
  outcome_unknown, Classifier, Exit, returned, panicked,
}
use rego.Retry.Backoff.{compute_sleep, next_backoff}
use rego.Retry.Gate.{Once, fire, Verdict}
use rego.Retry.Outcomes.{classify_with_recovery, terminal_error}

-- The effects, with a context of type `C` and results of type `T`.
pub record Env (W C T F : Type 0) : Type 0 where
  pub ctx_err : C → W → Option Error
  pub with_timeout : C → ℤ → W → C × W
  pub cancel : C → W → W
  pub with_attempt : C → ℕ → C  -- observe.WithAttemptInfo
  pub op : C → W → Exit (T × Option Error) × W
  pub clock : W → ℤ × W
  pub sleep : C → ℤ → W → Option Error × W
  pub draw : W → F × W
  pub gate : C → ℕ → W → Exit (Verdict W) × W  -- allowAttempt for the policy's retry budget
  pub feed : ℤ → W → W  -- getTracker(key).Observe

-- What one call of `doValueFast` works with once its policy and classifier are resolved.
pub record FastCall (W C T F : Type 0) : Type 0 where
  pub env : Env W C T F
  pub key : PolicyKey
  pub pol : EffectivePolicy F
  pub classifier : Classifier T
  pub recover_panics : Bool

-- The number of attempts, at least one.
unfoldable pub attempts_of : ℤ → ℕ
attempts_of (pos zero) = 1
attempts_of (pos (suc n)) = suc n
attempts_of (negsuc n) = 1

module _ {W C T F : Type 0} ⦃f : FloatOps F⦄ (call : FastCall W C T F) where
  open call use {env, key, pol, classifier, recover_panics}
  open env use {ctx_err, with_timeout, cancel, with_attempt, op, clock, sleep, draw, gate, feed}

  abbrev Result : Type 0
  Result = Exit (T × Option Error) × W

  -- The deferred calls of an attempt: its release, then the cancellation of its context.
  unfoldable pub defers : Option (Once W) → Bool → C → W → W
  defers release timed ctx w =
      let w' : W = elim release [ none ↦ w | some o ↦ (fire o w).1 ] in
      if timed then cancel ctx w' else w'

  -- The inner function of an attempt: the operation, timed for the latency tracker.
  unfoldable pub run_op : C → W → Result
  run_op ctx w =
      let (start, w₁) = clock w in
      let (exit, w₂) = op ctx w₁ in
      elim exit [
        | panicked v ↦ (panicked v, w₂)
        | returned r ↦ let (end, w₃) = clock w₂ in (returned r, feed (saturate (end -ℤ start)) w₃)
      ]

  unfoldable pub run_attempt : C → ℕ → Option (Once W) → W → Result
  run_attempt ctx attempt release w =
      let timed = ltb_ℤ (pos 0) pol.retry.timeout_per_attempt in
      let (attempt_ctx, w₁) =
        if timed then with_timeout ctx pol.retry.timeout_per_attempt w else (ctx, w) in
      let (exit, w₂) = run_op (with_attempt attempt_ctx attempt) w₁ in
      (exit, defers release timed attempt_ctx w₂)

  -- Behind a retryable outcome that is not the last attempt's: the sleep, and the next round.
  unfoldable pub pause :
      (ℤ → T → Option Error → W → Result) → C → ℤ → T → Option Error → Outcome → W → Result
  pause again ctx backoff val err out w =
      let (number, w₁) = draw w in
      let sleep_for = compute_sleep number backoff pol.retry out in
      let backoff' = next_backoff backoff pol.retry.backoff_multiplier pol.retry.max_backoff in
      if ltb_ℤ (pos 0) sleep_for
      then (let (failed, w₂) = sleep ctx sleep_for w₁ in
          elim failed [ some e ↦ (returned (val, some e), w₂) | none ↦ again backoff' val err w₂ ])
      else again backoff' val err w₁

  -- What follows an operation that returned.
  unfoldable pub conclude :
      (ℤ → T → Option Error → W → Result) → C → Bool → ℤ → T → Option Error → W → Result
  conclude again ctx is_last backoff val err w =
      elim (classify_with_recovery recover_panics classifier val err key) [
        | panicked v ↦ (panicked v, w)
        | returned (out, panic_err) ↦ elim panic_err [
          | some p ↦ (returned (val, some p), w)
          | none ↦ elim out.kind [
            | outcome_success ↦ (returned (val, none), w)
            | outcome_retryable ↦
                if is_last
                then (returned (val, some (terminal_error (ctx_err ctx w) err out)), w)
                else pause again ctx backoff val err out w
            | _ ↦ (returned (val, some (terminal_error (ctx_err ctx w) err out)), w)
          ]
        ]
      ]

  -- An attempt that the gate let through.
  unfoldable pub attempt_once :
      (ℤ → T → Option Error → W → Result) → C → ℕ → Bool → ℤ → Option (Once W) → W → Result
  attempt_once again ctx attempt is_last backoff release w =
      let (exit, w') = run_attempt ctx attempt release w in
      elim exit [
        | panicked v ↦ (panicked v, w')
        | returned (val, err) ↦ conclude again ctx is_last backoff val err w'
      ]

  -- One round: the context, the budget, the attempt.
  unfoldable pub round :
      (ℤ → T → Option Error → W → Result) → C → ℕ → Bool → ℤ → T → Option Error → W → Result
  round again ctx attempt is_last backoff last last_err w = elim (ctx_err ctx w) [
    | some e ↦ (returned (last, some e), w)
    | none ↦
        let (exit, w₁) = gate ctx attempt w in
        elim exit [
          | panicked v ↦ (panicked v, w₁)
          | returned verdict ↦
              if verdict.allowed
              then attempt_once again ctx attempt is_last backoff verdict.release w₁
              else (returned (last, some (message verdict.reason)), w₁)
        ]
  ]

  -- `for attempt := 0; attempt < maxAttempts; attempt++`, with the rounds left.
  unfoldable pub loop : ℕ → C → ℕ → ℤ → T → Option Error → W → Result
  loop zero ctx attempt backoff last last_err w = (returned (last, last_err), w)
  loop (suc left) ctx attempt backoff last last_err w =
      round (loop left ctx (attempt + 1)) ctx attempt (left == 0) backoff last last_err w

  -- `doValueFast`, behind the resolutions. `zero_value` is the zero value of `T`.
  unfoldable pub do_value_fast : T → C → W → Result
  do_value_fast zero_value ctx w =
      if pol.hedge.enabled
      then (returned (zero_value, some (sentinel hedging_requires_timeline)), w)
      else if pol.circuit.enabled
      then (returned (zero_value, some (sentinel hedging_requires_timeline)), w)
      else (let timed = ltb_ℤ (pos 0) pol.retry.overall_timeout in
          let (ctx', w₁) =
            if timed then with_timeout ctx pol.retry.overall_timeout w else (ctx, w) in
          let (exit, w₂) =
            loop (attempts_of pol.retry.max_attempts) ctx' 0 pol.retry.initial_backoff zero_value
              none w₁ in
          (exit, if timed then cancel ctx' w₂ else w₂))
