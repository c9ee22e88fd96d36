-- ===== src/Retry/Fast/Attempts.antt =====
-- retry/executor.go, `doValueFast`: the number of calls of the operation.
use rego.Common.{
  ℕ, zero, suc, ◌+◌, ◌≤◌, ℤ, pos, ltb_ℤ, ◌==◌, inl, inr, Bool, Option, none, Bool-cases,
  Option-cases, FloatOps, arith,
}
use rego.Errors.{Error}
use rego.Classify.{Outcome, Exit-cases}
use rego.Retry.Backoff.{compute_sleep, next_backoff}
use rego.Retry.Gate.{Once}
use rego.Retry.Outcomes.{classify_with_recovery}
use rego.Retry.Fast.Laws.{kind-cases}
use rego.Retry.Fast.{
  FastCall, Result, run_attempt, pause, conclude, attempt_once, round, loop, attempts_of,
  do_value_fast,
}
use rego.Retry.Fast.Single.{Counts, Releases, run_attempt-calls}

module _ {W C T F : Type 0} ⦃f : FloatOps F⦄ (call : FastCall W C T F) (calls : W → ℕ)
    (counts : Counts call.env calls) where
  open counts use {
    counts_op, keeps_timeout, keeps_cancel, keeps_clock, keeps_sleep, keeps_draw, keeps_gate,
    keeps_feed, keeps_release,
  }

  abbrev Again : Type 0
  Again = ℤ → T → Option Error → W → Result call

  -- The rounds that follow call the operation at most `left` times.
  abbrev IsBounded : Again → ℕ → Type 0
  IsBounded again left =
      (b : ℤ) (val : T) (err : Option Error) (w : W) → calls (again b val err w).1 ≤ calls w + left

  pause-calls :
      (again : Again) (left : ℕ)
      → IsBounded again left
      → (ctx : C) (b : ℤ) (val : T) (err : Option Error) (out : Outcome) (w : W)
      → calls (pause call again ctx b val err out w).1 ≤ calls w + left
  unfolding pause
  pause-calls again left ih ctx b val err out w =
      let w₁ : W = (call.env.draw w).1 in
      let b' : ℤ = next_backoff b call.pol.retry.backoff_multiplier call.pol.retry.max_backoff in
      let d : ℤ = compute_sleep (call.env.draw w).0 b call.pol.retry out in
      elim (Bool-cases (ltb_ℤ (pos 0) d)) [
        | inl s ↦ elim (Option-cases (call.env.sleep ctx d w₁).0) [
          | inl n ↦ ground (
            arith,
            s,
            n,
            keeps_draw w,
            keeps_sleep ctx d w₁,
            ih b' val err (call.env.sleep ctx d w₁).1,
          )
          | inr (e, n) ↦ ground (arith, s, n, keeps_draw w, keeps_sleep ctx d w₁)
        ]
        | inr s ↦ ground (arith, s, keeps_draw w, ih b' val err w₁)
      ]

  conclude-calls :
      (again : Again) (left : ℕ)
      → IsBounded again left
      → (ctx : C) (is_last : Bool) (b : ℤ) (val : T) (err : Option Error) (w : W)
      → calls (conclude call again ctx is_last b val err w).1 ≤ calls w + left
  unfolding conclude
  conclude-calls again left ih ctx is_last b val err w =
      elim (Exit-cases
        (classify_with_recovery call.recover_panics call.classifier val err call.key)) [
          | inr (v, x) ↦ ground (arith, x)
          | inl ((out, panic_err), x) ↦ elim (Option-cases panic_err) [
            | inr (p, e) ↦ ground (arith, x, e)
            | inl e ↦ elim (kind-cases out.kind) [
              | inl k ↦ ground (arith, x, e, k)
              | inr (inl k) ↦ elim (Bool-cases is_last) [
                | inl l ↦ ground (arith, x, e, k, l)
                | inr l ↦ ground (arith, x, e, k, l, pause-calls again left ih ctx b val err out w)
              ]
              | inr (inr (inl k)) ↦ ground (arith, x, e, k)
              | inr (inr (inr (inl k))) ↦ ground (arith, x, e, k)
              | inr (inr (inr (inr k))) ↦ ground (arith, x, e, k)
            ]
          ]
        ]

  attempt_once-calls :
      (again : Again) (left : ℕ)
      → IsBounded again left
      → (ctx : C) (attempt : ℕ) (is_last : Bool) (b : ℤ) (release : Option (Once W)) (w : W)
      → Releases call calls counts release
      → calls (attempt_once call again ctx attempt is_last b release w).1 ≤ calls w + suc left
  unfolding attempt_once
  attempt_once-calls again left ih ctx attempt is_last b release w h =
      let w' : W = (run_attempt call ctx attempt release w).1 in
      elim (Exit-cases (run_attempt call ctx attempt release w).0) [
        | inr (v, r) ↦
            ground (arith, r, run_attempt-calls call calls counts ctx attempt release w h)
        | inl ((val, err), r) ↦ ground (
          arith,
          r,
          run_attempt-calls call calls counts ctx attempt release w h,
          conclude-calls again left ih ctx is_last b val err w',
        )
      ]

  round-calls :
      (again : Again) (left : ℕ)
      → IsBounded again left
      → (ctx : C) (attempt : ℕ) (is_last : Bool) (b : ℤ) (last : T) (last_err : Option Error)
        (w : W)
      → calls (round call again ctx attempt is_last b last last_err w).1 ≤ calls w + suc left
  unfolding round
  round-calls again left ih ctx attempt is_last b last last_err w =
      let w₁ : W = (call.env.gate ctx attempt w).1 in
      elim (Option-cases (call.env.ctx_err ctx w)) [
        | inr (e, x) ↦ ground (arith, x)
        | inl x ↦ elim (Exit-cases (call.env.gate ctx attempt w).0) [
          | inr (v, g) ↦ ground (arith, x, g, keeps_gate ctx attempt w)
          | inl (verdict, g) ↦ elim (Bool-cases verdict.allowed) [
            | inr a ↦ ground (arith, x, g, a, keeps_gate ctx attempt w)
            | inl a ↦ ground (
              arith,
              x,
              g,
              a,
              keeps_gate ctx attempt w,
              attempt_once-calls again left ih ctx attempt is_last b verdict.release w₁
                  (λ o. keeps_release ctx attempt w verdict o g),
            )
          ]
        ]
      ]

  loop-calls :
      (left : ℕ) (ctx : C) (attempt : ℕ) (b : ℤ) (last : T) (last_err : Option Error) (w : W)
      → calls (loop call left ctx attempt b last last_err w).1 ≤ calls w + left
  unfolding loop
  loop-calls zero ctx attempt b last last_err w = omega arith
  loop-calls (suc left) ctx attempt b last last_err w =
      round-calls (loop call left ctx (attempt + 1)) left (loop-calls left ctx (attempt + 1)) ctx
        attempt (left == 0) b last last_err w

  -- A call runs its operation at most as often as its policy's `MaxAttempts` says, and at most once
  -- where that is not positive. The count is any function of the state that one call of the
  -- operation raises by at most one and that nothing else raises.
  pub calls_bounded :
      (zero_value : T) (ctx : C) (w : W)
      → calls (do_value_fast call zero_value ctx w).1
        ≤ calls w + attempts_of call.pol.retry.max_attempts
  unfolding do_value_fast
  calls_bounded zero_value ctx w =
      let n : ℕ = attempts_of call.pol.retry.max_attempts in
      let b : ℤ = call.pol.retry.initial_backoff in
      let d : ℤ = call.pol.retry.overall_timeout in
      let ctx' : C = (call.env.with_timeout ctx d w).0 in
      let w₁ : W = (call.env.with_timeout ctx d w).1 in
      elim (Bool-cases (ltb_ℤ (pos 0) d)) [
        | inl t ↦ ground (
          arith,
          t,
          keeps_timeout ctx d w,
          loop-calls n ctx' 0 b zero_value none w₁,
          keeps_cancel ctx' (loop call n ctx' 0 b zero_value none w₁).1,
        )
        | inr t ↦ ground (arith, t, loop-calls n ctx 0 b zero_value none w)
      ]
