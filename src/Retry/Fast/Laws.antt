-- ===== src/Retry/Fast/Laws.antt =====
-- retry/executor.go, `doValueFast`: how a call ends.
use rego.Common.{
  ℕ, zero, suc, ◌+◌, ℤ, pos, ltb_ℤ, ◌==◌, ◌≡◌, refl, sym, subst, inl, inr, ◌⊎◌, Bool, true, false,
  Option, none, some, Bool-cases, Option-cases, FloatOps, arith, if◌then◌else◌,
}
use rego.Errors.{Error, message}
use rego.Classify.{
  Outcome, OutcomeKind, outcome_success, outcome_retryable, outcome_non_retryable, outcome_abort,
  outcome_unknown, Exit, returned, panicked, Exit-cases,
}
use rego.Retry.Backoff.{compute_sleep}
use rego.Retry.Outcomes.{classify_with_recovery, terminal_error}
use rego.Retry.Gate.{Once}
use rego.Retry.Fast.{
  FastCall, Result, run_op, run_attempt, pause, conclude, attempt_once, round, loop,
}

pub kind-cases :
    (k : OutcomeKind)
    → (k ≡ outcome_success)
      ⊎ (k ≡ outcome_retryable)
      ⊎ (k ≡ outcome_non_retryable)
      ⊎ (k ≡ outcome_abort)
      ⊎ (k ≡ outcome_unknown)
kind-cases outcome_success = inl refl
kind-cases outcome_retryable = inr (inl refl)
kind-cases outcome_non_retryable = inr (inr (inl refl))
kind-cases outcome_abort = inr (inr (inr (inl refl)))
kind-cases outcome_unknown = inr (inr (inr (inr refl)))

module _ {W C T F : Type 0} ⦃f : FloatOps F⦄ (call : FastCall W C T F) where
  -- The operation, called with some context in some state, returned this value with this error.
  abbrev pub IsReturned : T → Option Error → Type 0
  IsReturned val err = (ctx : C) × (w : W) × ((call.env.op ctx w).0 ≡ returned (val, err))

  -- A call ends with an error, with a panic, or with a value whose attempt was a success.
  pub data Ended : Exit (T × Option Error) → Type 0 where
    fails : (val : T) (e : Error) → Ended (returned (val, some e))
    panics : (v : _) → Ended (panicked v)
    succeeds :
        (val : T) (err : Option Error) (out : Outcome)
        → IsReturned val err
        → classify_with_recovery call.recover_panics call.classifier val err call.key
          ≡ returned (out, none)
        → out.kind ≡ outcome_success
        → Ended (returned (val, none))

  by_end : {a b : Exit (T × Option Error)} → a ≡ b → Ended b → Ended a
  by_end e h = subst Ended (sym e) h

  abbrev Again : Type 0
  Again = ℤ → T → Option Error → W → Result call

  pause-Ended :
      (again : Again)
      → ((b : ℤ) (val : T) (err : Option Error) (w : W) → Ended (again b val err w).0)
      → (ctx : C) (b : ℤ) (val : T) (err : Option Error) (out : Outcome) (w : W)
      → Ended (pause call again ctx b val err out w).0
  unfolding pause
  pause-Ended again ih ctx b val err out w =
      let sleep_for : ℤ = compute_sleep (call.env.draw w).0 b call.pol.retry out in
      elim (Bool-cases (ltb_ℤ (pos 0) sleep_for)) [
        | inl s ↦ elim (Option-cases (call.env.sleep ctx sleep_for (call.env.draw w).1).0) [
          | inl n ↦ rw (s, n) (ih _ val err _)
          | inr (e, n) ↦ rw (s, n) (fails val e)
        ]
        | inr s ↦ rw s (ih _ val err _)
      ]

  finish-Ended :
      (again : Again) (is_last : Bool)
      → (is_last ≡ false
          → (b : ℤ) (val : T) (err : Option Error) (w : W) → Ended (again b val err w).0)
      → (ctx : C) (b : ℤ) (val : T) (err : Option Error) (out : Outcome) (w : W)
      → IsReturned val err
      → classify_with_recovery call.recover_panics call.classifier val err call.key
        ≡ returned (out, none)
      → Ended (conclude call again ctx is_last b val err w).0
  unfolding conclude
  finish-Ended again is_last ih ctx b val err out w o x = elim (kind-cases out.kind) [
    | inl k ↦ by_end (ground (arith, x, k)) (succeeds val err out o x k)
    | inr (inl k) ↦ elim (Bool-cases is_last) [
      | inl l ↦
          by_end (ground (arith, x, k, l))
            (fails val (terminal_error (call.env.ctx_err ctx w) err out))
      | inr l ↦ by_end (ground (arith, x, k, l)) (pause-Ended again (ih l) ctx b val err out w)
    ]
    | inr (inr (inl k)) ↦
        by_end (ground (arith, x, k)) (fails val (terminal_error (call.env.ctx_err ctx w) err out))
    | inr (inr (inr (inl k))) ↦
        by_end (ground (arith, x, k)) (fails val (terminal_error (call.env.ctx_err ctx w) err out))
    | inr (inr (inr (inr k))) ↦
        by_end (ground (arith, x, k)) (fails val (terminal_error (call.env.ctx_err ctx w) err out))
  ]

  conclude-Ended :
      (again : Again) (is_last : Bool)
      → (is_last ≡ false
          → (b : ℤ) (val : T) (err : Option Error) (w : W) → Ended (again b val err w).0)
      → (ctx : C) (b : ℤ) (val : T) (err : Option Error) (w : W) → IsReturned val err
      → Ended (conclude call again ctx is_last b val err w).0
  unfolding conclude
  conclude-Ended again is_last ih ctx b val err w o =
      elim (Exit-cases
        (classify_with_recovery call.recover_panics call.classifier val err call.key)) [
          | inr (v, x) ↦ by_end (ground (arith, x)) (panics v)
          | inl ((out, panic_err), x) ↦ elim (Option-cases panic_err) [
            | inr (p, e) ↦ by_end (ground (arith, x, e)) (fails val p)
            | inl e ↦ finish-Ended again is_last ih ctx b val err out w o (cc (x, e))
          ]
        ]

  run_op_returns :
      (ctx : C) (w : W) (val : T) (err : Option Error)
      → (run_op call ctx w).0 ≡ returned (val, err)
      → (call.env.op ctx (call.env.clock w).1).0 ≡ returned (val, err)
  unfolding run_op
  run_op_returns ctx w val err h = elim (Exit-cases (call.env.op ctx (call.env.clock w).1).0) [
    | inl (r, x) ↦ ground (arith, x, h)
    | inr (v, x) ↦ absurd (ground (arith, x, h))
  ]

  -- What an attempt returns, a call of the operation returned.
  run_attempt-IsReturned :
      (ctx : C) (attempt : ℕ) (release : Option (Once W)) (w : W) (val : T) (err : Option Error)
      → (run_attempt call ctx attempt release w).0 ≡ returned (val, err)
      → IsReturned val err
  unfolding run_attempt
  run_attempt-IsReturned ctx attempt release w val err h =
      let timed : Bool = ltb_ℤ (pos 0) call.pol.retry.timeout_per_attempt in
      let begun : C × W =
        if timed
        then call.env.with_timeout ctx call.pol.retry.timeout_per_attempt w
        else (ctx, w) in
      let inner : C = call.env.with_attempt begun.0 attempt in
      (inner, (call.env.clock begun.1).1, run_op_returns inner begun.1 val err h)

  round-Ended :
      (again : Again) (is_last : Bool)
      → (is_last ≡ false
          → (b : ℤ) (val : T) (err : Option Error) (w : W) → Ended (again b val err w).0)
      → (ctx : C) (attempt : ℕ) (b : ℤ) (last : T) (last_err : Option Error) (w : W)
      → Ended (round call again ctx attempt is_last b last last_err w).0
  unfolding round attempt_once
  round-Ended again is_last ih ctx attempt b last last_err w =
      elim (Option-cases (call.env.ctx_err ctx w)) [
        | inr (e, x) ↦ by_end (ground (arith, x)) (fails last e)
        | inl x ↦ elim (Exit-cases (call.env.gate ctx attempt w).0) [
          | inr (v, g) ↦ by_end (ground (arith, x, g)) (panics v)
          | inl (verdict, g) ↦ elim (Bool-cases verdict.allowed) [
            | inr a ↦ by_end (ground (arith, x, g, a)) (fails last (message verdict.reason))
            | inl a ↦
                elim (Exit-cases
                  (run_attempt call ctx attempt verdict.release
                    (call.env.gate ctx attempt w).1).0) [
                      | inr (v, r) ↦ by_end (ground (arith, x, g, a, r)) (panics v)
                      | inl ((val, err), r) ↦ by_end (ground (arith, x, g, a, r)) (
                          conclude-Ended again is_last ih ctx b val err
                            (run_attempt call ctx attempt verdict.release
                              (call.env.gate ctx attempt w).1).1
                            (run_attempt-IsReturned ctx attempt verdict.release _ val err r))
                    ]
          ]
        ]
      ]

  -- With at least one attempt, the loop ends with an error, with a panic, or with a value and a nil
  -- error, and the last only if a call of the operation returned that value with some error or
  -- none, and the classifier, with its recovery, called that value and that very error a success.
  pub loop-Ended :
      (left : ℕ) (ctx : C) (attempt : ℕ) (b : ℤ) (last : T) (last_err : Option Error) (w : W)
      → Ended (loop call (suc left) ctx attempt b last last_err w).0
  unfolding loop
  loop-Ended zero ctx attempt b last last_err w =
      round-Ended (loop call 0 ctx (attempt + 1)) true (λ more. absurd (cc more)) ctx attempt b last
        last_err w
  loop-Ended (suc left) ctx attempt b last last_err w =
      round-Ended (loop call (suc left) ctx (attempt + 1)) (suc left == 0)
        (λ more b' val err w'. loop-Ended left ctx (attempt + 1) b' val err w') ctx attempt b last
        last_err w
