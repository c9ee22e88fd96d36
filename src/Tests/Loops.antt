-- ===== src/Tests/Loops.antt =====
-- Backoff, and the loop with an operation that fails at its first call.
use Prim.Native.Nat.{min}
use rego.Common.{
  ◌≡◌, ◌≤◌, ◌<ℤ◌, ◌≤ℤ◌, ◌⊎◌, ℕ, zero, suc, ◌+◌, ◌*◌, ◌^◌, pos, Bool, true, false, none, some, arith,
  [],
}
use rego.Errors.{message}
use rego.Policy.Schema.{RetryPolicy, zero_retry, zero_policy, jitter_full}
use rego.Classify.{Outcome, outcome_success, outcome_retryable, plain, returned, Classifier}
use rego.Retry.Backoff.{compute_sleep, backoff_after, compute_sleep_bounds}
use rego.Retry.Backoff.Growth.{backoff_after_lem}
use rego.Retry.Fast.{Env, FastCall, loop, do_value_fast, attempts_of}
use rego.Retry.Fast.Laws.{Ended, loop-Ended}
use rego.Retry.Fast.Single.{Counts}
use rego.Retry.Fast.Attempts.{calls_bounded}
use rego.Tests.Floats.{Num, num, numbers, laws}

abbrev schedule : RetryPolicy Num
schedule = record (zero_retry {F = Num}) {
  max_attempts = pos 3;
  initial_backoff = pos 10;
  max_backoff = pos 25;
  backoff_multiplier = num (pos 2);
  jitter = jitter_full;
}

abbrev retry_out : Outcome
retry_out = plain outcome_retryable "retryable_error"

compute_sleep_bounds_example :
    (pos 0 ≤ℤ compute_sleep (num (pos 1)) (pos 40) schedule retry_out)
    × ((pos 25 ≤ℤ pos 0) ⊎ (compute_sleep (num (pos 1)) (pos 40) schedule retry_out ≤ℤ pos 25))
    × ((pos 0 ≤ℤ pos 0)
        ⊎ (pos 25 <ℤ pos 0)
        ⊎ (compute_sleep (num (pos 1)) (pos 40) schedule retry_out ≡ pos 0))
compute_sleep_bounds_example = compute_sleep_bounds (num (pos 1)) (pos 40) schedule retry_out

backoff_after_lem_example :
    backoff_after 2 (num (pos 2)) (pos 25) (pos 10) ≡ pos (min (10 * 2 ^ 2) 25)
backoff_after_lem_example =
    backoff_after_lem laws 2 10 2 25 (omega arith) (omega arith) (omega arith) (omega arith)

-- The state counts the calls of the operation; a context is a flag that says that it is timed.
abbrev env : Env ℕ Bool Bool Num
env = record {
  ctx_err = λ ctx n. none;
  with_timeout = λ ctx d n. (true, n);
  cancel = λ ctx n. n;
  with_attempt = λ ctx n. ctx;
  op = λ ctx n. (returned (true, elim n [ zero ↦ some (message "no") | suc m ↦ none ]), n + 1);
  clock = λ n. (pos 0, n);
  sleep = λ ctx d n. (none, n);
  draw = λ n. (num (pos 0), n);
  gate = λ ctx i n.
      (returned (record { allowed = true; reason = "no_budget"; release = none; events = [] }), n);
  feed = λ d n. n;
}

abbrev by_error : Classifier Bool
by_error value none = returned (plain outcome_success "success")
by_error value (some e) = returned retry_out

abbrev call : FastCall ℕ Bool Bool Num
call = record {
  env = env;
  key = record { namespace = "user"; name = "get" };
  pol = record (zero_policy {F = Num}) { retry = schedule };
  classifier = by_error;
  recover_panics = true;
}

loop-Ended_example : Ended call (loop call 3 true 0 (pos 10) false none 0).0
loop-Ended_example = loop-Ended call 2 true 0 (pos 10) false none 0

env-Counts : Counts env (λ n. n)
env-Counts = record {
  counts_op = λ ctx n. omega arith;
  keeps_timeout = λ ctx d n. omega arith;
  keeps_cancel = λ ctx n. omega arith;
  keeps_clock = λ n. omega arith;
  keeps_sleep = λ ctx d n. omega arith;
  keeps_draw = λ n. omega arith;
  keeps_gate = λ ctx i n. omega arith;
  keeps_feed = λ d n. omega arith;
  keeps_release = λ ctx i w v o h e n. absurd (ground (arith, h, e));
}

calls_bounded_example : (do_value_fast call false true 0).1 ≤ 0 + attempts_of (pos 3)
calls_bounded_example = calls_bounded call (λ n. n) env-Counts false true 0
