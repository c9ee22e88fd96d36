-- ===== src/Tests/Timelines.antt =====
-- A call with a timeline whose state is the registry of breakers, and whose groups all abort.
use rego.Common.{
  ℕ, ◌+◌, ◌*◌, ◌≤◌, ◌≡◌, refl, ◌-ℤ◌, saturate, ℤ, pos, Bool, true, false, List, [], ◌∷◌, map, none,
  some, lookup, arith,
}
use rego.Errors.{sentinel, context_canceled, message}
use rego.Policy.Key.{PolicyKey, Key-eq}
use rego.Policy.Schema.{EffectivePolicy, zero_policy}
use rego.Circuit.Breaker.{
  Breaker, Decision, state_open, state_half_open, answers, allow, update_state, decide_allow,
  cooled_down,
}
use rego.Circuit.Breaker.Invariant.{Inv}
use rego.Circuit.Breaker.Probes.{refused}
use rego.Circuit.Registry
use rego.Circuit.Registry.{get, update}
use rego.Classify.{Classifier, outcome_abort, outcome_retryable, outcome_success, plain, returned}
use rego.Observe.Types.{AttemptRecord}
use rego.Budget.{kind_hedge}
use rego.Retry.Modes.{failure_deny, failure_fallback}
use rego.Retry.Timeline.{
  Answer, Notice, recorded, spawned, decided, TimelineEnv, TimelineCall, do_value_with_timeline,
  run_groups, with_policy, consult, ask_breaker,
}
use rego.Retry.Fast.{attempts_of}
use rego.Retry.Timeline.Counts.{Counts, attempts_bounded}
use rego.Retry.Timeline.Agreement.{IsReported, timeline_agrees}
use rego.Examples.Prometheus.Laws.{IsCounted, metrics_match}
use rego.Retry.Timeline.Circuits.{Alone, breaker, IsTold}
use rego.Retry.Timeline.Verdicts.{reported_once}
use rego.Retry.Timeline.Probes.{aborted_probe_blocks}
use rego.Tests.Floats.{Num, num, numbers}

abbrev cut : Answer Bool
cut = record {
  val = none;
  err = some (sentinel context_canceled);
  outcome = plain outcome_abort "context_canceled";
  success = false;
}

abbrev again_please : Answer Bool
again_please = record {
  val = some false;
  err = some (message "no");
  outcome = plain outcome_retryable "retryable_error";
  success = false;
}

abbrev user_get : PolicyKey
user_get = record { namespace = "user"; name = "get" }

abbrev attempted : AttemptRecord
attempted = record {
  attempt = 0;
  start_time = pos 100;
  end_time = pos 101;
  is_hedge = true;
  hedge_index = 1;
  outcome = plain outcome_abort "context_canceled";
  err = some (sentinel context_canceled);
  backoff = pos 0;
  budget_allowed = true;
  budget_reason = "allowed";
}

-- What a group tells the observer: the decision of its budget, a hedge, and two attempts.
abbrev told : List Notice
told =
    decided (record {
      request = record {
        key = user_get;
        attempt_idx = pos 0;
        kind = kind_hedge;
        ref = record { name = "db"; cost = pos 1 };
      };
      mode = "standard";
      allowed = true;
      reason = "allowed";
    })
    ∷ spawned attempted
    ∷ recorded attempted
    ∷ recorded (record attempted { is_hedge = false; hedge_index = 0 })
    ∷ []

abbrev env : TimelineEnv Registry.Registry Bool Bool Num
env = record {
  ctx_err = λ ctx w. none;
  with_timeout = λ ctx d w. (ctx, w);
  cancel = λ ctx w. w;
  clock = λ w. (pos 100, w);
  now = λ w. (pos 100, w);
  sleep = λ ctx d w. (none, [], w);
  draw = λ w. (num (pos 0), w);
  feed = λ d w. w;
  circuits = λ w. w;
  set_circuits = λ r w. r;
  group = λ ctx pol attempt c meta backoff w. (cut, told, w);
}

abbrev guarded : EffectivePolicy Num
guarded = record (zero_policy {F = Num}) {
  key = user_get;
  circuit = record { enabled = true; threshold = pos 2; cooldown = pos 5 };
}

abbrev all_well : Classifier Bool
all_well val err = returned (plain outcome_success "success")

abbrev call : TimelineCall Registry.Registry Bool Bool Num
call = record {
  env = env;
  key = user_get;
  text = λ e. "";
  provider = λ key w. (returned (guarded, none), w);
  policy_mode = failure_deny;
  classifier_mode = failure_fallback;
  recover_panics = false;
  classifiers = none;
  default_classifier = all_well;
  zero_value = false;
}

env-Alone : Alone env
env-Alone = record {
  reads_written = λ r w. refl;
  keeps_timeout = λ ctx d w. refl;
  keeps_cancel = λ ctx w. refl;
  keeps_clock = λ w. refl;
  keeps_now = λ w. refl;
  keeps_sleep = λ ctx d w. refl;
  keeps_draw = λ w. refl;
  keeps_feed = λ d w. refl;
  keeps_group = λ ctx pol attempt c meta backoff w. refl;
}

timeline_agrees_example : IsReported call (do_value_with_timeline call true [])
timeline_agrees_example = timeline_agrees call true []

metrics_match_example :
    IsCounted call (do_value_with_timeline call true []).0 (do_value_with_timeline call true []).1
metrics_match_example = metrics_match call true []

-- Open since the time 2, with a cooldown of 5.
abbrev opened : Breaker
opened = record {
  state = state_open;
  threshold = pos 2;
  cooldown = pos 5;
  max_probes = pos 1;
  consecutive_failures = pos 0;
  open_time = pos 2;
  probes_sent = pos 0;
  probes_successful = pos 0;
  probes_required = pos 1;
}

opened-Inv : Inv opened
opened-Inv = ground arith

abbrev breakers : Registry.Registry
breakers = (user_get, opened) ∷ []

found : breaker call env-Alone breakers ≡ some opened
unfolding lookup
found = refl

reported_once_example : IsTold call env-Alone opened (
    run_groups call true guarded
      (pos 0)
      []
      all_well
      (record { requested = ""; not_found = false })
      true
      breakers)
reported_once_example =
    reported_once call env-Alone opened true guarded (pos 0) [] all_well
      (record { requested = ""; not_found = false }) breakers found

abbrev probe : Decision
probe = record { allowed = true; state = state_half_open; reason = "" }

probed : (consult call guarded breakers).0 ≡ some probe
unfolding consult ask_breaker get lookup allow update_state decide_allow cooled_down saturate ◌-ℤ◌
probed = refl

aborted_probe_blocks_example :
    (cb : Breaker) × (breaker call env-Alone
        (with_policy call true (pos 0) (returned (guarded, [], none)) breakers).2
      ≡ some cb)
    × ((times : List ℤ) → answers times cb ≡ map (λ _. refused) times)
aborted_probe_blocks_example =
    aborted_probe_blocks call env-Alone true guarded (pos 0) [] breakers opened probe refl found
      opened-Inv (λ h. absurd (cc h)) probed refl (λ ctx pol c meta w. (refl, refl))

-- The same call on a count of attempts, of which each group makes two.
abbrev counting : TimelineEnv ℕ Bool Bool Num
counting = record {
  ctx_err = λ ctx n. none;
  with_timeout = λ ctx d n. (ctx, n);
  cancel = λ ctx n. n;
  clock = λ n. (pos 100, n);
  now = λ n. (pos 100, n);
  sleep = λ ctx d n. (none, [], n);
  draw = λ n. (num (pos 0), n);
  feed = λ d n. n;
  circuits = λ n. [];
  set_circuits = λ r n. n;
  group = λ ctx pol attempt c meta backoff n. (again_please, [], n + 2);
}

abbrev counted : TimelineCall ℕ Bool Bool Num
counted = record {
  env = counting;
  key = user_get;
  text = λ e. "";
  provider = λ key n. (returned (guarded, none), n);
  policy_mode = failure_deny;
  classifier_mode = failure_fallback;
  recover_panics = false;
  classifiers = none;
  default_classifier = all_well;
  zero_value = false;
}

counting-Counts : Counts counting (λ n. n) 2
counting-Counts = record {
  counts_group = λ ctx pol attempt c meta backoff n. omega arith;
  keeps_timeout = λ ctx d n. omega arith;
  keeps_cancel = λ ctx n. omega arith;
  keeps_clock = λ n. omega arith;
  keeps_now = λ n. omega arith;
  keeps_sleep = λ ctx d n. omega arith;
  keeps_draw = λ n. omega arith;
  keeps_feed = λ d n. omega arith;
  keeps_circuits = λ r n. omega arith;
}

abbrev thrice : EffectivePolicy Num
thrice = record guarded { retry = record guarded.retry { max_attempts = pos 3 } }

attempts_bounded_example :
    (run_groups counted true thrice
      (pos 0)
      []
      all_well
      (record { requested = ""; not_found = false })
      false
      0).2
    ≤ 0 + attempts_of (pos 3) * 2
attempts_bounded_example =
    attempts_bounded counted (λ n. n) 2 counting-Counts true thrice (pos 0) [] all_well
      (record { requested = ""; not_found = false }) false 0
