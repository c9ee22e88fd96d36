-- ===== src/Tests/Hedging.antt =====
-- A group whose first attempt succeeds, and a loop that launches two hedges.
use rego.Common.{
  ◌≤ℤ◌, ℕ, suc, pos, ◌≡◌, refl, Bool, true, false, List, [], ◌∷◌, Option, none, some, length, arith,
}
use rego.Errors.{Error}
use rego.Policy.Schema.{HedgePolicy, zero_policy, zero_hedge}
use rego.Classify.{outcome_success, plain, returned}
use rego.Hedge.Tracker.{zero_snapshot, new_tracker, observe_all, snapshot}
use rego.Hedge.Tracker.Quantiles.{IsSummary, snapshot_summarises}
use rego.Hedge.Triggers.{fixed_delay}
use rego.Retry.Group.{
  GroupConfig, Group, GroupResult, Reach, start, finish, take_result, here, next, sent, receive,
}
use rego.Retry.Group.Attempt.{Launch, Sent, launch, after_gate, perform, after_op, judge}
use rego.Retry.Group.Attempt.Laws.{from_launch, Earned, success_from_op}
use rego.Retry.Group.Spawner.{Wake, group_done, timer_fired, new_loop, hedge_loop, find_trigger}
use rego.Retry.Group.Spawner.Laws.{Delayed, hedges_paced}
use rego.Retry.Group.Spawner.Refinement.{spawner_refines}
use rego.Retry.Outcomes.{classify_with_recovery, annotate_classifier_fallback, complete, known}
use rego.Tests.Floats.{Num, numbers, laws, ratio_laws}

-- The state is a clock. The operation takes one nanosecond and returns true.
abbrev quick : Launch ℕ (Unit {0}) Bool Num
quick = record {
  env = record {
    clock = λ w. (pos w, w);
    gate = λ kind ref w.
        (returned (record { allowed = true; reason = "allowed"; release = none; events = [] }), w);
    with_timeout = λ ctx limit w. (ctx, w);
    cancel = λ ctx w. w;
    with_info = λ ctx info. ctx;
    op = λ ctx w. (returned (true, none), suc w);
  };
  ctx = tt;
  key = record { namespace = ""; name = "ping" };
  pol = zero_policy;
  retry_idx = 0;
  classifier = λ val err. returned (plain outcome_success "success");
  meta = record { requested = ""; not_found = false };
  last_backoff = pos 0;
  recover_panics = true;
}

abbrev single : GroupConfig
single = record { enabled = false; max_hedges = 0; cancel_on_first_terminal = false }

abbrev answer : GroupResult Bool
answer = record {
  val = some true;
  err = none;
  outcome = plain outcome_success "success";
  is_hedge = false;
  idx = 0;
  panic_err = none;
}

abbrev answered : Group Bool
answered = record (start single) {
  phases = sent ∷ [];
  results = [];
  caller = receive single answer;
}

abbrev handed : Sent ℕ (Unit {0}) Bool
handed = record {
  recorded = record {
    attempt = 0;
    start_time = pos 3;
    end_time = pos 4;
    is_hedge = false;
    hedge_index = 0;
    outcome = plain outcome_success "success";
    err = none;
    backoff = pos 0;
    budget_allowed = true;
    budget_reason = "allowed";
  };
  result = answer;
  release = none;
  timed = none;
}

Reach-answered : Reach single (from_launch quick) (start single) answered
unfolding start receive launch after_gate perform after_op judge classify_with_recovery
    annotate_classifier_fallback complete known
Reach-answered =
    next (next here (finish 0 answer refl (3, handed, refl, refl)))
      (take_result answer [] refl refl)

abbrev no_error : Option Error
no_error = none

success_from_op_example :
    Earned quick (some true) (plain outcome_success "success") × (no_error ≡ none)
unfolding receive
success_from_op_example =
    success_from_op quick single answered (some true) none (plain outcome_success "success")
      Reach-answered refl

abbrev twice : HedgePolicy
twice = record zero_hedge { enabled = true; max_hedges = pos 2; hedge_delay = pos 10 }

abbrev wakes : List Wake
wakes =
    timer_fired (record { elapsed = pos 0; snapshot = zero_snapshot })
    ∷ timer_fired (record { elapsed = pos 11; snapshot = zero_snapshot })
    ∷ timer_fired (record { elapsed = pos 25; snapshot = zero_snapshot })
    ∷ group_done
    ∷ []

hedges_paced_example : Delayed twice 0 (hedge_loop twice (find_trigger twice none) wakes new_loop).1
hedges_paced_example = hedges_paced twice none wakes tt

abbrev doubled : GroupConfig
doubled = record { enabled = true; max_hedges = 2; cancel_on_first_terminal = false }

spawner_refines_example :
    (s : Group Bool) × Reach doubled (from_launch quick) (start doubled) s
    × (s.hedges_launched ≡ length (hedge_loop twice (fixed_delay (pos 10)) wakes new_loop).1)
    × (s.spawner_runs ≡ (hedge_loop twice (fixed_delay (pos 10)) wakes new_loop).0.runs)
spawner_refines_example =
    spawner_refines twice (fixed_delay (pos 10)) doubled (from_launch quick) wakes refl refl

snapshot_summarises_example :
    IsSummary
      (λ x. x ≤ℤ pos 9)
      (snapshot Num (observe_all (pos 4 ∷ pos 9 ∷ pos 2 ∷ []) (new_tracker (pos 2))))
snapshot_summarises_example =
    snapshot_summarises laws ratio_laws (λ x. x ≤ℤ pos 9) (pos 2) (pos 4) (pos 9 ∷ pos 2 ∷ [])
      (omega arith) (omega arith, (omega arith, (omega arith, tt)))
