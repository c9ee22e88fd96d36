-- ===== src/Tests/Groups.antt =====
-- Groups whose primary fails and whose hedges succeed.
use rego.Common.{
  ◌≡◌, refl, ◌≤◌, zero, suc, ◌+◌, ◌*◌, Bool, true, false, [], ◌∷◌, none, some, length, arith,
}
use rego.Errors.{Error, message, sentinel, context_canceled}
use rego.Classify.{outcome_success, outcome_retryable, plain}
use rego.Retry.Group.{
  GroupResult, GroupConfig, hedge_limit, Group, Source, start, cancel, Reach, here, next, retired,
  finished,
}
use rego.Retry.Group.Invariant.{live, unsent, group_bounded}
use rego.Retry.Group.Termination.{steps, group_steps_bounded}
use rego.Retry.Group.Races.{hung, two, caller_may_hang, success_may_be_lost}
use rego.Retry.Group.Results.{Justified, group_result-Justified}

abbrev failing : GroupResult Bool
failing = record {
  val = some false;
  err = some (message "no");
  outcome = plain outcome_retryable "retryable_error";
  is_hedge = false;
  idx = 0;
  panic_err = none;
}

abbrev winning : GroupResult Bool
winning = record {
  val = some true;
  err = none;
  outcome = plain outcome_success "success";
  is_hedge = true;
  idx = 1;
  panic_err = none;
}

abbrev sends : Source Bool
sends zero r = r ≡ failing
sends (suc i) r = r ≡ winning

abbrev unhedged : GroupConfig
unhedged = record { enabled = false; max_hedges = 0; cancel_on_first_terminal = false }

abbrev hedged : GroupConfig
hedged = record { enabled = true; max_hedges = 1; cancel_on_first_terminal = false }

caller_may_hang_example :
    Reach unhedged sends (start unhedged) (hung {T = Bool})
    × ((e : Error) × (record hung { ctx_err = some (sentinel context_canceled) }
          ≡ record (hung {T = Bool}) { ctx_err = some e }))
caller_may_hang_example =
    caller_may_hang unhedged sends failing
      (record hung { ctx_err = some (sentinel context_canceled) }) refl refl refl refl
      (cancel (sentinel context_canceled) refl)

success_may_be_lost_example :
    Reach hedged sends (start hedged) (
      two retired retired 0 (winning ∷ []) (finished failing.val failing.err failing.outcome false))
success_may_be_lost_example =
    success_may_be_lost hedged sends failing winning refl (omega arith) refl refl refl refl refl

-- The state that the second interleaving ends in.
abbrev lost : Group Bool
lost = two retired retired 0 (winning ∷ []) (finished failing.val failing.err failing.outcome false)

Reach-lost : Reach hedged sends (start hedged) lost
Reach-lost =
    success_may_be_lost hedged sends failing winning refl (omega arith) refl refl refl refl refl

group_bounded_example :
    (length lost.phases ≤ 1 + hedge_limit hedged)
    × (lost.active ≡ live lost.phases)
    × (length lost.results + unsent lost.phases ≤ 1 + hedge_limit hedged)
group_bounded_example = group_bounded hedged sends lost Reach-lost

group_result-Justified_example : Justified sends lost.ctx_err lost.caller
group_result-Justified_example = group_result-Justified hedged sends lost Reach-lost

abbrev late : Group Bool
late = record (start hedged) { ctx_err = some (message "late") }

abbrev one_step : Reach hedged sends (start hedged) late
unfolding start
one_step = next here (cancel (message "late") refl)

group_steps_bounded_example : steps one_step ≤ 5 * hedge_limit hedged + 7
group_steps_bounded_example = group_steps_bounded hedged sends late one_step
