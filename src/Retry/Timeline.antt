-- ===== src/Retry/Timeline.antt =====
-- retry/executor.go, `doValueWithTimeline`: the loop of retry groups with the circuit breaker, the
-- observer and the timeline. What stands outside acts on a state `W`, as in the fast loop; a retry
-- group is a function of its environment, since its own module says what an interleaving of it
-- can return. The breakers are a part of `W` that other calls share.
--
-- The observer's calls are a list of events in their order. The goroutines of attempts call it, too:
-- by `recordAttempt`, for the decision of a named budget, and for the start of a hedge. The calls that
-- they make while the loop waits, in a group or in the sleep, come with the end of that wait. The list
-- ends with the end of the call: a record that comes after `done` is set is dropped, and the decision
-- of a budget or the start of a hedge that a goroutine makes after that is not in the list.
mod Endings
pub mod Ended
pub mod Agreement
pub mod Counts
pub mod Circuits
pub mod Verdicts
pub mod Probes
unfoldable pub use Endings.*
use rego.Common.{
  ℕ, zero, suc, ◌+◌, ℤ, pos, ltb_ℤ, ltb, ◌-ℤ◌, saturate, ◌==◌, String, str_eq, is_empty, Bool, true,
  false, ◌&&◌, List, [], ◌∷◌, ◌++◌, map, Option, none, some, is_some, insert, FloatOps,
  if◌then◌else◌,
}
use rego.Errors.{Error, circuit_open_error}
use rego.Policy.Key.{PolicyKey, Key-eq}
use rego.Policy.Schema.{EffectivePolicy}
use rego.Budget.Registry.{String-eq}
use rego.Circuit.Breaker.{
  State, state_closed, state_open, state_half_open, Decision, Breaker, allow, record_success,
  record_failure,
}
use rego.Circuit.Registry.{get, update}
use rego.Circuit.Registry
use rego.Classify.{Outcome, OutcomeKind, outcome_abort, Classifier, Exit, returned, panicked}
use rego.Classify.Registry as classifiers
use rego.Observe.Types.{
  AttemptRecord, Timeline, Event, on_start, on_attempt, on_success, on_failure,
}
use rego.Retry.Modes.{FailureMode}
use rego.Retry.Backoff.{compute_sleep, next_backoff}
use rego.Retry.Outcomes.{ClassifierMeta, terminal_error}
use rego.Retry.Resolve.{Provider, Attributes, resolve_policy_with_attributes, resolve_classifier}
use rego.Retry.Group.{is_terminal}
use rego.Retry.Fast.{attempts_of}
use rego.Retry.Timeline.Endings.{
  Answer, Notice, TimelineEnv, TimelineCall, Log, Result, refuse_call, consult, report, note,
  feed_all, fail, succeed, is_abort, state_number, state_string,
}

module _ {W C T F : Type 0} ⦃f : FloatOps F⦄ (call : TimelineCall W C T F) where
  open call use {env, key, zero_value}
  open env use {
    ctx_err, with_timeout, cancel, clock, now, sleep, draw, feed, circuits, set_circuits,
  }

  -- The rounds that follow, from the backoff, the last error, the last sleep, the log and the state.
  abbrev pub Rounds : Type 0
  Rounds = ℤ → Option Error → ℤ → Log F → W → Result call

  -- The sleep behind a group that failed, and the next round.
  unfoldable pub pause_group :
      Rounds → C → EffectivePolicy F → ℤ → Option Error → Outcome → Log F → W → Result call
  pause_group again ctx pol backoff err out log w =
      let (number, w₁) = draw w in
      let sleep_for = compute_sleep number backoff pol.retry out in
      let backoff' = next_backoff backoff pol.retry.backoff_multiplier pol.retry.max_backoff in
      if ltb_ℤ (pos 0) sleep_for
      then (let (failed, notices, w₂) = sleep ctx sleep_for w₁ in
          elim failed [
            | some e ↦ fail call (some e) (note call notices log) (feed_all call notices w₂)
            | none ↦ again backoff' err sleep_for (note call notices log) (feed_all call notices w₂)
          ])
      else again backoff' err sleep_for log w₁

  -- The error of a terminal outcome: the budget's refusal of a later attempt leaves the error before.
  unfoldable pub terminal_of : C → ℕ → Option Error → Option Error → Outcome → W → Error
  terminal_of ctx attempt prev_err err out w =
      let terminal = terminal_error (ctx_err ctx w) err out in
      if ltb 0 attempt && str_eq out.reason "budget_denied"
      then elim prev_err [ some e ↦ e | none ↦ terminal ]
      else terminal

  -- What follows a group that is not a success.
  unfoldable pub conclude_group :
      Rounds
      → C
      → EffectivePolicy F
      → Bool
      → ℕ
      → Bool
      → ℤ
      → Option Error
      → Option Error
      → Outcome
      → Log F
      → W
      → Result call
  conclude_group again ctx pol watched attempt is_last backoff prev_err err out log w =
      if is_terminal out.kind
      then (let w' = if is_abort out.kind then w else report call watched record_failure w in
          fail call (some (terminal_of ctx attempt prev_err err out w')) log w')
      else if is_last
      then (let w' = report call watched record_failure w in
          fail call (some (terminal_error (ctx_err ctx w') err out)) log w')
      else pause_group again ctx pol backoff err out log w

  unfoldable pub group_round :
      Rounds → C → EffectivePolicy F → Classifier T → ClassifierMeta → Bool → ℕ → Bool → Rounds
  group_round again ctx pol classifier meta watched attempt is_last backoff last_err last_backoff
        log w =
      elim (ctx_err ctx w) [
        | some e ↦ fail call (some e) log w
        | none ↦
            let (answer, notices, w₁) = env.group ctx pol attempt classifier meta last_backoff w in
            let w₂ = feed_all call notices w₁ in
            if answer.success
            then succeed call answer.val (note call notices log)
                (report call watched record_success w₂)
            else conclude_group again ctx pol watched attempt is_last backoff last_err answer.err
                answer.outcome (note call notices log) w₂
      ]

  -- `for attempt := 0; attempt < maxAttempts; attempt++`, with the rounds left.
  unfoldable pub group_loop :
      C → EffectivePolicy F → Classifier T → ClassifierMeta → Bool → ℕ → ℕ → Rounds
  group_loop ctx pol classifier meta watched zero attempt backoff last_err last_backoff log w =
      fail call last_err log w
  group_loop ctx pol classifier meta watched (suc left) attempt backoff last_err last_backoff log
        w =
      group_round (group_loop ctx pol classifier meta watched left (attempt + 1)) ctx pol classifier
        meta watched attempt (left == 0) backoff last_err last_backoff log w

  -- Behind the resolutions.
  unfoldable pub run_groups :
      C
      → EffectivePolicy F
      → ℤ
      → Attributes
      → Classifier T
      → ClassifierMeta
      → Bool
      → W
      → Result call
  run_groups ctx pol start attributes classifier meta watched w =
      let timed = ltb_ℤ (pos 0) pol.retry.overall_timeout in
      let (ctx', w₁) = if timed then with_timeout ctx pol.retry.overall_timeout w else (ctx, w) in
      let log : Log F = record {
        tl = record {
          key = key;
          policy_id = pol.id;
          start = start;
          end = pos 0;
          attributes = attributes;
          attempts = [];
          final_err = none;
        };
        events = on_start key pol ∷ [];
      } in
      let (exit, events, w₂) =
        group_loop ctx' pol classifier meta watched (attempts_of pol.retry.max_attempts) 0
          pol.retry.initial_backoff none (pos 0) log w₁ in
      (exit, events, if timed then cancel ctx' w₂ else w₂)

  -- The attributes of a classifier that is missing.
  unfoldable pub missing_classifier : ClassifierMeta → Attributes → Attributes
  missing_classifier meta attributes =
      let named =
        if is_empty meta.requested
        then attributes
        else insert "classifier_name" meta.requested attributes in
      insert "classifier_error" "classifier_not_found" named

  -- A half-open breaker turns hedging off.
  unfoldable pub without_hedges : Option Decision → EffectivePolicy F → EffectivePolicy F
  without_hedges none pol = pol
  without_hedges (some d) pol = elim d.state [
    | state_half_open ↦ record pol { hedge = record pol.hedge { enabled = false } }
    | _ ↦ pol
  ]

  -- Behind the circuit breaker, with what `resolveClassifier` found.
  unfoldable pub with_classifier :
      C
      → EffectivePolicy F
      → ℤ
      → Attributes
      → Bool
      → Option (Classifier T) × ClassifierMeta × Option Error
      → W
      → Result call
  with_classifier ctx pol start attributes watched (found, meta, some e) w =
      refuse_call call pol start (missing_classifier meta attributes) e w
  with_classifier ctx pol start attributes watched (some c, meta, none) w =
      run_groups ctx pol start attributes c meta watched w
  with_classifier ctx pol start attributes watched (none, meta, none) w =
      run_groups ctx pol start attributes call.default_classifier meta watched w

  unfoldable pub classify_and_run : C → EffectivePolicy F → ℤ → Attributes → Bool → W → Result call
  classify_and_run ctx pol start attributes watched =
      with_classifier ctx pol start attributes watched
        (resolve_classifier call.classifier_mode call.classifiers call.default_classifier pol)

  -- With the breaker's decision, if there is a breaker.
  unfoldable pub with_decision :
      C → EffectivePolicy F → ℤ → Attributes → Option Decision → W → Result call
  with_decision ctx pol start attributes none w = classify_and_run ctx pol start attributes false w
  with_decision ctx pol start attributes (some d) w =
      if d.allowed
      then classify_and_run ctx (without_hedges (some d) pol) start attributes true w
      else refuse_call call pol start (insert "circuit_state" (state_string d.state) attributes)
          (circuit_open_error (state_number d.state) d.reason) w

  -- With what `resolvePolicyWithAttributes` returned.
  unfoldable pub with_policy :
      C → ℤ → Exit (EffectivePolicy F × Attributes × Option Error) → W → Result call
  with_policy ctx start (panicked v) w = (panicked v, [], w)
  with_policy ctx start (returned (pol, attributes, some e)) w =
      refuse_call call pol start attributes e w
  with_policy ctx start (returned (pol, attributes, none)) w =
      let (decision, w') = consult call pol w in with_decision ctx pol start attributes decision w'

  unfoldable pub do_value_with_timeline : C → W → Result call
  do_value_with_timeline ctx w =
      let (start, w₁) = clock w in
      let (exit, w₂) =
        resolve_policy_with_attributes call.text call.policy_mode call.recover_panics call.provider
          key w₁ in
      with_policy ctx start exit w₂
