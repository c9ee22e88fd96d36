-- ===== src/Retry/Group/Attempt.antt =====
-- retry/group.go, the goroutine that `launch` starts: the budget, the operation, the classification,
-- the record and the result. What stands outside acts on a state `W`; what other goroutines do
-- between two of its effects is a part of those effects.
pub mod Laws
use rego.Common.{
  ℕ, ℤ, pos, ltb_ℤ, Bool, true, false, List, [], ◌∷◌, ◌++◌, map, Option, none, some, if◌then◌else◌,
}
use rego.Errors.{Error, message}
use rego.Policy.Key.{PolicyKey}
use rego.Policy.Schema.{EffectivePolicy, BudgetRef}
use rego.Budget.{AttemptKind, kind_retry, kind_hedge}
use rego.Classify.{
  Outcome, outcome_unknown, outcome_abort, plain, Classifier, Exit, returned, panicked,
}
use rego.Observe.Types.{AttemptRecord, AttemptInfo, Event, on_budget_decision, on_hedge_spawn}
use rego.Retry.Gate.{Verdict, Once, fire}
use rego.Retry.Outcomes.{ClassifierMeta, classify_with_recovery, annotate_classifier_fallback}
use rego.Retry.Group.{GroupResult}

-- The effects, with a context of type `C` and results of type `T`.
pub record LaunchEnv (W C T : Type 0) : Type 0 where
  pub clock : W → ℤ × W
  pub gate : AttemptKind → BudgetRef → W → Exit (Verdict W) × W  -- allowAttempt for the group's key
  pub with_timeout : C → ℤ → W → C × W
  pub cancel : C → W → W
  pub with_info : C → AttemptInfo → C  -- observe.WithAttemptInfo
  pub op : C → W → Exit (T × Option Error) × W

-- What `launch` closes over.
pub record Launch (W C T F : Type 0) : Type 0 where
  pub env : LaunchEnv W C T
  pub ctx : C  -- groupCtx
  pub key : PolicyKey
  pub pol : EffectivePolicy F
  pub retry_idx : ℕ
  pub classifier : Classifier T
  pub meta : ClassifierMeta
  pub last_backoff : ℤ
  pub recover_panics : Bool

-- What an attempt has handed over when it has sent its result, and what its deferred calls hold.
pub record Sent (W C T : Type 0) : Type 0 where
  pub recorded : AttemptRecord
  pub result : GroupResult T
  pub release : Option (Once W)
  pub timed : Option C

-- The deferred calls, the last first: the cancellation of the context, then the release.
unfoldable pub run_defers : {W C T : Type 0} → (C → W → W) → Sent W C T → W → W
run_defers {W} cancel sent w =
    let w' : W = elim sent.timed [ none ↦ w | some ctx ↦ cancel ctx w ] in
    elim sent.release [ none ↦ w' | some o ↦ (fire o w').1 ]

-- The zero value of an outcome.
abbrev pub unset_outcome : Outcome
unset_outcome = plain outcome_unknown ""

module _ {W C T F : Type 0} (l : Launch W C T F) where
  open l use {env, key, pol, retry_idx}
  open env use {clock, gate, with_timeout, with_info, op}

  -- The end of the goroutine's body, with the observer's calls.
  abbrev pub Ending : Type 0
  Ending = Exit (Sent W C T) × List (Event F) × W

  -- Hedges have no backoff.
  abbrev pub backoff_of : Bool → ℤ
  backoff_of is_hedge = if is_hedge then pos 0 else l.last_backoff

  -- The budget's refusal.
  unfoldable pub refuse_attempt : ℕ → Bool → ℤ → Verdict W → W → Ending
  refuse_attempt idx is_hedge start verdict w =
      let (end, w₁) = clock w in
      let (later, w₂) = clock w₁ in
      (
        returned (record {
          recorded = record {
            attempt = retry_idx;
            start_time = start;
            end_time = end;
            is_hedge = is_hedge;
            hedge_index = idx;
            outcome = plain outcome_abort verdict.reason;
            err = none;
            backoff = backoff_of is_hedge;
            budget_allowed = false;
            budget_reason = verdict.reason;
          };
          result = record {
            val = none;
            err = some (message verdict.reason);
            outcome = plain outcome_abort verdict.reason;
            is_hedge = is_hedge;
            idx = idx;
            panic_err = none;
          };
          release = none;
          timed = none;
        }),
        map on_budget_decision verdict.events,
        w₂,
      )

  -- The record and the result of an operation that returned, with the classifier's answer.
  unfoldable pub judge :
      ℕ
      → Bool
      → ℤ
      → ℤ
      → Verdict W
      → Option C
      → T
      → Option Error
      → Exit (Outcome × Option Error)
      → Exit (Sent W C T)
  judge idx is_hedge start end verdict timed val err (panicked v) = panicked v
  judge idx is_hedge start end verdict timed val err (returned (out, panic_err)) =
      let outcome = annotate_classifier_fallback out l.meta in
      returned (record {
        recorded = record {
          attempt = retry_idx;
          start_time = start;
          end_time = end;
          is_hedge = is_hedge;
          hedge_index = idx;
          outcome = outcome;
          err = err;
          backoff = backoff_of is_hedge;
          budget_allowed = true;
          budget_reason = verdict.reason;
        };
        result = record {
          val = some val;
          err = err;
          outcome = outcome;
          is_hedge = is_hedge;
          idx = idx;
          panic_err = panic_err;
        };
        release = verdict.release;
        timed = timed;
      })

  -- Behind the operation.
  unfoldable pub after_op :
      ℕ → Bool → ℤ → Verdict W → Option C → Exit (T × Option Error) → W → Exit (Sent W C T) × W
  after_op idx is_hedge start verdict timed (panicked v) w = (panicked v, w)
  after_op idx is_hedge start verdict timed (returned (val, err)) w =
      let (end, w') = clock w in
      (
        judge idx is_hedge start end verdict timed val err
            (classify_with_recovery l.recover_panics l.classifier val err key),
        w',
      )

  -- `OnHedgeSpawn`, with the fields of the record that are set.
  unfoldable pub spawn_event : ℕ → Event F
  spawn_event idx = on_hedge_spawn key (record {
    attempt = retry_idx;
    start_time = pos 0;
    end_time = pos 0;
    is_hedge = true;
    hedge_index = idx;
    outcome = unset_outcome;
    err = none;
    backoff = pos 0;
    budget_allowed = false;
    budget_reason = "";
  })

  -- An attempt that the budget allowed.
  unfoldable pub perform : ℕ → Bool → ℤ → Verdict W → W → Ending
  perform idx is_hedge start verdict w =
      let limited = ltb_ℤ (pos 0) pol.retry.timeout_per_attempt in
      let (ctx, w₁) =
        if limited then with_timeout l.ctx pol.retry.timeout_per_attempt w else (l.ctx, w) in
      let info : AttemptInfo = record {
        retry_index = retry_idx;
        attempt = retry_idx;
        is_hedge = is_hedge;
        hedge_index = idx;
        policy_id = pol.id;
      } in
      let (exit, w₂) = op (with_info ctx info) w₁ in
      let (sent, w₃) =
        after_op idx is_hedge start verdict (if limited then some ctx else none) exit w₂ in
      (
        sent,
        map on_budget_decision verdict.events ++ (if is_hedge then spawn_event idx ∷ [] else []),
        w₃,
      )

  -- Behind the budget.
  unfoldable pub after_gate : ℕ → Bool → ℤ → Exit (Verdict W) → W → Ending
  after_gate idx is_hedge start (panicked v) w = (panicked v, [], w)
  after_gate idx is_hedge start (returned verdict) w =
      if verdict.allowed
      then perform idx is_hedge start verdict w
      else refuse_attempt idx is_hedge start verdict w

  -- The body, up to the send.
  unfoldable pub launch : ℕ → Bool → W → Ending
  launch idx is_hedge w =
      let (start, w₁) = clock w in
      let (exit, w₂) =
        gate (if is_hedge then kind_hedge else kind_retry)
          (if is_hedge then pol.hedge.budget else pol.retry.budget) w₁ in
      after_gate idx is_hedge start exit w₂
