-- ===== src/Retry/Timeline/Endings.antt =====
-- retry/executor.go, `doValueWithTimeline`: its environment, the breaker around a call, the log of
-- attempts, and the returns.
use rego.Common.{
  ℕ, ℤ, pos, ◌-ℤ◌, saturate, String, Bool, true, false, List, [], ◌∷◌, ◌++◌, map, Option, none,
  some, FloatOps, if◌then◌else◌,
}
use rego.Errors.{Error}
use rego.Policy.Key.{PolicyKey, Key-eq}
use rego.Policy.Schema.{EffectivePolicy}
use rego.Budget.Registry.{String-eq}
use rego.Circuit.Breaker.{
  State, state_closed, state_open, state_half_open, Decision, Breaker, allow,
}
use rego.Circuit.Registry.{get, update}
use rego.Circuit.Registry
use rego.Classify.{Outcome, OutcomeKind, outcome_abort, Classifier, Exit, returned, panicked}
use rego.Classify.Registry as classifiers
use rego.Observe.Types.{
  AttemptRecord, Timeline, Event, on_start, on_attempt, on_hedge_spawn, on_budget_decision,
  on_success, on_failure,
}
use rego.Retry.Gate.{BudgetDecisionEvent}
use rego.Retry.Modes.{FailureMode}
use rego.Retry.Outcomes.{ClassifierMeta}
use rego.Retry.Resolve.{Provider, Attributes}

-- What `doRetryGroup` returns; the value is `none` for a nil `any`.
pub record Answer (T : Type 0) : Type 0 where
  pub val : Option T
  pub err : Option Error
  pub outcome : Outcome
  pub success : Bool

-- A call of a group's goroutine on the observer: by `recordAttempt`, by the gate's `emit` and by the
-- launch of a hedge.
pub data Notice : Type 0 where
  recorded spawned : AttemptRecord → Notice
  decided : BudgetDecisionEvent → Notice

-- The records among what came in.
unfoldable pub records_of : List Notice → List AttemptRecord
records_of [] = []
records_of (recorded r ∷ notices) = r ∷ records_of notices
records_of (_ ∷ notices) = records_of notices

-- The effects, with a context of type `C` and results of type `T`.
pub record TimelineEnv (W C T F : Type 0) : Type 0 where
  pub ctx_err : C → W → Option Error
  pub with_timeout : C → ℤ → W → C × W
  pub cancel : C → W → W
  pub clock : W → ℤ × W
  pub now : W → ℤ × W  -- time.Now, the breakers' clock
  pub sleep : C → ℤ → W → Option Error × List Notice × W
  pub draw : W → F × W
  pub feed : ℤ → W → W  -- getTracker(key).Observe
  pub circuits : W → Registry.Registry
  pub set_circuits : Registry.Registry → W → W
  -- doRetryGroup on the operation, with the policy, the attempt, the classifier and the last backoff
  pub group :
      C → EffectivePolicy F → ℕ → Classifier T → ClassifierMeta → ℤ → W → Answer T × List Notice × W

-- One call: the key, and what the executor holds.
pub record TimelineCall (W C T F : Type 0) : Type 0 where
  pub env : TimelineEnv W C T F
  pub key : PolicyKey
  pub text : Error → String
  pub provider : Provider W F
  pub policy_mode : FailureMode
  pub classifier_mode : FailureMode
  pub recover_panics : Bool
  pub classifiers : Option (classifiers.Registry T)
  pub default_classifier : Classifier T
  pub zero_value : T

-- circuit.State as an integer, and its `String`.
abbrev pub state_number : State → ℤ
state_number state_closed = pos 0
state_number state_open = pos 1
state_number state_half_open = pos 2

abbrev pub state_string : State → String
state_string state_closed = "closed"
state_string state_open = "open"
state_string state_half_open = "half-open"

-- The timeline being built, and the observer's calls so far.
pub record Log (F : Type 0) : Type 0 where
  pub tl : Timeline
  pub events : List (Event F)

abbrev pub is_abort : OutcomeKind → Bool
is_abort outcome_abort = true
is_abort _ = false

module _ {W C T F : Type 0} ⦃f : FloatOps F⦄ (call : TimelineCall W C T F) where
  open call use {env, key, zero_value}
  open env use {
    ctx_err, with_timeout, cancel, clock, now, sleep, draw, feed, circuits, set_circuits,
  }

  -- The value, the timeline and the error, with the observer's calls. The only panics are those of
  -- the provider and of the type assertion on the value.
  abbrev pub Result : Type 0
  Result = Exit (T × Timeline × Option Error) × List (Event F) × W

  -- A refusal before the first attempt.
  unfoldable pub refuse_call : EffectivePolicy F → ℤ → Attributes → Error → W → Result
  refuse_call pol start attributes e w =
      let (end, w') = clock w in
      let tl : Timeline = record {
        key = key;
        policy_id = pol.id;
        start = start;
        end = end;
        attributes = attributes;
        attempts = [];
        final_err = some e;
      } in
      (returned (zero_value, tl, some e), on_start key pol ∷ on_failure key tl ∷ [], w')

  -- `cb.Allow` on the breaker that the registry gave, unless it is nil.
  unfoldable pub ask_breaker : Registry.Registry × Option Breaker → W → Option Decision × W
  ask_breaker (r, none) w = (none, set_circuits r w)
  ask_breaker (r, some cb) w =
      let (t, w') = now (set_circuits r w) in
      (some (allow t cb).1, set_circuits (update key (λ b. (allow t b).0) (circuits w')) w')

  unfoldable pub consult : EffectivePolicy F → W → Option Decision × W
  consult pol w =
      if pol.circuit.enabled then ask_breaker (get key pol.circuit (circuits w)) w else (none, w)

  -- `cb.RecordSuccess` or `cb.RecordFailure`, unless `cb` is nil.
  unfoldable pub report : Bool → (ℤ → ℤ → Breaker → Breaker) → W → W
  report watched op w =
      if watched
      then (let (t, w₁) = now w in
          let (later, w₂) = now w₁ in set_circuits (update key (op t later) (circuits w₂)) w₂)
      else w

  -- The observer's method that is called.
  unfoldable pub event_of : Notice → Event F
  event_of (recorded r) = on_attempt key r
  event_of (spawned r) = on_hedge_spawn key r
  event_of (decided ev) = on_budget_decision ev

  -- What came in: `recordAttempt` puts its record on the timeline, and the observer gets every call.
  unfoldable pub note : List Notice → Log F → Log F
  note notices log = record {
    tl = record log.tl { attempts = log.tl.attempts ++ records_of notices };
    events = log.events ++ map event_of notices;
  }

  -- `recordAttempt` feeds the latency tracker.
  unfoldable pub feed_all : List Notice → W → W
  feed_all [] w = w
  feed_all (recorded r ∷ notices) w =
      feed_all notices (feed (saturate (r.end_time -ℤ r.start_time)) w)
  feed_all (_ ∷ notices) w = feed_all notices w

  -- The end of a call that failed; `last` is never assigned, so its value is the zero value.
  unfoldable pub fail : Option Error → Log F → W → Result
  fail err log w =
      let (end, w') = clock w in
      let tl : Timeline = record log.tl { end = end; final_err = err } in
      (returned (zero_value, tl, err), log.events ++ on_failure key tl ∷ [], w')

  -- The end of a call that succeeded. The assertion `valAny.(T)` panics on a nil `any`.
  unfoldable pub succeed : Option T → Log F → W → Result
  succeed val log w =
      let (end, w') = clock w in
      let tl : Timeline = record log.tl { end = end; final_err = none } in
      let events = log.events ++ on_success key tl ∷ [] in
      elim val [
        | some v ↦ (returned (v, tl, none), events, w')
        | none ↦ (panicked "interface conversion: interface is nil", events, w')
      ]
