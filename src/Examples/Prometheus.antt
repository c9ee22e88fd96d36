-- ===== src/Examples/Prometheus.antt =====
-- examples/prometheus/observer.go: the metrics that an observer writes. The client library's vectors
-- are what stands outside: an update of one is a `Sample`, with the labels that the code gives. The
-- zero time is 0, and a latency is the duration whose seconds are written.
pub mod Laws
use rego.Common.{
  ℤ, pos, eqb_ℤ, ◌-ℤ◌, saturate, String, is_empty, Bool, true, false, not, ◌&&◌, List, [], ◌∷◌,
  ◌++◌, if◌then◌else◌,
}
use rego.Policy.Key.{PolicyKey}
use rego.Retry.Gate.{BudgetDecisionEvent}
use rego.Observe.Types.{
  AttemptRecord, Timeline, Event, on_attempt, on_budget_decision, on_success, on_failure,
}

-- Increments of the counters and observations of the histograms, by namespace and name.
pub data Sample : Type 0 where
  call_counted : PolicyKey → String → Sample
  call_latency : PolicyKey → String → ℤ → Sample
  attempt_counted : PolicyKey → String → String → Sample
  attempt_latency : PolicyKey → String → ℤ → Sample
  budget_counted : PolicyKey → String → String → Sample

-- Which vectors there are: a field is false where the code has a nil pointer.
pub record PrometheusObserver : Type 0 where
  pub calls : Bool
  pub call_latencies : Bool
  pub attempts : Bool
  pub attempt_latencies : Bool
  pub budgets : Bool

-- `NewPrometheusObserver`, less the registration.
abbrev pub new_prometheus_observer : PrometheusObserver
new_prometheus_observer = record {
  calls = true;
  call_latencies = true;
  attempts = true;
  attempt_latencies = true;
  budgets = true;
}

abbrev pub bool_label : Bool → String
bool_label v = if v then "true" else "false"

abbrev or_unknown : String → String
or_unknown s = if is_empty s then "unknown" else s

abbrev is_set : ℤ → Bool
is_set t = not (eqb_ℤ t (pos 0))

module _ (o : PrometheusObserver) where
  unfoldable pub observe_attempt : PolicyKey → AttemptRecord → List Sample
  observe_attempt key rec =
      (if o.attempts
        then attempt_counted key (or_unknown rec.outcome.reason) (bool_label rec.is_hedge) ∷ []
        else [])
      ++ (if o.attempt_latencies && (is_set rec.start_time && is_set rec.end_time)
          then attempt_latency key (bool_label rec.is_hedge)
              (saturate (rec.end_time -ℤ rec.start_time))
            ∷ []
          else [])

  unfoldable pub observe_budget : BudgetDecisionEvent → List Sample
  observe_budget ev =
      if o.budgets
      then budget_counted ev.request.key (bool_label ev.allowed) (or_unknown ev.reason) ∷ []
      else []

  unfoldable pub observe_call : PolicyKey → Timeline → String → List Sample
  observe_call key tl result =
      (if o.calls then call_counted key result ∷ [] else [])
      ++ (if o.call_latencies && (is_set tl.start && is_set tl.end)
          then call_latency key result (saturate (tl.end -ℤ tl.start)) ∷ []
          else [])

  -- The methods; those that are not written here are `BaseObserver`'s.
  unfoldable pub samples : {F : Type 0} → Event F → List Sample
  samples (on_attempt key rec) = observe_attempt key rec
  samples (on_budget_decision ev) = observe_budget ev
  samples (on_success key tl) = observe_call key tl "success"
  samples (on_failure key tl) = observe_call key tl "failure"
  samples _ = []

  -- What the calls of an execution write, in their order.
  unfoldable pub all_samples : {F : Type 0} → List (Event F) → List Sample
  all_samples [] = []
  all_samples (e ∷ es) = samples e ++ all_samples es
