-- ===== src/Retry/Executor/Parts.antt =====
-- retry/executor.go and retry/defaults.go: the records `Executor`, `ExecutorOptions` and
-- `executorConfig`.
use rego.Common.{ℤ, pos, String, Bool, true, false, List, [], ◌∷◌, Option, none, some}
use rego.Policy.Key.{PolicyKey, Key-eq}
use rego.Policy.Schema.{EffectivePolicy}
use rego.Circuit.Registry as circuits
use rego.Budget.Registry as budgets
use rego.Budget.Registry.{object}
use rego.Classify.{Classifier}
use rego.Classify.Registry as classifiers
use rego.Hedge.Tracker.{RingBufferTracker}
use rego.Hedge.Registry as triggers
use rego.Retry.Modes.{FailureMode, failure_mode_unknown}
use rego.Retry.Resolve.{Provider}

-- An observer: the one that does nothing, or another.
pub data Observer (O : Type 0) : Type 0 where
  noop_observer : Observer O
  observing : O → Observer O

-- `isNoopObserver`
unfoldable pub is_noop_observer : {O : Type 0} → Observer O → Bool
is_noop_observer noop_observer = true
is_noop_observer (observing o) = false

-- The triggers that the packages have.
pub data Trigger (A : Type 0) : Type 0 where
  fixed_delay_trigger : ℤ → Trigger A
  latency_trigger : String → Trigger A
  custom : A → Trigger A

-- `budget.UnlimitedBudget`, or another budget.
pub data NamedBudget (B : Type 0) : Type 0 where
  unlimited_budget : NamedBudget B
  limited : B → NamedBudget B

-- The types that code outside gives: states, results, floats, observers, triggers, budgets.
pub record Kinds : Type 1 where
  pub W : Type 0
  pub T : Type 0
  pub F : Type 0
  pub O : Type 0
  pub A : Type 0
  pub B : Type 0

abbrev pub Clock : Type 0 → Type 0
Clock W = W → ℤ × W

-- `ExecutorOptions`
pub record ExecutorOptions (k : Kinds) : Type 0 where
  pub provider : Option (Provider k.W k.F)
  pub observer : Option (Observer k.O)
  pub clock : Option (Clock k.W)
  pub classifiers : Option (classifiers.Registry k.T)
  pub default_classifier : Option (Classifier k.T)
  pub budgets : Option (budgets.Registry (NamedBudget k.B))
  pub triggers : Option (triggers.Registry (Trigger k.A))
  pub circuits : Option circuits.Registry
  pub missing_policy_mode : FailureMode
  pub missing_classifier_mode : FailureMode
  pub missing_budget_mode : FailureMode
  pub missing_trigger_mode : FailureMode
  pub recover_panics : Bool

-- `Executor`, less `sleep`, which every constructor sets to `sleepWithContext`.
pub record Executor (k : Kinds) : Type 0 where
  pub provider : Option (Provider k.W k.F)
  pub observer : Option (Observer k.O)
  pub clock : Option (Clock k.W)
  pub classifiers : Option (classifiers.Registry k.T)
  pub default_classifier : Option (Classifier k.T)
  pub budgets : Option (budgets.Registry (NamedBudget k.B))
  pub triggers : Option (triggers.Registry (Trigger k.A))
  pub circuits : Option circuits.Registry
  pub missing_policy_mode : FailureMode
  pub missing_classifier_mode : FailureMode
  pub missing_budget_mode : FailureMode
  pub missing_trigger_mode : FailureMode
  pub recover_panics : Bool
  pub trackers : List (PolicyKey × RingBufferTracker)

-- `executorConfig`
pub record ExecutorConfig (k : Kinds) : Type 0 where
  pub opts : ExecutorOptions k
  pub static_policies : List (PolicyKey × EffectivePolicy k.F)

-- The zero value of `ExecutorOptions`.
abbrev pub no_options : {k : Kinds} → ExecutorOptions k
no_options = record {
  provider = none;
  observer = none;
  clock = none;
  classifiers = none;
  default_classifier = none;
  budgets = none;
  triggers = none;
  circuits = none;
  missing_policy_mode = failure_mode_unknown;
  missing_classifier_mode = failure_mode_unknown;
  missing_budget_mode = failure_mode_unknown;
  missing_trigger_mode = failure_mode_unknown;
  recover_panics = false;
}

-- The triggers of `NewDefaultExecutor`.
abbrev pub default_triggers : {A : Type 0} → triggers.Registry (Trigger A)
default_triggers =
    ("fixed_delay", fixed_delay_trigger (pos 0))
    ∷ ("p90", latency_trigger "p90")
    ∷ ("p95", latency_trigger "p95")
    ∷ ("p99", latency_trigger "p99")
    ∷ []

abbrev pub or_else {ℓ} : {A : Type ℓ} → Option A → A → A
or_else none a = a
or_else (some b) a = b
