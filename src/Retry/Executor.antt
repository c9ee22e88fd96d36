-- ===== src/Retry/Executor.antt =====
-- retry/executor.go and retry/defaults.go: the construction of an executor. What stands behind an
-- interface or a pointer that may be nil is an `Option`. A registry is passed on by its pointer in the
-- source and by its value here: an option that registers a classifier in a registry that the caller
-- shares is seen here in the executor alone.
mod Parts
pub mod Laws
unfoldable pub use Parts.*
use rego.Common.{
  ℤ, pos, String, Bool, true, false, is_some, not, ◌||◌, List, [], ◌∷◌, ◌++◌, Option, none, some,
  lookup, insert, FloatOps, if◌then◌else◌,
}
use rego.Errors.{Error}
use rego.Policy.Key.{PolicyKey, Key-eq, parse_key}
use rego.Policy.Schema.{EffectivePolicy, zero_policy}
use rego.Policy.Options.{PolicyOption, new_from_key, new_policy}
use rego.Controlplane.Static.{StaticProvider, get_effective_policy}
use rego.Circuit.Registry as circuits
use rego.Budget.Registry as budgets
use rego.Budget.Registry.{object}
use rego.Classify.{Outcome, Classifier, returned}
use rego.Classify.Builtins.{Labels, always_retry_on_error, http_classifier, auto_classifier}
use rego.Classify.Registry as classifiers
use rego.Hedge.Tracker.{RingBufferTracker, new_tracker, observe}
use rego.Hedge.Registry as triggers
use rego.Retry.Modes.{
  FailureMode, failure_mode_unknown, failure_deny, failure_fallback, normalize_failure_mode,
}
use rego.Retry.Resolve.{Provider}
use rego.Retry.Executor.Parts.{
  Observer, noop_observer, Trigger, NamedBudget, unlimited_budget, Kinds, Clock, ExecutorOptions,
  Executor, ExecutorConfig, no_options, default_triggers, or_else,
}

-- `classify.RegisterBuiltins`, on a pointer.
unfoldable pub register_builtins :
    {T : Type 0} → Labels → Option (classifiers.Registry T) → Option (classifiers.Registry T)
register_builtins labels none = none
register_builtins labels (some r) =
    classifiers.register "auto" (some (λ v e. returned (auto_classifier labels e))) (
      classifiers.register "http" (some (λ v e. returned (http_classifier labels [] e)))
        (classifiers.register "always" (some (λ v e. returned (always_retry_on_error e))) (some r)))

-- `getTracker`: the tracker of a key, made at its first use.
unfoldable pub get_tracker : {k : Kinds} → PolicyKey → Executor k → Executor k × RingBufferTracker
get_tracker key e = elim (lookup key e.trackers) [
  | some t ↦ (e, t)
  | none ↦
      (record e { trackers = insert key (new_tracker (pos 256)) e.trackers }, new_tracker (pos 256))
]

-- `getTracker(key).Observe(d)`
unfoldable pub feed_tracker : {k : Kinds} → PolicyKey → ℤ → Executor k → Executor k
feed_tracker key d e =
    let (e', t) = get_tracker key e in record e' { trackers = insert key (observe d t) e'.trackers }

module _ (k : Kinds) ⦃f : FloatOps k.F⦄ (labels : Labels) (time_now : Clock k.W) where
  -- `StaticProvider.GetEffectivePolicy` as a provider.
  abbrev pub static : StaticProvider k.F → Provider k.W k.F
  static p key w = (returned (get_effective_policy (some p) key), w)

  -- `NewExecutorFromOptions`
  unfoldable pub new_executor_from_options : ExecutorOptions k → Executor k
  new_executor_from_options opts = record {
    provider =
        some (or_else opts.provider (static (record { policies = []; default = zero_policy })));
    observer = some (or_else opts.observer noop_observer);
    clock = some (or_else opts.clock time_now);
    classifiers = elim opts.classifiers [
      | none ↦ register_builtins labels (some [])
      | some r ↦ some r
    ];
    default_classifier =
        some (or_else opts.default_classifier (λ v e. returned (always_retry_on_error e)));
    budgets = opts.budgets;
    triggers = some (or_else opts.triggers []);
    circuits = some (or_else opts.circuits []);
    missing_policy_mode = normalize_failure_mode opts.missing_policy_mode failure_deny;
    missing_classifier_mode = normalize_failure_mode opts.missing_classifier_mode failure_fallback;
    missing_budget_mode = normalize_failure_mode opts.missing_budget_mode failure_deny;
    missing_trigger_mode = normalize_failure_mode opts.missing_trigger_mode failure_fallback;
    recover_panics = opts.recover_panics;
    trackers = [];
  }

  -- The completion at the head of `doValueInternal`: a nil executor and one with a part that is nil
  -- are built anew.
  unfoldable pub complete_executor : Option (Executor k) → Executor k
  complete_executor none = new_executor_from_options no_options
  complete_executor (some e) =
      if not (is_some e.provider)
        || not (is_some e.clock)
        || not (is_some e.observer)
        || not (is_some e.classifiers)
        || not (is_some e.default_classifier)
      then new_executor_from_options (record {
        provider = e.provider;
        observer = e.observer;
        clock = e.clock;
        classifiers = e.classifiers;
        default_classifier = e.default_classifier;
        budgets = e.budgets;
        triggers = e.triggers;
        circuits = e.circuits;
        missing_policy_mode = e.missing_policy_mode;
        missing_classifier_mode = e.missing_classifier_mode;
        missing_budget_mode = e.missing_budget_mode;
        missing_trigger_mode = e.missing_trigger_mode;
        recover_panics = e.recover_panics;
      })
      else e

  -- `ExecutorOption`
  abbrev pub ExecutorOption : Type 0
  ExecutorOption = ExecutorConfig k → ExecutorConfig k

  -- An option that sets a field of the options.
  abbrev setting : (ExecutorOptions k → ExecutorOptions k) → ExecutorOption
  setting change c = record c { opts = change c.opts }

  unfoldable pub with_provider : Option (Provider k.W k.F) → ExecutorOption
  with_provider p = setting (λ o. record o { provider = p })

  unfoldable pub with_observer : Option (Observer k.O) → ExecutorOption
  with_observer obs = setting (λ o. record o { observer = obs })

  unfoldable pub with_clock : Option (Clock k.W) → ExecutorOption
  with_clock clock = setting (λ o. record o { clock = clock })

  unfoldable pub with_classifiers : Option (classifiers.Registry k.T) → ExecutorOption
  with_classifiers r = setting (λ o. record o { classifiers = r })

  unfoldable pub with_default_classifier : Option (Classifier k.T) → ExecutorOption
  with_default_classifier c = setting (λ o. record o { default_classifier = c })

  unfoldable pub with_classifier : String → Option (Classifier k.T) → ExecutorOption
  with_classifier name c = setting (λ o. record o {
    classifiers = classifiers.register name c (some (or_else o.classifiers []));
  })

  unfoldable pub with_budget_registry : Option (budgets.Registry (NamedBudget k.B)) → ExecutorOption
  with_budget_registry r = setting (λ o. record o { budgets = r })

  unfoldable pub with_hedge_trigger_registry :
      Option (triggers.Registry (Trigger k.A)) → ExecutorOption
  with_hedge_trigger_registry r = setting (λ o. record o { triggers = r })

  unfoldable pub with_circuit_registry : Option circuits.Registry → ExecutorOption
  with_circuit_registry r = setting (λ o. record o { circuits = r })

  unfoldable pub with_missing_policy_mode : FailureMode → ExecutorOption
  with_missing_policy_mode mode = setting (λ o. record o { missing_policy_mode = mode })

  unfoldable pub with_missing_classifier_mode : FailureMode → ExecutorOption
  with_missing_classifier_mode mode = setting (λ o. record o { missing_classifier_mode = mode })

  unfoldable pub with_missing_budget_mode : FailureMode → ExecutorOption
  with_missing_budget_mode mode = setting (λ o. record o { missing_budget_mode = mode })

  unfoldable pub with_recover_panics : Bool → ExecutorOption
  with_recover_panics recover = setting (λ o. record o { recover_panics = recover })

  -- A static policy, under the key that its options leave it with.
  abbrev adding : EffectivePolicy k.F → ExecutorOption
  adding p c = record c { static_policies = insert p.key p c.static_policies }

  unfoldable pub with_policy : String → List (PolicyOption k.F) → ExecutorOption
  with_policy key opts = adding (new_policy key opts)

  unfoldable pub with_policy_key : PolicyKey → List (PolicyOption k.F) → ExecutorOption
  with_policy_key key opts = adding (new_from_key key opts)

  abbrev pub configure : List ExecutorOption → ExecutorConfig k → ExecutorConfig k
  configure [] c = c
  configure (opt ∷ opts) c = configure opts (opt c)

  -- The provider of the static policies, unless there is another or there are none.
  unfoldable pub static_provider : ExecutorConfig k → Option (Provider k.W k.F)
  static_provider c = elim c.opts.provider [
    | some p ↦ some p
    | none ↦ elim c.static_policies [
      | [] ↦ none
      | _ ∷ _ ↦ some (static (record { policies = c.static_policies; default = zero_policy }))
    ]
  ]

  -- `NewExecutor`
  unfoldable pub new_executor : List ExecutorOption → Executor k
  new_executor opts =
      let c = configure opts (record { opts = no_options; static_policies = [] }) in
      new_executor_from_options (record (c.opts) { provider = static_provider c })

  -- `NewDefaultExecutor`. None of its registrations fails or panics: their names are not empty.
  unfoldable pub new_default_executor : List ExecutorOption → Executor k
  new_default_executor opts = new_executor (
      with_observer (some noop_observer)
      ∷ with_classifiers (register_builtins labels (some []))
      ∷ with_default_classifier (some (λ v e. returned (auto_classifier labels e)))
      ∷ with_budget_registry (budgets.register "unlimited" (object unlimited_budget) (some [])).0
      ∷ with_hedge_trigger_registry (some default_triggers)
      ∷ opts)
