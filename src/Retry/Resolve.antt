-- ===== src/Retry/Resolve.antt =====
-- retry/executor.go: `resolvePolicyFast`, `resolvePolicyWithAttributes` and `resolveClassifier`. A
-- policy provider is code behind an interface: a function over a state `W`, which may panic.
pub mod Laws
use rego.Common.{
  pos, String, is_empty, trim_space, Bool, true, false, List, [], ◌∷◌, Option, none, some, FloatOps,
  if◌then◌else◌,
}
use rego.Errors.{
  Error, errors_is, policy_not_found, provider_unavailable, policy_fetch_failed, no_policy_error,
  no_classifier_error, panic_error,
}
use rego.Policy.Key.{PolicyKey}
use rego.Policy.Schema.{
  EffectivePolicy, zero_policy, zero_retry, default_policy_for, is_zero_effective_policy,
}
use rego.Policy.Normalize.{normalize}
use rego.Classify.{Classifier, Exit, returned, panicked}
use rego.Classify.Registry.{Registry}
use rego.Classify.Registry
use rego.Retry.Modes.{
  FailureMode, failure_mode_unknown, failure_deny, failure_allow, failure_fallback,
  failure_allow_unsafe, failure_other,
}
use rego.Retry.Outcomes.{ClassifierMeta}

abbrev pub Provider : Type 0 → Type 0 → Type 0
Provider W F = PolicyKey → W → Exit (EffectivePolicy F × Option Error) × W

-- The attributes of a timeline.
abbrev pub Attributes : Type 0
Attributes = List (String × String)

-- A refusal, or the policy to go on with.
pub data Settled (F : Type 0) : Type 0 where
  refuse : Error → Settled F
  proceed : EffectivePolicy F → Settled F

module _ {F : Type 0} ⦃f : FloatOps F⦄ where
  -- `policy.EffectivePolicy{Key: key, Retry: policy.RetryPolicy{MaxAttempts: 1}}`
  abbrev pub one_attempt : PolicyKey → EffectivePolicy F
  one_attempt key = record zero_policy {
    key = key;
    retry = record zero_retry { max_attempts = pos 1 };
  }

  abbrev pub or_default : PolicyKey → EffectivePolicy F → EffectivePolicy F
  or_default key pol = if is_zero_effective_policy pol then default_policy_for key else pol

  -- The provider's answer. A panic that is recovered leaves the zero policy and a PanicError.
  unfoldable pub fetch :
      {W : Type 0}
      → Bool
      → Provider W F
      → PolicyKey
      → W
      → Exit (EffectivePolicy F × Option Error) × W
  fetch recover_panics provider key w =
      let (exit, w') = provider key w in
      elim exit [
        | returned answer ↦ (returned answer, w')
        | panicked v ↦
            if recover_panics
            then (returned (zero_policy, some (panic_error "policy_provider" key v)), w')
            else (panicked v, w')
      ]

  -- What the mode makes of a provider's error.
  unfoldable pub after_error :
      FailureMode → PolicyKey → EffectivePolicy F → Option Error → Settled F
  after_error mode key pol none = proceed pol
  after_error failure_deny key pol (some e) = refuse (no_policy_error key e)
  after_error failure_allow key pol (some e) = proceed (one_attempt key)
  after_error failure_fallback key pol (some e) = proceed (or_default key pol)
  after_error _ key pol (some e) = proceed pol

  -- What the mode makes of a policy that `Normalize` refuses. In the modes that the `switch` does not
  -- name the policy stays the zero policy that `Normalize` returned.
  unfoldable pub after_refusal : FailureMode → PolicyKey → Error → Settled F
  after_refusal failure_deny key e = refuse (no_policy_error key e)
  after_refusal failure_allow key e = proceed (normalize (one_attempt key)).0
  after_refusal failure_fallback key e = proceed (normalize (default_policy_for key)).0
  after_refusal _ key e = proceed zero_policy

  -- The policy that `Normalize` is called on.
  abbrev pub keyed : PolicyKey → EffectivePolicy F → EffectivePolicy F
  keyed key pol = record (or_default key pol) { key = key }

  -- `resolvePolicyFast`, behind the provider's answer.
  unfoldable pub settle_fast :
      FailureMode → PolicyKey → EffectivePolicy F → Option Error → EffectivePolicy F × Option Error
  settle_fast mode key pol err = elim (after_error mode key pol err) [
    | refuse e ↦ (zero_policy, some e)
    | proceed pol' ↦
        let (normal, refused) = normalize (keyed key pol') in
        elim refused [
          | none ↦ (normal, none)
          | some why ↦ elim (after_refusal mode key why) [
            | refuse e ↦ (zero_policy, some e)
            | proceed fallback ↦ (fallback, none)
          ]
        ]
  ]

  unfoldable pub resolve_policy_fast :
      {W : Type 0}
      → FailureMode
      → Bool
      → Provider W F
      → PolicyKey
      → W
      → Exit (EffectivePolicy F × Option Error) × W
  resolve_policy_fast mode recover_panics provider key w =
      let (exit, w') = fetch recover_panics provider key w in
      elim exit [
        | returned (pol, err) ↦ (returned (settle_fast mode key pol err), w')
        | panicked v ↦ (panicked v, w')
      ]

  -- `resolvePolicyWithAttributes` has a copy of its own of every part. Its provider's answer:
  unfoldable pub fetch_observed :
      {W : Type 0}
      → Bool
      → Provider W F
      → PolicyKey
      → W
      → Exit (EffectivePolicy F × Option Error) × W
  fetch_observed recover_panics provider key w =
      let (exit, w') = provider key w in
      elim exit [
        | returned answer ↦ (returned answer, w')
        | panicked v ↦
            if recover_panics
            then (returned (zero_policy, some (panic_error "policy_provider" key v)), w')
            else (panicked v, w')
      ]

  -- Its `switch` on the provider's error.
  unfoldable pub after_error_observed :
      FailureMode → PolicyKey → EffectivePolicy F → Option Error → Settled F
  after_error_observed mode key pol none = proceed pol
  after_error_observed mode key pol (some e) = elim mode [
    | failure_deny ↦ refuse (no_policy_error key e)
    | failure_allow ↦ proceed (one_attempt key)
    | failure_fallback ↦
        proceed (if is_zero_effective_policy pol then default_policy_for key else pol)
    | _ ↦ proceed pol
  ]

  -- Its policy for `Normalize`.
  unfoldable pub keyed_observed : PolicyKey → EffectivePolicy F → EffectivePolicy F
  keyed_observed key pol =
      let pol' = if is_zero_effective_policy pol then default_policy_for key else pol in
      record pol' { key = key }

  -- Its `switch` on the error of `Normalize`.
  unfoldable pub after_refusal_observed : FailureMode → PolicyKey → Error → Settled F
  after_refusal_observed mode key e = elim mode [
    | failure_deny ↦ refuse (no_policy_error key e)
    | failure_allow ↦ proceed (normalize (one_attempt key)).0
    | failure_fallback ↦ proceed (normalize (default_policy_for key)).0
    | _ ↦ proceed zero_policy
  ]

  -- It also returns the attributes: one, where a refused policy was replaced. `text` is the message
  -- that fmt makes of the error, with its prefix `normalization_failed: `.
  unfoldable pub settle_with_attributes :
      (Error → String)
      → FailureMode
      → PolicyKey
      → EffectivePolicy F
      → Option Error
      → EffectivePolicy F × Attributes × Option Error
  settle_with_attributes text mode key pol err = elim (after_error_observed mode key pol err) [
    | refuse e ↦ (zero_policy, [], some e)
    | proceed pol' ↦
        let (normal, refused) = normalize (keyed_observed key pol') in
        elim refused [
          | none ↦ (normal, [], none)
          | some why ↦ elim (after_refusal_observed mode key why) [
            | refuse e ↦ (zero_policy, [], some e)
            | proceed fallback ↦ (fallback, ("policy_error", text why) ∷ [], none)
          ]
        ]
  ]

  unfoldable pub resolve_policy_with_attributes :
      {W : Type 0}
      → (Error → String)
      → FailureMode
      → Bool
      → Provider W F
      → PolicyKey
      → W
      → Exit (EffectivePolicy F × Attributes × Option Error) × W
  resolve_policy_with_attributes text mode recover_panics provider key w =
      let (exit, w') = fetch_observed recover_panics provider key w in
      elim exit [
        | returned (pol, err) ↦ (returned (settle_with_attributes text mode key pol err), w')
        | panicked v ↦ (panicked v, w')
      ]

-- `resolveClassifier`: the classifier with the record of the request, or an error. `Get` is the
-- registry's own and does not panic, so the recovery around it has nothing to do.
unfoldable pub resolve_classifier :
    {T F : Type 0}
    → FailureMode
    → Option (Registry T)
    → Classifier T
    → EffectivePolicy F
    → Option (Classifier T) × ClassifierMeta × Option Error
resolve_classifier mode classifiers default_classifier pol =
    let requested = trim_space pol.retry.classifier_name in
    let seen : ClassifierMeta = record { requested = requested; not_found = false } in
    let missed : ClassifierMeta = record { requested = requested; not_found = true } in
    if is_empty requested
    then (some default_classifier, seen, none)
    else elim (Registry.get requested classifiers) [
      | some c ↦ (some c, seen, none)
      | none ↦ elim mode [
        | failure_deny ↦ (none, missed, some (no_classifier_error requested))
        | _ ↦ (some default_classifier, missed, none)
      ]
    ]

-- `policyErrorKind`
unfoldable pub policy_error_kind : Error → String
policy_error_kind e =
    if errors_is e policy_not_found
    then "policy_not_found"
    else if errors_is e provider_unavailable
    then "provider_unavailable"
    else if errors_is e policy_fetch_failed
    then "policy_fetch_failed"
    else "unknown_error"
