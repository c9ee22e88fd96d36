-- ===== src/Retry/Resolve/Laws.antt =====
-- retry/executor.go: the resolved policies, and the two resolutions side by side.
use rego.Common.{
  ◌≡◌, refl, subst, sym, ◌∙◌, ◌⊎◌, inl, inr, String, Bool, true, false, Option, none, some,
  FloatOps, FloatLaws, Option-cases, arith,
}
use rego.Errors.{Error}
use rego.Policy.Key.{PolicyKey}
use rego.Policy.Schema.{EffectivePolicy, default_policy_for}
use rego.Policy.Normalize.{normalize, is_jitter_kind}
use rego.Policy.Normalize.Bounds.{IsNormalized, normalize-IsNormalized, normalize_error_lem}
use rego.Classify.{Exit, returned, panicked, Exit-cases}
use rego.Retry.Modes.{
  FailureMode, failure_mode_unknown, failure_deny, failure_allow, failure_fallback,
  failure_allow_unsafe, failure_other,
}
use rego.Retry.Resolve.{
  Provider, Attributes, Settled, refuse, proceed, one_attempt, fetch, after_error, after_refusal,
  keyed, fetch_observed, after_error_observed, keyed_observed, after_refusal_observed, settle_fast,
  resolve_policy_fast, settle_with_attributes, resolve_policy_with_attributes,
}

Settled-cases :
    {F : Type 0} (s : Settled F)
    → ((e : Error) × (s ≡ refuse e)) ⊎ ((p : EffectivePolicy F) × (s ≡ proceed p))
Settled-cases (refuse e) = inl (e, refl)
Settled-cases (proceed p) = inr (p, refl)

-- The modes that the resolution's `switch` names.
abbrev pub is_handled : FailureMode → Bool
is_handled failure_deny = true
is_handled failure_allow = true
is_handled failure_fallback = true
is_handled _ = false

module _ (F : Type 0) ⦃f : FloatOps F⦄ where
  one_attempt_accepted : (key : PolicyKey) → (normalize {F = F} (one_attempt key)).1 ≡ none
  one_attempt_accepted key = (normalize_error_lem (one_attempt key)).0

  default_accepted : (key : PolicyKey) → (normalize {F = F} (default_policy_for key)).1 ≡ none
  unfolding default_policy_for is_jitter_kind
  default_accepted key = (normalize_error_lem (default_policy_for key)).0

  default_key : (key : PolicyKey) → (default_policy_for {F = F} key).key ≡ key
  unfolding default_policy_for
  default_key key = refl

module _ {F : Type 0} ⦃f : FloatOps F⦄ where
  after_error_agrees :
      (mode : FailureMode) (key : PolicyKey) (pol : EffectivePolicy F) (err : Option Error)
      → after_error_observed mode key pol err ≡ after_error mode key pol err
  unfolding after_error after_error_observed
  after_error_agrees mode key pol none = refl
  after_error_agrees failure_mode_unknown key pol (some e) = refl
  after_error_agrees failure_deny key pol (some e) = refl
  after_error_agrees failure_allow key pol (some e) = refl
  after_error_agrees failure_fallback key pol (some e) = refl
  after_error_agrees failure_allow_unsafe key pol (some e) = refl
  after_error_agrees failure_other key pol (some e) = refl

  after_refusal_agrees :
      (mode : FailureMode) (key : PolicyKey) (e : Error)
      → after_refusal_observed {F = F} mode key e ≡ after_refusal mode key e
  unfolding after_refusal after_refusal_observed
  after_refusal_agrees failure_mode_unknown key e = refl
  after_refusal_agrees failure_deny key e = refl
  after_refusal_agrees failure_allow key e = refl
  after_refusal_agrees failure_fallback key e = refl
  after_refusal_agrees failure_allow_unsafe key e = refl
  after_refusal_agrees failure_other key e = refl

  keyed_agrees :
      (key : PolicyKey) (pol : EffectivePolicy F) → keyed_observed key pol ≡ keyed key pol
  unfolding keyed_observed
  keyed_agrees key pol = refl

  fetch_agrees :
      {W : Type 0} (recover_panics : Bool) (provider : Provider W F) (key : PolicyKey) (w : W)
      → fetch_observed recover_panics provider key w ≡ fetch recover_panics provider key w
  unfolding fetch fetch_observed
  fetch_agrees recover_panics provider key w = refl

  settle_agree :
      (text : Error → String) (mode : FailureMode) (key : PolicyKey) (pol : EffectivePolicy F)
      (err : Option Error)
      → let r = settle_with_attributes text mode key pol err in
        settle_fast mode key pol err ≡ (r.0, r.2)
  unfolding settle_fast settle_with_attributes
  settle_agree text mode key pol err = elim (Settled-cases (after_error mode key pol err)) [
    | inl (e, x) ↦ ground (arith, x, after_error_agrees mode key pol err)
    | inr (p, x) ↦ elim (Option-cases (normalize (keyed key p)).1) [
      | inl ok ↦ ground (arith, x, after_error_agrees mode key pol err, keyed_agrees key p, ok)
      | inr (why, bad) ↦ ground (
        arith,
        x,
        after_error_agrees mode key pol err,
        keyed_agrees key p,
        bad,
        after_refusal_agrees mode key why,
      )
    ]
  ]

  -- A resolution without its attributes.
  abbrev pub forget :
      Exit (EffectivePolicy F × Attributes × Option Error) → Exit (EffectivePolicy F × Option Error)
  forget (returned r) = returned (r.0, r.2)
  forget (panicked v) = panicked v

  -- The path without observability resolves a policy as the full path does: the same policy, the
  -- same error, the same panic and the same effect of the provider, in every mode.
  pub resolutions_agree :
      {W : Type 0} (text : Error → String) (mode : FailureMode) (recover_panics : Bool)
      (provider : Provider W F) (key : PolicyKey) (w : W)
      → let full = resolve_policy_with_attributes text mode recover_panics provider key w in
        resolve_policy_fast mode recover_panics provider key w ≡ (forget full.0, full.1)
  unfolding resolve_policy_fast resolve_policy_with_attributes
  resolutions_agree text mode recover_panics provider key w =
      elim (Exit-cases (fetch recover_panics provider key w).0) [
        | inl (a, x) ↦ ground (
          arith,
          x,
          fetch_agrees recover_panics provider key w,
          settle_agree text mode key a.0 a.1,
        )
        | inr (v, x) ↦ ground (arith, x, fetch_agrees recover_panics provider key w)
      ]

  normalize-key : (p : EffectivePolicy F) → (normalize p).1 ≡ none → (normalize p).0.key ≡ p.key
  unfolding normalize
  normalize-key p h = ground arith

  -- Normalised, and for the key that was asked for.
  abbrev pub IsReady : PolicyKey → EffectivePolicy F → Type 0
  IsReady key p = IsNormalized p × (p.key ≡ key)

  pub accepted-IsReady :
      (laws : FloatLaws f) (key : PolicyKey) (p : EffectivePolicy F)
      → p.key ≡ key
      → (normalize p).1 ≡ none
      → IsReady key (normalize p).0
  accepted-IsReady laws key p k h = (normalize-IsNormalized laws p h, normalize-key p h ∙ k)

  fallback-IsReady :
      (laws : FloatLaws f) (mode : FailureMode) (key : PolicyKey) (why : Error)
      (q : EffectivePolicy F)
      → is_handled mode ≡ true
      → after_refusal mode key why ≡ proceed q
      → IsReady key q
  unfolding after_refusal
  fallback-IsReady laws failure_deny key why q m h = absurd (cc h)
  fallback-IsReady laws failure_allow key why q m h =
      subst (IsReady key) (cc h)
        (accepted-IsReady laws key (one_attempt key) refl (one_attempt_accepted F key))
  fallback-IsReady laws failure_fallback key why q m h = subst (IsReady key) (cc h) (
      accepted-IsReady laws key (default_policy_for key) (default_key F key)
        (default_accepted F key))
  fallback-IsReady laws failure_mode_unknown key why q m h = absurd (cc m)
  fallback-IsReady laws failure_allow_unsafe key why q m h = absurd (cc m)
  fallback-IsReady laws failure_other key why q m h = absurd (cc m)

  pub settle_accepted :
      (mode : FailureMode) (key : PolicyKey) (pol p : EffectivePolicy F) (err : Option Error)
      → after_error mode key pol err ≡ proceed p
      → (normalize (keyed key p)).1 ≡ none
      → settle_fast mode key pol err ≡ ((normalize (keyed key p)).0, none)
  unfolding settle_fast
  settle_accepted mode key pol p err x ok = ground (arith, x, ok)

  settle_replaced :
      (mode : FailureMode) (key : PolicyKey) (pol p q : EffectivePolicy F) (err : Option Error)
      (why : Error)
      → after_error mode key pol err ≡ proceed p
      → (normalize (keyed key p)).1 ≡ some why
      → after_refusal mode key why ≡ proceed q
      → settle_fast mode key pol err ≡ (q, none)
  unfolding settle_fast
  settle_replaced mode key pol p q err why x bad y = ground (arith, x, bad, y)

  settle_refused :
      (mode : FailureMode) (key : PolicyKey) (pol : EffectivePolicy F) (err : Option Error)
      (e : Error)
      → after_error mode key pol err ≡ refuse e
      → (settle_fast mode key pol err).1 ≡ some e
  unfolding settle_fast
  settle_refused mode key pol err e x = ground (arith, x)

  settle_rejected :
      (mode : FailureMode) (key : PolicyKey) (pol p : EffectivePolicy F) (err : Option Error)
      (why e : Error)
      → after_error mode key pol err ≡ proceed p
      → (normalize (keyed key p)).1 ≡ some why
      → after_refusal {F = F} mode key why ≡ refuse e
      → (settle_fast mode key pol err).1 ≡ some e
  unfolding settle_fast
  settle_rejected mode key pol p err why e x bad y = ground (arith, x, bad, y)

  -- Whatever the provider answers, a policy that is resolved without an error in one of the modes
  -- deny, allow and fallback is normalised and is for the key that was asked for.
  pub resolved-IsNormalized :
      (laws : FloatLaws f) (mode : FailureMode) (key : PolicyKey) (pol : EffectivePolicy F)
      (err : Option Error)
      → is_handled mode ≡ true
      → (settle_fast mode key pol err).1 ≡ none
      → IsNormalized (settle_fast mode key pol err).0 × ((settle_fast mode key pol err).0.key ≡ key)
  resolved-IsNormalized laws mode key pol err m h =
      elim (Settled-cases (after_error mode key pol err)) [
        | inl (e, x) ↦ absurd (cc (settle_refused mode key pol err e x, h))
        | inr (p, x) ↦ elim (Option-cases (normalize (keyed key p)).1) [
          | inl ok ↦
              subst (λ (r : EffectivePolicy F × Option Error). IsReady key r.0)
                (sym (settle_accepted mode key pol p err x ok))
                (accepted-IsReady laws key (keyed key p) refl ok)
          | inr (why, bad) ↦ elim (Settled-cases (after_refusal {F = F} mode key why)) [
            | inl (e, y) ↦ absurd (cc (settle_rejected mode key pol p err why e x bad y, h))
            | inr (q, y) ↦
                subst (λ (r : EffectivePolicy F × Option Error). IsReady key r.0)
                  (sym (settle_replaced mode key pol p q err why x bad y))
                  (fallback-IsReady laws mode key why q m y)
          ]
        ]
      ]
