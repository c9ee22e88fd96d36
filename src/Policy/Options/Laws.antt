-- ===== src/Policy/Options/Laws.antt =====
-- policy/options.go: what the constructors and the presets give.
use rego.Common.{
  pos, ◌≤ℤ◌, eqb_ℤ, ◌≡◌, refl, sym, subst, ap, ◌∙◌, inl, inr, Bool, true, false, ◌&&◌, List, [],
  ◌∷◌, Option, none, some, Option-cases, is_empty, FloatOps, FloatLaws, arith,
}
use rego.Errors.{Error}
use rego.Policy.Key.{PolicyKey}
use rego.Policy.Schema.{EffectivePolicy, default_policy_for, is_zero_effective_policy}
use rego.Policy.Normalize.{normalize, is_jitter_kind, max_backoff_ceiling}
use rego.Policy.Normalize.Bounds.{IsNormalized, normalize-IsNormalized, normalize_error_lem}
use rego.Policy.Normalize.Idempotent.{fixed}
use rego.Policy.Options.{
  PolicyOption, apply_options, new_from_key, http_defaults, database_defaults,
  background_job_defaults, low_latency_defaults,
}

default_accepted :
    (F : Type 0) ⦃f : FloatOps F⦄ (key : PolicyKey)
    → (normalize {F = F} (default_policy_for key)).1 ≡ none
unfolding default_policy_for is_jitter_kind
default_accepted F key = (normalize_error_lem (default_policy_for {F = F} key)).0

and_false : (b : Bool) → (b && false) ≡ false
and_false true = refl
and_false false = refl

module _ {F : Type 0} ⦃f : FloatOps F⦄ where
  -- A policy with an attempt is not the zero policy.
  given_not_zero :
      (p : EffectivePolicy F) → pos 1 ≤ℤ p.retry.max_attempts → is_zero_effective_policy p ≡ false
  unfolding is_zero_effective_policy
  given_not_zero p h =
      let e : eqb_ℤ p.retry.max_attempts (pos 0) ≡ false = ground arith in
      rw (e, and_false (is_empty p.key.namespace && is_empty p.key.name && is_empty p.id))

  option_accepted :
      (key : PolicyKey) (opts : List (PolicyOption F))
      → (normalize (apply_options opts (default_policy_for key))).1 ≡ none
      → new_from_key key opts ≡ (normalize (apply_options opts (default_policy_for key))).0
  unfolding new_from_key
  option_accepted key opts h = ground (arith, h)

  option_refused :
      (key : PolicyKey) (opts : List (PolicyOption F)) (e : Error)
      → (normalize (apply_options opts (default_policy_for key))).1 ≡ some e
      → new_from_key key opts ≡ (normalize (default_policy_for key)).0
  unfolding new_from_key
  option_refused key opts e h = ground (arith, h)

  new_from_key-IsNormalized :
      (laws : FloatLaws f) (key : PolicyKey) (opts : List (PolicyOption F))
      → IsNormalized (new_from_key key opts)
  new_from_key-IsNormalized laws key opts =
      elim (Option-cases (normalize (apply_options opts (default_policy_for key))).1) [
        | inl ok ↦
            subst IsNormalized (sym (option_accepted key opts ok))
              (normalize-IsNormalized laws _ ok)
        | inr (e, bad) ↦
            subst IsNormalized (sym (option_refused key opts e bad))
              (normalize-IsNormalized laws _ (default_accepted F key))
      ]

  -- Whatever options it is built with, a policy from `NewFromKey` is normalised and is not the zero
  -- policy, so that no provider or executor takes it for a missing one.
  pub options_are_safe :
      (laws : FloatLaws f) (key : PolicyKey) (opts : List (PolicyOption F))
      → IsNormalized (new_from_key key opts)
        × (is_zero_effective_policy (new_from_key key opts) ≡ false)
  options_are_safe laws key opts =
      let v = new_from_key-IsNormalized laws key opts in
      (v, given_not_zero (new_from_key key opts) v.attempts_low)

  -- Options whose result is within the bounds come out as they are.
  kept :
      (key : PolicyKey) (opts : List (PolicyOption F))
      → IsNormalized (apply_options opts (default_policy_for key))
      → (apply_options opts (default_policy_for key)).retry.max_backoff ≤ℤ max_backoff_ceiling
      → new_from_key key opts ≡ apply_options opts (default_policy_for key)
  kept key opts v c =
      let same = fixed (apply_options opts (default_policy_for key)) v c in
      option_accepted key opts (ap (λ (r : EffectivePolicy F × Option Error). r.1) same)
      ∙ ap (λ (r : EffectivePolicy F × Option Error). r.0) same

  -- What the presets share: a multiplier of two.
  doubling :
      (laws : FloatLaws f)
      → (f.eq (f.of_int (pos 2)) (f.of_int (pos 0)) ≡ false)
        × (f.lt (f.of_int (pos 2)) (f.of_int (pos 1)) ≡ false)
        × (f.lt (f.of_int (pos 10)) (f.of_int (pos 2)) ≡ false)
  doubling laws = (
    laws.eq-of_int (pos 2) (pos 0) (omega arith) (omega arith),
    laws.lt-of_int (pos 2) (pos 1) (omega arith) (omega arith),
    laws.lt-of_int (pos 10) (pos 2) (omega arith) (omega arith),
  )

  http_in_bounds :
      (laws : FloatLaws f) (key : PolicyKey)
      → IsNormalized (http_defaults (default_policy_for {F = F} key))
  unfolding http_defaults default_policy_for is_jitter_kind
  http_in_bounds laws key = ground (arith, doubling laws)

  database_in_bounds :
      (laws : FloatLaws f) (key : PolicyKey)
      → IsNormalized (database_defaults (default_policy_for {F = F} key))
  unfolding database_defaults default_policy_for is_jitter_kind
  database_in_bounds laws key = ground (arith, doubling laws)

  background_job_in_bounds :
      (laws : FloatLaws f) (key : PolicyKey)
      → IsNormalized (background_job_defaults (default_policy_for {F = F} key))
  unfolding background_job_defaults default_policy_for is_jitter_kind
  background_job_in_bounds laws key = ground (arith, doubling laws)

  low_latency_in_bounds :
      (laws : FloatLaws f) (key : PolicyKey)
      → IsNormalized (low_latency_defaults (default_policy_for {F = F} key))
  unfolding low_latency_defaults default_policy_for is_jitter_kind
  low_latency_in_bounds laws key = ground (arith, doubling laws)

  -- Each preset alone gives the policy that it describes, unchanged by Normalize.
  pub presets_kept :
      (laws : FloatLaws f) (key : PolicyKey)
      → (new_from_key {F = F} key (http_defaults ∷ []) ≡ http_defaults (default_policy_for key))
        × (new_from_key {F = F} key (database_defaults ∷ [])
            ≡ database_defaults (default_policy_for key))
        × (new_from_key {F = F} key (background_job_defaults ∷ [])
            ≡ background_job_defaults (default_policy_for key))
        × (new_from_key {F = F} key (low_latency_defaults ∷ [])
            ≡ low_latency_defaults (default_policy_for key))
  unfolding http_defaults database_defaults background_job_defaults low_latency_defaults
      default_policy_for
  presets_kept laws key = (
    kept key (http_defaults ∷ []) (http_in_bounds laws key) (omega arith),
    kept key (database_defaults ∷ []) (database_in_bounds laws key) (omega arith),
    kept key (background_job_defaults ∷ []) (background_job_in_bounds laws key) (omega arith),
    kept key (low_latency_defaults ∷ []) (low_latency_in_bounds laws key) (omega arith),
  )
