-- ===== src/Controlplane/Static.antt =====
-- controlplane/provider.go, `StaticProvider`.
use rego.Common.{
  ◌≡◌, refl, inl, inr, is_empty, str_eq, not, ◌||◌, List, Option, none, some, FloatOps, FloatLaws,
  lookup, Option-cases, arith, if◌then◌else◌,
}
use rego.Errors.{Error}
use rego.Policy.Key.{PolicyKey, Key-eq}
use rego.Policy.Schema.{
  EffectivePolicy, default_policy_for, is_zero_effective_policy, policy_source_unknown,
  policy_source_static,
}
use rego.Policy.Normalize.{normalize}
use rego.Policy.Normalize.Bounds.{IsNormalized}
use rego.Retry.Resolve.Laws.{accepted-IsReady}

pub record StaticProvider (F : Type 0) : Type 0 where
  pub policies : List (PolicyKey × EffectivePolicy F)  -- a nil map reads as an empty one
  pub default : EffectivePolicy F

default_key :
    (F : Type 0) ⦃f : FloatOps F⦄ (key : PolicyKey) → (default_policy_for {F = F} key).key ≡ key
unfolding default_policy_for
default_key F key = refl

module _ {F : Type 0} ⦃f : FloatOps F⦄ where
  -- The policy for the key, with its source where it has none.
  unfoldable pub marked_static : PolicyKey → EffectivePolicy F → EffectivePolicy F
  marked_static key pol =
      if is_empty pol.meta.source || str_eq pol.meta.source policy_source_unknown
      then record pol { key = key; meta = record (pol.meta) { source = policy_source_static } }
      else record pol { key = key }

  -- The policy that is normalised.
  unfoldable pub selected : Option (StaticProvider F) → PolicyKey → EffectivePolicy F
  selected none key = default_policy_for key
  selected (some p) key = elim (lookup key p.policies) [
    | some pol ↦ marked_static key pol
    | none ↦
        if not (is_zero_effective_policy p.default)
        then marked_static key p.default
        else default_policy_for key
  ]

  -- `GetEffectivePolicy`; `none` is the nil pointer.
  unfoldable pub get_effective_policy :
      Option (StaticProvider F) → PolicyKey → EffectivePolicy F × Option Error
  get_effective_policy p key = normalize (selected p key)

  marked_key : (key : PolicyKey) (pol : EffectivePolicy F) → (marked_static key pol).key ≡ key
  unfolding marked_static
  marked_key key pol = ground arith

  selected_key : (p : Option (StaticProvider F)) (key : PolicyKey) → (selected p key).key ≡ key
  unfolding selected
  selected_key none key = default_key F key
  selected_key (some p) key = elim (Option-cases (lookup key p.policies)) [
    | inr (pol, x) ↦ ground (arith, x, marked_key key pol)
    | inl x ↦ ground (arith, x, marked_key key p.default, default_key F key)
  ]

  -- Whatever a static provider holds, nothing included, a policy that it gives without an error is
  -- normalised and is for the key that was asked for.
  pub static-IsReady :
      (laws : FloatLaws f) (p : Option (StaticProvider F)) (key : PolicyKey)
      → (get_effective_policy p key).1 ≡ none
      → IsNormalized (get_effective_policy p key).0 × ((get_effective_policy p key).0.key ≡ key)
  unfolding get_effective_policy
  static-IsReady laws p key h = accepted-IsReady laws key (selected p key) (selected_key p key) h
