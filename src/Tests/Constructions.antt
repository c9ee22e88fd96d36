-- ===== src/Tests/Constructions.antt =====
-- Executors and policies that are built from options, and the executor of the process.
use rego.Common.{
  ◌≡◌, sym, ap, subst, pos, Bool, false, [], ◌∷◌, none, some, is_empty, str_eq, ◌≤ℤ◌, arith,
}
use rego.Policy.Key.{PolicyKey}
use rego.Policy.Schema.{
  EffectivePolicy, default_policy_for, is_zero_effective_policy, policy_source_unknown,
}
use rego.Policy.Normalize.{max_backoff_ceiling}
use rego.Policy.Normalize.Bounds.{IsNormalized}
use rego.Policy.Options.{new_from_key, max_attempts, low_latency_defaults}
use rego.Policy.Options.Laws.{options_are_safe, presets_kept}
use rego.Classify.{returned}
use rego.Classify.Builtins.{Labels}
use rego.Retry.Modes.{FailureMode}
use rego.Retry.Resolve.{Provider, resolve_policy_fast}
use rego.Retry.Executor.{Kinds, Clock, new_executor, with_policy_key}
use rego.Retry.Executor.Laws.{static_policy_resolved}
use rego.Tests.Floats.{Num, numbers, laws}

abbrev user_get : PolicyKey
user_get = record { namespace = "user"; name = "get" }

options_are_safe_example :
    IsNormalized (new_from_key {F = Num} user_get (max_attempts (pos 50) ∷ []))
    × (is_zero_effective_policy (new_from_key {F = Num} user_get (max_attempts (pos 50) ∷ []))
        ≡ false)
options_are_safe_example = options_are_safe laws user_get (max_attempts (pos 50) ∷ [])

abbrev kinds : Kinds
kinds = record { W = Bool; T = Bool; F = Num; O = Bool; A = Bool; B = Bool }

abbrev labels : Labels
labels = record {
  itoa = λ n. "";
  duration = λ n. "";
  http_status = λ n. "";
  type_of = λ e. "";
  to_upper = λ s. s;
}

abbrev no_time : Clock Bool
no_time w = (pos 0, w)

-- The preset for low latency, which stands as it is.
abbrev preset : EffectivePolicy Num
preset = new_from_key user_get (low_latency_defaults ∷ [])

preset_same : preset ≡ low_latency_defaults (default_policy_for user_get)
preset_same = (presets_kept {F = Num} laws user_get).3

preset_key : preset.key ≡ user_get
unfolding low_latency_defaults default_policy_for
preset_key = ap (λ (p : EffectivePolicy Num). p.key) preset_same

preset_source : is_empty preset.meta.source ≡ false
unfolding low_latency_defaults default_policy_for
preset_source = ap (λ (p : EffectivePolicy Num). is_empty p.meta.source) preset_same

preset_known : str_eq preset.meta.source policy_source_unknown ≡ false
unfolding low_latency_defaults default_policy_for
preset_known =
    ap (λ (p : EffectivePolicy Num). str_eq p.meta.source policy_source_unknown) preset_same

preset_capped : preset.retry.max_backoff ≤ℤ max_backoff_ceiling
unfolding low_latency_defaults default_policy_for
preset_capped =
    subst (λ (p : EffectivePolicy Num). p.retry.max_backoff ≤ℤ max_backoff_ceiling)
      (sym preset_same) (omega arith)

static_policy_resolved_example :
    (p : Provider Bool Num) × ((new_executor kinds labels no_time
        (with_policy_key kinds labels no_time user_get (low_latency_defaults ∷ []) ∷ [])).provider
      ≡ some p)
    × ((mode : FailureMode) (recover : Bool) (w : Bool)
        → resolve_policy_fast mode recover p user_get w ≡ (returned (preset, none), w))
static_policy_resolved_example =
    static_policy_resolved kinds labels no_time laws user_get (low_latency_defaults ∷ []) preset_key
      preset_source preset_known preset_capped
