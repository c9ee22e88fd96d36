-- ===== src/Tests/Policies.antt =====
-- Keys, normalisation and the resolution of policies.
use rego.Common.{
  ◌≡◌, refl, ℕ, ◌+◌, ap, trim_space, trim_left, trim_right, is_space, pos, negsuc, true, false,
  Option, none, some, arith, ◌⊎◌,
}
use rego.Errors.{Error, message}
use rego.Policy.Key.{PolicyKey, cut_dot, parse_key, to_string}
use rego.Policy.Key.RoundTrip.{IsCanonical, parse_key-to_string}
use rego.Policy.Schema.{
  zero_retry, is_zero_effective_policy, EffectivePolicy, default_policy_for, zero_policy,
}
use rego.Policy.Normalize.{
  normalize, normalize_backoff, normalize_limits, normalize_max_attempts, normalize_initial_backoff,
  normalize_max_backoff, normalize_backoff_multiplier, normalize_jitter, normalize_timeout,
  normalize_cost, normalize_hedge, is_jitter_kind,
}
use rego.Policy.Normalize.Bounds.{IsNormalized, normalize-IsNormalized, normalize_error_lem}
use rego.Policy.Normalize.Idempotent.{normalize_idem}
use rego.Classify.{Exit, returned}
use rego.Retry.Modes.{failure_fallback}
use rego.Retry.Resolve.{
  after_error, settle_fast, resolve_policy_fast, resolve_policy_with_attributes,
}
use rego.Retry.Resolve.Laws.{settle_accepted, resolutions_agree, resolved-IsNormalized, forget}
use rego.Tests.Floats.{Num, num, nan, numbers, laws}

abbrev user_get : PolicyKey
user_get = record { namespace = "user"; name = "get" }

user_get-IsCanonical : IsCanonical user_get
unfolding trim_space trim_left trim_right is_space cut_dot
user_get-IsCanonical = record {
  name_trimmed = refl;
  namespace_trimmed = refl;
  name_given = refl;
  namespace_dotless = refl;
  lone_name_dotless = λ h. absurd (cc h);
}

parse_key-to_string_example : parse_key (to_string user_get) ≡ user_get
parse_key-to_string_example = parse_key-to_string user_get user_get-IsCanonical

-- Everything out of bounds that has a bound.
abbrev wild : EffectivePolicy Num
wild = record zero_policy {
  retry = record (zero_policy {F = Num}).retry {
    max_attempts = pos 50;
    initial_backoff = pos 40000000000;
    backoff_multiplier = num (pos 99);
  };
}

wild_accepted : (normalize wild).1 ≡ none
unfolding is_jitter_kind
wild_accepted = (normalize_error_lem wild).0

normalize-IsNormalized_example : IsNormalized (normalize wild).0
normalize-IsNormalized_example = normalize-IsNormalized laws wild wild_accepted

normalize_error_lem_example :
    ((normalize wild).1 ≡ none) × (((normalize wild).1 ≡ none) ⊎ ((normalize wild).0 ≡ zero_policy))
unfolding is_jitter_kind
normalize_error_lem_example = normalize_error_lem wild

-- A policy within bounds, with a circuit that is not.
abbrev tame : EffectivePolicy Num
tame = record (default_policy_for {F = Num} user_get) {
  circuit = record { enabled = true; threshold = negsuc 0; cooldown = pos 0 };
}

tame_accepted : (normalize tame).1 ≡ none
unfolding is_jitter_kind default_policy_for
tame_accepted = (normalize_error_lem tame).0

tame_unchanged : (normalize tame).0.meta.normalization.changed ≡ false
unfolding normalize normalize_backoff normalize_limits normalize_max_attempts
    normalize_initial_backoff normalize_max_backoff normalize_backoff_multiplier normalize_jitter
    normalize_timeout normalize_cost normalize_hedge is_jitter_kind default_policy_for
tame_unchanged = refl

normalize_idem_example : normalize (normalize tame).0 ≡ ((normalize tame).0, none)
unfolding default_policy_for
normalize_idem_example = normalize_idem laws tame (omega arith) tame_accepted

-- A multiplier that is a NaN.
abbrev no_number : EffectivePolicy Num
no_number = record zero_policy { retry = record zero_retry { backoff_multiplier = nan } }

no_number_accepted : (normalize no_number).1 ≡ none
unfolding is_jitter_kind
no_number_accepted = (normalize_error_lem no_number).0

-- A provider that answers every request with an error and no policy.
unfoldable absent : PolicyKey → ℕ → Exit (EffectivePolicy Num × Option Error) × ℕ
absent key calls = (returned (zero_policy, some (message "not found")), calls + 1)

resolutions_agree_example : resolve_policy_fast failure_fallback true absent user_get 0 ≡ (
    let full = resolve_policy_with_attributes (λ e. "") failure_fallback true absent user_get 0 in
    (forget full.0, full.1))
resolutions_agree_example = resolutions_agree (λ e. "") failure_fallback true absent user_get 0

-- What `retry.MissingPolicyMode` makes of that: the default policy.
abbrev given : EffectivePolicy Num
given = zero_policy

settled : (settle_fast failure_fallback user_get given (some (message "not found"))).1 ≡ none
unfolding after_error is_zero_effective_policy default_policy_for is_jitter_kind
settled =
    ap (λ (r : EffectivePolicy Num × Option Error). r.1)
      (settle_accepted failure_fallback user_get given (default_policy_for user_get)
        (some (message "not found")) refl
        (normalize_error_lem (default_policy_for {F = Num} user_get)).0)

resolved-IsNormalized_example :
    IsNormalized (settle_fast failure_fallback user_get given (some (message "not found"))).0
    × ((settle_fast failure_fallback user_get given (some (message "not found"))).0.key ≡ user_get)
resolved-IsNormalized_example =
    resolved-IsNormalized laws failure_fallback user_get given (some (message "not found")) refl
      settled
