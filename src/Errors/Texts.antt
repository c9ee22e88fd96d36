-- ===== src/Errors/Texts.antt =====
-- The texts of errors: the methods `Error` of retry/executor.go and policy/errors.go, and the
-- messages of the sentinel values in retry/executor.go and controlplane/errors.go.
use Prim.Native.Char.{code}
use Prim.Native.String.{◌++◌ as concat}
use text.Mathlib.TextLemmas.{cons-append}
use rego.Common.{
  ℤ, pos, eqb_ℤ, Bool-cases, inl, inr, arith, ◌==◌, ◌≡◌, refl, String, Bool, true, false, List, [],
  ◌∷◌, if◌then◌else◌,
}
use rego.Errors.{
  Error, Sentinel, context_canceled, deadline_exceeded, provider_unavailable, policy_not_found,
  policy_fetch_failed, no_policy, hedging_requires_timeline, sentinel, normalize_error,
  no_policy_error, no_classifier_error, circuit_open_error, panic_error, message, external,
}
use rego.Policy.Key.{to_string}
use rego.Scripts.ClaimsCheck.Rows.{has_prefix}

-- The messages of controlplane/errors.go.
abbrev provider_unavailable_text : String
provider_unavailable_text = "recourse: policy provider unavailable"

abbrev policy_not_found_text : String
policy_not_found_text = "recourse: policy not found"

abbrev policy_fetch_failed_text : String
policy_fetch_failed_text = "recourse: policy fetch failed"

-- The first two are those of package context.
unfoldable pub sentinel_text : Sentinel → String
sentinel_text context_canceled = "context canceled"
sentinel_text deadline_exceeded = "context deadline exceeded"
sentinel_text provider_unavailable = provider_unavailable_text
sentinel_text policy_not_found = policy_not_found_text
sentinel_text policy_fetch_failed = policy_fetch_failed_text
sentinel_text no_policy = "recourse: no policy found"
sentinel_text hedging_requires_timeline = "recourse: hedging requires timeline"

-- The text of the number of a state.
unfoldable pub state_text : ℤ → String
state_text n =
    if eqb_ℤ n (pos 0)
    then "closed"
    else if eqb_ℤ n (pos 1)
    then "open"
    else if eqb_ℤ n (pos 2)
    then "half-open"
    else "unknown"

joined : List String → String
joined [] = ""
joined (s ∷ ss) = concat s (joined ss)

-- `NormalizeError.Error`, with `strconv.Quote`.
abbrev normalize_error_text : (String → String) → String → String → String
normalize_error_text quote field value =
    concat "recourse: invalid policy config: " (joined (field ∷ "=" ∷ quote value ∷ []))

-- `Error()`.
unfoldable pub error_text : (String → String) → Error → String
unfolding joined
error_text quote (sentinel s) = sentinel_text s
error_text quote (normalize_error field value) = normalize_error_text quote field value
error_text quote (no_policy_error key cause) =
    joined ("recourse: policy not found for " ∷ to_string key ∷ ": " ∷ error_text quote cause ∷ [])
error_text quote (no_classifier_error name) =
    joined ("recourse: classifier not found: " ∷ name ∷ [])
error_text quote (circuit_open_error state reason) =
    joined ("recourse: circuit " ∷ state_text state ∷ ": " ∷ reason ∷ [])
error_text quote (panic_error component key value) =
    joined ("recourse: panic in " ∷ component ∷ " for " ∷ to_string key ∷ ": " ∷ value ∷ [])
error_text quote (message text) = text
error_text quote (external e) = e.text

-- The errors of the types that the packages declare.
abbrev pub is_typed : Error → Bool
is_typed (sentinel s) = false
is_typed (message text) = false
is_typed (external e) = false
is_typed _ = true

pub has_prefix-concat : (p s t : String) → has_prefix p s ≡ true → has_prefix p (concat s t) ≡ true
unfolding has_prefix
has_prefix-concat String.[] s t h = refl
has_prefix-concat (String.◌∷◌ c p) String.[] t h = absurd (cc h)
has_prefix-concat (String.◌∷◌ c p) (String.◌∷◌ d s) t h = elim (Bool-cases (code c == code d)) [
  | inl same ↦ rw (cons-append, same) (has_prefix-concat p s t (rw same at h))
  | inr other ↦ absurd (ground (arith, other, h))
]

-- The text of every error of a type of the packages begins with their name.
error_text-has_prefix :
    (quote : String → String) (e : Error)
    → is_typed e ≡ true
    → has_prefix "recourse: " (error_text quote e) ≡ true
unfolding error_text has_prefix
error_text-has_prefix quote (sentinel s) h = absurd (cc h)
error_text-has_prefix quote (normalize_error field value) h =
    has_prefix-concat "recourse: " "recourse: invalid policy config: "
      (joined (field ∷ "=" ∷ quote value ∷ [])) refl
error_text-has_prefix quote (no_policy_error key cause) h =
    has_prefix-concat "recourse: " "recourse: policy not found for "
      (joined (to_string key ∷ ": " ∷ error_text quote cause ∷ [])) refl
error_text-has_prefix quote (no_classifier_error name) h =
    has_prefix-concat "recourse: " "recourse: classifier not found: " (joined (name ∷ [])) refl
error_text-has_prefix quote (circuit_open_error state reason) h =
    has_prefix-concat "recourse: " "recourse: circuit "
      (joined (state_text state ∷ ": " ∷ reason ∷ [])) refl
error_text-has_prefix quote (panic_error component key value) h =
    has_prefix-concat "recourse: " "recourse: panic in "
      (joined (component ∷ " for " ∷ to_string key ∷ ": " ∷ value ∷ [])) refl
error_text-has_prefix quote (message text) h = absurd (cc h)
error_text-has_prefix quote (external e) h = absurd (cc h)
