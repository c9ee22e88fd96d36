-- ===== src/Errors.antt =====
-- The `error` values that the packages build, and `errors.Is`. An error of code outside the
-- repository (an operation's, a provider's, a source's) is `external`: what `errors.Is` and the
-- type assertion to `classify.HTTPError` find in it is part of the value.
pub mod Texts
use rego.Common.{ℤ, String, Bool, true, false, Option, none, ◌||◌}
use rego.Policy.Key.{PolicyKey}

-- The sentinel values that the code compares with.
pub data Sentinel : Type 0 where
  context_canceled deadline_exceeded : Sentinel
  provider_unavailable policy_not_found policy_fetch_failed : Sentinel
  no_policy hedging_requires_timeline : Sentinel

-- The values of the methods of classify.HTTPError.
pub record HttpError : Type 0 where
  pub http_status_code : ℤ
  pub http_method : String
  pub retry_after : Option ℤ

pub record ExternalError : Type 0 where
  pub text : String
  pub wraps : Sentinel → Bool
  pub http : Option HttpError

pub data Error : Type 0 where
  sentinel : Sentinel → Error
  normalize_error : String → String → Error
  no_policy_error : PolicyKey → Error → Error
  no_classifier_error : String → Error
  circuit_open_error : ℤ → String → Error
  panic_error : String → PolicyKey → String → Error
  message : String → Error
  external : ExternalError → Error

abbrev pub same_sentinel : Sentinel → Sentinel → Bool
same_sentinel context_canceled context_canceled = true
same_sentinel deadline_exceeded deadline_exceeded = true
same_sentinel provider_unavailable provider_unavailable = true
same_sentinel policy_not_found policy_not_found = true
same_sentinel policy_fetch_failed policy_fetch_failed = true
same_sentinel no_policy no_policy = true
same_sentinel hedging_requires_timeline hedging_requires_timeline = true
same_sentinel _ _ = false

-- `errors.Is(err, target)` for a sentinel target: a NoPolicyError is ErrNoPolicy by its `Is`
-- method and unwraps to its cause; the other types of the packages wrap nothing.
unfoldable pub errors_is : Error → Sentinel → Bool
errors_is (sentinel s) t = same_sentinel s t
errors_is (no_policy_error key cause) t = same_sentinel no_policy t || errors_is cause t
errors_is (external e) t = e.wraps t
errors_is _ t = false

-- `err.(classify.HTTPError)`: only an error of outside code, or of integrations/http, has it.
unfoldable pub as_http_error : Error → Option HttpError
as_http_error (external e) = e.http
as_http_error _ = none
