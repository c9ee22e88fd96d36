-- ===== src/Retry/Modes.antt =====
-- retry/executor.go: `FailureMode`, what a missing dependency means.
use rego.Common.{String}

-- `failure_other` is any other value of the integer type.
pub data FailureMode : Type 0 where
  failure_mode_unknown failure_deny failure_allow failure_fallback : FailureMode
  failure_allow_unsafe failure_other : FailureMode

unfoldable pub failure_mode_string : FailureMode → String
failure_mode_string failure_deny = "deny"
failure_mode_string failure_allow = "allow"
failure_mode_string failure_fallback = "fallback"
failure_mode_string failure_allow_unsafe = "allow_unsafe"
failure_mode_string _ = "unknown"

unfoldable pub normalize_failure_mode : FailureMode → FailureMode → FailureMode
normalize_failure_mode failure_mode_unknown default_mode = default_mode
normalize_failure_mode failure_other default_mode = default_mode
normalize_failure_mode mode default_mode = mode
