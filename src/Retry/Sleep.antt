-- ===== src/Retry/Sleep.antt =====
-- retry/executor.go, `sleepWithContext`.
use rego.Common.{ℤ, pos, leb_ℤ, Option, none, some, if◌then◌else◌}
use rego.Errors.{Error}

-- What the `select` finds first: the timer, or the end of the context with its error.
pub data Wakeup : Type 0 where
  timer_fired : Wakeup
  context_done : Error → Wakeup

-- `none` is a nil error; without a positive duration nothing is waited for.
unfoldable pub sleep_with_context : ℤ → Wakeup → Option Error
sleep_with_context d timer_fired = none
sleep_with_context d (context_done e) = if leb_ℤ d (pos 0) then none else some e
