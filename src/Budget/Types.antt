-- ===== src/Budget/Types.antt =====
-- budget/types.go and budget/reasons.go. A release function is an effect on the budget that gave
-- it: of the function itself the model keeps whether there is one.
use rego.Common.{String, Bool}

pub data AttemptKind : Type 0 where
  kind_retry kind_hedge : AttemptKind

abbrev pub reason_allowed : String
reason_allowed = "allowed"

abbrev pub reason_no_budget : String
reason_no_budget = "no_budget"

abbrev pub reason_budget_not_found : String
reason_budget_not_found = "budget_not_found"

abbrev pub reason_budget_denied : String
reason_budget_denied = "budget_denied"

abbrev pub reason_panic_in_budget : String
reason_panic_in_budget = "panic_in_budget"

abbrev pub reason_budget_registry_nil : String
reason_budget_registry_nil = "budget_registry_nil"

abbrev pub reason_budget_nil : String
reason_budget_nil = "budget_nil"

pub record Decision : Type 0 where
  pub allowed : Bool
  pub reason : String
  pub has_release : Bool
