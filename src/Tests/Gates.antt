-- ===== src/Tests/Gates.antt =====
-- The gate with a budget that counts its calls, and one that panics.
use rego.Common.{
  ◌≡◌, refl, ℕ, ◌+◌, ◌*◌, pos, true, false, [], ◌∷◌, some, trim_space, trim_left, trim_right,
  is_space, lookup,
}
use rego.Budget.{kind_retry, Decision, reason_allowed}
use rego.Budget.Registry.{Held, object}
use rego.Classify.{returned, panicked}
use rego.Retry.Modes.{failure_deny}
use rego.Retry.Gate.{
  Request, Budget, GateConfig, Once, Verdict, found, find_budget, decide_attempt, allow_attempt,
  ask, decided_verdict,
}
use rego.Budget.Registry
use rego.Retry.Gate.Laws.{trimmed, Granted, gate_fails_closed}

abbrev granted : Decision
granted = record { allowed = true; reason = reason_allowed; has_release = true }

-- The state counts the tokens in use.
abbrev counting : Budget ℕ
counting = record { allow_attempt = λ req n. (returned granted, n + 1); release = λ req n. n * 2 }

abbrev faulty : Budget ℕ
faulty = record { allow_attempt = λ req n. (panicked "broken", n); release = λ req n. n }

abbrev with_budget : Budget ℕ → GateConfig ℕ
with_budget b = record {
  budgets = some (("db", object b) ∷ []);
  has_observer = true;
  missing_budget_mode = failure_deny;
  recover_panics = true;
}

abbrev request : Request
request = record {
  key = record { namespace = "user"; name = "get" };
  attempt_idx = pos 0;
  kind = kind_retry;
  ref = record { name = "db"; cost = pos 1 };
}

found_in : (b : Budget ℕ) → find_budget (with_budget b).budgets (trim_space "db") ≡ found b
unfolding find_budget Registry.get lookup trim_space trim_left trim_right is_space
found_in b = refl

abbrev verdict : Verdict ℕ
verdict = decided_verdict (with_budget counting) (trimmed request) counting granted

decides : (allow_attempt (some (with_budget counting)) request 0).0 ≡ returned verdict
unfolding allow_attempt decide_attempt ask find_budget Registry.get lookup trim_space trim_left
    trim_right is_space
decides = refl

gate_fails_closed_example : Granted request 0 (some (with_budget counting))
unfolding decided_verdict
gate_fails_closed_example =
    gate_fails_closed (some (with_budget counting)) request 0 verdict decides refl

abbrev handed_out : Once ℕ
handed_out = record { original = counting.release request; done = false }
