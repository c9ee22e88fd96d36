-- ===== src/Retry/Gate.antt =====
-- retry/budget.go, `allowAttempt`. Budgets and the observer are code outside the repository or
-- behind interfaces: a budget is a record of functions over a state `W`, and the events that the
-- observer receives are a list.
pub mod Laws
use rego.Common.{
  ℤ, String, is_empty, trim_space, Bool, true, false, ◌||◌, List, [], ◌∷◌, Option, none, some,
  if◌then◌else◌,
}
use rego.Policy.Key.{PolicyKey}
use rego.Policy.Schema.{BudgetRef}
use rego.Budget.{
  AttemptKind, Decision, reason_allowed, reason_no_budget, reason_budget_not_found,
  reason_budget_denied, reason_panic_in_budget, reason_budget_registry_nil, reason_budget_nil,
}
use rego.Budget.Registry.{Registry, Held, nil_interface, typed_nil, object}
use rego.Budget.Registry
use rego.Classify.{Exit, returned, panicked}
use rego.Retry.Modes.{FailureMode, failure_allow, failure_allow_unsafe, failure_mode_string}

-- A request to a budget, which its release closes over.
pub record Request : Type 0 where
  pub key : PolicyKey
  pub attempt_idx : ℤ
  pub kind : AttemptKind
  pub ref : BudgetRef

pub record Budget (W : Type 0) : Type 0 where
  pub allow_attempt : Request → W → Exit Decision × W
  pub release : Request → W → W

-- observe.BudgetDecisionEvent
pub record BudgetDecisionEvent : Type 0 where
  pub request : Request
  pub mode : String
  pub allowed : Bool
  pub reason : String

-- A release function behind its sync.Once.
pub record Once (W : Type 0) : Type 0 where
  pub original : W → W
  pub done : Bool

unfoldable pub fire : {W : Type 0} → Once W → W → Once W × W
fire o w = if o.done then (o, w) else (record o { done = true }, o.original w)

-- What `allowAttempt` returns, with the events that it emitted.
pub record Verdict (W : Type 0) : Type 0 where
  pub allowed : Bool
  pub reason : String
  pub release : Option (Once W)
  pub events : List BudgetDecisionEvent

-- The fields of an Executor that the gate reads.
pub record GateConfig (W : Type 0) : Type 0 where
  pub budgets : Option (Registry (Budget W))
  pub has_observer : Bool
  pub missing_budget_mode : FailureMode
  pub recover_panics : Bool

-- What the look-up finds: a budget, or the reason why there is none.
pub data Lookup (W : Type 0) : Type 0 where
  missing : String → Lookup W
  found : Budget W → Lookup W

abbrev pub is_permissive : FailureMode → Bool
is_permissive failure_allow = true
is_permissive failure_allow_unsafe = true
is_permissive _ = false

-- The reason of a budget's decision, with what stands in for an empty one.
unfoldable pub reason_of : Decision → String
reason_of d =
    if is_empty d.reason
    then if d.allowed then reason_allowed else reason_budget_denied
    else d.reason

module _ {W : Type 0} where
  unfoldable pub find_budget : Option (Registry (Budget W)) → String → Lookup W
  find_budget none name = missing reason_budget_registry_nil
  find_budget (some r) name =
      let (held, ok) = Registry.get name (some r) in
      if ok
      then elim held [
        | nil_interface ↦ missing reason_budget_nil
        | typed_nil ↦ missing reason_budget_nil
        | object b ↦ found b
      ]
      else missing reason_budget_not_found

  -- `emit`: one event, if there is an observer.
  unfoldable pub emit : GateConfig W → Request → String → Bool → String → List BudgetDecisionEvent
  emit e request mode allowed reason =
      if e.has_observer
      then record { request = request; mode = mode; allowed = allowed; reason = reason } ∷ []
      else []

  unfoldable pub missing_verdict : GateConfig W → Request → String → Verdict W
  missing_verdict e request reason =
      let allowed = is_permissive e.missing_budget_mode in
      record {
        allowed = allowed;
        reason = reason;
        release = none;
        events = emit e request (failure_mode_string e.missing_budget_mode) allowed reason;
      }

  unfoldable pub decided_verdict : GateConfig W → Request → Budget W → Decision → Verdict W
  decided_verdict e request b d = record {
    allowed = d.allowed;
    reason = reason_of d;
    release =
        if d.has_release
        then some (record { original = b.release request; done = false })
        else none;
    events = emit e request "standard" d.allowed (reason_of d);
  }

  unfoldable pub panic_verdict : GateConfig W → Request → Verdict W
  panic_verdict e request = record {
    allowed = false;
    reason = reason_panic_in_budget;
    release = none;
    events = emit e request "standard" false reason_panic_in_budget;
  }

  -- The call of a budget, with the recovery from its panic.
  unfoldable pub ask : GateConfig W → Request → Budget W → W → Exit (Verdict W) × W
  ask e request b w =
      let (exit, w') = b.allow_attempt request w in
      elim exit [
        | returned d ↦ (returned (decided_verdict e request b d), w')
        | panicked v ↦
            if e.recover_panics then (returned (panic_verdict e request), w') else (panicked v, w')
      ]

  abbrev no_budget : Verdict W
  no_budget = record { allowed = true; reason = reason_no_budget; release = none; events = [] }

  -- `allowAttempt` on an executor that is not nil.
  unfoldable pub decide_attempt : GateConfig W → Request → W → Exit (Verdict W) × W
  decide_attempt e req w =
      let request = record req { ref = record (req.ref) { name = trim_space req.ref.name } } in
      if is_empty request.ref.name
      then (returned no_budget, w)
      else elim (find_budget e.budgets request.ref.name) [
        | missing reason ↦ (returned (missing_verdict e request reason), w)
        | found b ↦ ask e request b w
      ]

  -- `allowAttempt`, with a nil executor as `none`.
  unfoldable pub allow_attempt : Option (GateConfig W) → Request → W → Exit (Verdict W) × W
  allow_attempt none req w = (returned no_budget, w)
  allow_attempt (some e) req w = decide_attempt e req w
