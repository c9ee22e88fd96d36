-- ===== src/Observe/Types.antt =====
-- observe/types.go and observe/attempt_info.go. A call on an observer is a value of `Event`, less the
-- context that it gets.
use rego.Common.{ℕ, ℤ, pos, String, Bool, List, [], Option, none}
use rego.Errors.{Error}
use rego.Policy.Key.{PolicyKey}
use rego.Policy.Schema.{EffectivePolicy, zero_key}
use rego.Classify.{Outcome}
use rego.Retry.Gate.{BudgetDecisionEvent}

pub record AttemptRecord : Type 0 where
  pub attempt : ℕ
  pub start_time : ℤ
  pub end_time : ℤ
  pub is_hedge : Bool
  pub hedge_index : ℕ
  pub outcome : Outcome
  pub err : Option Error
  pub backoff : ℤ
  pub budget_allowed : Bool
  pub budget_reason : String

pub record Timeline : Type 0 where
  pub key : PolicyKey
  pub policy_id : String
  pub start : ℤ
  pub end : ℤ
  pub attributes : List (String × String)
  pub attempts : List AttemptRecord
  pub final_err : Option Error

abbrev pub zero_timeline : Timeline
zero_timeline = record {
  key = zero_key;
  policy_id = "";
  start = pos 0;
  end = pos 0;
  attributes = [];
  attempts = [];
  final_err = none;
}

-- The methods of Observer.
pub data Event (F : Type 0) : Type 0 where
  on_start : PolicyKey → EffectivePolicy F → Event F
  on_attempt on_hedge_spawn : PolicyKey → AttemptRecord → Event F
  on_hedge_cancel : PolicyKey → AttemptRecord → String → Event F
  on_budget_decision : BudgetDecisionEvent → Event F
  on_success on_failure : PolicyKey → Timeline → Event F

-- `AttemptInfo`
pub record AttemptInfo : Type 0 where
  pub retry_index : ℕ
  pub attempt : ℕ
  pub is_hedge : Bool
  pub hedge_index : ℕ
  pub policy_id : String
