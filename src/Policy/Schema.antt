-- ===== src/Policy/Schema.antt =====
-- policy/schema.go, the types and `DefaultPolicyFor`. A duration is an integer of nanoseconds. The
-- records take the carrier `F` of float64; `JitterKind` and `PolicySource` are Go strings.
use rego.Common.{
  ℕ, ◌*◌, ℤ, pos, eqb_ℤ, String, is_empty, Bool, false, not, ◌&&◌, List, [], FloatOps,
}
use rego.Policy.Key.{PolicyKey}

pub record BudgetRef : Type 0 where
  pub name : String
  pub cost : ℤ

pub record RetryPolicy (F : Type 0) : Type 0 where
  pub max_attempts : ℤ
  pub initial_backoff : ℤ
  pub max_backoff : ℤ
  pub backoff_multiplier : F
  pub jitter : String
  pub timeout_per_attempt : ℤ
  pub overall_timeout : ℤ
  pub classifier_name : String
  pub budget : BudgetRef

pub record HedgePolicy : Type 0 where
  pub enabled : Bool
  pub max_hedges : ℤ
  pub hedge_delay : ℤ
  pub trigger_name : String
  pub cancel_on_first_terminal : Bool
  pub budget : BudgetRef

pub record CircuitPolicy : Type 0 where
  pub enabled : Bool
  pub threshold : ℤ
  pub cooldown : ℤ

pub record NormalizationInfo : Type 0 where
  pub changed : Bool
  pub changed_fields : List String

pub record Metadata : Type 0 where
  pub source : String
  pub normalization : NormalizationInfo

pub record EffectivePolicy (F : Type 0) : Type 0 where
  pub key : PolicyKey
  pub id : String
  pub retry : RetryPolicy F
  pub hedge : HedgePolicy
  pub circuit : CircuitPolicy
  pub meta : Metadata

abbrev pub jitter_none : String
jitter_none = "none"

abbrev pub jitter_full : String
jitter_full = "full"

abbrev pub jitter_equal : String
jitter_equal = "equal"

abbrev pub policy_source_unknown : String
policy_source_unknown = "unknown"

abbrev pub policy_source_static : String
policy_source_static = "static"

abbrev pub policy_source_remote : String
policy_source_remote = "remote"

abbrev pub policy_source_default : String
policy_source_default = "default"

-- `time.Millisecond` and `time.Second`, in nanoseconds.
abbrev pub ms : ℕ → ℤ
ms n = pos (n * 1000000)

abbrev pub seconds : ℕ → ℤ
seconds n = pos (n * 1000000000)

-- The zero values of the types.
abbrev pub zero_key : PolicyKey
zero_key = record { namespace = ""; name = "" }

abbrev pub zero_budget : BudgetRef
zero_budget = record { name = ""; cost = pos 0 }

abbrev pub no_normalization : NormalizationInfo
no_normalization = record { changed = false; changed_fields = [] }

abbrev pub zero_hedge : HedgePolicy
zero_hedge = record {
  enabled = false;
  max_hedges = pos 0;
  hedge_delay = pos 0;
  trigger_name = "";
  cancel_on_first_terminal = false;
  budget = zero_budget;
}

abbrev pub zero_circuit : CircuitPolicy
zero_circuit = record { enabled = false; threshold = pos 0; cooldown = pos 0 }

module _ {F : Type 0} ⦃f : FloatOps F⦄ where
  abbrev pub zero_retry : RetryPolicy F
  zero_retry = record {
    max_attempts = pos 0;
    initial_backoff = pos 0;
    max_backoff = pos 0;
    backoff_multiplier = f.of_int (pos 0);
    jitter = "";
    timeout_per_attempt = pos 0;
    overall_timeout = pos 0;
    classifier_name = "";
    budget = zero_budget;
  }

  abbrev pub zero_policy : EffectivePolicy F
  zero_policy = record {
    key = zero_key;
    id = "";
    retry = zero_retry;
    hedge = zero_hedge;
    circuit = zero_circuit;
    meta = record { source = ""; normalization = no_normalization };
  }

  unfoldable pub default_policy_for : PolicyKey → EffectivePolicy F
  default_policy_for key = record {
    key = key;
    id = "";
    retry = record {
      max_attempts = pos 3;
      initial_backoff = ms 10;
      max_backoff = ms 250;
      backoff_multiplier = f.of_int (pos 2);
      jitter = jitter_none;
      timeout_per_attempt = pos 0;
      overall_timeout = pos 0;
      classifier_name = "";
      budget = record { name = ""; cost = pos 1 };
    };
    hedge = record {
      enabled = false;
      max_hedges = pos 0;
      hedge_delay = pos 0;
      trigger_name = "";
      cancel_on_first_terminal = false;
      budget = record { name = ""; cost = pos 1 };
    };
    circuit = zero_circuit;
    meta = record { source = policy_source_default; normalization = no_normalization };
  }

abbrev is_zero_budget : BudgetRef → Bool
is_zero_budget b = is_empty b.name && eqb_ℤ b.cost (pos 0)

-- `isZeroEffectivePolicy`, which controlplane and retry both declare: key, id, retry and hedge are
-- compared with their zero values; the circuit and the metadata are not looked at.
module _ {F : Type 0} ⦃f : FloatOps F⦄ where
  unfoldable pub is_zero_effective_policy : EffectivePolicy F → Bool
  is_zero_effective_policy p =
      is_empty p.key.namespace
      && is_empty p.key.name
      && is_empty p.id
      && eqb_ℤ p.retry.max_attempts (pos 0)
      && eqb_ℤ p.retry.initial_backoff (pos 0)
      && eqb_ℤ p.retry.max_backoff (pos 0)
      && f.eq p.retry.backoff_multiplier (f.of_int (pos 0))
      && is_empty p.retry.jitter
      && eqb_ℤ p.retry.timeout_per_attempt (pos 0)
      && eqb_ℤ p.retry.overall_timeout (pos 0)
      && is_empty p.retry.classifier_name
      && is_zero_budget p.retry.budget
      && not p.hedge.enabled
      && eqb_ℤ p.hedge.max_hedges (pos 0)
      && eqb_ℤ p.hedge.hedge_delay (pos 0)
      && is_empty p.hedge.trigger_name
      && not p.hedge.cancel_on_first_terminal
      && is_zero_budget p.hedge.budget
