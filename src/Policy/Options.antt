-- ===== src/Policy/Options.antt =====
-- policy/options.go. An option is a function on the policy, as in the source; what it is given is an
-- argument of it.
pub mod Laws
use rego.Common.{
  ℤ, pos, eqb_ℤ, String, Bool, true, List, [], ◌∷◌, Option, none, some, FloatOps, if◌then◌else◌,
}
use rego.Policy.Key.{PolicyKey, parse_key}
use rego.Policy.Schema.{
  EffectivePolicy, RetryPolicy, HedgePolicy, default_policy_for, jitter_none, jitter_full,
  jitter_equal, ms, seconds,
}
use rego.Policy.Normalize.{normalize}

-- `Option`; the library's `Option` is another type.
abbrev pub PolicyOption : Type 0 → Type 0
PolicyOption F = EffectivePolicy F → EffectivePolicy F

module _ {F : Type 0} ⦃f : FloatOps F⦄ where
  -- `for _, opt := range opts { opt(&p) }`
  abbrev pub apply_options : List (PolicyOption F) → EffectivePolicy F → EffectivePolicy F
  apply_options [] p = p
  apply_options (opt ∷ opts) p = apply_options opts (opt p)

  -- `NewFromKey`
  unfoldable pub new_from_key : PolicyKey → List (PolicyOption F) → EffectivePolicy F
  new_from_key key opts =
      let (normalized, err) = normalize (apply_options opts (default_policy_for key)) in
      elim err [ none ↦ normalized | some e ↦ (normalize (default_policy_for key)).0 ]

  -- `New`
  unfoldable pub new_policy : String → List (PolicyOption F) → EffectivePolicy F
  new_policy key opts = new_from_key (parse_key key) opts

  -- An option on the retry policy, and one on the hedge policy.
  abbrev on_retry : (RetryPolicy F → RetryPolicy F) → PolicyOption F
  on_retry change p = record p { retry = change p.retry }

  abbrev on_hedge : (HedgePolicy → HedgePolicy) → PolicyOption F
  on_hedge change p = record p { hedge = change p.hedge }

  unfoldable pub max_attempts : ℤ → PolicyOption F
  max_attempts n = on_retry (λ r. record r { max_attempts = n })

  unfoldable pub initial_backoff : ℤ → PolicyOption F
  initial_backoff d = on_retry (λ r. record r { initial_backoff = d })

  unfoldable pub max_backoff : ℤ → PolicyOption F
  max_backoff d = on_retry (λ r. record r { max_backoff = d })

  unfoldable pub backoff_multiplier : F → PolicyOption F
  backoff_multiplier m = on_retry (λ r. record r { backoff_multiplier = m })

  unfoldable pub backoff : ℤ → ℤ → F → PolicyOption F
  backoff initial max multiplier = on_retry (λ r. record r {
    initial_backoff = initial;
    max_backoff = max;
    backoff_multiplier = multiplier;
  })

  unfoldable pub jitter : String → PolicyOption F
  jitter j = on_retry (λ r. record r { jitter = j })

  unfoldable pub per_attempt_timeout : ℤ → PolicyOption F
  per_attempt_timeout d = on_retry (λ r. record r { timeout_per_attempt = d })

  unfoldable pub overall_timeout : ℤ → PolicyOption F
  overall_timeout d = on_retry (λ r. record r { overall_timeout = d })

  unfoldable pub classifier : String → PolicyOption F
  classifier name = on_retry (λ r. record r { classifier_name = name })

  unfoldable pub budget_with_cost : String → ℤ → PolicyOption F
  budget_with_cost name cost =
      on_retry (λ r. record r { budget = record { name = name; cost = cost } })

  unfoldable pub budget : String → PolicyOption F
  budget name = budget_with_cost name (pos 1)

  unfoldable pub policy_id : String → PolicyOption F
  policy_id id p = record p { id = id }

  unfoldable pub enable_hedging : PolicyOption F
  enable_hedging = on_hedge (λ h. record h {
    enabled = true;
    max_hedges = if eqb_ℤ h.max_hedges (pos 0) then pos 2 else h.max_hedges;
    hedge_delay = if eqb_ℤ h.hedge_delay (pos 0) then ms 200 else h.hedge_delay;
  })

  unfoldable pub hedge_max_attempts : ℤ → PolicyOption F
  hedge_max_attempts n = on_hedge (λ h. record h { enabled = true; max_hedges = n })

  unfoldable pub hedge_delay : ℤ → PolicyOption F
  hedge_delay d = on_hedge (λ h. record h { enabled = true; hedge_delay = d })

  unfoldable pub hedge_trigger : String → PolicyOption F
  hedge_trigger name = on_hedge (λ h. record h { enabled = true; trigger_name = name })

  unfoldable pub hedge_budget : String → PolicyOption F
  hedge_budget name = on_hedge (λ h. record h { budget = record { name = name; cost = pos 1 } })

  unfoldable pub hedge_cancel_on_terminal : Bool → PolicyOption F
  hedge_cancel_on_terminal cancel = on_hedge (λ h. record h { cancel_on_first_terminal = cancel })

  unfoldable pub exponential_backoff : ℤ → ℤ → PolicyOption F
  exponential_backoff initial max = on_retry (λ r. record r {
    initial_backoff = initial;
    max_backoff = max;
    backoff_multiplier = f.of_int (pos 2);
    jitter = jitter_equal;
  })

  unfoldable pub constant_backoff : ℤ → PolicyOption F
  constant_backoff delay = on_retry (λ r. record r {
    initial_backoff = delay;
    max_backoff = delay;
    backoff_multiplier = f.of_int (pos 1);
    jitter = jitter_none;
  })

  unfoldable pub http_defaults : PolicyOption F
  http_defaults = on_retry (λ r. record r {
    max_attempts = pos 3;
    initial_backoff = ms 100;
    max_backoff = seconds 2;
    backoff_multiplier = f.of_int (pos 2);
    jitter = jitter_full;
    timeout_per_attempt = seconds 10;
    overall_timeout = seconds 30;
    classifier_name = "http";
  })

  unfoldable pub database_defaults : PolicyOption F
  database_defaults = on_retry (λ r. record r {
    max_attempts = pos 3;
    initial_backoff = ms 100;
    max_backoff = seconds 5;
    backoff_multiplier = f.of_int (pos 2);
    jitter = jitter_equal;
    timeout_per_attempt = seconds 30;
    overall_timeout = seconds 60;
  })

  unfoldable pub background_job_defaults : PolicyOption F
  background_job_defaults = on_retry (λ r. record r {
    max_attempts = pos 5;
    initial_backoff = seconds 1;
    max_backoff = seconds 30;
    backoff_multiplier = f.of_int (pos 2);
    jitter = jitter_full;
    overall_timeout = seconds 300;
  })

  unfoldable pub low_latency_defaults : PolicyOption F
  low_latency_defaults p = record p {
    retry = record (p.retry) {
      max_attempts = pos 2;
      initial_backoff = ms 10;
      max_backoff = ms 50;
      backoff_multiplier = f.of_int (pos 2);
      jitter = jitter_equal;
      timeout_per_attempt = ms 500;
      overall_timeout = seconds 1;
    };
    hedge = record (p.hedge) { enabled = true; max_hedges = pos 2; hedge_delay = ms 100 };
  }
