-- ===== src/Classify/Types.antt =====
-- classify/outcome.go. A classifier is code that may panic: `Exit` is how a call ends.
use rego.Common.{ℤ, pos, String, List, [], Option, ◌≡◌, refl, ◌⊎◌, inl, inr}
use rego.Errors.{Error}

pub data OutcomeKind : Type 0 where
  outcome_unknown outcome_success outcome_retryable outcome_non_retryable outcome_abort :
      OutcomeKind

pub record Outcome : Type 0 where
  pub kind : OutcomeKind
  pub reason : String
  pub attributes : List (String × String)
  pub backoff_override : ℤ

-- An outcome with a kind and a reason alone.
abbrev pub plain : OutcomeKind → String → Outcome
plain kind reason = record {
  kind = kind;
  reason = reason;
  attributes = [];
  backoff_override = pos 0;
}

pub data Exit {ℓ} (A : Type ℓ) : Type ℓ where
  returned : A → Exit A
  panicked : String → Exit A

-- `Classify(value, err)`.
abbrev pub Classifier : Type 0 → Type 0
Classifier T = T → Option Error → Exit Outcome

pub Exit-cases {ℓ} :
    {A : Type ℓ} (x : Exit A) → ((a : A) × (x ≡ returned a)) ⊎ ((v : String) × (x ≡ panicked v))
Exit-cases (returned a) = inl (a, refl)
Exit-cases (panicked v) = inr (v, refl)
