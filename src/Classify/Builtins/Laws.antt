-- ===== src/Classify/Builtins/Laws.antt =====
-- classify/http.go: which outcomes the HTTP classifier gives.
use rego.Common.{
  ℤ, pos, ltb_ℤ, ◌<ℤ◌, ◌≡◌, sym, subst, ◌∙◌, ◌⊎◌, inl, inr, true, false, List, Option, none, some,
  Bool-cases, Option-cases, arith,
}
use rego.Errors.{Error, HttpError, context_canceled, deadline_exceeded, errors_is, as_http_error}
use rego.Classify.Types.{outcome_retryable}
use rego.Classify.Builtins.{
  is_idempotent_method, Labels, method_of, with_retry_after, classify_status, http_classifier,
}

module _ (labels : Labels) where
  -- A retryable status is one behind the guard on the method.
  status-IsSafe :
      (codes : List ℤ) (he : HttpError)
      → (classify_status labels codes he).kind ≡ outcome_retryable
      → is_idempotent_method (method_of labels he) ≡ true
  unfolding classify_status
  status-IsSafe codes he h = elim (Bool-cases (is_idempotent_method (method_of labels he))) [
    | inl i ↦ i
    | inr i ↦ absurd (ground (arith, h, i))
  ]

  -- The HTTP classifier retries a request only if its deadline passed or its method is idempotent,
  -- whatever the status and whatever further statuses it is configured to retry; and it never
  -- retries one that was cancelled.
  pub http_retry_safe :
      (codes : List ℤ) (err : Error)
      → (http_classifier labels codes (some err)).kind ≡ outcome_retryable
      → (errors_is err context_canceled ≡ false)
        × ((errors_is err deadline_exceeded ≡ true)
            ⊎ ((he : HttpError) × (as_http_error err ≡ some he)
                × (is_idempotent_method (method_of labels he) ≡ true)))
  unfolding http_classifier
  http_retry_safe codes err h = elim (Bool-cases (errors_is err context_canceled)) [
    | inl c ↦ absurd (ground (arith, h, c))
    | inr c ↦ elim (Bool-cases (errors_is err deadline_exceeded)) [
      | inl d ↦ (c, inl d)
      | inr d ↦ elim (Option-cases (as_http_error err)) [
        | inl n ↦ absurd (ground (arith, h, c, d, n))
        | inr (he, s) ↦ (c, inr (he, s, status-IsSafe codes he (ground (arith, h, c, d, s))))
      ]
    ]
  ]

  retry_after_override :
      (he : HttpError)
      → ((with_retry_after labels he).backoff_override ≡ pos 0)
        ⊎ ((pos 0 <ℤ (with_retry_after labels he).backoff_override)
            × (he.retry_after ≡ some (with_retry_after labels he).backoff_override))
  unfolding with_retry_after
  retry_after_override he = elim (Option-cases he.retry_after) [
    | inl n ↦ ground (arith, n)
    | inr (d, s) ↦ elim (Bool-cases (ltb_ℤ (pos 0) d)) [
      | inl p ↦ ground (arith, s, p)
      | inr p ↦ ground (arith, s, p)
    ]
  ]

  -- No header, or one that overrides: what a backoff override can come from.
  pub data Override : Option Error → ℤ → Type 0 where
    absent : (err : Option Error) → Override err (pos 0)
    from_header :
        (err : Error) (he : HttpError) (d : ℤ)
        → as_http_error err ≡ some he
        → he.retry_after ≡ some d
        → pos 0 <ℤ d
        → Override (some err) d

  status-override :
      (codes : List ℤ) (he : HttpError)
      → ((classify_status labels codes he).backoff_override ≡ pos 0)
        ⊎ ((classify_status labels codes he).backoff_override
            ≡ (with_retry_after labels he).backoff_override)
  unfolding classify_status
  status-override codes he = ground arith

  override_source :
      (codes : List ℤ) (err : Error)
      → ((http_classifier labels codes (some err)).backoff_override ≡ pos 0)
        ⊎ ((he : HttpError) × (as_http_error err ≡ some he)
            × ((http_classifier labels codes (some err)).backoff_override
                ≡ (with_retry_after labels he).backoff_override))
  unfolding http_classifier
  override_source codes err = elim (Bool-cases (errors_is err context_canceled)) [
    | inl c ↦ inl (ground (arith, c))
    | inr c ↦ elim (Bool-cases (errors_is err deadline_exceeded)) [
      | inl d ↦ inl (ground (arith, c, d))
      | inr d ↦ elim (Option-cases (as_http_error err)) [
        | inl n ↦ inl (ground (arith, c, d, n))
        | inr (he, s) ↦ elim (status-override codes he) [
          | inl z ↦ inl (ground (arith, c, d, s, z))
          | inr z ↦ inr (he, s, ground (arith, c, d, s, z))
        ]
      ]
    ]
  ]

  -- An outcome of the HTTP classifier leaves the backoff to the policy, or overrides it with the
  -- positive duration of the error's Retry-After.
  pub http_override_lem :
      (codes : List ℤ) (err : Option Error)
      → Override err (http_classifier labels codes err).backoff_override
  unfolding http_classifier
  http_override_lem codes none = absent none
  http_override_lem codes (some err) = elim (override_source codes err) [
    | inl z ↦ subst (Override (some err)) (sym z) (absent (some err))
    | inr (he, s, e) ↦ elim (retry_after_override he) [
      | inl z ↦ subst (Override (some err)) (sym (e ∙ z)) (absent (some err))
      | inr (p, r) ↦ subst (Override (some err)) (sym e) (from_header err he _ s r p)
    ]
  ]
