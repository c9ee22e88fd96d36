-- ===== src/Classify/Builtins.antt =====
-- classify/builtins.go, classify/http.go and classify/auto.go. `strings.ToUpper` on a method, and
-- the texts that strconv and time make of numbers, are arguments: the first decides, the others only
-- label.
pub mod Laws
use rego.Common.{
  ℕ, ℤ, pos, leb_ℤ, ltb_ℤ, eqb_ℤ, ◌≡◌, ◌⊎◌, ◌≢◌, String, str_eq, trim_space, Bool, true, false,
  ◌&&◌, ◌||◌, List, [], ◌∷◌, ◌++◌, Option, none, some, arith, if◌then◌else◌,
}
use rego.Errors.{Error, HttpError, context_canceled, deadline_exceeded, errors_is, as_http_error}
use rego.Classify.Types.{
  Outcome, OutcomeKind, outcome_success, outcome_retryable, outcome_non_retryable, outcome_abort,
  plain,
}

-- `AlwaysRetryOnError.Classify`
unfoldable pub always_retry_on_error : Option Error → Outcome
always_retry_on_error none = plain outcome_success "success"
always_retry_on_error (some err) =
    if errors_is err context_canceled
    then plain outcome_abort "context_canceled"
    else if errors_is err deadline_exceeded
    then plain outcome_retryable "context_deadline_exceeded"
    else plain outcome_retryable "retryable_error"

unfoldable pub is_idempotent_method : String → Bool
is_idempotent_method m =
    str_eq m "GET"
    || str_eq m "HEAD"
    || str_eq m "PUT"
    || str_eq m "DELETE"
    || str_eq m "OPTIONS"
    || str_eq m "TRACE"

abbrev contains : ℤ → List ℤ → Bool
contains status [] = false
contains status (s ∷ rest) = eqb_ℤ s status || contains status rest

-- The labels that strconv.Itoa, Duration.String and reflect.TypeOf make.
pub record Labels : Type 0 where
  pub itoa : ℤ → String
  pub duration : ℤ → String
  pub http_status : ℤ → String
  pub type_of : Error → String
  pub to_upper : String → String

module _ (labels : Labels) where
  open labels use {itoa, duration, http_status, type_of, to_upper}

  -- The method as `Classify` compares it.
  unfoldable pub method_of : HttpError → String
  method_of he = to_upper (trim_space he.http_method)

  abbrev attributes_of : HttpError → List (String × String)
  attributes_of he = ("status", itoa he.http_status_code) ∷ ("method", method_of he) ∷ []

  -- An outcome with the attributes of the request.
  abbrev http_outcome : HttpError → OutcomeKind → String → Outcome
  http_outcome he kind reason = record {
    kind = kind;
    reason = reason;
    attributes = attributes_of he;
    backoff_override = pos 0;
  }

  -- Retryable if the method is idempotent.
  abbrev if_idempotent : HttpError → Outcome → Outcome
  if_idempotent he out =
      if is_idempotent_method (method_of he)
      then out
      else http_outcome he outcome_non_retryable "http_non_idempotent"

  -- The outcome of a retryable 4xx: a positive Retry-After overrides the backoff.
  unfoldable pub with_retry_after : HttpError → Outcome
  with_retry_after he =
      let out = http_outcome he outcome_retryable (http_status he.http_status_code) in
      elim he.retry_after [
        | none ↦ out
        | some d ↦
            if ltb_ℤ (pos 0) d
            then record out {
              backoff_override = d;
              attributes = attributes_of he ++ ("retry_after", duration d) ∷ [];
            }
            else out
      ]

  -- The part of `HTTPClassifier.Classify` behind the type assertion.
  unfoldable pub classify_status : List ℤ → HttpError → Outcome
  classify_status retryable_4xx he =
      let status = he.http_status_code in
      if leb_ℤ (pos 200) status && ltb_ℤ status (pos 300)
      then http_outcome he outcome_success "success"
      else if eqb_ℤ status (pos 0)
      then if_idempotent he (http_outcome he outcome_retryable "http_transport_error")
      else if leb_ℤ (pos 500) status && leb_ℤ status (pos 599)
      then if_idempotent he (http_outcome he outcome_retryable "http_5xx")
      else if eqb_ℤ status (pos 408) || eqb_ℤ status (pos 429) || contains status retryable_4xx
      then if_idempotent he (with_retry_after he)
      else http_outcome he outcome_non_retryable "http_non_retryable_status"

  -- `HTTPClassifier.Classify`; a nil set of further statuses is an empty one.
  unfoldable pub http_classifier : List ℤ → Option Error → Outcome
  http_classifier retryable_4xx none = plain outcome_success "success"
  http_classifier retryable_4xx (some err) =
      if errors_is err context_canceled
      then plain outcome_abort "context_canceled"
      else if errors_is err deadline_exceeded
      then plain outcome_retryable "context_deadline_exceeded"
      else elim (as_http_error err) [
        | none ↦ record {
          kind = outcome_non_retryable;
          reason = "classifier_type_mismatch";
          attributes = ("expected_type", "classify.HTTPError") ∷ ("got_type", type_of err) ∷ [];
          backoff_override = pos 0;
        }
        | some he ↦ classify_status retryable_4xx he
      ]

  -- `AutoClassifier.Classify`
  unfoldable pub auto_classifier : Option Error → Outcome
  auto_classifier none = always_retry_on_error none
  auto_classifier (some err) = elim (as_http_error err) [
    | none ↦ always_retry_on_error (some err)
    | some he ↦ http_classifier [] (some err)
  ]
