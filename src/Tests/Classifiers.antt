-- ===== src/Tests/Classifiers.antt =====
-- The built-in classifiers on a GET that got a 503, and a classifier that leaves everything open.
use rego.Common.{
  ◌≡◌, refl, pos, Bool, true, false, [], some, trim_space, trim_left, trim_right, is_space, ◌⊎◌,
}
use rego.Errors.{
  Error, external, HttpError, context_canceled, deadline_exceeded, errors_is, as_http_error,
}
use rego.Policy.Key.{PolicyKey}
use rego.Classify.{outcome_retryable, outcome_unknown, plain, returned, Classifier}
use rego.Classify.Builtins.{
  Labels, http_classifier, classify_status, with_retry_after, method_of, is_idempotent_method,
}
use rego.Classify.Builtins.Laws.{http_retry_safe}

abbrev labels : Labels
labels = record {
  itoa = λ n. "n";
  duration = λ d. "d";
  http_status = λ n. "http_503";
  type_of = λ e. "t";
  to_upper = λ s. s;
}

abbrev unavailable : HttpError
unavailable = record { http_status_code = pos 503; http_method = "GET"; retry_after = some (pos 7) }

abbrev response : Error
response = external (record { text = "503"; wraps = λ s. false; http = some unavailable })

response_retryable : (http_classifier labels [] (some response)).kind ≡ outcome_retryable
unfolding http_classifier classify_status with_retry_after method_of is_idempotent_method errors_is
    as_http_error trim_space trim_left trim_right is_space
response_retryable = refl

http_retry_safe_example :
    (errors_is response context_canceled ≡ false)
    × ((errors_is response deadline_exceeded ≡ true)
        ⊎ ((he : HttpError) × (as_http_error response ≡ some he)
            × (is_idempotent_method (method_of labels he) ≡ true)))
http_retry_safe_example = http_retry_safe labels [] response response_retryable

-- A classifier that leaves everything open.
abbrev vague : Classifier Bool
vague value err = returned (plain outcome_unknown "")

abbrev some_key : PolicyKey
some_key = record { namespace = "user"; name = "get" }
