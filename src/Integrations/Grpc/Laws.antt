-- ===== src/Integrations/Grpc/Laws.antt =====
-- integrations/grpc/grpc.go: keys of methods, and the classification of status errors.
use Prim.Native.Char.{code}
use Prim.Native.String.{◌++◌ as concat}
use text.Mathlib.TextLemmas.{nil-append, cons-append}
use rego.Common.{
  ◌≡◌, ◌≢◌, refl, inl, inr, ◌⊎◌, String, true, false, none, some, Bool-cases, Option-cases, arith,
}
use rego.Errors.{Error}
use rego.Classify.{outcome_success, outcome_retryable}
use rego.Classify.Builtins.{Labels}
use rego.Integrations.Grpc.{
  is_slash, trim_slash, cut_slash, default_key_func, Code, unavailable, resource_exhausted,
  deadline_exceeded, ok, canceled, unknown, other_code, is_ok, Status, code_outcome, classify,
}

cut_slash-concat :
    (s t : String) → cut_slash s ≡ none → cut_slash (concat s (concat "/" t)) ≡ some (s, t)
unfolding cut_slash is_slash
cut_slash-concat String.[] t h = rw (nil-append, cons-append, nil-append) refl
cut_slash-concat (String.◌∷◌ c s) t h = elim (Bool-cases (is_slash (code c))) [
  | inl e ↦ absurd (ground (arith, e, h))
  | inr e ↦ elim (Option-cases (cut_slash s)) [
    | inl n ↦ rw (cons-append, e, cut_slash-concat s t n) refl
    | inr (r, n) ↦ absurd (ground (arith, e, n, h))
  ]
]

trimmed : (s : String) → trim_slash (concat "/" s) ≡ s
unfolding trim_slash is_slash
trimmed s = rw (cons-append, nil-append) refl

-- The full name of a method, a slash, a service, a slash and a name, is mapped to the key with that
-- service and that name, if neither contains a slash.
pub method_key :
    (service name : String)
    → cut_slash service ≡ none
    → cut_slash name ≡ none
    → default_key_func (concat "/" (concat service (concat "/" name)))
      ≡ record { namespace = service; name = name }
unfolding default_key_func
method_key service name hs hn =
    ground (arith, trimmed (concat service (concat "/" name)), cut_slash-concat service name hs, hn)

module _ (labels : Labels) (status : Status) where
  -- An error with a status is never a success, and is tried again only for three codes.
  pub status_errors_judged :
      (err : Error) (c : Code)
      → is_ok (status.status_code err) ≡ false
      → status.from_error err ≡ (c, true)
      → ((classify labels status (some err)).kind ≢ outcome_success)
        × (((classify labels status (some err)).kind ≢ outcome_retryable)
            ⊎ (c ≡ unavailable)
            ⊎ (c ≡ resource_exhausted)
            ⊎ (c ≡ deadline_exceeded))
  unfolding classify code_outcome
  status_errors_judged err ok a h = ground (arith, a, h)
  status_errors_judged err canceled a h = ground (arith, a, h)
  status_errors_judged err unknown a h = ground (arith, a, h)
  status_errors_judged err deadline_exceeded a h = ground (arith, a, h)
  status_errors_judged err resource_exhausted a h = ground (arith, a, h)
  status_errors_judged err unavailable a h = ground (arith, a, h)
  status_errors_judged err (other_code n) a h = ground (arith, a, h)
