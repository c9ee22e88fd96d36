-- ===== src/Integrations/Grpc.antt =====
-- integrations/grpc/grpc.go. The package google.golang.org/grpc is a parameter: what its functions
-- `status.Code` and `status.FromError` answer for an error, and the names of the codes.
pub mod Laws
use Prim.Native.String.{◌++◌ as concat}
use Prim.Native.Char.{code}
use rego.Common.{
  ℕ, ◌==◌, pos, String, Bool, true, false, not, List, [], ◌∷◌, Option, none, some, FloatOps,
  if◌then◌else◌,
}
use rego.Errors.{Error}
use rego.Policy.Key.{PolicyKey}
use rego.Classify.{
  Outcome, OutcomeKind, outcome_success, outcome_retryable, outcome_non_retryable, outcome_abort,
  plain, returned,
}
use rego.Retry.Executor.{Kinds, Clock, ExecutorOption, with_default_classifier}
use rego.Classify.Builtins.{Labels, auto_classifier}

unfoldable pub is_slash : ℕ → Bool
is_slash c = c == b'/'

-- `strings.TrimPrefix(method, "/")`
unfoldable pub trim_slash : String → String
trim_slash String.[] = String.[]
trim_slash (String.◌∷◌ c s) = if is_slash (code c) then s else String.◌∷◌ c s

-- The text before and behind the first slash.
unfoldable pub cut_slash : String → Option (String × String)
cut_slash String.[] = none
cut_slash (String.◌∷◌ c s) =
    let rest = cut_slash s in
    if is_slash (code c)
    then some (String.[], s)
    else elim rest [ none ↦ none | some (a, b) ↦ some (String.◌∷◌ c a, b) ]

-- `DefaultKeyFunc`: two parts are one slash.
unfoldable pub default_key_func : String → PolicyKey
default_key_func text =
    let method = trim_slash text in
    let whole : PolicyKey = record { namespace = ""; name = method } in
    elim (cut_slash method) [
      | none ↦ whole
      | some (service, name) ↦ elim (cut_slash name) [
        | none ↦ record { namespace = service; name = name }
        | some more ↦ whole
      ]
    ]

-- The codes that the classifier names, and the others.
pub data Code : Type 0 where
  ok canceled unknown deadline_exceeded resource_exhausted unavailable : Code
  other_code : ℕ → Code

abbrev pub is_ok : Code → Bool
is_ok ok = true
is_ok _ = false

pub record Status : Type 0 where
  pub status_code : Error → Code  -- status.Code
  pub from_error : Error → Code × Bool  -- status.FromError, the code of the status
  pub code_string : Code → String

module _ (labels : Labels) (status : Status) where
  open status use {status_code, from_error, code_string}

  -- The kind and the reason of the outcome for a code.
  unfoldable pub code_outcome : Code → Outcome
  code_outcome c =
      let outcome : Outcome = record {
        kind = outcome_non_retryable;
        reason = concat "grpc_" (code_string c);
        attributes = ("grpc_code", code_string c) ∷ [];
        backoff_override = pos 0;
      } in
      elim c [
        | unavailable ↦ record outcome { kind = outcome_retryable }
        | resource_exhausted ↦ record outcome { kind = outcome_retryable }
        | deadline_exceeded ↦ record outcome {
          kind = outcome_retryable;
          reason = "context_deadline_exceeded";
        }
        | canceled ↦ record outcome { kind = outcome_abort; reason = "context_canceled" }
        | _ ↦ outcome
      ]

  -- `Classifier.Classify`
  unfoldable pub classify : Option Error → Outcome
  classify none = plain outcome_success "success"
  classify (some err) =
      if is_ok (status_code err)
      then plain outcome_success "success"
      else (let (c, found) = from_error err in
          if found then code_outcome c else auto_classifier labels (some err))

-- `UnaryClientInterceptor`, with `none` for a nil `keyFunc`: what it returns calls the executor's `Do`
-- with the key of the method. `invoke` is the invoker on the arguments of the call.
unfoldable pub unary_client_interceptor :
    {Invoke R : Type 0}
    → (PolicyKey → Invoke → R)
    → Option (String → PolicyKey)
    → String
    → Invoke
    → R
unary_client_interceptor do_call none method invoke = do_call (default_key_func method) invoke
unary_client_interceptor do_call (some key_func) method invoke = do_call (key_func method) invoke

-- `WithClassifier`
unfoldable pub with_grpc_classifier :
    (k : Kinds) ⦃f : FloatOps k.F⦄ (labels : Labels) (time_now : Clock k.W)
    → Status
    → ExecutorOption k labels time_now
with_grpc_classifier k labels time_now status =
    with_default_classifier k labels time_now (some (λ v e. returned (classify labels status e)))
