-- ===== src/Retry/Outcomes.antt =====
-- retry/executor.go: `classifyWithRecovery`, `annotateClassifierFallback` and `terminalError`.
pub mod Laws
use Prim.Native.String.{◌++◌ as concat}
use rego.Common.{
  pos, String, is_empty, Bool, true, false, not, ◌&&◌, ◌||◌, List, Option, none, some, insert,
  if◌then◌else◌,
}
use rego.Errors.{Error, panic_error, message, context_canceled, deadline_exceeded, errors_is}
use rego.Policy.Key.{PolicyKey}
use rego.Budget.Registry.{String-eq}
use rego.Classify.{
  Outcome, OutcomeKind, outcome_unknown, outcome_success, outcome_retryable, outcome_non_retryable,
  outcome_abort, plain, Exit, returned, panicked, Classifier,
}

abbrev pub reason_for : OutcomeKind → String
reason_for outcome_success = "success"
reason_for outcome_retryable = "retryable_error"
reason_for outcome_non_retryable = "non_retryable_error"
reason_for outcome_abort = "abort"
reason_for outcome_unknown = "unknown_outcome"

-- An unknown outcome aborts.
unfoldable pub known : Outcome → Outcome
known out = elim out.kind [
  | outcome_unknown ↦ record out {
    kind = outcome_abort;
    reason = if is_empty out.reason then "unknown_outcome" else out.reason;
  }
  | _ ↦ out
]

-- What `classifyWithRecovery` makes of a classifier's answer.
unfoldable pub complete : Outcome → Outcome
complete out =
    let out' = known out in
    if is_empty out'.reason then record out' { reason = reason_for out'.kind } else out'

unfoldable pub classify_with_recovery :
    {T : Type 0}
    → Bool
    → Classifier T
    → T
    → Option Error
    → PolicyKey
    → Exit (Outcome × Option Error)
classify_with_recovery recover_panics classifier value err key = elim (classifier value err) [
  | returned out ↦ returned (complete out, none)
  | panicked v ↦
      if recover_panics
      then returned
          (plain outcome_abort "panic_in_classifier", some (panic_error "classifier" key v))
      else panicked v
]

-- `classifierMeta`
pub record ClassifierMeta : Type 0 where
  pub requested : String
  pub not_found : Bool

unfoldable pub annotate_classifier_fallback : Outcome → ClassifierMeta → Outcome
annotate_classifier_fallback out meta =
    if not meta.not_found || is_empty meta.requested then out else record out {
      attributes = insert "classifier_fallback" "default" (
          insert "classifier_name" meta.requested
            (insert "classifier_not_found" "true" out.attributes));
    }

-- `terminalError`; the context's error is an argument, `none` for a nil context too.
unfoldable pub terminal_error : Option Error → Option Error → Outcome → Error
terminal_error ctx_err op_err out = elim op_err [
  | none ↦
      if is_empty out.reason
      then message "recourse: operation failed"
      else message (concat "recourse: " out.reason)
  | some e ↦
      if errors_is e context_canceled || errors_is e deadline_exceeded
      then elim ctx_err [ none ↦ e | some c ↦ c ]
      else e
]
