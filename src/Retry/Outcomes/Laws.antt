-- ===== src/Retry/Outcomes/Laws.antt =====
-- retry/executor.go, `classifyWithRecovery`: the outcomes that the loops see.
use rego.Common.{◌≡◌, refl, ◌≢◌, inl, inr, is_empty, Bool, false, Option, arith, Bool-cases, subst}
use rego.Errors.{Error}
use rego.Policy.Key.{PolicyKey}
use rego.Classify.{
  Outcome, OutcomeKind, outcome_unknown, outcome_success, outcome_retryable, outcome_non_retryable,
  outcome_abort, plain, Exit-cases, returned, Classifier,
}
use rego.Retry.Outcomes.{known, complete, reason_for, classify_with_recovery}

known_reason : (out : Outcome) → (known out).kind ≢ outcome_unknown
unfolding known
known_reason out = ground arith

has_reason : (k : OutcomeKind) → is_empty (reason_for k) ≡ false
has_reason outcome_unknown = refl
has_reason outcome_success = refl
has_reason outcome_retryable = refl
has_reason outcome_non_retryable = refl
has_reason outcome_abort = refl

complete_reason : (out : Outcome) → is_empty (complete out).reason ≡ false
unfolding complete
complete_reason out = elim (Bool-cases (is_empty (known out).reason)) [
  | inl e ↦ rw e (has_reason (known out).kind)
  | inr e ↦ rw e e
]

complete_kind : (out : Outcome) → (complete out).kind ≡ (known out).kind
unfolding complete
complete_kind out = ground arith

-- Whatever a classifier answers, and when its panic is recovered, the loops get an outcome whose
-- kind is one of the four that they know and whose reason is not empty.
pub classified-IsKnown :
    {T : Type 0} (recover_panics : Bool) (classifier : Classifier T) (value : T)
    (err : Option Error) (key : PolicyKey) (out : Outcome) (panic_err : Option Error)
    → classify_with_recovery recover_panics classifier value err key ≡ returned (out, panic_err)
    → (out.kind ≢ outcome_unknown) × (is_empty out.reason ≡ false)
unfolding classify_with_recovery
classified-IsKnown recover_panics classifier value err key out panic_err h =
    elim (Exit-cases (classifier value err)) [
      | inl (o, x) ↦
          let e : complete o ≡ out = ground (arith, h, x) in
          ((λ u. known_reason o (cc (complete_kind o, e, u))), cc (complete_reason o, e))
      | inr (v, x) ↦ elim (Bool-cases recover_panics) [
        | inl r ↦
            let e : plain outcome_abort "panic_in_classifier" ≡ out = ground (arith, h, x, r) in
            ((λ u. absurd (cc (e, u))), subst (λ (o : Outcome). is_empty o.reason ≡ false) e refl)
        | inr r ↦ absurd (ground (arith, h, x, r))
      ]
    ]
