-- ===== src/Retry/Group/Attempt/Laws.antt =====
-- retry/group.go: what an attempt records and sends, and what a group of such attempts returns.
use rego.Common.{
  String, ℕ, ℤ, ◌≡◌, refl, sym, ap, ◌∙◌, subst, inl, inr, Bool, true, false, Option, none, some,
  Bool-cases, ◌==◌, if◌then◌else◌, arith,
}
use rego.Errors.{Error, message}
use rego.Classify.{Outcome, OutcomeKind, outcome_abort, plain, Exit, returned, panicked}
use rego.Retry.Gate.{Verdict, Once, fire}
use rego.Retry.Outcomes.{classify_with_recovery, annotate_classifier_fallback}
use rego.Retry.Group.{
  GroupResult, GroupConfig, Caller, Group, Source, start, Reach, finished, is_success,
}
use rego.Retry.Group.Results.{
  Justified, waits, decides, succeeds, fails, gives_up, group_result-Justified,
}
use rego.Retry.Group.Attempt.{
  Launch, Sent, run_defers, launch, after_gate, perform, after_op, judge, refuse_attempt,
}

returned_injective : {A : Type 0} {x y : A} → returned x ≡ returned y → x ≡ y
returned_injective h = cc h

module _ {W C T F : Type 0} (l : Launch W C T F) where
  open l use {env, key, classifier, meta, recover_panics}

  -- Where a result comes from: the budget refused, with the record to match, or the operation
  -- returned and the classifier judged what it returned.
  pub data Honest (idx : ℕ) (is_hedge : Bool) : Sent W C T → Type 0 where
    refused :
        (s : Sent W C T) (reason : String)
        → s.result ≡ record {
          val = none;
          err = some (message reason);
          outcome = plain outcome_abort reason;
          is_hedge = is_hedge;
          idx = idx;
          panic_err = none;
        }
        → s.recorded.outcome ≡ s.result.outcome
        → s.recorded.budget_allowed ≡ false
        → (s.recorded.is_hedge ≡ is_hedge) × (s.recorded.hedge_index ≡ idx)
        → Honest idx is_hedge s
    judged :
        (s : Sent W C T) (ctx : C) (w : W) (val : T) (err : Option Error) (out : Outcome)
        (panic_err : Option Error)
        → (env.op ctx w).0 ≡ returned (val, err)
        → classify_with_recovery recover_panics classifier val err key ≡ returned (out, panic_err)
        → s.result ≡ record {
          val = some val;
          err = err;
          outcome = annotate_classifier_fallback out meta;
          is_hedge = is_hedge;
          idx = idx;
          panic_err = panic_err;
        }
        → (s.recorded.outcome ≡ s.result.outcome) × (s.recorded.err ≡ err)
        → s.recorded.budget_allowed ≡ true
        → (s.recorded.is_hedge ≡ is_hedge) × (s.recorded.hedge_index ≡ idx)
        → Honest idx is_hedge s

  judge-Honest :
      (idx : ℕ) (is_hedge : Bool) (begin end : ℤ) (verdict : Verdict W) (timed : Option C) (ctx : C)
      (w : W) (val : T) (err : Option Error) (answer : Exit (Outcome × Option Error))
      (s : Sent W C T)
      → (env.op ctx w).0 ≡ returned (val, err)
      → classify_with_recovery recover_panics classifier val err key ≡ answer
      → judge l idx is_hedge begin end verdict timed val err answer ≡ returned s
      → Honest idx is_hedge s
  unfolding judge
  judge-Honest idx is_hedge begin end verdict timed ctx w val err (panicked v) s o c h =
      absurd (cc h)
  judge-Honest idx is_hedge begin end verdict timed ctx w val err (returned (out, panic_err)) s o c
        h =
      subst (Honest idx is_hedge) (returned_injective h)
        (judged _ ctx w val err out panic_err o c refl (refl, refl) refl (refl, refl))

  after_op-Honest :
      (idx : ℕ) (is_hedge : Bool) (begin : ℤ) (verdict : Verdict W) (timed : Option C) (ctx : C)
      (w w' : W) (exit : Exit (T × Option Error)) (s : Sent W C T)
      → (env.op ctx w).0 ≡ exit
      → (after_op l idx is_hedge begin verdict timed exit w').0 ≡ returned s
      → Honest idx is_hedge s
  unfolding after_op
  after_op-Honest idx is_hedge begin verdict timed ctx w w' (panicked v) s o h = absurd (cc h)
  after_op-Honest idx is_hedge begin verdict timed ctx w w' (returned (val, err)) s o h =
      judge-Honest idx is_hedge begin (env.clock w').0 verdict timed ctx w val err _ s o refl h

  perform-Honest :
      (idx : ℕ) (is_hedge : Bool) (begin : ℤ) (verdict : Verdict W) (w : W) (s : Sent W C T)
      → (perform l idx is_hedge begin verdict w).0 ≡ returned s
      → Honest idx is_hedge s
  unfolding perform
  perform-Honest idx is_hedge begin verdict w s h =
      after_op-Honest idx is_hedge begin verdict _ _ _ _ _ s refl h

  refuse_attempt-Honest :
      (idx : ℕ) (is_hedge : Bool) (begin : ℤ) (verdict : Verdict W) (w : W) (s : Sent W C T)
      → (refuse_attempt l idx is_hedge begin verdict w).0 ≡ returned s
      → Honest idx is_hedge s
  unfolding refuse_attempt
  refuse_attempt-Honest idx is_hedge begin verdict w s h =
      subst (Honest idx is_hedge) (returned_injective h)
        (refused _ verdict.reason refl refl refl (refl, refl))

  after_gate-Honest :
      (idx : ℕ) (is_hedge : Bool) (begin : ℤ) (exit : Exit (Verdict W)) (w : W) (s : Sent W C T)
      → (after_gate l idx is_hedge begin exit w).0 ≡ returned s
      → Honest idx is_hedge s
  unfolding after_gate
  after_gate-Honest idx is_hedge begin (panicked v) w s h = absurd (cc h)
  after_gate-Honest idx is_hedge begin (returned verdict) w s h =
      let branch : Bool → Type 0 = λ b.
        (if b
          then perform l idx is_hedge begin verdict w
          else refuse_attempt l idx is_hedge begin verdict w).0
        ≡ returned s in
      elim (Bool-cases verdict.allowed) [
        | inl a ↦ perform-Honest idx is_hedge begin verdict w s (subst branch a h)
        | inr a ↦ refuse_attempt-Honest idx is_hedge begin verdict w s (subst branch a h)
      ]

  -- Every result that the goroutine of an attempt sends.
  pub launch-Honest :
      (idx : ℕ) (is_hedge : Bool) (w : W) (s : Sent W C T)
      → (launch l idx is_hedge w).0 ≡ returned s
      → Honest idx is_hedge s
  unfolding launch
  launch-Honest idx is_hedge w s h = after_gate-Honest idx is_hedge _ _ _ s h

  -- The results that the goroutines of a group send: the primary has the index 0.
  abbrev pub from_launch : Source T
  from_launch i r =
      (w : W) × (sent : Sent W C T) × ((launch l i (if i == 0 then false else true) w).0
        ≡ returned sent)
      × (sent.result ≡ r)

  -- The operation returned this value, and the classifier called it a success.
  pub data Earned : Option T → Outcome → Type 0 where
    earned :
        (ctx : C) (w : W) (val : T) (err : Option Error) (out : Outcome) (panic_err : Option Error)
        → (env.op ctx w).0 ≡ returned (val, err)
        → classify_with_recovery recover_panics classifier val err key ≡ returned (out, panic_err)
        → is_success out.kind ≡ true
        → Earned (some val) (annotate_classifier_fallback out meta)

  annotate-kind : (out : Outcome) → (annotate_classifier_fallback out meta).kind ≡ out.kind
  unfolding annotate_classifier_fallback
  annotate-kind out = ground arith

  Honest-Earned :
      {idx : ℕ} {is_hedge : Bool} (s : Sent W C T) (r : GroupResult T)
      → Honest idx is_hedge s
      → s.result ≡ r
      → is_success r.outcome.kind ≡ true
      → Earned r.val r.outcome
  Honest-Earned _ r (refused s reason e p b x) same h =
      let is_abort : r.outcome.kind ≡ outcome_abort =
        ap (λ (x : GroupResult T). x.outcome.kind) (sym same ∙ e) in
      absurd (not_success is_abort h)
    where
      not_success : {k : OutcomeKind} → k ≡ outcome_abort → is_success k ≡ true → ⊥
      not_success e h = cc (ap is_success e)
  Honest-Earned _ r (judged s ctx w val err out panic_err o c e p b x) same h =
      let known = sym e ∙ same in
      subst (λ (x : GroupResult T). Earned x.val x.outcome) known
        (earned ctx w val err out panic_err o c (
          subst (λ k. is_success k ≡ true)
            (ap (λ (x : GroupResult T). x.outcome.kind) (sym known) ∙ annotate-kind out) h))

  Justified-Earned :
      {ctx_err : Option Error} {caller : Caller T} (v : Option T) (e : Option Error) (out : Outcome)
      → Justified from_launch ctx_err caller
      → caller ≡ finished v e out true
      → Earned v out × (e ≡ none)
  Justified-Earned v e out waits h = absurd (cc h)
  Justified-Earned v e out (decides r k f) h = absurd (cc h)
  Justified-Earned v e out (succeeds r (i, (w, s, sends, same)) t) h = (
    subst (λ x. Earned x out) (cc h)
        (subst (λ x. Earned r.val x) (cc h)
          (Honest-Earned s r (launch-Honest i _ w s sends) same t)),
    cc h,
  )
  Justified-Earned v e out (fails r k f) h = absurd (cc h)
  Justified-Earned v e out (gives_up x y) h = absurd (cc h)

  -- Where each result of a group is one that the goroutine of an attempt sends, a group that
  -- reports a success got its value from a call of the operation that returned, and the classifier,
  -- with its recovery, called that value and the error that came with it a success; the outcome is
  -- the classifier's with the note on a missing classifier, and the reported error is nil. No
  -- refusal of a budget and no recovered panic of a classifier ends as a success.
  pub success_from_op :
      (c : GroupConfig) (s : Group T) (v : Option T) (e : Option Error) (out : Outcome)
      → Reach c from_launch (start c) s
      → s.caller ≡ finished v e out true
      → Earned v out × (e ≡ none)
  success_from_op c s v e out r h =
      Justified-Earned v e out (group_result-Justified c from_launch s r) h

-- The deferred calls of an attempt cancel its context and then give back what its budget lent, once.
run_defers-fire :
    {W C T : Type 0} (cancel : C → W → W) (s : Sent W C T) (o : Once W) (ctx : C) (w : W)
    → s.timed ≡ some ctx
    → s.release ≡ some o
    → o.done ≡ false
    → run_defers cancel s w ≡ o.original (cancel ctx w)
unfolding run_defers fire
run_defers-fire cancel s o ctx w timed release fresh = ground (arith, timed, release, fresh)
