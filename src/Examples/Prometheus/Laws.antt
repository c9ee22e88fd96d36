-- ===== src/Examples/Prometheus/Laws.antt =====
-- examples/prometheus/observer.go with retry/executor.go: what the metrics say of a call.
use rego.Common.{
  ℕ, suc, ◌+◌, ◌≡◌, refl, sym, ap, true, ◌∙◌, subst, inl, inr, String, List, [], ◌∷◌, ◌++◌, length,
  length-map, Option, none, some, FloatOps, arith,
}
use rego.Errors.{Error}
use rego.Policy.Key.{PolicyKey}
use rego.Policy.Schema.{EffectivePolicy}
use rego.Classify.{Exit, returned, panicked}
use rego.Retry.Gate.{BudgetDecisionEvent}
use rego.Observe.Types.{
  AttemptRecord, Timeline, Event, on_start, on_attempt, on_hedge_spawn, on_hedge_cancel,
  on_budget_decision, on_success, on_failure,
}
use rego.Retry.Timeline.{TimelineCall, Result, do_value_with_timeline}
use rego.Retry.Timeline.Ended.{Ended, fails, succeeds, nil_value, attempts_told, all_between, Tells}
use rego.Retry.Timeline.Agreement.{IsReported, timeline_agrees}
use rego.Examples.Prometheus.{
  Sample, call_counted, call_latency, attempt_counted, attempt_latency, budget_counted,
  new_prometheus_observer, observe_attempt, observe_budget, observe_call, samples, all_samples,
}

-- The results that the counter of calls was raised with, and the raises of the counter of attempts.
abbrev pub results_counted : List Sample → List String
results_counted [] = []
results_counted (call_counted key result ∷ rest) = result ∷ results_counted rest
results_counted (_ ∷ rest) = results_counted rest

abbrev pub attempts_counted : List Sample → ℕ
attempts_counted [] = 0
attempts_counted (attempt_counted key outcome hedge ∷ rest) = suc (attempts_counted rest)
attempts_counted (_ ∷ rest) = attempts_counted rest

abbrev pub budgets_counted : List Sample → ℕ
budgets_counted [] = 0
budgets_counted (budget_counted key allowed reason ∷ rest) = suc (budgets_counted rest)
budgets_counted (_ ∷ rest) = budgets_counted rest

results_counted-append :
    (xs ys : List Sample) → results_counted (xs ++ ys) ≡ results_counted xs ++ results_counted ys
results_counted-append [] ys = refl
results_counted-append (call_counted k r ∷ xs) ys = ap (λ l. r ∷ l) (results_counted-append xs ys)
results_counted-append (call_latency k r d ∷ xs) ys = results_counted-append xs ys
results_counted-append (attempt_counted k r d ∷ xs) ys = results_counted-append xs ys
results_counted-append (attempt_latency k r d ∷ xs) ys = results_counted-append xs ys
results_counted-append (budget_counted k r d ∷ xs) ys = results_counted-append xs ys

attempts_counted-append :
    (xs ys : List Sample) → attempts_counted (xs ++ ys) ≡ attempts_counted xs + attempts_counted ys
attempts_counted-append [] ys = omega arith
attempts_counted-append (call_counted k r ∷ xs) ys = attempts_counted-append xs ys
attempts_counted-append (call_latency k r d ∷ xs) ys = attempts_counted-append xs ys
attempts_counted-append (attempt_counted k r d ∷ xs) ys =
    omega (arith, attempts_counted-append xs ys)
attempts_counted-append (attempt_latency k r d ∷ xs) ys = attempts_counted-append xs ys
attempts_counted-append (budget_counted k r d ∷ xs) ys = attempts_counted-append xs ys

budgets_counted-append :
    (xs ys : List Sample) → budgets_counted (xs ++ ys) ≡ budgets_counted xs + budgets_counted ys
budgets_counted-append [] ys = omega arith
budgets_counted-append (call_counted k r ∷ xs) ys = budgets_counted-append xs ys
budgets_counted-append (call_latency k r d ∷ xs) ys = budgets_counted-append xs ys
budgets_counted-append (attempt_counted k r d ∷ xs) ys = budgets_counted-append xs ys
budgets_counted-append (attempt_latency k r d ∷ xs) ys = budgets_counted-append xs ys
budgets_counted-append (budget_counted k r d ∷ xs) ys = omega (arith, budgets_counted-append xs ys)

-- One attempt raises the counter of attempts by one.
observe_attempt_counts :
    (key : PolicyKey) (rec : AttemptRecord)
    → (results_counted (observe_attempt new_prometheus_observer key rec) ≡ [])
      × (attempts_counted (observe_attempt new_prometheus_observer key rec) ≡ 1)
      × (budgets_counted (observe_attempt new_prometheus_observer key rec) ≡ 0)
unfolding observe_attempt
observe_attempt_counts key rec = ground arith

-- The end of a call raises the counter of calls, with its result.
observe_call_counts :
    (key : PolicyKey) (tl : Timeline) (result : String)
    → (results_counted (observe_call new_prometheus_observer key tl result) ≡ result ∷ [])
      × (attempts_counted (observe_call new_prometheus_observer key tl result) ≡ 0)
      × (budgets_counted (observe_call new_prometheus_observer key tl result) ≡ 0)
unfolding observe_call
observe_call_counts key tl result = ground arith

-- A decision of a budget raises the counter of decisions by one.
observe_budget_counts :
    (ev : BudgetDecisionEvent)
    → (results_counted (observe_budget new_prometheus_observer ev) ≡ [])
      × (attempts_counted (observe_budget new_prometheus_observer ev) ≡ 0)
      × (budgets_counted (observe_budget new_prometheus_observer ev) ≡ 1)
unfolding observe_budget
observe_budget_counts ev = ground arith

abbrev pub result_label : Option Error → String
result_label none = "success"
result_label (some e) = "failure"

ending_written :
    (key : PolicyKey) (tl : Timeline) (result : String)
    → (results_counted (observe_call new_prometheus_observer key tl result ++ []) ≡ result ∷ [])
      × (attempts_counted (observe_call new_prometheus_observer key tl result ++ []) ≡ 0)
ending_written key tl result =
    let call = observe_call new_prometheus_observer key tl result in
    let known = observe_call_counts key tl result in
    (
      results_counted-append call [] ∙ ap (λ l. l ++ []) known.0,
      omega (arith, attempts_counted-append call [], known.1),
    )

-- The decisions of budgets that the observer got.
abbrev pub decisions_told : {F : Type 0} → List (Event F) → ℕ
decisions_told [] = 0
decisions_told (on_budget_decision ev ∷ es) = suc (decisions_told es)
decisions_told (_ ∷ es) = decisions_told es

module _ {F : Type 0} where
  abbrev written : List (Event F) → List Sample
  written = all_samples new_prometheus_observer

  budgets_written : (es : List (Event F)) → budgets_counted (written es) ≡ decisions_told es
  unfolding all_samples samples
  budgets_written [] = refl
  budgets_written (on_start k p ∷ es) = budgets_written es
  budgets_written (on_hedge_spawn k r ∷ es) = budgets_written es
  budgets_written (on_hedge_cancel k r c ∷ es) = budgets_written es
  budgets_written (on_attempt k r ∷ es) = omega (
    arith,
    budgets_counted-append (observe_attempt new_prometheus_observer k r) (written es),
    (observe_attempt_counts k r).2,
    budgets_written es,
  )
  budgets_written (on_budget_decision ev ∷ es) = omega (
    arith,
    budgets_counted-append (observe_budget new_prometheus_observer ev) (written es),
    (observe_budget_counts ev).2,
    budgets_written es,
  )
  budgets_written (on_success k tl ∷ es) = omega (
    arith,
    budgets_counted-append (observe_call new_prometheus_observer k tl "success") (written es),
    (observe_call_counts k tl "success").2,
    budgets_written es,
  )
  budgets_written (on_failure k tl ∷ es) = omega (
    arith,
    budgets_counted-append (observe_call new_prometheus_observer k tl "failure") (written es),
    (observe_call_counts k tl "failure").2,
    budgets_written es,
  )

module _ {W C T F : Type 0} ⦃f : FloatOps F⦄ (call : TimelineCall W C T F) where
  -- What the calls between the start and the end of a call write.
  between_written :
      (es rest : List (Event F))
      → all_between call es ≡ true
      → (results_counted (written (es ++ rest)) ≡ results_counted (written rest))
        × (attempts_counted (written (es ++ rest))
            ≡ length (attempts_told call es) + attempts_counted (written rest))
  unfolding all_samples samples
  between_written [] rest h = (refl, omega arith)
  between_written (on_attempt k r ∷ es) rest h =
      let one = observe_attempt_counts k r in
      let more = between_written es rest (cc h) in
      let first = observe_attempt new_prometheus_observer k r in
      let later = written (es ++ rest) in
      (
        results_counted-append first later ∙ ap (λ l. l ++ results_counted later) one.0 ∙ more.0,
        omega (arith, attempts_counted-append first later, one.1, more.1),
      )
  between_written (on_budget_decision ev ∷ es) rest h =
      let none_counted = observe_budget_counts ev in
      let more = between_written es rest (cc h) in
      let first = observe_budget new_prometheus_observer ev in
      let later = written (es ++ rest) in
      (
        results_counted-append first later
            ∙ ap (λ l. l ++ results_counted later) none_counted.0
            ∙ more.0,
        omega (arith, attempts_counted-append first later, none_counted.1, more.1),
      )
  between_written (on_hedge_spawn k r ∷ es) rest h = between_written es rest (cc h)
  between_written (on_start k p ∷ es) rest h = absurd (cc h)
  between_written (on_hedge_cancel k r c ∷ es) rest h = absurd (cc h)
  between_written (on_success k tl ∷ es) rest h = absurd (cc h)
  between_written (on_failure k tl ∷ es) rest h = absurd (cc h)

  -- What the metrics of a call are to be.
  abbrev pub IsCounted : Exit (T × Timeline × Option Error) → List (Event F) → Type 0
  IsCounted (panicked v) es = Unit {0}
  IsCounted (returned (val, tl, e)) es =
      (results_counted (all_samples new_prometheus_observer es) ≡ result_label e ∷ [])
      × (attempts_counted (all_samples new_prometheus_observer es) ≡ length tl.attempts)
      × (budgets_counted (all_samples new_prometheus_observer es) ≡ decisions_told es)

  told_once :
      (es : List (Event F)) (tl : Timeline)
      → Tells call es tl.attempts
      → length (attempts_told call es) ≡ length tl.attempts
  told_once es tl t = ap length t.0 ∙ length-map (λ (r : AttemptRecord). (call.key, r)) tl.attempts

  Ended-IsCounted :
      (pol : EffectivePolicy F) (exit : Exit (T × Timeline × Option Error)) (es : List (Event F))
      → Ended call pol exit es
      → IsCounted exit es
  unfolding all_samples samples
  Ended-IsCounted pol _ _ (nil_value tl v es t n) = tt
  Ended-IsCounted pol _ _ (fails tl e es t n) =
      let ending = ending_written call.key tl "failure" in
      let end : List (Event F) = on_failure call.key tl ∷ [] in
      let more = between_written es end t.1 in
      (
        more.0 ∙ ending.0,
        omega (arith, more.1, ending.1, told_once es tl t),
        budgets_written (on_start call.key pol ∷ es ++ end),
      )
  Ended-IsCounted pol _ _ (succeeds tl val es t n) =
      let ending = ending_written call.key tl "success" in
      let end : List (Event F) = on_success call.key tl ∷ [] in
      let more = between_written es end t.1 in
      (
        more.0 ∙ ending.0,
        omega (arith, more.1, ending.1, told_once es tl t),
        budgets_written (on_start call.key pol ∷ es ++ end),
      )

  IsReported-IsCounted : (r : Result call) → IsReported call r → IsCounted r.0 r.1
  IsReported-IsCounted r (inl (v, e, n)) = subst (λ x. IsCounted x r.1) (sym e) tt
  IsReported-IsCounted r (inr (pol, ended)) = Ended-IsCounted pol r.0 r.1 ended

  -- With the Prometheus observer of the examples, a call with a timeline that returns raises the
  -- counter of calls exactly once, with the result failure if it returns an error and success if it
  -- does not, the counter of attempts once for each attempt on the timeline that it returns, and
  -- the counter of decisions once for each decision of a budget that the observer got. Starts of
  -- hedges raise none of the three.
  pub metrics_match :
      (ctx : C) (w : W)
      → IsCounted (do_value_with_timeline call ctx w).0 (do_value_with_timeline call ctx w).1
  metrics_match ctx w =
      IsReported-IsCounted (do_value_with_timeline call ctx w) (timeline_agrees call ctx w)
