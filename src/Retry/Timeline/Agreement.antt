-- ===== src/Retry/Timeline/Agreement.antt =====
-- retry/executor.go, `doValueWithTimeline`: what the caller, the timeline and the observer learn.
use rego.Common.{
  ℤ, pos, ◌⊎◌, String, ◌≡◌, refl, inl, inr, Bool, true, false, [], Option, none, some, Bool-cases,
  FloatOps,
}
use rego.Errors.{Error}
use rego.Policy.Schema.{EffectivePolicy}
use rego.Circuit.Breaker.{Decision}
use rego.Classify.{Classifier, Exit, returned, panicked}
use rego.Retry.Outcomes.{ClassifierMeta}
use rego.Retry.Resolve.{Attributes, resolve_policy_with_attributes}
use rego.Retry.Timeline.{
  TimelineCall, Result, refuse_call, run_groups, missing_classifier, without_hedges, consult,
  with_classifier, classify_and_run, with_decision, with_policy, do_value_with_timeline,
}
use rego.Retry.Timeline.Ended.{IsEnded, fails, group_loop-Ended, attempts_of-suc}

module _ {W C T F : Type 0} ⦃f : FloatOps F⦄ (call : TimelineCall W C T F) where
  open call use {env, key, zero_value}

  -- How a call ends: by a panic of the provider before any of the observer's calls, or as above.
  abbrev pub IsReported : Result call → Type 0
  IsReported r =
      ((v : String) × (r.0 ≡ panicked v) × (r.1 ≡ []))
      ⊎ ((pol : EffectivePolicy F) × IsEnded call pol r)

  refuse_call-Ended :
      (pol : EffectivePolicy F) (start : ℤ) (attributes : Attributes) (e : Error) (w : W)
      → IsEnded call pol (refuse_call call pol start attributes e w)
  unfolding refuse_call
  refuse_call-Ended pol start attributes e w = fails _ e [] (refl, refl) refl

  run_groups-Ended :
      (pol : EffectivePolicy F) (ctx : C) (start : ℤ) (attributes : Attributes) (c : Classifier T)
      (meta : ClassifierMeta) (watched : Bool) (w : W)
      → IsEnded call pol (run_groups call ctx pol start attributes c meta watched w)
  unfolding run_groups
  run_groups-Ended pol ctx start attributes c meta watched w =
      let (m, e) = attempts_of-suc pol.retry.max_attempts in
      rw e (
        group_loop-Ended call pol _ c meta watched m 0 pol.retry.initial_backoff none (pos 0) _ _
          ([], refl, (refl, refl)))

  with_classifier-Ended :
      (pol : EffectivePolicy F) (ctx : C) (start : ℤ) (attributes : Attributes) (watched : Bool)
      (found : Option (Classifier T) × ClassifierMeta × Option Error) (w : W)
      → IsEnded call pol (with_classifier call ctx pol start attributes watched found w)
  unfolding with_classifier
  with_classifier-Ended pol ctx start attributes watched (found, meta, some e) w =
      refuse_call-Ended pol start (missing_classifier call meta attributes) e w
  with_classifier-Ended pol ctx start attributes watched (some c, meta, none) w =
      run_groups-Ended pol ctx start attributes c meta watched w
  with_classifier-Ended pol ctx start attributes watched (none, meta, none) w =
      run_groups-Ended pol ctx start attributes call.default_classifier meta watched w

  with_decision-Ended :
      (pol : EffectivePolicy F) (ctx : C) (start : ℤ) (attributes : Attributes)
      (decision : Option Decision) (w : W)
      → (pol' : EffectivePolicy F) × IsEnded call pol'
          (with_decision call ctx pol start attributes decision w)
  unfolding with_decision classify_and_run
  with_decision-Ended pol ctx start attributes none w =
      (pol, with_classifier-Ended pol ctx start attributes false _ w)
  with_decision-Ended pol ctx start attributes (some d) w = elim (Bool-cases d.allowed) [
    | inl a ↦ (
      without_hedges call (some d) pol,
      rw a (with_classifier-Ended _ ctx start attributes true _ w),
    )
    | inr a ↦ (pol, rw a (refuse_call-Ended pol start _ _ w))
  ]

  with_policy-IsReported :
      (ctx : C) (start : ℤ) (exit : Exit (EffectivePolicy F × Attributes × Option Error)) (w : W)
      → IsReported (with_policy call ctx start exit w)
  unfolding with_policy
  with_policy-IsReported ctx start (panicked v) w = inl (v, refl, refl)
  with_policy-IsReported ctx start (returned (pol, attributes, some e)) w =
      inr (pol, refuse_call-Ended pol start attributes e w)
  with_policy-IsReported ctx start (returned (pol, attributes, none)) w =
      let seen : Option Decision × W = consult call pol w in
      inr (with_decision-Ended pol ctx start attributes seen.0 seen.1)

  -- However a call with a timeline ends once its policy is resolved or refused, the caller, the
  -- timeline and the observer learn the same: an error is the timeline's final error and comes with
  -- the zero value, a value comes with a timeline without an error, and up to the end of the call
  -- the observer got the start, then one call for each attempt on the timeline, in its order and
  -- with the call's key, among which only decisions of budgets and starts of hedges stand, and then
  -- one call for the success or the failure with the very timeline that is returned. A success with
  -- a nil value ends with a panic behind such calls, and a provider's panic that is not recovered
  -- comes before all of them.
  pub timeline_agrees : (ctx : C) (w : W) → IsReported (do_value_with_timeline call ctx w)
  unfolding do_value_with_timeline
  timeline_agrees ctx w =
      let resolved : Exit (EffectivePolicy F × Attributes × Option Error) × W =
        resolve_policy_with_attributes call.text call.policy_mode call.recover_panics call.provider
          key (env.clock w).1 in
      with_policy-IsReported ctx (env.clock w).0 resolved.0 resolved.1
