-- ===== src/Retry/Timeline/Probes.antt =====
-- retry/executor.go, `doValueWithTimeline`: a probe of the circuit breaker that ends without a result.
use rego.Common.{
  ℤ, pos, ◌+ℤ◌, ◌≡◌, ◌≢◌, refl, ap, ◌∙◌, Bool, true, false, List, map, Option, none, some, FloatOps,
  arith, lookup,
}
use rego.Errors.{Error}
use rego.Policy.Key.{Key-eq}
use rego.Policy.Schema.{EffectivePolicy}
use rego.Circuit.Breaker.{
  Breaker, Decision, state_closed, answers, allow, update_state, decide_allow,
}
use rego.Circuit.Breaker.Invariant.{Inv}
use rego.Circuit.Breaker.Probes.{refused, full_answers}
use rego.Circuit.Registry.{get_found, update, lookup-update}
use rego.Classify.{Classifier, returned}
use rego.Retry.Outcomes.{ClassifierMeta}
use rego.Retry.Resolve.{Attributes}
use rego.Retry.Timeline.{
  TimelineCall, is_abort, refuse_call, ask_breaker, consult, with_classifier, classify_and_run,
  with_decision, with_policy,
}
use rego.Retry.Timeline.Circuits.{Alone, breaker}
use rego.Retry.Timeline.Verdicts.{IsProbing, aborted_groups}

-- A breaker that is not closed and lets a request through has no probe left.
allowed_probe :
    (t : ℤ) (cb : Breaker)
    → Inv cb
    → cb.state ≢ state_closed
    → (allow t cb).1.allowed ≡ true
    → IsProbing (allow t cb).0
unfolding allow update_state decide_allow ◌+ℤ◌
allowed_probe t cb v o a = ground arith

module _ {W C T F : Type 0} ⦃f : FloatOps F⦄ (call : TimelineCall W C T F)
    (alone : Alone call.env) where
  open call use {env, key}

  -- Every group for the first attempt aborts.
  abbrev pub Aborts : Type 0
  Aborts =
      (ctx : C) (pol : EffectivePolicy F) (c : Classifier T) (meta : ClassifierMeta) (w : W)
      → ((env.group ctx pol 0 c meta (pos 0) w).0.success ≡ false)
        × (is_abort (env.group ctx pol 0 c meta (pos 0) w).0.outcome.kind ≡ true)

  consult-found :
      (pol : EffectivePolicy F) (w : W) (cb : Breaker)
      → pol.circuit.enabled ≡ true
      → breaker call alone w ≡ some cb
      → (t : ℤ) × ((consult call pol w).0 ≡ some (allow t cb).1)
        × (breaker call alone (consult call pol w).1 ≡ some (allow t cb).0)
  unfolding consult ask_breaker
  consult-found pol w cb e h =
      let w₀ : W = env.set_circuits (env.circuits w) w in
      let w' : W = (env.now w₀).1 in
      let t : ℤ = (env.now w₀).0 in
      let same : env.circuits w' ≡ env.circuits w =
        alone.keeps_now w₀ ∙ alone.reads_written (env.circuits w) w in
      let h' : lookup key (env.circuits w') ≡ some cb = ap (lookup key) same ∙ h in
      let asked : consult call pol w ≡ ask_breaker call (env.circuits w, some cb) w =
        rw (get_found key pol.circuit (env.circuits w) cb e h, e) refl in
      (
        t,
        ap (λ (r : Option Decision × W). r.0) asked,
        ap (λ (r : Option Decision × W). breaker call alone r.1) asked
            ∙ ap (lookup key)
                (alone.reads_written (update key (λ b. (allow t b).0) (env.circuits w')) w')
            ∙ lookup-update key (λ b. (allow t b).0) (env.circuits w') cb h',
      )

  aborted_classifier :
      (ctx : C) (pol : EffectivePolicy F) (start : ℤ) (attributes : Attributes) (watched : Bool)
      (found : Option (Classifier T) × ClassifierMeta × Option Error) (w : W)
      → Aborts
      → env.circuits (with_classifier call ctx pol start attributes watched found w).2
        ≡ env.circuits w
  unfolding with_classifier refuse_call
  aborted_classifier ctx pol start attributes watched (found, meta, some e) w aborts =
      alone.keeps_clock w
  aborted_classifier ctx pol start attributes watched (some c, meta, none) w aborts =
      aborted_groups call alone ctx pol start attributes c meta watched w
        (λ ctx' w'. aborts ctx' pol c meta w')
  aborted_classifier ctx pol start attributes watched (none, meta, none) w aborts =
      aborted_groups call alone ctx pol start attributes call.default_classifier meta watched w
        (λ ctx' w'. aborts ctx' pol call.default_classifier meta w')

  -- If a breaker that is not closed lets a call through as its probe, nothing but the call writes
  -- to the breakers, and every group aborts at the first attempt, then the call leaves the breaker
  -- in a state in which it refuses every sequence of later requests, at any times. This holds for a
  -- call that finds no classifier and for one whose context has ended, too.
  pub aborted_probe_blocks :
      (ctx : C) (pol : EffectivePolicy F) (start : ℤ) (attributes : Attributes) (w : W)
      (cb : Breaker) (d : Decision)
      → pol.circuit.enabled ≡ true
      → breaker call alone w ≡ some cb
      → Inv cb
      → cb.state ≢ state_closed
      → (consult call pol w).0 ≡ some d
      → d.allowed ≡ true
      → Aborts
      → (cb' : Breaker) × (breaker call alone
            (with_policy call ctx start (returned (pol, attributes, none)) w).2
          ≡ some cb')
        × ((times : List ℤ) → answers times cb' ≡ map (λ _. refused) times)
  unfolding with_policy with_decision classify_and_run
  aborted_probe_blocks ctx pol start attributes w cb d e h v o x a aborts =
      let (t, answer, after) = consult-found pol w cb e h in
      let probing : IsProbing (allow t cb).0 = allowed_probe t cb v o (cc (answer, x, a)) in
      (
        (allow t cb).0,
        rw (x, a)
            (ap (lookup key)
                (aborted_classifier ctx _ start attributes true _ (consult call pol w).1 aborts)
              ∙ after),
        λ times. full_answers times (allow t cb).0 probing.0 probing.1,
      )
