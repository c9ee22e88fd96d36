-- ===== src/Retry/Timeline/Verdicts.antt =====
-- retry/executor.go, `doValueWithTimeline`: how its loop leaves the breaker of its key.
use rego.Common.{
  ℕ, zero, suc, ◌+◌, ℤ, pos, ltb_ℤ, ◌==◌, ◌≡◌, ◌≤ℤ◌, sym, ap, ◌∙◌, subst, inl, inr, Bool, true,
  false, List, Option, none, some, Bool-cases, Option-cases, FloatOps, arith, lookup,
}
use rego.Errors.{Error}
use rego.Policy.Key.{Key-eq}
use rego.Policy.Schema.{EffectivePolicy}
use rego.Circuit.Breaker.{Breaker, state_half_open, record_success}
use rego.Classify.{OutcomeKind, Classifier, Exit}
use rego.Observe.Types.{Timeline}
use rego.Retry.Outcomes.{ClassifierMeta}
use rego.Retry.Resolve.{Attributes}
use rego.Retry.Group.{is_terminal}
use rego.Retry.Timeline.{
  TimelineCall, Notice, Answer, Log, Result, Rounds, is_abort, fail, succeed, note, feed_all,
  report, terminal_of, conclude_group, group_round, group_loop, run_groups,
}
use rego.Retry.Timeline.Ended.{attempts_of-suc}
use rego.Retry.Timeline.Circuits.{
  feed_all-circuits, fail-circuits, Alone, breaker, IsTold, Goes, Told, noted, fail-nothing,
  succeed-success, conclude_group-Told,
}

abort_is_terminal : (k : OutcomeKind) → is_abort k ≡ true → is_terminal k ≡ true
abort_is_terminal k h = ground (arith, h)

-- The breaker that Allow leaves behind when it lets a probe through.
abbrev pub IsProbing : Breaker → Type 0
IsProbing cb = (cb.state ≡ state_half_open) × (cb.max_probes ≤ℤ cb.probes_sent)

module _ {W C T F : Type 0} ⦃f : FloatOps F⦄ (call : TimelineCall W C T F)
    (alone : Alone call.env) where
  open call use {env, key}

  by_end :
      (cb : Breaker) (a b : Result call) → a ≡ b → IsTold call alone cb b → IsTold call alone cb a
  by_end cb a b e h = subst (IsTold call alone cb) (sym e) h

  group_round-Told :
      (cb : Breaker) (again : Rounds call) (is_last : Bool)
      → (is_last ≡ false → Goes call alone cb again)
      → (ctx : C) (pol : EffectivePolicy F) (c : Classifier T) (meta : ClassifierMeta) (attempt : ℕ)
      → Goes call alone cb (group_round call again ctx pol c meta true attempt is_last)
  unfolding group_round
  group_round-Told cb again is_last ih ctx pol c meta attempt b err lb log w h =
      let went : Answer T × List Notice × W = env.group ctx pol attempt c meta lb w in
      let log' : Log F = note call went.1 log in
      let w' : W = feed_all call went.1 went.2 in
      let h' : breaker call alone w' ≡ some cb =
        noted call alone cb went.1 w went.2 (alone.keeps_group ctx pol attempt c meta lb w) h in
      let good : Result call = succeed call went.0.val log' (report call true record_success w') in
      let bad : Result call =
        conclude_group call again ctx pol true attempt is_last b err went.0.err went.0.outcome log'
          w' in
      let all : Result call =
        group_round call again ctx pol c meta true attempt is_last b err lb log w in
      elim (Option-cases (env.ctx_err ctx w)) [
        | inr (e, x) ↦
            by_end cb all (fail call (some e) log w) (ground (arith, x))
              (fail-nothing call alone cb e log w h)
        | inl x ↦ elim (Bool-cases went.0.success) [
          | inl s ↦
              by_end cb all good (ground (arith, x, s))
                (succeed-success call alone cb went.0.val log' w' h')
          | inr s ↦ by_end cb all bad (ground (arith, x, s)) (
              conclude_group-Told call alone cb again is_last ih ctx pol attempt b err went.0.err
                went.0.outcome log' w' h')
        ]
      ]

  group_loop-Told :
      (cb : Breaker) (ctx : C) (pol : EffectivePolicy F) (c : Classifier T) (meta : ClassifierMeta)
      (left attempt : ℕ)
      → Goes call alone cb (group_loop call ctx pol c meta true (suc left) attempt)
  unfolding group_loop
  group_loop-Told cb ctx pol c meta zero attempt b err lb log w h =
      group_round-Told cb (group_loop call ctx pol c meta true 0 (attempt + 1)) true
        (λ more. absurd (cc more)) ctx pol c meta attempt b err lb log w h
  group_loop-Told cb ctx pol c meta (suc left) attempt b err lb log w h =
      group_round-Told cb (group_loop call ctx pol c meta true (suc left) (attempt + 1))
        (suc left == 0) (λ more. group_loop-Told cb ctx pol c meta left (attempt + 1)) ctx pol c
        meta attempt b err lb log w h

  canceled :
      (cb : Breaker) (ctx : C) (exit : Exit (T × Timeline × Option Error)) (w : W)
      → Told call alone cb exit (breaker call alone w)
      → Told call alone cb exit (breaker call alone (env.cancel ctx w))
  canceled cb ctx exit w h =
      subst (Told call alone cb exit) (sym (ap (lookup key) (alone.keeps_cancel ctx w))) h

  -- While nothing but the call writes to the breakers, the groups of one call tell the breaker of
  -- its key at most one result: a success exactly if the call succeeds, and otherwise one failure
  -- or nothing.
  pub reported_once :
      (cb : Breaker) (ctx : C) (pol : EffectivePolicy F) (start : ℤ) (attributes : Attributes)
      (c : Classifier T) (meta : ClassifierMeta) (w : W)
      → breaker call alone w ≡ some cb
      → IsTold call alone cb (run_groups call ctx pol start attributes c meta true w)
  unfolding run_groups
  reported_once cb ctx pol start attributes c meta w h =
      let (m, e) = attempts_of-suc pol.retry.max_attempts in
      elim (Bool-cases (ltb_ℤ (pos 0) pol.retry.overall_timeout)) [
        | inl t ↦
            let (ctx', w') = env.with_timeout ctx pol.retry.overall_timeout w in
            rw (t, e)
              (canceled cb ctx' _ _ (
                group_loop-Told cb ctx' pol c meta m 0 pol.retry.initial_backoff none (pos 0) _ w'
                  (ap (lookup key) (alone.keeps_timeout ctx _ w) ∙ h)))
        | inr t ↦
            rw (t, e)
              (group_loop-Told cb ctx pol c meta m 0 pol.retry.initial_backoff none (pos 0) _ w h)
      ]

  aborted_round :
      (again : Rounds call) (ctx : C) (pol : EffectivePolicy F) (c : Classifier T)
      (meta : ClassifierMeta) (watched is_last : Bool) (attempt : ℕ) (b : ℤ) (err : Option Error)
      (lb : ℤ) (log : Log F) (w : W)
      → (env.group ctx pol attempt c meta lb w).0.success ≡ false
      → is_abort (env.group ctx pol attempt c meta lb w).0.outcome.kind ≡ true
      → env.circuits
          (group_round call again ctx pol c meta watched attempt is_last b err lb log w).2
        ≡ env.circuits w
  unfolding group_round conclude_group
  aborted_round again ctx pol c meta watched is_last attempt b err lb log w s a =
      let went : Answer T × List Notice × W = env.group ctx pol attempt c meta lb w in
      let log' : Log F = note call went.1 log in
      let w' : W = feed_all call went.1 went.2 in
      let same : env.circuits w' ≡ env.circuits w =
        feed_all-circuits call alone went.1 went.2
        ∙ alone.keeps_group ctx pol attempt c meta lb w in
      let terminal : is_terminal went.0.outcome.kind ≡ true = abort_is_terminal _ a in
      elim (Option-cases (env.ctx_err ctx w)) [
        | inr (e, x) ↦ ground (arith, x, fail-circuits call alone (some e) log w)
        | inl x ↦ ground (
          arith,
          x,
          s,
          a,
          terminal,
          same,
          fail-circuits call alone
              (some (terminal_of call ctx attempt err went.0.err went.0.outcome w')) log' w',
        )
      ]

  pub aborted_groups :
      (ctx : C) (pol : EffectivePolicy F) (start : ℤ) (attributes : Attributes) (c : Classifier T)
      (meta : ClassifierMeta) (watched : Bool) (w : W)
      → ((ctx' : C) (w' : W)
          → ((env.group ctx' pol 0 c meta (pos 0) w').0.success ≡ false)
            × (is_abort (env.group ctx' pol 0 c meta (pos 0) w').0.outcome.kind ≡ true))
      → env.circuits (run_groups call ctx pol start attributes c meta watched w).2 ≡ env.circuits w
  unfolding run_groups group_loop
  aborted_groups ctx pol start attributes c meta watched w aborts =
      let (m, e) = attempts_of-suc pol.retry.max_attempts in
      elim (Bool-cases (ltb_ℤ (pos 0) pol.retry.overall_timeout)) [
        | inl t ↦
            let (ctx', w') = env.with_timeout ctx pol.retry.overall_timeout w in
            rw (t, e)
              (alone.keeps_cancel ctx' _
                ∙ aborted_round _ ctx' pol c meta watched (m == 0) 0 pol.retry.initial_backoff none
                    (pos 0) _ w' (aborts ctx' w').0 (aborts ctx' w').1
                ∙ alone.keeps_timeout ctx _ w)
        | inr t ↦
            rw (t, e)
              (aborted_round _ ctx pol c meta watched (m == 0) 0 pol.retry.initial_backoff none
                (pos 0) _ w (aborts ctx w).0 (aborts ctx w).1)
      ]
