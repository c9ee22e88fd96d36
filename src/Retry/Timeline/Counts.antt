-- ===== src/Retry/Timeline/Counts.antt =====
-- retry/executor.go, `doValueWithTimeline`: how many attempts the groups of a call start.
use rego.Common.{
  ℕ, zero, suc, ◌+◌, ◌*◌, ◌≤◌, ◌==◌, ℤ, pos, ltb_ℤ, ◌≡◌, inl, inr, Bool, true, false, List, [], ◌∷◌,
  Option, none, some, Bool-cases, Option-cases, FloatOps, arith,
}
use rego.Errors.{Error}
use rego.Policy.Schema.{EffectivePolicy}
use rego.Circuit.Breaker.{Breaker, record_success, record_failure}
use rego.Circuit.Registry
use rego.Classify.{Outcome, Classifier}
use rego.Retry.Backoff.{compute_sleep}
use rego.Retry.Outcomes.{ClassifierMeta}
use rego.Retry.Resolve.{Attributes}
use rego.Retry.Fast.{attempts_of}
use rego.Retry.Group.{is_terminal}
use rego.Retry.Timeline.{
  TimelineCall, Notice, recorded, decided, spawned, TimelineEnv, Answer, Log, Rounds, is_abort,
  fail, succeed, note, feed_all, report, pause_group, conclude_group, group_round, group_loop,
  run_groups,
}

-- A count that each group raises by at most `k`, and that nothing else raises.
pub record Counts {W C T F : Type 0} (env : TimelineEnv W C T F) (count : W → ℕ) (k : ℕ)
    : Type 0 where
  pub counts_group :
      (ctx : C) (pol : EffectivePolicy F) (attempt : ℕ) (c : Classifier T) (meta : ClassifierMeta)
      (backoff : ℤ) (w : W)
      → count (env.group ctx pol attempt c meta backoff w).2 ≤ count w + k
  pub keeps_timeout : (ctx : C) (d : ℤ) (w : W) → count (env.with_timeout ctx d w).1 ≤ count w
  pub keeps_cancel : (ctx : C) (w : W) → count (env.cancel ctx w) ≤ count w
  pub keeps_clock : (w : W) → count (env.clock w).1 ≤ count w
  pub keeps_now : (w : W) → count (env.now w).1 ≤ count w
  pub keeps_sleep : (ctx : C) (d : ℤ) (w : W) → count (env.sleep ctx d w).2 ≤ count w
  pub keeps_draw : (w : W) → count (env.draw w).1 ≤ count w
  pub keeps_feed : (d : ℤ) (w : W) → count (env.feed d w) ≤ count w
  pub keeps_circuits : (r : Registry.Registry) (w : W) → count (env.set_circuits r w) ≤ count w

module _ {W C T F : Type 0} ⦃f : FloatOps F⦄ (call : TimelineCall W C T F) (count : W → ℕ) (k : ℕ)
    (counts : Counts call.env count k) where
  open call use {env, key}

  feed_all-count : (records : List Notice) (w : W) → count (feed_all call records w) ≤ count w
  unfolding feed_all
  feed_all-count [] w = omega arith
  feed_all-count (decided ev ∷ records) w = feed_all-count records w
  feed_all-count (spawned r ∷ records) w = feed_all-count records w
  feed_all-count (recorded r ∷ records) w =
      omega (arith, feed_all-count records (env.feed _ w), counts.keeps_feed _ w)

  report-count :
      (watched : Bool) (op : ℤ → ℤ → Breaker → Breaker) (w : W)
      → count (report call watched op w) ≤ count w
  unfolding report
  report-count false op w = omega arith
  report-count true op w = omega (
    arith,
    counts.keeps_now w,
    counts.keeps_now (env.now w).1,
    counts.keeps_circuits _ (env.now (env.now w).1).1,
  )

  fail-count : (err : Option Error) (log : Log F) (w : W) → count (fail call err log w).2 ≤ count w
  unfolding fail
  fail-count err log w = counts.keeps_clock w

  succeed-count :
      (val : Option T) (log : Log F) (w : W) → count (succeed call val log w).2 ≤ count w
  unfolding succeed
  succeed-count none log w = counts.keeps_clock w
  succeed-count (some v) log w = counts.keeps_clock w

  -- The rounds that follow raise the count by at most `n`.
  abbrev IsBounded : Rounds call → ℕ → Type 0
  IsBounded again n =
      (b : ℤ) (err : Option Error) (lb : ℤ) (log : Log F) (w : W)
      → count (again b err lb log w).2 ≤ count w + n

  pause_group-count :
      (again : Rounds call) (n : ℕ)
      → IsBounded again n
      → (ctx : C) (pol : EffectivePolicy F) (b : ℤ) (err : Option Error) (out : Outcome)
        (log : Log F) (w : W)
      → count (pause_group call again ctx pol b err out log w).2 ≤ count w + n
  unfolding pause_group
  pause_group-count again n ih ctx pol b err out log w =
      let w₁ : W = (env.draw w).1 in
      let d : ℤ = compute_sleep (env.draw w).0 b pol.retry out in
      let slept : Option Error × List Notice × W = env.sleep ctx d w₁ in
      let w₂ : W = feed_all call slept.1 slept.2 in
      let log' : Log F = note call slept.1 log in
      let kept : count w₂ ≤ count w =
        omega (
          arith,
          feed_all-count slept.1 slept.2,
          counts.keeps_sleep ctx d w₁,
          counts.keeps_draw w,
        ) in
      elim (Bool-cases (ltb_ℤ (pos 0) d)) [
        | inl s ↦ elim (Option-cases slept.0) [
          | inl e ↦ rw (s, e) (omega (arith, kept, ih _ err d log' w₂))
          | inr (e, x) ↦ rw (s, x) (omega (arith, kept, fail-count (some e) log' w₂))
        ]
        | inr s ↦ rw s (omega (arith, counts.keeps_draw w, ih _ err d log w₁))
      ]

  conclude_group-count :
      (again : Rounds call) (n : ℕ)
      → IsBounded again n
      → (ctx : C) (pol : EffectivePolicy F) (watched : Bool) (attempt : ℕ) (is_last : Bool) (b : ℤ)
        (prev_err err : Option Error) (out : Outcome) (log : Log F) (w : W)
      → count (conclude_group call again ctx pol watched attempt is_last b prev_err err out log w).2
        ≤ count w + n
  unfolding conclude_group
  conclude_group-count again n ih ctx pol watched attempt is_last b prev_err err out log w =
      elim (Bool-cases (is_terminal out.kind)) [
        | inl t ↦ elim (Bool-cases (is_abort out.kind)) [
          | inl a ↦ rw (t, a) (omega (arith, fail-count (some _) log w))
          | inr a ↦
              rw (t, a)
                (omega (
                  arith,
                  fail-count (some _) log (report call watched record_failure w),
                  report-count watched record_failure w,
                ))
        ]
        | inr t ↦ elim (Bool-cases is_last) [
          | inl l ↦
              rw (t, l)
                (omega (
                  arith,
                  fail-count (some _) log (report call watched record_failure w),
                  report-count watched record_failure w,
                ))
          | inr l ↦ rw (t, l) (pause_group-count again n ih ctx pol b err out log w)
        ]
      ]

  group_round-count :
      (again : Rounds call) (n : ℕ)
      → IsBounded again n
      → (ctx : C) (pol : EffectivePolicy F) (c : Classifier T) (meta : ClassifierMeta)
        (watched : Bool) (attempt : ℕ) (is_last : Bool)
      → IsBounded (group_round call again ctx pol c meta watched attempt is_last) (k + n)
  unfolding group_round
  group_round-count again n ih ctx pol c meta watched attempt is_last b err lb log w =
      let went : Answer T × List Notice × W = env.group ctx pol attempt c meta lb w in
      let log' : Log F = note call went.1 log in
      let w' : W = feed_all call went.1 went.2 in
      let raised : count w' ≤ count w + k =
        omega
          (arith, feed_all-count went.1 went.2, counts.counts_group ctx pol attempt c meta lb w) in
      elim (Option-cases (env.ctx_err ctx w)) [
        | inr (e, x) ↦ ground (arith, x, fail-count (some e) log w)
        | inl x ↦ elim (Bool-cases went.0.success) [
          | inl s ↦ ground (
            arith,
            x,
            s,
            raised,
            report-count watched record_success w',
            succeed-count went.0.val log' (report call watched record_success w'),
          )
          | inr s ↦ ground (
            arith,
            x,
            s,
            raised,
            conclude_group-count again n ih ctx pol watched attempt is_last b err went.0.err
                went.0.outcome log' w',
          )
        ]
      ]

  suc_times : (n : ℕ) → suc n * k ≡ k + n * k
  suc_times n = omega arith

  group_loop-count :
      (ctx : C) (pol : EffectivePolicy F) (c : Classifier T) (meta : ClassifierMeta)
      (watched : Bool) (left attempt : ℕ)
      → IsBounded (group_loop call ctx pol c meta watched left attempt) (left * k)
  unfolding group_loop
  group_loop-count ctx pol c meta watched zero attempt b err lb log w =
      omega (arith, fail-count err log w)
  group_loop-count ctx pol c meta watched (suc left) attempt b err lb log w = omega (
    arith,
    suc_times left,
    group_round-count (group_loop call ctx pol c meta watched left (attempt + 1)) (left * k)
        (group_loop-count ctx pol c meta watched left (attempt + 1)) ctx pol c meta watched attempt
        (left == 0) b err lb log w,
  )

  -- However its groups end, a call with a timeline starts at most `MaxAttempts` times as many
  -- attempts as one group can, and those of one group where that is not positive. The count is any
  -- function of the state that each group raises by at most `k` and that nothing else raises.
  pub attempts_bounded :
      (ctx : C) (pol : EffectivePolicy F) (start : ℤ) (attributes : Attributes) (c : Classifier T)
      (meta : ClassifierMeta) (watched : Bool) (w : W)
      → count (run_groups call ctx pol start attributes c meta watched w).2
        ≤ count w + attempts_of pol.retry.max_attempts * k
  unfolding run_groups
  attempts_bounded ctx pol start attributes c meta watched w =
      let n : ℕ = attempts_of pol.retry.max_attempts in
      let d : ℤ = pol.retry.overall_timeout in
      let (ctx', w₁) = env.with_timeout ctx d w in
      elim (Bool-cases (ltb_ℤ (pos 0) d)) [
        | inl t ↦ rw t (
            omega (
              arith,
              counts.keeps_timeout ctx d w,
              group_loop-count ctx' pol c meta watched n 0 pol.retry.initial_backoff none (pos 0) _
                  w₁,
              counts.keeps_cancel ctx' _,
            ))
        | inr t ↦
            rw t (
              group_loop-count ctx pol c meta watched n 0 pol.retry.initial_backoff none (pos 0) _
                w)
      ]
