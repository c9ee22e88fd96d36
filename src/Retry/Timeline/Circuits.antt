-- ===== src/Retry/Timeline/Circuits.antt =====
-- retry/executor.go, `doValueWithTimeline`: what a call does to the breaker of its key while no other
-- call uses it.
use rego.Common.{
  ℕ, ℤ, pos, ltb_ℤ, ◌≡◌, refl, sym, ap, ◌∙◌, subst, inl, inr, Bool, true, false, List, [], ◌∷◌,
  Option, none, some, Bool-cases, Option-cases, FloatOps, lookup,
}
use rego.Errors.{Error}
use rego.Policy.Key.{Key-eq}
use rego.Policy.Schema.{EffectivePolicy}
use rego.Circuit.Breaker.{Breaker, record_success, record_failure}
use rego.Circuit.Registry.{update, lookup-update}
use rego.Circuit.Registry
use rego.Classify.{Outcome, Classifier, Exit, returned, panicked}
use rego.Observe.Types.{Timeline}
use rego.Retry.Backoff.{compute_sleep}
use rego.Retry.Outcomes.{ClassifierMeta}
use rego.Retry.Group.{is_terminal}
use rego.Retry.Timeline.{
  TimelineCall, Notice, recorded, decided, spawned, TimelineEnv, Log, Result, Rounds, is_abort,
  fail, succeed, note, feed_all, report, pause_group, conclude_group,
}

-- Nothing but the call itself writes to the breakers.
pub record Alone {W C T F : Type 0} (env : TimelineEnv W C T F) : Type 0 where
  pub reads_written : (r : Registry.Registry) (w : W) → env.circuits (env.set_circuits r w) ≡ r
  pub keeps_timeout :
      (ctx : C) (d : ℤ) (w : W) → env.circuits (env.with_timeout ctx d w).1 ≡ env.circuits w
  pub keeps_cancel : (ctx : C) (w : W) → env.circuits (env.cancel ctx w) ≡ env.circuits w
  pub keeps_clock : (w : W) → env.circuits (env.clock w).1 ≡ env.circuits w
  pub keeps_now : (w : W) → env.circuits (env.now w).1 ≡ env.circuits w
  pub keeps_sleep : (ctx : C) (d : ℤ) (w : W) → env.circuits (env.sleep ctx d w).2 ≡ env.circuits w
  pub keeps_draw : (w : W) → env.circuits (env.draw w).1 ≡ env.circuits w
  pub keeps_feed : (d : ℤ) (w : W) → env.circuits (env.feed d w) ≡ env.circuits w
  pub keeps_group :
      (ctx : C) (pol : EffectivePolicy F) (attempt : ℕ) (c : Classifier T) (meta : ClassifierMeta)
      (backoff : ℤ) (w : W)
      → env.circuits (env.group ctx pol attempt c meta backoff w).2 ≡ env.circuits w

module _ {W C T F : Type 0} ⦃f : FloatOps F⦄ (call : TimelineCall W C T F)
    (alone : Alone call.env) where
  open call use {env, key}
  open alone use {
    reads_written, keeps_timeout, keeps_cancel, keeps_clock, keeps_now, keeps_sleep, keeps_draw,
    keeps_feed, keeps_group,
  }

  abbrev pub breaker : W → Option Breaker
  breaker w = lookup key (env.circuits w)

  pub feed_all-circuits :
      (records : List Notice) (w : W) → env.circuits (feed_all call records w) ≡ env.circuits w
  unfolding feed_all
  feed_all-circuits [] w = refl
  feed_all-circuits (decided ev ∷ records) w = feed_all-circuits records w
  feed_all-circuits (spawned r ∷ records) w = feed_all-circuits records w
  feed_all-circuits (recorded r ∷ records) w = feed_all-circuits records _ ∙ keeps_feed _ w

  pub fail-circuits :
      (err : Option Error) (log : Log F) (w : W)
      → env.circuits (fail call err log w).2 ≡ env.circuits w
  unfolding fail
  fail-circuits err log w = keeps_clock w

  succeed-circuits :
      (val : Option T) (log : Log F) (w : W)
      → env.circuits (succeed call val log w).2 ≡ env.circuits w
  unfolding succeed
  succeed-circuits none log w = keeps_clock w
  succeed-circuits (some v) log w = keeps_clock w

  -- A report reaches the breaker with two readings of its clock.
  report-breaker :
      (op : ℤ → ℤ → Breaker → Breaker) (cb : Breaker) (w : W)
      → breaker w ≡ some cb
      → (t : ℤ) × (later : ℤ) × (breaker (report call true op w) ≡ some (op t later cb))
  unfolding report
  report-breaker op cb w h =
      let t : ℤ = (env.now w).0 in
      let later : ℤ = (env.now (env.now w).1).0 in
      let w' : W = (env.now (env.now w).1).1 in
      let same : env.circuits w' ≡ env.circuits w = keeps_now _ ∙ keeps_now w in
      let h' : lookup key (env.circuits w') ≡ some cb = ap (lookup key) same ∙ h in
      (
        t,
        later,
        ap (lookup key) (reads_written (update key (op t later) (env.circuits w')) w')
            ∙ lookup-update key (op t later) (env.circuits w') cb h',
      )

  -- What a call has told a breaker when it ends: nothing, a success or a failure, once.
  pub data Told (cb : Breaker) : Exit (T × Timeline × Option Error) → Option Breaker → Type 0 where
    success :
        (v : T) (tl : Timeline) (t later : ℤ)
        → Told cb (returned (v, tl, none)) (some (record_success t later cb))
    nil_success : (v : _) (t later : ℤ) → Told cb (panicked v) (some (record_success t later cb))
    failure :
        (v : T) (tl : Timeline) (e : Error) (t later : ℤ)
        → Told cb (returned (v, tl, some e)) (some (record_failure t later cb))
    nothing : (v : T) (tl : Timeline) (e : Error) → Told cb (returned (v, tl, some e)) (some cb)

  abbrev pub IsTold : Breaker → Result call → Type 0
  IsTold cb r = Told cb r.0 (breaker r.2)

  -- The rounds that follow tell a breaker that has been told nothing.
  abbrev pub Goes : Breaker → Rounds call → Type 0
  Goes cb again =
      (b : ℤ) (err : Option Error) (lb : ℤ) (log : Log F) (w : W)
      → breaker w ≡ some cb
      → IsTold cb (again b err lb log w)

  pub fail-nothing :
      (cb : Breaker) (e : Error) (log : Log F) (w : W)
      → breaker w ≡ some cb
      → IsTold cb (fail call (some e) log w)
  unfolding fail
  fail-nothing cb e log w h =
      subst (Told cb _) (sym (ap (lookup key) (keeps_clock w) ∙ h)) (nothing _ _ e)

  fail-failure :
      (cb : Breaker) (e : Error) (log : Log F) (w : W)
      → breaker w ≡ some cb
      → IsTold cb (fail call (some e) log (report call true record_failure w))
  unfolding fail
  fail-failure cb e log w h =
      let (t, later, told) = report-breaker record_failure cb w h in
      subst (Told cb _) (sym (ap (lookup key) (keeps_clock _) ∙ told)) (failure _ _ e t later)

  pub succeed-success :
      (cb : Breaker) (val : Option T) (log : Log F) (w : W)
      → breaker w ≡ some cb
      → IsTold cb (succeed call val log (report call true record_success w))
  unfolding succeed
  succeed-success cb none log w h =
      let (t, later, told) = report-breaker record_success cb w h in
      subst (Told cb _) (sym (ap (lookup key) (keeps_clock _) ∙ told)) (nil_success _ t later)
  succeed-success cb (some v) log w h =
      let (t, later, told) = report-breaker record_success cb w h in
      subst (Told cb _) (sym (ap (lookup key) (keeps_clock _) ∙ told)) (success v _ t later)

  pub noted :
      (cb : Breaker) (records : List Notice) (w w' : W)
      → env.circuits w' ≡ env.circuits w
      → breaker w ≡ some cb
      → breaker (feed_all call records w') ≡ some cb
  noted cb records w w' same h = ap (lookup key) (feed_all-circuits records w' ∙ same) ∙ h

  pause_group-Told :
      (cb : Breaker) (again : Rounds call)
      → Goes cb again
      → (ctx : C) (pol : EffectivePolicy F) (b : ℤ) (err : Option Error) (out : Outcome)
        (log : Log F) (w : W)
      → breaker w ≡ some cb
      → IsTold cb (pause_group call again ctx pol b err out log w)
  unfolding pause_group
  pause_group-Told cb again ih ctx pol b err out log w h =
      let w₁ : W = (env.draw w).1 in
      let d : ℤ = compute_sleep (env.draw w).0 b pol.retry out in
      let slept : Option Error × List Notice × W = env.sleep ctx d w₁ in
      let h' : breaker (feed_all call slept.1 slept.2) ≡ some cb =
        noted cb slept.1 w slept.2 (keeps_sleep ctx d w₁ ∙ keeps_draw w) h in
      elim (Bool-cases (ltb_ℤ (pos 0) d)) [
        | inl s ↦ elim (Option-cases slept.0) [
          | inl n ↦ rw (s, n) (ih _ err d (note call slept.1 log) _ h')
          | inr (e, n) ↦ rw (s, n) (fail-nothing cb e (note call slept.1 log) _ h')
        ]
        | inr s ↦ rw s (ih _ err d log w₁ (ap (lookup key) (keeps_draw w) ∙ h))
      ]

  pub conclude_group-Told :
      (cb : Breaker) (again : Rounds call) (is_last : Bool)
      → (is_last ≡ false → Goes cb again)
      → (ctx : C) (pol : EffectivePolicy F) (attempt : ℕ) (b : ℤ) (prev_err err : Option Error)
        (out : Outcome) (log : Log F) (w : W)
      → breaker w ≡ some cb
      → IsTold cb (conclude_group call again ctx pol true attempt is_last b prev_err err out log w)
  unfolding conclude_group
  conclude_group-Told cb again is_last ih ctx pol attempt b prev_err err out log w h =
      elim (Bool-cases (is_terminal out.kind)) [
        | inl t ↦ elim (Bool-cases (is_abort out.kind)) [
          | inl a ↦ rw (t, a) (fail-nothing cb _ log w h)
          | inr a ↦ rw (t, a) (fail-failure cb _ log w h)
        ]
        | inr t ↦ elim (Bool-cases is_last) [
          | inl l ↦ rw (t, l) (fail-failure cb _ log w h)
          | inr l ↦ rw (t, l) (pause_group-Told cb again (ih l) ctx pol b err out log w h)
        ]
      ]
