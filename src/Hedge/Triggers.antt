-- ===== src/Hedge/Triggers.antt =====
-- hedge/fixed_delay.go and hedge/triggers.go.
use rego.Common.{
  ℤ, pos, ◌+ℤ◌, ◌-ℤ◌, ◌*ℤ◌, ◌<ℤ◌, +ℤ_parts, -ℤ_parts, eq_of_parts, ltb_ℤ, leb_ℤ, ◌≡◌, String,
  str_eq, Bool, Bool-cases, inl, inr, true, false, Option, none, some, arith, if◌then◌else◌,
}
use rego.Hedge.Tracker.{LatencySnapshot}

-- `HedgeState`, less the starting time, which no trigger reads.
pub record HedgeState : Type 0 where
  pub attempts_launched : ℤ
  pub max_hedges : ℤ
  pub elapsed : ℤ
  pub snapshot : LatencySnapshot
  pub hedge_delay : ℤ

-- `1+state.MaxHedges` attempts or more are out.
unfoldable pub is_exhausted : HedgeState → Bool
is_exhausted s = leb_ℤ (pos 1 +ℤ s.max_hedges) s.attempts_launched

-- When the next hedge is due.
unfoldable pub target : ℤ → HedgeState → ℤ
target delay s =
    (if ltb_ℤ (pos 0) s.hedge_delay then s.hedge_delay else delay) *ℤ s.attempts_launched

-- `FixedDelayTrigger.ShouldSpawnHedge`
unfoldable pub fixed_delay : ℤ → HedgeState → Bool × ℤ
fixed_delay delay s =
    if is_exhausted s
    then (false, pos 0)
    else if ltb_ℤ s.elapsed (target delay s)
    then (false, target delay s -ℤ s.elapsed)
    else (true, pos 0)

-- The threshold for a percentile in lower case; `none` is an unknown one.
unfoldable pub threshold_of : String → LatencySnapshot → Option ℤ
threshold_of p s =
    if str_eq p "p50"
    then some s.p50
    else if str_eq p "p90"
    then some s.p90
    else if str_eq p "p95"
    then some s.p95
    else if str_eq p "p99"
    then some s.p99
    else none

-- `LatencyTrigger.ShouldSpawnHedge`, with `strings.ToLower` of the percentile as its argument.
unfoldable pub latency : String → HedgeState → Bool × ℤ
latency percentile s = elim (threshold_of percentile s.snapshot) [
  | none ↦ (false, pos 0)
  | some threshold ↦
      if leb_ℤ threshold (pos 0)
      then (false, pos 0)
      else if ltb_ℤ threshold s.elapsed
      then if is_exhausted s then (false, pos 0) else (true, pos 0)
      else (false, threshold -ℤ s.elapsed)
]

due_shift : (t e p : ℤ) → ltb_ℤ (e +ℤ p) t ≡ ltb_ℤ p (t -ℤ e)
due_shift t e p = ground (arith, +ℤ_parts e p, -ℤ_parts t e)

wait_shift : (t e p : ℤ) → t -ℤ (e +ℤ p) ≡ (t -ℤ e) -ℤ p
wait_shift t e p =
    eq_of_parts (t -ℤ (e +ℤ p)) ((t -ℤ e) -ℤ p)
      (omega (arith, +ℤ_parts e p, -ℤ_parts t (e +ℤ p), -ℤ_parts t e, -ℤ_parts (t -ℤ e) p))

-- A fixed-delay trigger that asks to wait keeps its word: looked at again after any time, with
-- nothing else changed, it asks for what is left of the wait until the wait is over, and from then
-- on it fires.
pub fixed_delay_waits :
    (delay passed : ℤ) (s : HedgeState)
    → pos 0 <ℤ (fixed_delay delay s).1
    → fixed_delay delay (record s { elapsed = s.elapsed +ℤ passed }) ≡ (
        if ltb_ℤ passed (fixed_delay delay s).1
        then (false, (fixed_delay delay s).1 -ℤ passed)
        else (true, pos 0))
unfolding fixed_delay is_exhausted target
fixed_delay_waits delay passed s h = elim (Bool-cases (is_exhausted s)) [
  | inl e ↦ absurd (ground (arith, h, e))
  | inr e ↦ elim (Bool-cases (ltb_ℤ s.elapsed (target delay s))) [
    | inl l ↦ ground (
      arith,
      e,
      l,
      due_shift (target delay s) s.elapsed passed,
      wait_shift (target delay s) s.elapsed passed,
    )
    | inr l ↦ absurd (ground (arith, h, e, l))
  ]
]
