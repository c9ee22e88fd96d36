-- ===== src/Retry/Fast/Single.antt =====
-- retry/executor.go, `doValueFast`: the calls of the operation in one attempt.
use rego.Common.{
  ℕ, suc, ◌≤◌, ℤ, pos, ltb_ℤ, ◌-ℤ◌, ◌≡◌, refl, inl, inr, Bool, true, false, Option, none, some,
  Bool-cases, FloatOps, arith, saturate,
}
use rego.Classify.{returned, Exit-cases}
use rego.Retry.Gate.{Once, fire, Verdict}
use rego.Retry.Fast.{Env, FastCall, defers, run_op, run_attempt}

-- `calls` counts the calls of the operation: one call of it adds at most one, and nothing else adds
-- any, the releases that the gate hands out included.
pub record Counts {W C T F : Type 0} (env : Env W C T F) (calls : W → ℕ) : Type 0 where
  pub counts_op : (ctx : C) (w : W) → calls (env.op ctx w).1 ≤ suc (calls w)
  pub keeps_timeout : (ctx : C) (d : ℤ) (w : W) → calls (env.with_timeout ctx d w).1 ≤ calls w
  pub keeps_cancel : (ctx : C) (w : W) → calls (env.cancel ctx w) ≤ calls w
  pub keeps_clock : (w : W) → calls (env.clock w).1 ≤ calls w
  pub keeps_sleep : (ctx : C) (d : ℤ) (w : W) → calls (env.sleep ctx d w).1 ≤ calls w
  pub keeps_draw : (w : W) → calls (env.draw w).1 ≤ calls w
  pub keeps_gate : (ctx : C) (n : ℕ) (w : W) → calls (env.gate ctx n w).1 ≤ calls w
  pub keeps_feed : (d : ℤ) (w : W) → calls (env.feed d w) ≤ calls w
  pub keeps_release :
      (ctx : C) (n : ℕ) (w : W) (v : Verdict W) (o : Once W)
      → (env.gate ctx n w).0 ≡ returned v
      → v.release ≡ some o
      → (w' : W) → calls (o.original w') ≤ calls w'

module _ {W C T F : Type 0} ⦃f : FloatOps F⦄ (call : FastCall W C T F) (calls : W → ℕ)
    (counts : Counts call.env calls) where
  open counts use {
    counts_op, keeps_timeout, keeps_cancel, keeps_clock, keeps_sleep, keeps_draw, keeps_gate,
    keeps_feed, keeps_release,
  }

  abbrev pub Releases : Option (Once W) → Type 0
  Releases release = (o : Once W) → release ≡ some o → (w : W) → calls (o.original w) ≤ calls w

  run_op-calls : (ctx : C) (w : W) → calls (run_op call ctx w).1 ≤ suc (calls w)
  unfolding run_op
  run_op-calls ctx w =
      let w₁ : W = (call.env.clock w).1 in
      let w₂ : W = (call.env.op ctx w₁).1 in
      let d : ℤ = saturate ((call.env.clock w₂).0 -ℤ (call.env.clock w).0) in
      elim (Exit-cases (call.env.op ctx w₁).0) [
        | inl (r, x) ↦ ground (
          arith,
          keeps_clock w,
          counts_op ctx w₁,
          keeps_clock w₂,
          x,
          keeps_feed d (call.env.clock w₂).1,
        )
        | inr (v, x) ↦ ground (arith, keeps_clock w, counts_op ctx w₁, x)
      ]

  fire-calls :
      (o : Once W)
      → ((w : W) → calls (o.original w) ≤ calls w)
      → (w : W) → calls (fire o w).1 ≤ calls w
  unfolding fire
  fire-calls o h w = ground (arith, h w)

  defers-calls :
      (release : Option (Once W)) (timed : Bool) (ctx : C) (w : W)
      → Releases release
      → calls (defers call release timed ctx w) ≤ calls w
  unfolding defers
  defers-calls none timed ctx w h = ground (arith, keeps_cancel ctx w)
  defers-calls (some o) timed ctx w h =
      ground (arith, keeps_cancel ctx (fire o w).1, fire-calls o (h o refl) w)

  pub run_attempt-calls :
      (ctx : C) (attempt : ℕ) (release : Option (Once W)) (w : W)
      → Releases release
      → calls (run_attempt call ctx attempt release w).1 ≤ suc (calls w)
  unfolding run_attempt
  run_attempt-calls ctx attempt release w h =
      let d : ℤ = call.pol.retry.timeout_per_attempt in
      elim (Bool-cases (ltb_ℤ (pos 0) d)) [
        | inl t ↦
            let ctx' : C = (call.env.with_timeout ctx d w).0 in
            let w₁ : W = (call.env.with_timeout ctx d w).1 in
            let w₂ : W = (run_op call (call.env.with_attempt ctx' attempt) w₁).1 in
            ground (
              arith,
              t,
              keeps_timeout ctx d w,
              run_op-calls (call.env.with_attempt ctx' attempt) w₁,
              defers-calls release true ctx' w₂ h,
            )
        | inr t ↦
            let w₂ : W = (run_op call (call.env.with_attempt ctx attempt) w).1 in
            ground (
              arith,
              t,
              run_op-calls (call.env.with_attempt ctx attempt) w,
              defers-calls release false ctx w₂ h,
            )
      ]
