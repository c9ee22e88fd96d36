-- ===== src/Retry/Group/Spawner/Laws.antt =====
-- retry/group.go, the loop of `doRetryGroup` that launches hedges: when it launches
-- which.
use rego.Common.{
  ℕ, ◌+◌, ℤ, pos, ◌*ℤ◌, ◌≤ℤ◌, leb_ℤ, ltb_ℤ, ◌≡◌, refl, sym, ap, subst, inl, inr, ◌⊎◌, Bool, true,
  false, Bool-cases, List, [], ◌∷◌, ◌++◌, is_empty, Option, none, some, Option-cases, if◌then◌else◌,
  arith,
}
use rego.Policy.Schema.{HedgePolicy}
use rego.Hedge.Registry.{Registry, get}
use rego.Hedge.Triggers.{fixed_delay, is_exhausted, target}
use rego.Retry.Group.Spawner.{
  Trigger, Reading, Wake, group_done, timer_fired, Loop, new_loop, Launches, hedge_state, act,
  on_timer, wake, hedge_loop, find_trigger,
}

-- The launches of a loop that had launched `n` hedges: they count on from `n`, stay within the
-- policy's bound, and the trigger asked for each.
abbrev pub Paced : HedgePolicy → Trigger → ℕ → Launches → Type 0
Paced h trigger n [] = Unit {0}
Paced h trigger n ((k, r) ∷ rest) =
    (k ≡ n + 1)
    × (pos k ≤ℤ h.max_hedges)
    × ((trigger (hedge_state h n r)).0 ≡ true)
    × Paced h trigger (n + 1) rest

module _ (h : HedgePolicy) (trigger : Trigger) where
  -- One waking: nothing is launched, or the next hedge is.
  pub data Woken (l : Loop) : Loop × Launches → Type 0 where
    idle :
        (l' : Loop) → l'.hedges_launched ≡ l.hedges_launched → l'.runs ≡ l.runs → Woken l (l', [])
    stopped :
        (l' : Loop) → l'.hedges_launched ≡ l.hedges_launched → l'.runs ≡ false → Woken l (l', [])
    launched :
        (l' : Loop) (r : Reading)
        → l'.hedges_launched ≡ l.hedges_launched + 1
        → l.runs ≡ true
        → l'.runs ≡ true
        → pos (l.hedges_launched + 1) ≤ℤ h.max_hedges
        → (trigger (hedge_state h l.hedges_launched r)).0 ≡ true
        → Woken l (l', (l.hedges_launched + 1, r) ∷ [])

  act-Woken :
      (r : Reading) (l : Loop) (answer : Bool × ℤ)
      → l.runs ≡ true
      → leb_ℤ h.max_hedges (pos l.hedges_launched) ≡ false
      → trigger (hedge_state h l.hedges_launched r) ≡ answer
      → Woken l (act h r l answer)
  unfolding act
  act-Woken r l (true, next_check) e b a =
      launched _ r refl e e (ground (arith, b)) (ap (λ x. x.0) a)
  act-Woken r l (false, next_check) e b a = idle _ refl refl

  on_timer-Woken : (r : Reading) (l : Loop) → l.runs ≡ true → Woken l (on_timer h trigger r l)
  unfolding on_timer
  on_timer-Woken r l e = elim (Bool-cases (leb_ℤ h.max_hedges (pos l.hedges_launched))) [
    | inl b ↦ rw b (stopped _ refl refl)
    | inr b ↦ rw b (act-Woken r l _ e b refl)
  ]

  wake_unset :
      (r : Reading) (l : Loop) → l.timer ≡ none → wake h trigger (timer_fired r) l ≡ (l, [])
  unfolding wake
  wake_unset r l e = ground (arith, e)

  wake_set :
      (r : Reading) (l : Loop) (t : ℤ)
      → l.timer ≡ some t
      → wake h trigger (timer_fired r) l ≡ (if l.runs then on_timer h trigger r l else (l, []))
  unfolding wake
  wake_set r l t e = ground (arith, e)

  runs-Woken :
      (r : Reading) (l : Loop) (b : Bool)
      → l.runs ≡ b
      → Woken l (if b then on_timer h trigger r l else (l, []))
  runs-Woken r l true e = on_timer-Woken r l e
  runs-Woken r l false e = idle l refl refl

  pub wake-Woken : (w : Wake) (l : Loop) → Woken l (wake h trigger w l)
  unfolding wake
  wake-Woken group_done l = stopped _ refl refl
  wake-Woken (timer_fired r) l = elim (Option-cases l.timer) [
    | inl n ↦ subst (Woken l) (sym (wake_unset r l n)) (idle l refl refl)
    | inr (t, s) ↦ subst (Woken l) (sym (wake_set r l t s)) (runs-Woken r l l.runs refl)
  ]

  Woken-Paced :
      (l : Loop) (out : Loop × Launches) (rest : Launches)
      → Woken l out
      → Paced h trigger out.0.hedges_launched rest
      → Paced h trigger l.hedges_launched (out.1 ++ rest)
  Woken-Paced l _ rest (idle l' e r) p = subst (λ n. Paced h trigger n rest) e p
  Woken-Paced l _ rest (stopped l' e r) p = subst (λ n. Paced h trigger n rest) e p
  Woken-Paced l _ rest (launched l' r e f f' b a) p =
      (refl, b, a, subst (λ n. Paced h trigger n rest) e p)

  -- Whatever wakes the loop up.
  pub hedge_loop-Paced :
      (ws : List Wake) (l : Loop) → Paced h trigger l.hedges_launched (hedge_loop h trigger ws l).1
  unfolding hedge_loop
  hedge_loop-Paced [] l = tt
  hedge_loop-Paced (w ∷ ws) l =
      Woken-Paced l (wake h trigger w l) _ (wake-Woken w l)
        (hedge_loop-Paced ws (wake h trigger w l).0)

-- The launches with the fixed delay of a policy.
abbrev pub Delayed : HedgePolicy → ℕ → Launches → Type 0
Delayed h n [] = Unit {0}
Delayed h n ((k, r) ∷ rest) =
    (k ≡ n + 1)
    × (pos k ≤ℤ h.max_hedges)
    × (h.hedge_delay *ℤ pos k ≤ℤ r.elapsed)
    × Delayed h (n + 1) rest

due :
    (h : HedgePolicy) (n : ℕ) (r : Reading)
    → (fixed_delay h.hedge_delay (hedge_state h n r)).0 ≡ true
    → h.hedge_delay *ℤ pos (1 + n) ≤ℤ r.elapsed
unfolding fixed_delay hedge_state target
due h n r e = elim (Bool-cases (is_exhausted (hedge_state h n r))) [
  | inl x ↦ absurd (ground (arith, x, e))
  | inr x ↦ elim (Bool-cases (ltb_ℤ (pos 0) h.hedge_delay)) [
    | inl p ↦ ground (arith, x, e, p)
    | inr p ↦ ground (arith, x, e, p)
  ]
]

Paced-Delayed :
    (h : HedgePolicy) (n : ℕ) (launches : Launches)
    → Paced h (fixed_delay h.hedge_delay) n launches
    → Delayed h n launches
Paced-Delayed h n [] p = tt
Paced-Delayed h n ((k, r) ∷ rest) (e, b, a, p) = (
  e,
  b,
  subst (λ x. h.hedge_delay *ℤ pos x ≤ℤ r.elapsed) (omega (arith, e)) (due h n r a),
  Paced-Delayed h (n + 1) rest p,
)

-- The policy names no trigger, or one that the executor does not have.
abbrev pub IsUnnamed : HedgePolicy → Option (Registry Trigger) → Type 0
IsUnnamed h none = Unit {0}
IsUnnamed h (some r) = (is_empty h.trigger_name ≡ true) ⊎ (get h.trigger_name r ≡ none)

find_trigger-fixed_delay :
    (h : HedgePolicy) (triggers : Option (Registry Trigger))
    → IsUnnamed h triggers
    → find_trigger h triggers ≡ fixed_delay h.hedge_delay
unfolding find_trigger
find_trigger-fixed_delay h none u = ground arith
find_trigger-fixed_delay h (some r) (inl e) = rw e
find_trigger-fixed_delay h (some r) (inr e) = ground (arith, e)

-- Where the policy names no trigger, or one that is not registered, then at whatever times the
-- hedge loop wakes up it launches hedges with the indices 1, 2, 3 and so on, none above the
-- policy's maximum, and the hedge of index `k` not before `k` times the policy's delay.
pub hedges_paced :
    (h : HedgePolicy) (triggers : Option (Registry Trigger)) (ws : List Wake)
    → IsUnnamed h triggers
    → Delayed h 0 (hedge_loop h (find_trigger h triggers) ws new_loop).1
hedges_paced h triggers ws u =
    rw (find_trigger-fixed_delay h triggers u)
      (Paced-Delayed h 0 _ (hedge_loop-Paced h (fixed_delay h.hedge_delay) ws new_loop))
