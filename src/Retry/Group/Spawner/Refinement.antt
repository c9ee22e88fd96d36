-- ===== src/Retry/Group/Spawner/Refinement.antt =====
-- retry/group.go, the loop of `doRetryGroup` that launches hedges, as a part of the steps of a group.
use rego.Common.{
  ◌+◌, pos, ◌≡◌, refl, sym, inl, inr, true, false, Bool-cases, List, [], ◌∷◌, ◌++◌, length,
  length-append, ◌∙◌, arith,
}
use rego.Policy.Schema.{HedgePolicy}
use rego.Retry.Group.{
  GroupConfig, Group, Source, working, start, spawn, stop_spawner, Reach, here, next,
}
use rego.Retry.Group.Spawner.{Trigger, Wake, Loop, new_loop, Launches, wake, hedge_loop}
use rego.Retry.Group.Spawner.Laws.{Woken, idle, stopped, launched, wake-Woken}

module _ (h : HedgePolicy) (trigger : Trigger) where
  Woken-count :
      (l : Loop) (out : Loop × Launches)
      → Woken h trigger l out
      → out.0.hedges_launched ≡ l.hedges_launched + length out.1
  Woken-count l _ (idle l' e r) = omega (arith, e)
  Woken-count l _ (stopped l' e r) = omega (arith, e)
  Woken-count l _ (launched l' r e f f' b a) = omega (arith, e)

  hedge_loop-count :
      (ws : List Wake) (l : Loop)
      → (hedge_loop h trigger ws l).0.hedges_launched
        ≡ l.hedges_launched + length (hedge_loop h trigger ws l).1
  unfolding hedge_loop
  hedge_loop-count [] l = omega arith
  hedge_loop-count (w ∷ ws) l = omega (
    arith,
    Woken-count l (wake h trigger w l) (wake-Woken h trigger w l),
    hedge_loop-count ws (wake h trigger w l).0,
    length-append (wake h trigger w l).1 (hedge_loop h trigger ws (wake h trigger w l).0).1,
  )

  module _ {T : Type 0} (c : GroupConfig) (src : Source T) (s₀ : Group T) where
    -- A state of the group that can be reached and has the loop's counter and flag.
    abbrev Agreeing : Loop → Type 0
    Agreeing l =
        (s : Group T) × Reach c src s₀ s
        × (s.hedges_launched ≡ l.hedges_launched)
        × (s.spawner_runs ≡ l.runs)

    stops-Agreeing :
        (l l' : Loop)
        → l'.hedges_launched ≡ l.hedges_launched
        → l'.runs ≡ false
        → Agreeing l
        → Agreeing l'
    stops-Agreeing l l' e r (s, p, n, b) = elim (Bool-cases s.spawner_runs) [
      | inl on ↦ (record s { spawner_runs = false }, next p (stop_spawner on), n ∙ sym e, sym r)
      | inr off ↦ (s, p, n ∙ sym e, off ∙ sym r)
    ]

    Woken-Agreeing :
        (l : Loop) (out : Loop × Launches)
        → c.enabled ≡ true
        → h.max_hedges ≡ pos c.max_hedges
        → Woken h trigger l out
        → Agreeing l
        → Agreeing out.0
    Woken-Agreeing l _ on m (idle l' e r) (s, p, n, b) = (s, p, n ∙ sym e, b ∙ sym r)
    Woken-Agreeing l _ on m (stopped l' e r) a = stops-Agreeing l l' e r a
    Woken-Agreeing l _ on m (launched l' r e f f' b a) (s, p, n, k) = (
      record s {
        phases = s.phases ++ working ∷ [];
        active = s.active + 1;
        hedges_launched = s.hedges_launched + 1;
      },
      next p (spawn (k ∙ f) (ground (arith, on, m, b, n))),
      omega (arith, n, e),
      k ∙ f ∙ sym f',
    )

    pub hedge_loop-Agreeing :
        (ws : List Wake) (l : Loop)
        → c.enabled ≡ true
        → h.max_hedges ≡ pos c.max_hedges
        → Agreeing l
        → Agreeing (hedge_loop h trigger ws l).0
    unfolding hedge_loop
    hedge_loop-Agreeing [] l on m a = a
    hedge_loop-Agreeing (w ∷ ws) l on m a =
        hedge_loop-Agreeing ws (wake h trigger w l).0 on m
          (Woken-Agreeing l (wake h trigger w l) on m (wake-Woken h trigger w l) a)

-- Whatever wakes the hedge loop up and whatever its trigger answers, what the loop does is a run of
-- the group: a state of the group is reachable in which as many hedges are launched as the loop
-- launched, and in which the spawner runs exactly if the loop does. The group's configuration is
-- that of the policy, with hedging enabled.
pub spawner_refines :
    {T : Type 0} (h : HedgePolicy) (trigger : Trigger) (c : GroupConfig) (src : Source T)
    (ws : List Wake)
    → c.enabled ≡ true
    → h.max_hedges ≡ pos c.max_hedges
    → (s : Group T) × Reach c src (start c) s
      × (s.hedges_launched ≡ length (hedge_loop h trigger ws new_loop).1)
      × (s.spawner_runs ≡ (hedge_loop h trigger ws new_loop).0.runs)
unfolding start
spawner_refines h trigger c src ws on m =
    let (s, p, n, b) =
      hedge_loop-Agreeing h trigger c src (start c) ws new_loop on m (start c, here, refl, on) in
    (s, p, omega (arith, n, hedge_loop-count h trigger ws new_loop), b)
