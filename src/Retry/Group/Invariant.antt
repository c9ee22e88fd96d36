-- ===== src/Retry/Group/Invariant.antt =====
-- retry/group.go: the counters and the channel of a group, over all interleavings.
use rego.Common.{
  ℕ, zero, suc, ◌+◌, ◌≤◌, ◌≡◌, refl, ap, List, [], ◌∷◌, ◌++◌, some, get_elem?, set, length,
  length-append, length-set, arith,
}
use rego.Retry.Group.{
  GroupConfig, hedge_limit, Phase, working, sent, retired, Group, Source, start, Step, finish,
  retire, spawn, poll, stop_spawner, take_result, load_active, cancel, give_up, Reach, here, next,
}

-- The goroutines that have not run their deferred calls yet, and those that have not sent.
abbrev pub live : List Phase → ℕ
live [] = 0
live (working ∷ ps) = suc (live ps)
live (sent ∷ ps) = suc (live ps)
live (retired ∷ ps) = live ps

abbrev pub unsent : List Phase → ℕ
unsent [] = 0
unsent (working ∷ ps) = suc (unsent ps)
unsent (sent ∷ ps) = unsent ps
unsent (retired ∷ ps) = unsent ps

finish_counts :
    (ps : List Phase) (i : ℕ)
    → get_elem? ps i ≡ some working
    → (live (set ps i sent) ≡ live ps) × (suc (unsent (set ps i sent)) ≡ unsent ps)
finish_counts [] i h = absurd (ground (arith, h))
finish_counts (working ∷ ps) zero h = (refl, refl)
finish_counts (sent ∷ ps) zero h = absurd (ground (arith, h))
finish_counts (retired ∷ ps) zero h = absurd (ground (arith, h))
finish_counts (working ∷ ps) (suc i) h = omega (arith, finish_counts ps i h)
finish_counts (sent ∷ ps) (suc i) h = omega (arith, finish_counts ps i h)
finish_counts (retired ∷ ps) (suc i) h = finish_counts ps i h

retire_counts :
    (ps : List Phase) (i : ℕ)
    → get_elem? ps i ≡ some sent
    → (suc (live (set ps i retired)) ≡ live ps) × (unsent (set ps i retired) ≡ unsent ps)
retire_counts [] i h = absurd (ground (arith, h))
retire_counts (working ∷ ps) zero h = absurd (ground (arith, h))
retire_counts (sent ∷ ps) zero h = (refl, refl)
retire_counts (retired ∷ ps) zero h = absurd (ground (arith, h))
retire_counts (working ∷ ps) (suc i) h = omega (arith, retire_counts ps i h)
retire_counts (sent ∷ ps) (suc i) h = omega (arith, retire_counts ps i h)
retire_counts (retired ∷ ps) (suc i) h = retire_counts ps i h

spawn_counts :
    (ps : List Phase)
    → (live (ps ++ working ∷ []) ≡ suc (live ps)) × (unsent (ps ++ working ∷ []) ≡ suc (unsent ps))
spawn_counts [] = (refl, refl)
spawn_counts (working ∷ ps) = omega (arith, spawn_counts ps)
spawn_counts (sent ∷ ps) = omega (arith, spawn_counts ps)
spawn_counts (retired ∷ ps) = omega (arith, spawn_counts ps)

module _ {T : Type 0} where
  -- The counter counts the goroutines that have not retired, there are no more attempts than the
  -- policy allows, and no more results than attempts that have sent one.
  pub record Inv (c : GroupConfig) (s : Group T) : Type 0 where
    pub counted : s.active ≡ live s.phases
    pub launched : length s.phases ≡ s.hedges_launched + 1
    pub limited : s.hedges_launched ≤ hedge_limit c
    pub sent_only : length s.results + unsent s.phases ≤ length s.phases

  start-Inv : (c : GroupConfig) → Inv c (start {T = T} c)
  unfolding start
  start-Inv c = omega arith

  Step-Inv :
      {c : GroupConfig} {classified : Source T} {s t : Group T}
      → Step c classified s t
      → Inv c s
      → Inv c t
  Step-Inv {s = s} (finish i r w k) v = omega (
    arith,
    v,
    finish_counts s.phases i w,
    length-set s.phases i sent,
    length-append s.results (r ∷ []),
  )
  Step-Inv {s = s} (retire i w) v =
      omega (arith, v, retire_counts s.phases i w, length-set s.phases i retired)
  Step-Inv {s = s} (spawn r l) v =
      omega (arith, v, spawn_counts s.phases, length-append s.phases (working ∷ []))
  Step-Inv (poll r) v = v
  Step-Inv (stop_spawner r) v = omega (arith, v)
  Step-Inv (take_result r rest w e) v = omega (arith, v, ap length e)
  Step-Inv (load_active r d) v = omega (arith, v)
  Step-Inv (cancel e n) v = omega (arith, v)
  Step-Inv (give_up e w x) v = omega (arith, v)

  Reach-Inv :
      {c : GroupConfig} {classified : Source T} {s t : Group T}
      → Inv c s
      → Reach c classified s t
      → Inv c t
  Reach-Inv v here = v
  Reach-Inv v (next r st) = Step-Inv st (Reach-Inv v r)

  -- In every interleaving a group launches at most the primary and the hedges that its policy
  -- allows, its counter is the number of goroutines that have not retired, and the channel, which
  -- is made for one result of each possible attempt, never overflows, so that no send blocks.
  pub group_bounded :
      (c : GroupConfig) (classified : Source T) (s : Group T)
      → Reach c classified (start c) s
      → (length s.phases ≤ 1 + hedge_limit c)
        × (s.active ≡ live s.phases)
        × (length s.results + unsent s.phases ≤ 1 + hedge_limit c)
  group_bounded c classified s r =
      let v = Reach-Inv (start-Inv c) r in (omega (arith, v), v.counted, omega (arith, v))
