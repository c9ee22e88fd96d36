-- ===== src/Retry/Group/Termination.antt =====
-- retry/group.go: how many steps a group can take.
use rego.Common.{
  ℕ, zero, suc, ◌+◌, ◌-◌, ◌*◌, ◌≤◌, ◌≡◌, refl, ap, Bool, true, false, List, [], ◌∷◌, ◌++◌, Option,
  none, some, get_elem?, set, length, length-append, arith, inl, inr, Bool-cases, ◌&&◌,
}
use rego.Errors.{Error}
use rego.Retry.Group.{
  GroupConfig, GroupResult, hedge_limit, Phase, working, sent, retired, Group, Source, start, Step,
  finish, retire, spawn, poll, stop_spawner, take_result, load_active, cancel, give_up, Reach, here,
  next, Caller, waiting, deciding, finished, receive, decide, is_success, is_terminal,
}

-- What the parts of a state can still do.
abbrev phases_left : List Phase → ℕ
phases_left [] = 0
phases_left (working ∷ ps) = 4 + phases_left ps
phases_left (sent ∷ ps) = 1 + phases_left ps
phases_left (retired ∷ ps) = phases_left ps

abbrev caller_left : {T : Type 0} → Caller T → ℕ
caller_left waiting = 1
caller_left (deciding r) = 2
caller_left (finished v e o s) = 0

abbrev flag_left : Bool → ℕ
flag_left true = 1
flag_left false = 0

abbrev context_left : Option Error → ℕ
context_left none = 1
context_left (some e) = 0

finish_left :
    (ps : List Phase) (i : ℕ)
    → get_elem? ps i ≡ some working
    → phases_left (set ps i sent) + 3 ≡ phases_left ps
finish_left [] i h = absurd (ground (arith, h))
finish_left (working ∷ ps) zero h = omega arith
finish_left (sent ∷ ps) zero h = absurd (ground (arith, h))
finish_left (retired ∷ ps) zero h = absurd (ground (arith, h))
finish_left (working ∷ ps) (suc i) h = omega (arith, finish_left ps i h)
finish_left (sent ∷ ps) (suc i) h = omega (arith, finish_left ps i h)
finish_left (retired ∷ ps) (suc i) h = finish_left ps i h

retire_left :
    (ps : List Phase) (i : ℕ)
    → get_elem? ps i ≡ some sent
    → suc (phases_left (set ps i retired)) ≡ phases_left ps
retire_left [] i h = absurd (ground (arith, h))
retire_left (working ∷ ps) zero h = absurd (ground (arith, h))
retire_left (sent ∷ ps) zero h = omega arith
retire_left (retired ∷ ps) zero h = absurd (ground (arith, h))
retire_left (working ∷ ps) (suc i) h = omega (arith, retire_left ps i h)
retire_left (sent ∷ ps) (suc i) h = omega (arith, retire_left ps i h)
retire_left (retired ∷ ps) (suc i) h = retire_left ps i h

spawn_left : (ps : List Phase) → phases_left (ps ++ working ∷ []) ≡ 4 + phases_left ps
spawn_left [] = refl
spawn_left (working ∷ ps) = omega (arith, spawn_left ps)
spawn_left (sent ∷ ps) = omega (arith, spawn_left ps)
spawn_left (retired ∷ ps) = omega (arith, spawn_left ps)

module _ {T : Type 0} where
  receive_left : (c : GroupConfig) (r : GroupResult T) → caller_left (receive c r) ≤ 2
  unfolding receive
  receive_left c r = elim (Bool-cases (is_success r.outcome.kind)) [
    | inl s ↦ rw s (omega arith)
    | inr s ↦ elim (Bool-cases (c.cancel_on_first_terminal && is_terminal r.outcome.kind)) [
      | inl t ↦ rw (s, t) (omega arith)
      | inr t ↦ rw (s, t) (omega arith)
    ]
  ]

  decide_left : (active : ℕ) (r : GroupResult T) → caller_left (decide active r) ≤ 1
  unfolding decide
  decide_left active r = ground arith

  abbrev left : GroupConfig → Group T → ℕ
  left c s =
      5 * (hedge_limit c - s.hedges_launched)
      + phases_left s.phases
      + 2 * length s.results
      + flag_left s.spawner_runs
      + context_left s.ctx_err
      + caller_left s.caller

  -- Every step but a poll counts.
  abbrev pub weight :
      {c : GroupConfig} {classified : Source T} {s t : Group T} → Step c classified s t → ℕ
  weight (poll r) = 0
  weight _ = 1

  Step-left :
      {c : GroupConfig} {classified : Source T} {s t : Group T} (st : Step c classified s t)
      → weight st + left c t ≤ left c s
  Step-left {s = s} (finish i r w k) =
      omega (arith, finish_left s.phases i w, length-append s.results (r ∷ []))
  Step-left {s = s} (retire i w) = omega (arith, retire_left s.phases i w)
  Step-left {s = s} (spawn r l) = omega (arith, l, spawn_left s.phases)
  Step-left (poll r) = omega arith
  Step-left (stop_spawner r) = omega (arith, ap flag_left r)
  Step-left {c = c} (take_result r rest w e) =
      omega (arith, ap caller_left w, ap length e, receive_left c r)
  Step-left {s = s} (load_active r d) = omega (arith, ap caller_left d, decide_left s.active r)
  Step-left (cancel e n) = omega (arith, ap context_left n)
  Step-left (give_up e w x) = omega (arith, ap caller_left w)

  -- The number of steps of a run, less the polls.
  abbrev pub steps :
      {c : GroupConfig} {classified : Source T} {s t : Group T} → Reach c classified s t → ℕ
  steps here = 0
  steps (next r st) = weight st + steps r

  Reach-left :
      {c : GroupConfig} {classified : Source T} {s t : Group T} (r : Reach c classified s t)
      → steps r + left c t ≤ left c s
  Reach-left here = omega arith
  Reach-left (next r st) = omega (arith, Reach-left r, Step-left st)

  -- In every interleaving, a run of a group from its start has at most 5 steps for each hedge that
  -- its policy allows and 7 more, not counting the steps at which the hedge loop's timer fires and
  -- the loop launches nothing and sets the timer again.
  pub group_steps_bounded :
      (c : GroupConfig) (classified : Source T) (s : Group T) (r : Reach c classified (start c) s)
      → steps r ≤ 5 * hedge_limit c + 7
  unfolding start
  group_steps_bounded c classified s r = ground (arith, Reach-left r)
