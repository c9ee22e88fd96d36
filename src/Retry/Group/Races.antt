-- ===== src/Retry/Group/Races.antt =====
-- retry/group.go: two interleavings of interest, one with a waiting caller, one with two results.
use rego.Common.{
  ℕ, suc, ◌≤◌, ◌≡◌, refl, subst, get_elem?, zero, true, false, ◌&&◌, List, [], ◌∷◌, none, some,
  arith,
}
use rego.Errors.{Error}
use rego.Retry.Group.{
  GroupResult, GroupConfig, Phase, working, sent, retired, Caller, waiting, deciding, finished,
  Group, Source, start, is_success, is_terminal, receive, decide, Step, finish, retire, spawn, poll,
  stop_spawner, take_result, load_active, cancel, give_up, Reach, here, next,
}

lone_retired : (i : ℕ) (p : Phase) → get_elem? (retired ∷ []) i ≡ some p → p ≡ retired
lone_retired zero p h = ground (arith, h)
lone_retired (suc i) p h = absurd (ground (arith, h))

module _ {T : Type 0} where
  receive_failure :
      (c : GroupConfig) (r : GroupResult T)
      → is_success r.outcome.kind ≡ false
      → (c.cancel_on_first_terminal && is_terminal r.outcome.kind) ≡ false
      → receive c r ≡ deciding r
  unfolding receive
  receive_failure c r f t = rw (f, t)

  -- One attempt, which has sent, been counted down and gone; nothing in the channel; and a caller
  -- that waits.
  abbrev pub hung : Group T
  hung = record {
    phases = retired ∷ [];
    active = 0;
    results = [];
    hedges_launched = 0;
    spawner_runs = false;
    ctx_err = none;
    caller = waiting;
  }

  -- The steps on the way: the result is sent and received, and the counter is loaded, before the
  -- sender's deferred call counts it down.
  abbrev after_send : GroupResult T → Group T
  after_send r = record {
    phases = sent ∷ [];
    active = 1;
    results = r ∷ [];
    hedges_launched = 0;
    spawner_runs = false;
    ctx_err = none;
    caller = waiting;
  }

  abbrev after_receive : Caller T → Group T
  after_receive caller = record {
    phases = sent ∷ [];
    active = 1;
    results = [];
    hedges_launched = 0;
    spawner_runs = false;
    ctx_err = none;
    caller = caller;
  }

  Reach-hung :
      (c : GroupConfig) (classified : Source T) (r : GroupResult T)
      → c.enabled ≡ false
      → classified 0 r
      → is_success r.outcome.kind ≡ false
      → (c.cancel_on_first_terminal && is_terminal r.outcome.kind) ≡ false
      → Reach c classified (start c) hung
  unfolding start decide
  Reach-hung c classified r off k f t =
      let first : Step c classified (start c) (after_send r) =
        subst (λ b. Step c classified (start c) (record (after_send r) { spawner_runs = b })) off
          (finish 0 r refl k) in
      let second : Step c classified (after_send r) (after_receive (deciding r)) =
        subst (λ after. Step c classified (after_send r) (after_receive after))
          (receive_failure c r f t) (take_result r [] refl refl) in
      let third : Step c classified (after_receive (deciding r)) (after_receive waiting) =
        load_active r refl in
      let fourth : Step c classified (after_receive waiting) hung = retire 0 refl in
      next (next (next (next here first) second) third) fourth

  Step-hung :
      (c : GroupConfig) (classified : Source T) {t : Group T}
      → Step c classified hung t
      → (e : Error) × (t ≡ record hung { ctx_err = some e })
  Step-hung c classified (finish i r w k) = absurd (cc (lone_retired i working w))
  Step-hung c classified (retire i w) = absurd (cc (lone_retired i sent w))
  Step-hung c classified (spawn r l) = absurd (cc r)
  Step-hung c classified (poll r) = absurd (cc r)
  Step-hung c classified (stop_spawner r) = absurd (cc r)
  Step-hung c classified (take_result r rest w e) = absurd (cc e)
  Step-hung c classified (load_active r d) = absurd (cc d)
  Step-hung c classified (cancel e n) = (e, refl)
  Step-hung c classified (give_up e w x) = absurd (cc x)

  -- A group without hedging whose one attempt fails can reach a state in which nothing but the
  -- cancellation of the caller's context can happen any more, while the caller still waits: it
  -- loaded the counter between the attempt's send and its deferred count-down. This holds of every
  -- failing result on which the policy does not cancel.
  pub caller_may_hang :
      (c : GroupConfig) (classified : Source T) (r : GroupResult T) (t : Group T)
      → c.enabled ≡ false
      → classified 0 r
      → is_success r.outcome.kind ≡ false
      → (c.cancel_on_first_terminal && is_terminal r.outcome.kind) ≡ false
      → Step c classified hung t
      → Reach c classified (start c) hung × ((e : Error) × (t ≡ record hung { ctx_err = some e }))
  caller_may_hang c classified r t off k f n st =
      (Reach-hung c classified r off k f n, Step-hung c classified st)

  -- Two attempts, one behind the other, as their goroutines run to their ends before the caller looks.
  abbrev pub two : Phase → Phase → ℕ → List (GroupResult T) → Caller T → Group T
  two p q active results caller = record {
    phases = p ∷ q ∷ [];
    active = active;
    results = results;
    hedges_launched = 1;
    spawner_runs = true;
    ctx_err = none;
    caller = caller;
  }

  -- With a hedge allowed, a failure that arrives before a success can hide it: once both attempts
  -- have retired, the caller receives the failure, finds the counter at zero, and returns that
  -- failure while the success waits in the channel.
  pub success_may_be_lost :
      (c : GroupConfig) (classified : Source T) (failure success : GroupResult T)
      → c.enabled ≡ true
      → 1 ≤ c.max_hedges
      → classified 0 failure
      → classified 1 success
      → is_success failure.outcome.kind ≡ false
      → (c.cancel_on_first_terminal && is_terminal failure.outcome.kind) ≡ false
      → is_success success.outcome.kind ≡ true
      → Reach c classified (start c) (
          two retired retired 0
            (success ∷ [])
            (finished failure.val failure.err failure.outcome false))
  unfolding start decide
  success_may_be_lost c classified failure success on room kf ks f n s =
      let first : Step c classified (start c) (two working working 2 [] waiting) =
        subst
          (λ b.
            Step c classified (start c)
              (record (two working working 2 [] waiting) { spawner_runs = b }))
          on (spawn on (ground (arith, on))) in
      let second : Step c classified (two working working 2 [] waiting)
          (two sent working 2 (failure ∷ []) waiting) =
        finish 0 failure refl kf in
      let third : Step c classified (two sent working 2 (failure ∷ []) waiting)
          (two sent sent 2 (failure ∷ success ∷ []) waiting) =
        finish 1 success refl ks in
      let fourth : Step c classified (two sent sent 2 (failure ∷ success ∷ []) waiting)
          (two retired sent 1 (failure ∷ success ∷ []) waiting) =
        retire 0 refl in
      let fifth : Step c classified (two retired sent 1 (failure ∷ success ∷ []) waiting)
          (two retired retired 0 (failure ∷ success ∷ []) waiting) =
        retire 1 refl in
      let sixth : Step c classified (two retired retired 0 (failure ∷ success ∷ []) waiting)
          (two retired retired 0 (success ∷ []) (deciding failure)) =
        subst
          (λ after.
            Step c classified (two retired retired 0 (failure ∷ success ∷ []) waiting)
              (two retired retired 0 (success ∷ []) after))
          (receive_failure c failure f n) (take_result failure (success ∷ []) refl refl) in
      let seventh : Step c classified (two retired retired 0 (success ∷ []) (deciding failure)) (
          two retired retired 0 (success ∷ [])
            (finished failure.val failure.err failure.outcome false)) =
        load_active failure refl in
      next (next (next (next (next (next (next here first) second) third) fourth) fifth) sixth)
        seventh
