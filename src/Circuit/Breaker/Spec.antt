-- ===== src/Circuit/Breaker/Spec.antt =====
-- What circuit/breaker.go promises: a state of three forms, with no counter that the form does not
-- need, and a theorem that the breaker behaves like it.
use rego.Common.{
  ℕ, ◌+◌, ℤ, pos, pos_part, ◌+ℤ◌, ◌-ℤ◌, leb_ℤ, saturate, ◌≡◌, refl, ap, ◌∙◌, Bool, true, false,
  List, [], ◌∷◌, if◌then◌else◌, arith,
}
use rego.Circuit.Breaker.{
  Breaker, state_closed, state_open, state_half_open, new_breaker, update_state, cooled_down,
  decide_allow, allow, note_success, note_failure, record_success, record_failure, Event, Call,
  allows, succeeds, fails, step, run,
}
use rego.Circuit.Breaker.Invariant.{Inv, new_breaker-Inv, step-Inv, update_state-Inv}

-- Closed behind `n` failures in a row, open since a time, or half-open with its probe out or not.
pub data Automaton : Type 0 where
  closed_after : ℕ → Automaton
  open_since : ℤ → Automaton
  half_open : Bool → Automaton

-- Time passes: an open breaker is half-open once its cooldown is over.
abbrev pub elapse : ℤ → ℤ → Automaton → Automaton
elapse cooldown now (open_since t) =
    if leb_ℤ cooldown (saturate (now -ℤ t)) then half_open false else open_since t
elapse cooldown now (closed_after n) = closed_after n
elapse cooldown now (half_open probing) = half_open probing

abbrev pub request : Automaton → Automaton × Bool
request (closed_after n) = (closed_after n, true)
request (open_since t) = (open_since t, false)
request (half_open false) = (half_open true, true)
request (half_open true) = (half_open true, false)

abbrev pub success : Automaton → Automaton
success (open_since t) = open_since t
success _ = closed_after 0

abbrev pub failure : ℤ → ℤ → Automaton → Automaton
failure threshold later (closed_after n) =
    if leb_ℤ threshold (pos (n + 1)) then open_since later else closed_after (n + 1)
failure threshold later (open_since t) = open_since t
failure threshold later (half_open probing) = open_since later

-- Only a request has an answer.
abbrev pub answered : Call → Bool → List Bool → List Bool
answered allows answer rest = answer ∷ rest
answered _ answer rest = rest

module _ (threshold cooldown : ℤ) where
  abbrev pub react : Event → Automaton → Automaton
  react e a =
      let a' = elapse cooldown e.now a in
      elim e.call [
        | allows ↦ (request a').0
        | succeeds ↦ success a'
        | fails ↦ failure threshold e.later a'
      ]

  abbrev pub react_all : List Event → Automaton → Automaton
  react_all [] a = a
  react_all (e ∷ es) a = react_all es (react e a)

  -- The answers to the requests among the calls.
  abbrev pub promised : List Event → Automaton → List Bool
  promised [] a = []
  promised (e ∷ es) a =
      answered e.call (request (elapse cooldown e.now a)).1 (promised es (react e a))

-- The same of the breaker.
unfoldable pub granted : List Event → Breaker → List Bool
granted [] cb = []
granted (e ∷ es) cb = answered e.call (allow e.now cb).1.allowed (granted es (step e cb))

-- What of a breaker's state matters.
abbrev pub abstract : Breaker → Automaton
abstract cb = elim cb.state [
  | state_closed ↦ closed_after (pos_part cb.consecutive_failures)
  | state_open ↦ open_since cb.open_time
  | state_half_open ↦ half_open (leb_ℤ (pos 1) cb.probes_sent)
]

abstract-update_state :
    (now : ℤ) (cb : Breaker) → abstract (update_state now cb) ≡ elapse cb.cooldown now (abstract cb)
unfolding update_state cooled_down
abstract-update_state now cb = ground arith

abstract-decide_allow :
    (cb : Breaker)
    → Inv cb
    → (abstract (decide_allow cb).0 ≡ (request (abstract cb)).0)
      × ((decide_allow cb).1.allowed ≡ (request (abstract cb)).1)
unfolding decide_allow ◌+ℤ◌
abstract-decide_allow cb v = ground arith

abstract-note_success :
    (later : ℤ) (cb : Breaker) → Inv cb → abstract (note_success later cb) ≡ success (abstract cb)
unfolding note_success ◌+ℤ◌
abstract-note_success later cb v = ground arith

abstract-note_failure :
    (later : ℤ) (cb : Breaker)
    → Inv cb
    → abstract (note_failure later cb) ≡ failure cb.threshold later (abstract cb)
unfolding note_failure ◌+ℤ◌
abstract-note_failure later cb v = ground arith

update_state-settings :
    (now : ℤ) (cb : Breaker)
    → ((update_state now cb).threshold ≡ cb.threshold)
      × ((update_state now cb).cooldown ≡ cb.cooldown)
unfolding update_state
update_state-settings now cb = ground arith

step-settings :
    (e : Event) (cb : Breaker)
    → ((step e cb).threshold ≡ cb.threshold) × ((step e cb).cooldown ≡ cb.cooldown)
unfolding step allow decide_allow record_success note_success record_failure note_failure
step-settings e cb = ground (arith, update_state-settings e.now cb)

abstract-step :
    (e : Event) (cb : Breaker)
    → Inv cb
    → abstract (step e cb) ≡ react cb.threshold cb.cooldown e (abstract cb)
unfolding step allow record_success record_failure
abstract-step e cb v = by_call e.call
  where
    updated : Inv (update_state e.now cb)
    updated = update_state-Inv e.now cb v

    by_call :
        (c : Call)
        → abstract (step (record e { call = c }) cb)
          ≡ react cb.threshold cb.cooldown (record e { call = c }) (abstract cb)
    by_call allows =
        (abstract-decide_allow _ updated).0
        ∙ ap (λ a. (request a).0) (abstract-update_state e.now cb)
    by_call succeeds =
        abstract-note_success e.later _ updated ∙ ap success (abstract-update_state e.now cb)
    by_call fails =
        abstract-note_failure e.later _ updated
        ∙ ap (λ t. failure t e.later (abstract (update_state e.now cb)))
            (update_state-settings e.now cb).0
        ∙ ap (failure cb.threshold e.later) (abstract-update_state e.now cb)

allowed-allow :
    (now : ℤ) (cb : Breaker)
    → Inv cb
    → (allow now cb).1.allowed ≡ (request (elapse cb.cooldown now (abstract cb))).1
unfolding allow
allowed-allow now cb v =
    (abstract-decide_allow _ (update_state-Inv now cb v)).1
    ∙ ap (λ a. (request a).1) (abstract-update_state now cb)

-- Runs of a breaker whose invariant holds.
run-refines :
    (threshold cooldown : ℤ) (es : List Event) (cb : Breaker)
    → Inv cb
    → cb.threshold ≡ threshold
    → cb.cooldown ≡ cooldown
    → (abstract (run es cb) ≡ react_all threshold cooldown es (abstract cb))
      × (granted es cb ≡ promised threshold cooldown es (abstract cb))
unfolding run granted
run-refines threshold cooldown [] cb v t c = (refl, refl)
run-refines threshold cooldown (e ∷ es) cb v t c =
    let known = step-settings e cb in
    let stepped : abstract (step e cb) ≡ react threshold cooldown e (abstract cb) =
      abstract-step e cb v ∙ ground (arith, t, c) in
    let rest =
      run-refines threshold cooldown es (step e cb) (step-Inv e cb v) (known.0 ∙ t) (known.1 ∙ c) in
    (
      rest.0 ∙ ap (react_all threshold cooldown es) stepped,
      ap (λ b. answered e.call b (granted es (step e cb)))
            (allowed-allow e.now cb v ∙ ap (λ w. (request (elapse w e.now (abstract cb))).1) c)
          ∙ ap (answered e.call (request (elapse cooldown e.now (abstract cb))).1)
              (rest.1 ∙ ap (promised threshold cooldown es) stepped),
    )

-- A breaker behaves like an automaton that is closed behind a number of failures in a row, open
-- since a time, or half-open with its probe out or not: after any calls at any times its state is
-- that of the automaton, and the requests among the calls get the answers of the automaton. A
-- request or a result finds an open automaton half-open once the cooldown has passed; then one
-- request is let through, a success closes it and a failure opens it; results that reach it while
-- it is open change nothing.
pub breaker_refines :
    (threshold cooldown : ℤ) (es : List Event)
    → let cb = new_breaker threshold cooldown in
      (abstract (run es cb) ≡ react_all cb.threshold cb.cooldown es (closed_after 0))
      × (granted es cb ≡ promised cb.threshold cb.cooldown es (closed_after 0))
unfolding new_breaker
breaker_refines threshold cooldown es =
    run-refines _ _ es (new_breaker threshold cooldown) (new_breaker-Inv threshold cooldown) refl
      refl
