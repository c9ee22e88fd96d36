-- ===== src/Circuit/Breaker.antt =====
-- circuit/breaker.go and circuit/types.go. A method takes the breaker and the readings of its clock,
-- in the order of the calls of `now`, and returns the breaker after it: the mutex makes each method
-- one step. Times are nanoseconds.
pub mod Invariant
pub mod Probes
pub mod Spec
pub mod Traces
use rego.Common.{
  ℤ, pos, ◌+ℤ◌, ◌-ℤ◌, leb_ℤ, saturate, String, Bool, true, false, if◌then◌else◌, List, [], ◌∷◌,
}
use rego.Policy.Schema.{seconds}

pub data State : Type 0 where
  state_closed state_open state_half_open : State

abbrev pub reason_circuit_open : String
reason_circuit_open = "circuit_open"

abbrev pub reason_circuit_half_open_probe_limit : String
reason_circuit_half_open_probe_limit = "circuit_half_open_probe_limit"

pub record Decision : Type 0 where
  pub allowed : Bool
  pub state : State
  pub reason : String

pub record Breaker : Type 0 where
  pub state : State
  pub threshold : ℤ
  pub cooldown : ℤ
  pub max_probes : ℤ
  pub consecutive_failures : ℤ
  pub open_time : ℤ
  pub probes_sent : ℤ
  pub probes_successful : ℤ
  pub probes_required : ℤ

-- `NewConsecutiveFailureBreaker`
unfoldable pub new_breaker : ℤ → ℤ → Breaker
new_breaker threshold cooldown = record {
  state = state_closed;
  threshold = if leb_ℤ threshold (pos 0) then pos 5 else threshold;
  cooldown = if leb_ℤ cooldown (pos 0) then seconds 10 else cooldown;
  max_probes = pos 1;
  consecutive_failures = pos 0;
  open_time = pos 0;
  probes_sent = pos 0;
  probes_successful = pos 0;
  probes_required = pos 1;
}

-- `transitionTo`, with the clock's reading for the open state.
unfoldable pub transition_to : State → ℤ → Breaker → Breaker
transition_to state_closed now cb = record cb {
  state = state_closed;
  consecutive_failures = pos 0;
  probes_sent = pos 0;
  probes_successful = pos 0;
}
transition_to state_open now cb = record cb {
  state = state_open;
  open_time = now;
  consecutive_failures = pos 0;
}
transition_to state_half_open now cb = record cb {
  state = state_half_open;
  probes_sent = pos 0;
  probes_successful = pos 0;
}

-- `cb.now().Sub(cb.openTime) >= cb.cooldown`
unfoldable pub cooled_down : ℤ → Breaker → Bool
cooled_down now cb = leb_ℤ cb.cooldown (saturate (now -ℤ cb.open_time))

-- `updateStateLocked`; the state that it returns is the new breaker's.
unfoldable pub update_state : ℤ → Breaker → Breaker
unfolding transition_to
update_state now cb = elim cb.state [
  | state_open ↦ if cooled_down now cb then transition_to state_half_open now cb else cb
  | _ ↦ cb
]

-- What `Allow` does in a state that is up to date.
unfoldable pub decide_allow : Breaker → Breaker × Decision
decide_allow cb = elim cb.state [
  | state_open ↦ (cb, record { allowed = false; state = state_open; reason = reason_circuit_open })
  | state_half_open ↦
      if leb_ℤ cb.max_probes cb.probes_sent
      then (
        cb,
        record {
          allowed = false;
          state = state_half_open;
          reason = reason_circuit_half_open_probe_limit;
        },
      )
      else (
        record cb { probes_sent = cb.probes_sent +ℤ pos 1 },
        record { allowed = true; state = state_half_open; reason = "" },
      )
  | state_closed ↦ (cb, record { allowed = true; state = state_closed; reason = "" })
]

-- `Allow`
unfoldable pub allow : ℤ → Breaker → Breaker × Decision
unfolding decide_allow
allow now cb = decide_allow (update_state now cb)

unfoldable pub note_success : ℤ → Breaker → Breaker
unfolding transition_to
note_success later cb = elim cb.state [
  | state_closed ↦ record cb { consecutive_failures = pos 0 }
  | state_half_open ↦
      let counted = record cb { probes_successful = cb.probes_successful +ℤ pos 1 } in
      if leb_ℤ cb.probes_required counted.probes_successful
      then transition_to state_closed later counted
      else record counted { probes_sent = cb.probes_sent -ℤ pos 1 }
  | state_open ↦ cb
]

-- `RecordSuccess`
unfoldable pub record_success : ℤ → ℤ → Breaker → Breaker
unfolding note_success
record_success now later cb = note_success later (update_state now cb)

unfoldable pub note_failure : ℤ → Breaker → Breaker
unfolding transition_to
note_failure later cb = elim cb.state [
  | state_closed ↦
      let counted = record cb { consecutive_failures = cb.consecutive_failures +ℤ pos 1 } in
      if leb_ℤ cb.threshold counted.consecutive_failures
      then transition_to state_open later counted
      else counted
  | state_half_open ↦ transition_to state_open later cb
  | state_open ↦ cb
]

-- `RecordFailure`
unfoldable pub record_failure : ℤ → ℤ → Breaker → Breaker
unfolding note_failure
record_failure now later cb = note_failure later (update_state now cb)

-- The calls on one breaker, each with the readings of the clock that it may use.
pub data Call : Type 0 where
  allows succeeds fails : Call

pub record Event : Type 0 where
  pub call : Call
  pub now : ℤ
  pub later : ℤ

unfoldable pub step : Event → Breaker → Breaker
step e cb = elim e.call [
  | allows ↦ (allow e.now cb).0
  | succeeds ↦ record_success e.now e.later cb
  | fails ↦ record_failure e.now e.later cb
]

unfoldable pub run : List Event → Breaker → Breaker
run [] cb = cb
run (e ∷ es) cb = run es (step e cb)

-- The answers that a sequence of calls of `Allow` gets.
unfoldable pub answers : List ℤ → Breaker → List Decision
answers [] cb = []
answers (now ∷ rest) cb = let (cb', d) = allow now cb in d ∷ answers rest cb'
