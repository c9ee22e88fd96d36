-- ===== src/Tests/Breakers.antt =====
-- A breaker with a threshold of two failures and a cooldown of five nanoseconds, and the registry.
use rego.Common.{◌≡◌, refl, ℤ, pos, true, List, [], ◌∷◌, arith}
use rego.Policy.Key.{PolicyKey, Key-eq}
use rego.Policy.Schema.{CircuitPolicy}
use rego.Circuit.Breaker.{
  state_closed, state_open, state_half_open, Breaker, new_breaker, Event, allows, fails, run,
}
use rego.Circuit.Breaker.Invariant.{Inv, run-new_breaker-Inv}
use rego.Circuit.Breaker.Spec.{
  abstract, react_all, promised, granted, closed_after, breaker_refines,
}

abbrev calls : List Event
calls =
    record { call = allows; now = pos 0; later = pos 0 }
    ∷ record { call = fails; now = pos 1; later = pos 1 }
    ∷ []

run-new_breaker-Inv_example : Inv (run calls (new_breaker (pos 2) (pos 5)))
run-new_breaker-Inv_example = run-new_breaker-Inv calls (pos 2) (pos 5)

-- What `new_breaker (pos 2) (pos 5)` computes to.
abbrev fresh : Breaker
fresh = record {
  state = state_closed;
  threshold = pos 2;
  cooldown = pos 5;
  max_probes = pos 1;
  consecutive_failures = pos 0;
  open_time = pos 0;
  probes_sent = pos 0;
  probes_successful = pos 0;
  probes_required = pos 1;
}

abbrev failure_at : ℤ → Event
failure_at t = record { call = fails; now = t; later = t }

-- Open since the time 2.
abbrev opened : Breaker
opened = record fresh { state = state_open; open_time = pos 2 }

opened-Inv : Inv opened
opened-Inv = record {
  threshold_pos = omega arith;
  cooldown_pos = omega arith;
  one_probe = refl;
  one_success = refl;
  failures_nonneg = omega arith;
  failures_below = omega arith;
  only_closed_counts = λ h. refl;
  sent_nonneg = omega arith;
  sent_capped = omega arith;
  none_succeeded = refl;
}

-- Half open, with the probe out.
abbrev probing : Breaker
probing = record fresh { state = state_half_open; probes_sent = pos 1 }

abbrev one_key : PolicyKey
one_key = record { namespace = "user"; name = "get" }

abbrev other_key : PolicyKey
other_key = record { namespace = "user"; name = "put" }

abbrev circuit : CircuitPolicy
circuit = record { enabled = true; threshold = pos 2; cooldown = pos 5 }

breaker_refines_example :
    (abstract (run calls (new_breaker (pos 2) (pos 5)))
      ≡ react_all (pos 2) (pos 5) calls (closed_after 0))
    × (granted calls (new_breaker (pos 2) (pos 5))
        ≡ promised (pos 2) (pos 5) calls (closed_after 0))
unfolding new_breaker
breaker_refines_example = breaker_refines (pos 2) (pos 5) calls
