-- ===== src/Circuit/Breaker/Invariant.antt =====
-- circuit/breaker.go: the invariant of a breaker that `NewConsecutiveFailureBreaker` built.
use rego.Common.{ℤ, pos, ◌+ℤ◌, ◌≤ℤ◌, ◌<ℤ◌, ◌≡◌, ◌≢◌, arith, List, [], ◌∷◌}
use rego.Circuit.Breaker.{
  Breaker, state_closed, new_breaker, update_state, allow, record_success, record_failure,
  decide_allow, note_success, note_failure, Event, Call, allows, succeeds, fails, step, run,
}

pub record Inv (cb : Breaker) : Type 0 where
  pub threshold_pos : pos 1 ≤ℤ cb.threshold
  pub cooldown_pos : pos 1 ≤ℤ cb.cooldown
  pub one_probe : cb.max_probes ≡ pos 1
  pub one_success : cb.probes_required ≡ pos 1
  pub failures_nonneg : pos 0 ≤ℤ cb.consecutive_failures
  pub failures_below : cb.consecutive_failures <ℤ cb.threshold
  pub only_closed_counts : cb.state ≢ state_closed → cb.consecutive_failures ≡ pos 0
  pub sent_nonneg : pos 0 ≤ℤ cb.probes_sent
  pub sent_capped : cb.probes_sent ≤ℤ pos 1
  pub none_succeeded : cb.probes_successful ≡ pos 0

pub new_breaker-Inv : (threshold cooldown : ℤ) → Inv (new_breaker threshold cooldown)
unfolding new_breaker
new_breaker-Inv threshold cooldown = ground arith

pub update_state-Inv : (now : ℤ) (cb : Breaker) → Inv cb → Inv (update_state now cb)
unfolding update_state
update_state-Inv now cb v = ground arith

decide_allow-Inv : (cb : Breaker) → Inv cb → Inv (decide_allow cb).0
unfolding decide_allow ◌+ℤ◌
decide_allow-Inv cb v = ground arith

note_success-Inv : (later : ℤ) (cb : Breaker) → Inv cb → Inv (note_success later cb)
unfolding note_success ◌+ℤ◌
note_success-Inv later cb v = ground arith

note_failure-Inv : (later : ℤ) (cb : Breaker) → Inv cb → Inv (note_failure later cb)
unfolding note_failure ◌+ℤ◌
note_failure-Inv later cb v = ground arith

pub allow-Inv : (now : ℤ) (cb : Breaker) → Inv cb → Inv (allow now cb).0
unfolding allow
allow-Inv now cb v = decide_allow-Inv _ (update_state-Inv now cb v)

pub step-Inv : (e : Event) (cb : Breaker) → Inv cb → Inv (step e cb)
unfolding step record_success record_failure
step-Inv e cb v = by_call e.call
  where
    updated : Inv (update_state e.now cb)
    updated = update_state-Inv e.now cb v

    by_call : (c : Call) → Inv (step (record e { call = c }) cb)
    by_call allows = allow-Inv e.now cb v
    by_call succeeds = note_success-Inv e.later _ updated
    by_call fails = note_failure-Inv e.later _ updated

pub run-Inv : (es : List Event) (cb : Breaker) → Inv cb → Inv (run es cb)
unfolding run
run-Inv [] cb v = v
run-Inv (e ∷ es) cb v = run-Inv es (step e cb) (step-Inv e cb v)

-- After any calls at any times a breaker that was built from any threshold and cooldown has
-- positive ones, fewer failures counted than its threshold, none counted outside the closed state,
-- and zero or one probe out.
pub run-new_breaker-Inv :
    (es : List Event) (threshold cooldown : ℤ) → Inv (run es (new_breaker threshold cooldown))
run-new_breaker-Inv es threshold cooldown = run-Inv es _ (new_breaker-Inv threshold cooldown)
