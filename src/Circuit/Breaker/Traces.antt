-- ===== src/Circuit/Breaker/Traces.antt =====
-- circuit/breaker.go: sequences of calls in the closed and in the open state.
use rego.Common.{
  ℕ, suc, ℤ, pos, ◌+ℤ◌, ◌≤ℤ◌, ◌<ℤ◌, +ℤ_parts, ◌≡◌, refl, false, List, [], ◌∷◌, length, All, arith,
  int_laws, pos_part, neg_part, ap, ◌∙◌, sym,
}
use rego.Circuit.Breaker.{
  Breaker, state_closed, state_open, cooled_down, update_state, allow, record_failure, note_failure,
  decide_allow, note_success, record_success, Event, fails, step, run, reason_circuit_open,
}

abbrev pub IsFailure : Event → Type 0
IsFailure e = e.call ≡ fails

failure_below :
    (e : Event) (cb : Breaker)
    → IsFailure e
    → cb.state ≡ state_closed
    → cb.consecutive_failures +ℤ pos 1 <ℤ cb.threshold
    → step e cb ≡ record cb { consecutive_failures = cb.consecutive_failures +ℤ pos 1 }
unfolding step record_failure update_state note_failure
failure_below e cb f c l = ground arith

failure_last :
    (e : Event) (cb : Breaker)
    → IsFailure e
    → cb.state ≡ state_closed
    → cb.threshold ≤ℤ cb.consecutive_failures +ℤ pos 1
    → ((step e cb).state ≡ state_open) × ((step e cb).open_time ≡ e.later)
unfolding step record_failure update_state note_failure
failure_last e cb f c l = ground arith

regroup : (a : ℤ) (n : ℕ) → a +ℤ pos 1 +ℤ pos n ≡ a +ℤ pos (suc n)
regroup a n = omega int_laws

add_none : (a : ℤ) → a +ℤ pos 0 ≡ a
add_none a = omega int_laws

-- Failures in a row, fewer than are left to the threshold, are counted and change nothing else.
run_failures :
    (es : List Event) (cb : Breaker)
    → All IsFailure es
    → cb.state ≡ state_closed
    → cb.consecutive_failures +ℤ pos (length es) <ℤ cb.threshold
    → run es cb ≡ record cb { consecutive_failures = cb.consecutive_failures +ℤ pos (length es) }
unfolding run
run_failures [] cb f c l =
    ap (λ n. record cb { consecutive_failures = n }) (sym (add_none cb.consecutive_failures))
run_failures (e ∷ es) cb f c l =
    let below = failure_below e cb f.0 c (omega (arith, +ℤ_parts)) in
    let next : Breaker = record cb { consecutive_failures = cb.consecutive_failures +ℤ pos 1 } in
    ap (run es) below
    ∙ run_failures es next f.1 c (omega (arith, +ℤ_parts))
    ∙ ap (λ n. record cb { consecutive_failures = n }) (regroup cb.consecutive_failures (length es))

-- From the closed state, exactly as many failures in a row as the threshold asks for, with no other
-- call between them, open the breaker: all but the last keep it closed, and the last one opens it,
-- with the clock's second reading at that failure as the opening time.
pub opens_at_threshold :
    (es : List Event) (last : Event) (cb : Breaker)
    → All IsFailure es
    → IsFailure last
    → cb.state ≡ state_closed
    → cb.consecutive_failures +ℤ pos (length es) +ℤ pos 1 ≡ cb.threshold
    → ((run es cb).state ≡ state_closed)
      × ((step last (run es cb)).state ≡ state_open)
      × ((step last (run es cb)).open_time ≡ last.later)
opens_at_threshold es last cb f g c l =
    let counted : Breaker = record cb {
      consecutive_failures = cb.consecutive_failures +ℤ pos (length es);
    } in
    let reached = run_failures es cb f c (omega (arith, +ℤ_parts, ap pos_part l, ap neg_part l)) in
    let opened = failure_last last counted g c (omega (arith, ap pos_part l, ap neg_part l)) in
    (
      ap (λ (b : Breaker). b.state) reached ∙ c,
      ap (λ (b : Breaker). (step last b).state) reached ∙ opened.0,
      ap (λ (b : Breaker). (step last b).open_time) reached ∙ opened.1,
    )

-- The readings that a call may act on come before the end of the cooldown.
abbrev pub IsEarly : Breaker → Event → Type 0
IsEarly cb e = cooled_down e.now cb ≡ false

early_step : (e : Event) (cb : Breaker) → cb.state ≡ state_open → IsEarly cb e → step e cb ≡ cb
unfolding step allow record_success record_failure update_state decide_allow note_success
    note_failure
early_step e cb o h = ground arith

early_run :
    (es : List Event) (cb : Breaker) → cb.state ≡ state_open → All (IsEarly cb) es → run es cb ≡ cb
unfolding run
early_run [] cb o h = refl
early_run (e ∷ es) cb o h = ap (run es) (early_step e cb o h.0) ∙ early_run es cb o h.1

early_refusal :
    (now : ℤ) (cb : Breaker)
    → cb.state ≡ state_open
    → cooled_down now cb ≡ false
    → (allow now cb).1
      ≡ record { allowed = false; state = state_open; reason = reason_circuit_open }
unfolding allow update_state decide_allow
early_refusal now cb o h = ground arith

-- Until its cooldown has passed an open breaker refuses every request, whatever calls come before
-- it: neither requests nor results that arrive late change the breaker at all.
pub open_refuses :
    (es : List Event) (now : ℤ) (cb : Breaker)
    → cb.state ≡ state_open
    → All (IsEarly cb) es
    → cooled_down now cb ≡ false
    → (run es cb ≡ cb)
      × ((allow now (run es cb)).1
          ≡ record { allowed = false; state = state_open; reason = reason_circuit_open })
open_refuses es now cb o h n =
    let same = early_run es cb o h in
    (same, ap (λ (b : Breaker). (allow now b).1) same ∙ early_refusal now cb o n)
