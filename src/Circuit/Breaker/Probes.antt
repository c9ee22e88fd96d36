-- ===== src/Circuit/Breaker/Probes.antt =====
-- circuit/breaker.go: the half-open state and its probes.
use rego.Common.{
  ℕ, suc, ◌≤◌, ℤ, pos, ◌+ℤ◌, ◌≤ℤ◌, ◌≡◌, refl, ap, ◌∙◌, true, false, List, [], ◌∷◌, map, arith, ◌⊎◌,
  inl, inr, ◌≢◌, if◌then◌else◌,
}
use rego.Circuit.Breaker.{
  Breaker, state_closed, state_open, state_half_open, Decision, cooled_down, update_state, allow,
  record_failure, note_failure, decide_allow, note_success, record_success, answers,
  reason_circuit_half_open_probe_limit,
}
use rego.Circuit.Breaker.Invariant.{Inv, allow-Inv}

-- Once its cooldown has passed, an open breaker lets one request through as a probe, and its result
-- decides: a success closes the breaker with no failures counted, a failure opens it again from the
-- time of that failure.
pub probe_decides :
    (now n l : ℤ) (cb : Breaker)
    → Inv cb
    → cb.state ≡ state_open
    → cooled_down now cb ≡ true
    → ((allow now cb).1 ≡ record { allowed = true; state = state_half_open; reason = "" })
      × ((record_success n l (allow now cb).0).state ≡ state_closed)
      × ((record_success n l (allow now cb).0).consecutive_failures ≡ pos 0)
      × ((record_failure n l (allow now cb).0).state ≡ state_open)
      × ((record_failure n l (allow now cb).0).open_time ≡ l)
unfolding allow record_success record_failure update_state decide_allow note_success note_failure
    ◌+ℤ◌
probe_decides now n l cb v o h = ground arith

abbrev pub refused : Decision
refused = record {
  allowed = false;
  state = state_half_open;
  reason = reason_circuit_half_open_probe_limit;
}

abbrev pub count_allowed : List Decision → ℕ
count_allowed [] = 0
count_allowed (d ∷ ds) = let rest = count_allowed ds in if d.allowed then suc rest else rest

full_allow :
    (now : ℤ) (cb : Breaker)
    → cb.state ≡ state_half_open
    → cb.max_probes ≤ℤ cb.probes_sent
    → allow now cb ≡ (cb, refused)
unfolding allow update_state decide_allow
full_allow now cb o h = ground arith

pub full_answers :
    (times : List ℤ) (cb : Breaker)
    → cb.state ≡ state_half_open
    → cb.max_probes ≤ℤ cb.probes_sent
    → answers times cb ≡ map (λ _. refused) times
unfolding answers
full_answers [] cb o h = refl
full_answers (now ∷ times) cb o h =
    ap (λ (r : Breaker × Decision). r.1 ∷ answers times r.0) (full_allow now cb o h)
    ∙ ap (λ (ds : List Decision). refused ∷ ds) (full_answers times cb o h)

-- While its probe is out a half-open breaker refuses every request, at any time however late, and
-- stays as it is under them.
pub unreported_probe_blocks :
    (times : List ℤ) (last : ℤ) (cb : Breaker)
    → cb.state ≡ state_half_open
    → cb.max_probes ≤ℤ cb.probes_sent
    → (answers times cb ≡ map (λ _. refused) times) × ((allow last cb).0 ≡ cb)
unreported_probe_blocks times last cb o h =
    (full_answers times cb o h, ap (λ (r : Breaker × Decision). r.0) (full_allow last cb o h))

count_refused : (times : List ℤ) → count_allowed (map (λ _. refused) times) ≡ 0
count_refused [] = refl
count_refused (now ∷ times) = omega (arith, count_refused times)

-- What one request does to a breaker that is not closed: it is refused, or it is the probe.
probe_step :
    (now : ℤ) (cb : Breaker)
    → Inv cb
    → cb.state ≢ state_closed
    → (((allow now cb).1.allowed ≡ false) × ((allow now cb).0.state ≢ state_closed))
      ⊎ (((allow now cb).0.state ≡ state_half_open)
          × ((allow now cb).0.max_probes ≤ℤ (allow now cb).0.probes_sent))
unfolding allow update_state decide_allow ◌+ℤ◌
probe_step now cb v o = ground arith

-- Of the requests that reach a breaker which is not closed, at most one is let through before a
-- result is recorded.
pub probes_limited :
    (times : List ℤ) (cb : Breaker)
    → Inv cb
    → cb.state ≢ state_closed
    → count_allowed (answers times cb) ≤ 1
unfolding answers
probes_limited [] cb v o = omega arith
probes_limited (now ∷ times) cb v o = elim (probe_step now cb v o) [
  | inl (no_probe, still) ↦
      rw no_probe (probes_limited times (allow now cb).0 (allow-Inv now cb v) still)
  | inr (half, full) ↦
      ground (arith, full_answers times (allow now cb).0 half full, count_refused times)
]
