-- ===== src/Retry/Gate/Laws.antt =====
-- retry/budget.go, `allowAttempt`: its verdicts, events, panics and releases.
use rego.Common.{
  ℕ, zero, suc, ◌≡◌, refl, subst, ◌⊎◌, inl, inr, String, is_empty, trim_space, true, false, Option,
  none, some, Bool-cases, arith,
}
use rego.Budget.{Decision, reason_panic_in_budget}
use rego.Classify.{returned, panicked, Exit-cases}
use rego.Budget.Registry.{Registry}
use rego.Retry.Modes.{failure_mode_string}
use rego.Retry.Gate.{
  Request, Budget, Once, fire, Verdict, GateConfig, Lookup, missing, found, find_budget, emit,
  is_permissive, missing_verdict, decided_verdict, panic_verdict, ask, decide_attempt,
  allow_attempt,
}

-- The request as the gate handles it, with the budget's name trimmed.
abbrev pub trimmed : Request → Request
trimmed req = record req { ref = record (req.ref) { name = trim_space req.ref.name } }

module _ {W : Type 0} where
  Lookup-cases :
      (l : Lookup W) → ((r : String) × (l ≡ missing r)) ⊎ ((b : Budget W) × (l ≡ found b))
  Lookup-cases (missing r) = inl (r, refl)
  Lookup-cases (found b) = inr (b, refl)

  -- Why an attempt may go ahead.
  pub data Granted (req : Request) (w : W) : Option (GateConfig W) → Type 0 where
    no_executor : Granted req w none
    unnamed :
        (e : GateConfig W) → is_empty (trim_space req.ref.name) ≡ true → Granted req w (some e)
    waived :
        (e : GateConfig W) (reason : String)
        → find_budget e.budgets (trim_space req.ref.name) ≡ missing reason
        → is_permissive e.missing_budget_mode ≡ true
        → Granted req w (some e)
    by_budget :
        (e : GateConfig W) (b : Budget W) (d : Decision)
        → find_budget e.budgets (trim_space req.ref.name) ≡ found b
        → (b.allow_attempt (trimmed req) w).0 ≡ returned d
        → d.allowed ≡ true
        → Granted req w (some e)

  -- The gate fails closed: an attempt goes ahead only if there is no executor, as on a nil one, or
  -- its policy names no budget, or the budget is missing and the mode for that is one of the two
  -- that allow, or the budget itself said yes.
  pub gate_fails_closed :
      (o : Option (GateConfig W)) (req : Request) (w : W) (v : Verdict W)
      → (allow_attempt o req w).0 ≡ returned v
      → v.allowed ≡ true
      → Granted req w o
  unfolding allow_attempt decide_attempt missing_verdict ask panic_verdict decided_verdict
  gate_fails_closed none req w v h a = no_executor
  gate_fails_closed (some e) req w v h a = elim (Bool-cases (is_empty (trim_space req.ref.name))) [
    | inl n ↦ unnamed e n
    | inr n ↦ elim (Lookup-cases (find_budget e.budgets (trim_space req.ref.name))) [
      | inl (r, l) ↦ waived e r l (ground (arith, h, n, l, a))
      | inr (b, l) ↦ elim (Exit-cases (b.allow_attempt (trimmed req) w).0) [
        | inl (d, x) ↦ by_budget e b d l x (ground (arith, h, n, l, a, x))
        | inr (p, x) ↦ absurd (ground (arith, h, n, l, a, x))
      ]
    ]
  ]

  -- The mode that an event names: the policy for missing budgets where there is none.
  abbrev pub mode_of : GateConfig W → Lookup W → String
  mode_of e (missing r) = failure_mode_string e.missing_budget_mode
  mode_of e (found b) = "standard"

  -- With recovery on, the panic of a named budget that is found does not leave the gate: it comes
  -- back as a refusal with a reason of its own, one event if there is an observer, and nothing to
  -- release.
  pub gate_contains_panics :
      (e : GateConfig W) (req : Request) (b : Budget W) (w : W) (p : String)
      → e.recover_panics ≡ true
      → is_empty (trim_space req.ref.name) ≡ false
      → find_budget e.budgets (trim_space req.ref.name) ≡ found b
      → (b.allow_attempt (trimmed req) w).0 ≡ panicked p
      → (decide_attempt e req w).0
        ≡ returned (record {
          allowed = false;
          reason = reason_panic_in_budget;
          release = none;
          events = emit e (trimmed req) "standard" false reason_panic_in_budget;
        })
  unfolding decide_attempt ask panic_verdict
  gate_contains_panics e req b w p h n l x = ground (arith, h, n, l, x)

  -- `n` calls of a release function.
  unfoldable pub fire_times : ℕ → Once W → W → Once W × W
  fire_times zero o w = (o, w)
  fire_times (suc n) o w = let (o', w') = fire o w in fire_times n o' w'

  fire_times_done :
      (n : ℕ) (run : W → W) (w : W)
      → (fire_times n (record { original = run; done = true }) w).1 ≡ w
  unfolding fire_times fire
  fire_times_done zero run w = refl
  fire_times_done (suc n) run w = fire_times_done n run w

  -- However often the release that the gate hands out is called, if it is called at all, the
  -- budget's own runs exactly once.
  pub released_once :
      (e : GateConfig W) (req : Request) (b : Budget W) (d : Decision) (o : Once W) (n : ℕ) (w : W)
      → (decided_verdict e req b d).release ≡ some o
      → (fire_times (suc n) o w).1 ≡ b.release req w
  unfolding decided_verdict fire_times fire
  released_once e req b d o n w h =
      let fresh : ◌≡◌ {A = Once W} (record { original = b.release req; done = false }) o =
        ground (arith, h) in
      subst (λ o'. (fire_times (suc n) o' w).1 ≡ b.release req w) fresh
        (fire_times_done n (b.release req) (b.release req w))
