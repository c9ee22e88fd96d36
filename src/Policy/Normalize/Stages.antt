-- ===== src/Policy/Normalize/Stages.antt =====
-- policy/schema.go: the checks of `Normalize`, field by field, and `normalize` itself.
use rego.Common.{
  ℤ, pos, ltb_ℤ, leb_ℤ, eqb_ℤ, String, str_eq, is_empty, Bool, true, false, ◌&&◌, ◌||◌, List, [],
  ◌∷◌, ◌++◌, Option, none, some, FloatOps, if◌then◌else◌,
}
use rego.Errors.{Error, normalize_error}
use rego.Policy.Schema.{
  EffectivePolicy, RetryPolicy, HedgePolicy, CircuitPolicy, NormalizationInfo, ms, seconds,
  zero_policy, jitter_none, jitter_full, jitter_equal,
}

abbrev pub max_retry_attempts : ℤ
max_retry_attempts = pos 10

abbrev pub max_hedges_limit : ℤ
max_hedges_limit = pos 3

abbrev pub min_backoff_floor : ℤ
min_backoff_floor = ms 1

abbrev pub min_hedge_delay_floor : ℤ
min_hedge_delay_floor = ms 10

abbrev pub max_backoff_ceiling : ℤ
max_backoff_ceiling = seconds 30

abbrev pub min_timeout_floor : ℤ
min_timeout_floor = ms 1

abbrev pub min_circuit_threshold : ℤ
min_circuit_threshold = pos 1

abbrev pub min_circuit_cooldown : ℤ
min_circuit_cooldown = ms 100

abbrev pub contains : String → List String → Bool
contains field [] = false
contains field (g ∷ gs) = str_eq g field || contains field gs

-- `markChanged`
unfoldable pub mark_changed : String → NormalizationInfo → NormalizationInfo
mark_changed field norm = record {
  changed = true;
  changed_fields =
      if contains field norm.changed_fields
      then norm.changed_fields
      else norm.changed_fields ++ field ∷ [];
}

-- `if test { x = v; markChanged(field) }`, for the current value `x`.
abbrev pub replace_if {ℓ} :
    {A : Type ℓ} → (A → Bool) → A → String → A × NormalizationInfo → A × NormalizationInfo
replace_if test v field (x, norm) = if test x then (v, mark_changed field norm) else (x, norm)

unfoldable pub normalize_max_attempts : ℤ → NormalizationInfo → ℤ × NormalizationInfo
normalize_max_attempts n norm =
    let (n', norm') = replace_if (λ x. eqb_ℤ x (pos 0)) (pos 3) "retry.max_attempts" (n, norm) in
    if ltb_ℤ n' (pos 1)
    then (pos 1, mark_changed "retry.max_attempts" norm')
    else if ltb_ℤ max_retry_attempts n'
    then (max_retry_attempts, mark_changed "retry.max_attempts" norm')
    else (n', norm')

unfoldable pub normalize_initial_backoff : ℤ → NormalizationInfo → ℤ × NormalizationInfo
normalize_initial_backoff d norm =
    replace_if (λ x. ltb_ℤ x min_backoff_floor) min_backoff_floor "retry.initial_backoff"
      (replace_if (λ x. leb_ℤ x (pos 0)) (ms 10) "retry.initial_backoff" (d, norm))

-- `initial` is the initial backoff, already normalised.
unfoldable pub normalize_max_backoff : ℤ → ℤ → NormalizationInfo → ℤ × NormalizationInfo
normalize_max_backoff initial d norm =
    replace_if (λ x. ltb_ℤ x initial) initial "retry.max_backoff"
      (replace_if (λ x. ltb_ℤ max_backoff_ceiling x) max_backoff_ceiling "retry.max_backoff"
        (replace_if (λ x. leb_ℤ x (pos 0)) (ms 250) "retry.max_backoff" (d, norm)))

module _ {F : Type 0} ⦃f : FloatOps F⦄ where
  unfoldable pub normalize_backoff_multiplier : F → NormalizationInfo → F × NormalizationInfo
  normalize_backoff_multiplier m norm =
      let (m', norm') =
        replace_if (λ x. f.eq x (f.of_int (pos 0))) (f.of_int (pos 2)) "retry.backoff_multiplier"
          (m, norm) in
      if f.lt m' (f.of_int (pos 1))
      then (f.of_int (pos 1), mark_changed "retry.backoff_multiplier" norm')
      else if f.lt (f.of_int (pos 10)) m'
      then (f.of_int (pos 10), mark_changed "retry.backoff_multiplier" norm')
      else (m', norm')

-- The known kinds of the `switch` on the jitter.
unfoldable pub is_jitter_kind : String → Bool
is_jitter_kind j = str_eq j jitter_none || str_eq j jitter_full || str_eq j jitter_equal

-- `none` is the `default` case, an error.
unfoldable pub normalize_jitter : String → NormalizationInfo → Option (String × NormalizationInfo)
normalize_jitter j norm =
    if is_empty j
    then some (jitter_none, mark_changed "retry.jitter" norm)
    else if is_jitter_kind j
    then some (j, norm)
    else none

-- TimeoutPerAttempt and OverallTimeout have the same checks; the field's name differs.
unfoldable pub normalize_timeout : String → ℤ → NormalizationInfo → ℤ × NormalizationInfo
normalize_timeout field d norm =
    replace_if (λ x. ltb_ℤ (pos 0) x && ltb_ℤ x min_timeout_floor) min_timeout_floor field
      (replace_if (λ x. ltb_ℤ x (pos 0)) (pos 0) field (d, norm))

-- Retry.Budget.Cost and Hedge.Budget.Cost have the same checks too.
unfoldable pub normalize_cost : String → ℤ → NormalizationInfo → ℤ × NormalizationInfo
normalize_cost field n norm =
    replace_if (λ x. ltb_ℤ x (pos 1)) (pos 1) field
      (replace_if (λ x. eqb_ℤ x (pos 0)) (pos 1) field (n, norm))

unfoldable pub normalize_max_hedges : ℤ → NormalizationInfo → ℤ × NormalizationInfo
normalize_max_hedges n norm =
    let (n', norm') = replace_if (λ x. eqb_ℤ x (pos 0)) (pos 2) "hedge.max_hedges" (n, norm) in
    if ltb_ℤ n' (pos 1)
    then (pos 1, mark_changed "hedge.max_hedges" norm')
    else if ltb_ℤ max_hedges_limit n'
    then (max_hedges_limit, mark_changed "hedge.max_hedges" norm')
    else (n', norm')

unfoldable pub normalize_hedge_delay : ℤ → NormalizationInfo → ℤ × NormalizationInfo
normalize_hedge_delay d norm =
    replace_if (λ x. ltb_ℤ x min_hedge_delay_floor) min_hedge_delay_floor "hedge.hedge_delay"
      (replace_if (λ x. leb_ℤ x (pos 0)) (ms 200) "hedge.hedge_delay" (d, norm))

unfoldable pub normalize_threshold : ℤ → NormalizationInfo → ℤ × NormalizationInfo
normalize_threshold n norm =
    replace_if (λ x. ltb_ℤ x min_circuit_threshold) min_circuit_threshold "circuit.threshold"
      (replace_if (λ x. leb_ℤ x (pos 0)) (pos 5) "circuit.threshold" (n, norm))

unfoldable pub normalize_cooldown : ℤ → NormalizationInfo → ℤ × NormalizationInfo
normalize_cooldown d norm =
    replace_if (λ x. ltb_ℤ x min_circuit_cooldown) min_circuit_cooldown "circuit.cooldown"
      (replace_if (λ x. leb_ℤ x (pos 0)) (seconds 10) "circuit.cooldown" (d, norm))

-- The circuit's checks; they end `Normalize`.
unfoldable pub normalize_circuit :
    CircuitPolicy → NormalizationInfo → CircuitPolicy × NormalizationInfo
normalize_circuit c norm =
    if c.enabled
    then (let (threshold, norm₁) = normalize_threshold c.threshold norm in
        let (cooldown, norm₂) = normalize_cooldown c.cooldown norm₁ in
        (record c { threshold = threshold; cooldown = cooldown }, norm₂))
    else (c, norm)

-- From the hedge's budget on: if hedging is off, `Normalize` returns before it reaches the circuit.
unfoldable pub normalize_hedge :
    HedgePolicy
    → CircuitPolicy
    → NormalizationInfo
    → HedgePolicy × CircuitPolicy × NormalizationInfo
normalize_hedge h c norm =
    let (cost, norm₁) = normalize_cost "hedge.budget.cost" h.budget.cost norm in
    let h₁ = record h { budget = record (h.budget) { cost = cost } } in
    if h.enabled
    then (let (max_hedges, norm₂) = normalize_max_hedges h.max_hedges norm₁ in
        let (delay, norm₃) = normalize_hedge_delay h.hedge_delay norm₂ in
        let (c', norm₄) = normalize_circuit c norm₃ in
        (record h₁ { max_hedges = max_hedges; hedge_delay = delay }, c', norm₄))
    else (h₁, c, norm₁)

module _ {F : Type 0} ⦃f : FloatOps F⦄ where
  -- The numeric checks before the jitter's.
  unfoldable pub normalize_backoff :
      RetryPolicy F → NormalizationInfo → RetryPolicy F × NormalizationInfo
  normalize_backoff r norm =
      let (attempts, norm₁) = normalize_max_attempts r.max_attempts norm in
      let (initial, norm₂) = normalize_initial_backoff r.initial_backoff norm₁ in
      let (max, norm₃) = normalize_max_backoff initial r.max_backoff norm₂ in
      let (multiplier, norm₄) = normalize_backoff_multiplier r.backoff_multiplier norm₃ in
      (
        record r {
          max_attempts = attempts;
          initial_backoff = initial;
          max_backoff = max;
          backoff_multiplier = multiplier;
        },
        norm₄,
      )

  -- The timeouts and the budget's cost, behind the jitter.
  unfoldable pub normalize_limits :
      RetryPolicy F → NormalizationInfo → RetryPolicy F × NormalizationInfo
  normalize_limits r norm =
      let (attempt, norm₁) =
        normalize_timeout "retry.timeout_per_attempt" r.timeout_per_attempt norm in
      let (overall, norm₂) = normalize_timeout "retry.overall_timeout" r.overall_timeout norm₁ in
      let (cost, norm₃) = normalize_cost "retry.budget.cost" r.budget.cost norm₂ in
      (
        record r {
          timeout_per_attempt = attempt;
          overall_timeout = overall;
          budget = record (r.budget) { cost = cost };
        },
        norm₃,
      )

  -- `Normalize`: the policy and a nil error, or the zero policy and a NormalizeError.
  unfoldable pub normalize : EffectivePolicy F → EffectivePolicy F × Option Error
  normalize p =
      let (r₁, norm₁) = normalize_backoff p.retry p.meta.normalization in
      elim (normalize_jitter r₁.jitter norm₁) [
        | none ↦ (zero_policy, some (normalize_error "retry.jitter" r₁.jitter))
        | some (jitter, norm₂) ↦
            let (r₂, norm₃) = normalize_limits (record r₁ { jitter = jitter }) norm₂ in
            let (h, c, norm₄) = normalize_hedge p.hedge p.circuit norm₃ in
            (
              record p {
                retry = r₂;
                hedge = h;
                circuit = c;
                meta = record (p.meta) { normalization = norm₄ };
              },
              none,
            )
      ]
