-- ===== src/Budget/Bucket/Conservation.antt =====
-- budget/builtins.go, the token bucket without refill, beside a counter of natural numbers.
use rego.Common.{
  ℕ, ◌+◌, ◌-◌, ◌^◌, ◌≤◌, ℤ, pos, negsuc, ◌-ℤ◌, ltb_ℤ, leb, ◌≡◌, Bool, true, false, some, List, [],
  ◌∷◌, FloatOps, FloatLaws, All, map, refl, ap, ◌<◌, Bool-cases, if◌then◌else◌, inl, inr, arith,
}
use rego.Policy.Schema.{BudgetRef}
use rego.Budget.Types.{Decision, reason_allowed, reason_budget_denied}
use rego.Budget.Bucket.{
  Bucket, new_token_bucket, refill, need, take_tokens, allow_attempt, run_attempts, zero, sane,
}

-- What a reference costs, as a number.
abbrev pub price_of : ℤ → ℕ
price_of (pos n) = if leb n 0 then 1 else n
price_of (negsuc n) = 1

abbrev pub price : BudgetRef → ℕ
price ref = price_of ref.cost

-- The answers of a counter that starts at `c`.
unfoldable pub grants : ℕ → List (ℤ × BudgetRef) → List Bool
grants c [] = []
grants c ((now, ref) ∷ calls) =
    leb (price ref) c ∷ grants (if leb (price ref) c then c - price ref else c) calls

-- The prices of the requests that were granted.
unfoldable pub spent : List (ℤ × BudgetRef) → List Bool → ℕ
spent [] ds = 0
spent (c ∷ calls) [] = 0
spent (c ∷ calls) (d ∷ ds) = let rest = spent calls ds in if d then price c.1 + rest else rest

spent-grants-le : (c : ℕ) (calls : List (ℤ × BudgetRef)) → spent calls (grants c calls) ≤ c
unfolding spent grants
spent-grants-le c [] = omega arith
spent-grants-le c ((now, ref) ∷ calls) =
    ground (arith, spent-grants-le c calls, spent-grants-le (c - price ref) calls)

-- The prices that float64 holds exactly.
abbrev pub IsExactPrice : ℤ × BudgetRef → Type 0
IsExactPrice call = price call.1 ≤ 2 ^ 53

charged : (c : ℤ) → (if ltb_ℤ (pos 0) c then c else pos 1) ≡ pos (price_of c)
charged (pos n) = ground arith
charged (negsuc n) = ground arith

price_pos : (c : ℤ) → 1 ≤ price_of c
price_pos (pos n) = ground arith
price_pos (negsuc n) = omega arith

difference : (t p : ℕ) → p ≤ t → pos t -ℤ pos p ≡ pos (t - p)
unfolding ◌-ℤ◌
difference t p h = ground arith

-- `t` whole tokens, and no refill.
record Holds {F : Type 0} ⦃f : FloatOps F⦄ (t : ℕ) (b : Bucket F) : Type 0 where
  exact : t ≤ 2 ^ 53
  tokens : b.tokens ≡ f.of_int (pos t)
  still : f.lt zero b.refill_per_second ≡ false
  started : (last : ℤ) × (b.last ≡ some last)

unfoldable pub answers : {F : Type 0} ⦃f : FloatOps F⦄ → List (ℤ × BudgetRef) → Bucket F → List Bool
answers calls b = map (λ (d : Decision). d.allowed) (run_attempts calls b).1

module _ {F : Type 0} ⦃f : FloatOps F⦄ (laws : FloatLaws f) where
  need-price : (ref : BudgetRef) → price ref ≤ 2 ^ 53 → need ref ≡ f.of_int (pos (price ref))
  unfolding need
  need-price ref h =
      ground (arith, charged ref.cost, price_pos ref.cost, laws.le-of_int (pos (price ref)) (pos 0))

  refill_still : (now : ℤ) (t : ℕ) (b : Bucket F) → Holds t b → Holds t (refill now b)
  unfolding refill sane
  refill_still now t b v =
      let finite = laws.of_int_finite (pos t) (omega (arith, v.exact)) in
      let started = v.started in
      record {
        exact = v.exact;
        tokens = ground (arith, v.tokens, v.still, started.1, finite);
        still = ground (arith, v.still, started.1);
        started = (now, ground (arith, started.1));
      }

  take_granted :
      (ref : BudgetRef) (t : ℕ) (b : Bucket F)
      → price ref ≤ t
      → Holds t b
      → take_tokens ref b ≡ (
        record b { tokens = f.of_int (pos (t - price ref)) },
        record { allowed = true; reason = reason_allowed; has_release = false },
      )
  unfolding take_tokens
  take_granted ref t b h v =
      let same = difference t (price ref) h in
      ground (
        arith,
        v.exact,
        v.tokens,
        same,
        need-price ref (omega (arith, v.exact)),
        laws.le-of_int (pos (price ref)) (pos t) (omega (arith, v.exact)) (omega (arith, v.exact)),
        laws.sub-of_int (pos t) (pos (price ref)) (omega (arith, v.exact)) (omega (arith, v.exact))
            (rw same (omega (arith, v.exact))),
      )

  take_denied :
      (ref : BudgetRef) (t : ℕ) (b : Bucket F)
      → t < price ref
      → price ref ≤ 2 ^ 53
      → Holds t b
      → take_tokens ref b
        ≡ (b, record { allowed = false; reason = reason_budget_denied; has_release = false })
  unfolding take_tokens
  take_denied ref t b h p v = ground (
    arith,
    v.tokens,
    need-price ref p,
    laws.le-of_int (pos (price ref)) (pos t) (omega arith) (omega (arith, v.exact)),
  )

  answers-grants :
      (calls : List (ℤ × BudgetRef)) (t : ℕ) (b : Bucket F)
      → All IsExactPrice calls
      → Holds t b
      → answers calls b ≡ grants t calls
  unfolding answers run_attempts grants allow_attempt
  answers-grants [] t b p v = refl
  answers-grants ((now, ref) ∷ calls) t b p v =
      let ready = refill_still now t b v in
      elim (Bool-cases (leb (price ref) t)) [
        | inl e ↦
            let covered : price ref ≤ t = ground (arith, e) in
            let kept : Holds (t - price ref)
                (record (refill now b) { tokens = f.of_int (pos (t - price ref)) }) =
              record {
                exact = omega (arith, v.exact);
                tokens = refl;
                still = ready.still;
                started = ready.started;
              } in
            rw (e, take_granted ref t (refill now b) covered ready)
              (ap (λ (ds : List Bool). true ∷ ds)
                (answers-grants calls (t - price ref)
                  (record (refill now b) { tokens = f.of_int (pos (t - price ref)) }) p.1 kept))
        | inr e ↦
            rw (e, take_denied ref t (refill now b) (ground (arith, e)) p.0 ready)
              (ap (λ (ds : List Bool). false ∷ ds)
                (answers-grants calls t (refill now b) p.1 ready))
      ]

  new_token_bucket-Holds :
      (c : ℕ) (rate : F) (now : ℤ)
      → c ≤ 2 ^ 53
      → f.lt zero rate ≡ false
      → Holds c (new_token_bucket (pos c) rate now)
  unfolding new_token_bucket
  new_token_bucket-Holds c rate now h r = record {
    exact = h;
    tokens = ground arith;
    still = ground (arith, r, laws.lt-irreflexive zero);
    started = (now, refl);
  }

  -- A bucket of `c` tokens without refill answers any sequence of requests as a counter that starts
  -- at `c` does, and so the requests that it grants cost at most `c` together. The capacity and the
  -- prices are integers that float64 holds exactly.
  pub unrefilled_bucket :
      (calls : List (ℤ × BudgetRef)) (c : ℕ) (rate : F) (now : ℤ)
      → c ≤ 2 ^ 53
      → f.lt zero rate ≡ false
      → All IsExactPrice calls
      → (answers calls (new_token_bucket (pos c) rate now) ≡ grants c calls)
        × (spent calls (answers calls (new_token_bucket (pos c) rate now)) ≤ c)
  unrefilled_bucket calls c rate now h r p =
      let counted =
        answers-grants calls c (new_token_bucket (pos c) rate now) p
          (new_token_bucket-Holds c rate now h r) in
      (counted, rw counted (spent-grants-le c calls))
