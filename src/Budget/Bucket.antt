-- ===== src/Budget/Bucket.antt =====
-- budget/builtins.go: the unlimited budget and the token bucket. `time.Now()` is an argument; the
-- zero time is `none`. The mutex makes `AllowAttempt` one step.
pub mod Limits
pub mod Conservation
use Prim.Native.Nat.{ℕ, suc, ◌/◌, ◌%◌}
use rego.Common.{
  ℤ, pos, negsuc, ◌-ℤ◌, ltb_ℤ, saturate, Bool, true, false, not, ◌&&◌, ◌||◌, Option, none, some,
  FloatOps, if◌then◌else◌, List, [], ◌∷◌,
}
use rego.Policy.Schema.{BudgetRef}
use rego.Budget.Types.{Decision, reason_allowed, reason_budget_denied, reason_budget_nil}

unfoldable pub unlimited : Decision
unlimited = record { allowed = true; reason = reason_allowed; has_release = false }

pub record Bucket (F : Type 0) : Type 0 where
  pub capacity : F
  pub refill_per_second : F
  pub tokens : F
  pub last : Option ℤ

-- The integer -n.
abbrev minus : ℕ → ℤ
minus n = pos 0 -ℤ pos n

module _ {F : Type 0} ⦃f : FloatOps F⦄ where
  abbrev pub zero : F
  zero = f.of_int (pos 0)

  -- `time.Duration.Seconds`
  unfoldable pub to_seconds : ℤ → F
  to_seconds (pos n) =
      f.add (f.of_int (pos (n / 1000000000)))
        (f.div (f.of_int (pos (n % 1000000000))) (f.of_int (pos 1000000000)))
  to_seconds (negsuc n) =
      f.add (f.of_int (minus (suc n / 1000000000)))
        (f.div (f.of_int (minus (suc n % 1000000000))) (f.of_int (pos 1000000000)))

  -- `NewTokenBucketBudget`
  unfoldable pub new_token_bucket : ℤ → F → ℤ → Bucket F
  new_token_bucket capacity refill now =
      let capacity' = if ltb_ℤ capacity (pos 0) then pos 0 else capacity in
      let refill' = if f.lt refill zero then zero else refill in
      let refill'' = if f.is_nan refill' || f.is_inf refill' then zero else refill' in
      record {
        capacity = f.of_int capacity';
        refill_per_second = refill'';
        tokens = f.of_int capacity';
        last = some now;
      }

  -- The tokens that `elapsed` nanoseconds add.
  unfoldable pub added : ℤ → Bucket F → F
  added elapsed b =
      let a = f.mul (to_seconds elapsed) b.refill_per_second in
      if f.is_nan a || f.is_inf a || f.lt a zero then zero else a

  -- "Sanity check state"
  unfoldable pub sane : F → F
  sane t = if f.is_nan t || f.is_inf t then zero else t

  -- The first half of `AllowAttempt`: the state made sane and brought up to `now`.
  unfoldable pub refill : ℤ → Bucket F → Bucket F
  refill now b =
      let t = sane b.tokens in
      elim b.last [
        | none ↦ record b { tokens = b.capacity; last = some now }
        | some last ↦
            if f.lt zero b.refill_per_second && not (ltb_ℤ now last)
            then (let sum = f.add t (added (saturate (now -ℤ last)) b) in
                record b {
                  tokens = if f.lt b.capacity sum then b.capacity else sum;
                  last = some now;
                })
            else record b { tokens = t; last = some now }
      ]

  -- `need`: the cost of the reference, 1 if it has none.
  unfoldable pub need : BudgetRef → F
  need ref =
      let n = f.of_int (if ltb_ℤ (pos 0) ref.cost then ref.cost else pos 1) in
      if f.le n zero then f.of_int (pos 1) else n

  -- The second half.
  unfoldable pub take_tokens : BudgetRef → Bucket F → Bucket F × Decision
  take_tokens ref b =
      if f.le (need ref) b.tokens
      then (
        record b { tokens = f.sub b.tokens (need ref) },
        record { allowed = true; reason = reason_allowed; has_release = false },
      )
      else (b, record { allowed = false; reason = reason_budget_denied; has_release = false })

  -- `AllowAttempt` on a pointer that is not nil.
  unfoldable pub allow_attempt : ℤ → BudgetRef → Bucket F → Bucket F × Decision
  allow_attempt now ref b = take_tokens ref (refill now b)

  -- `AllowAttempt` on any pointer.
  unfoldable pub allow_attempt_ptr :
      ℤ → BudgetRef → Option (Bucket F) → Option (Bucket F) × Decision
  allow_attempt_ptr now ref none =
      (none, record { allowed = false; reason = reason_budget_nil; has_release = false })
  allow_attempt_ptr now ref (some b) = let (b', d) = allow_attempt now ref b in (some b', d)

  -- A sequence of calls, each with its time and its reference.
  unfoldable pub run_attempts : List (ℤ × BudgetRef) → Bucket F → Bucket F × List Decision
  run_attempts [] b = (b, [])
  run_attempts ((now, ref) ∷ rest) b =
      let (b', d) = allow_attempt now ref b in let (b'', ds) = run_attempts rest b' in (b'', d ∷ ds)
