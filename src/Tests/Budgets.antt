-- ===== src/Tests/Budgets.antt =====
-- The token bucket on the numbers of the examples.
use rego.Common.{◌≡◌, refl, ◌≤◌, ℤ, pos, List, [], ◌∷◌, arith}
use rego.Policy.Schema.{BudgetRef}
use rego.Budget.Bucket.{Bucket, new_token_bucket, run_attempts}
use rego.Budget.Bucket.Limits.{IsInRange, run-new_token_bucket-IsInRange}
use rego.Budget.Bucket.Conservation.{unrefilled_bucket, answers, grants, spent}
use rego.Tests.Floats.{Num, num, nan, numbers, laws, order_laws}

abbrev asks : ℤ → BudgetRef
asks c = record { name = "db"; cost = c }

abbrev requests : List (ℤ × BudgetRef)
requests = (pos 1, asks (pos 2)) ∷ (pos 2, asks (pos 0)) ∷ (pos 3, asks (pos 5)) ∷ []

abbrev filled : Bucket Num
filled = new_token_bucket (pos 3) (num (pos 1)) (pos 0)

run-new_token_bucket-IsInRange_example :
    IsInRange (run_attempts requests filled).0
    × IsInRange (run_attempts ((pos 1, asks (pos 1)) ∷ requests) (record filled { tokens = nan })).0
run-new_token_bucket-IsInRange_example =
    run-new_token_bucket-IsInRange order_laws requests (pos 3) (num (pos 1)) (pos 0) (pos 1)
      (asks (pos 1)) nan (omega arith) refl

unrefilled_bucket_example :
    (answers requests (new_token_bucket (pos 3) (num (pos 0)) (pos 0)) ≡ grants 3 requests)
    × (spent requests (answers requests (new_token_bucket (pos 3) (num (pos 0)) (pos 0))) ≤ 3)
unrefilled_bucket_example =
    unrefilled_bucket laws requests 3 (num (pos 0)) (pos 0) (omega arith) refl
      (omega arith, (omega arith, (omega arith, tt)))
