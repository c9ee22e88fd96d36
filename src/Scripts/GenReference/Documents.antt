-- ===== src/Scripts/GenReference/Documents.antt =====
-- scripts/gen_reference.go: the reference of reason codes and that of the policy schema.
use rego.Common.{String, List, [], ◌∷◌, ◌++◌, map, none, some, lookup}
use rego.Budget.Registry.{String-eq}
use rego.Scripts.GenReference.Tables.{
  StructField, set_to_sorted, sorted_keys, bullets, pair_row, pair_rows, write_struct,
  write_struct_with_tags,
}

abbrev pub generated_line : String
generated_line = "<!-- Generated by scripts/gen_reference.go; do not edit by hand. -->\n"

-- The structs that were collected, by name.
abbrev pub Structs : Type 0
Structs = List (String × List StructField)

unfoldable pub struct_of : String → Structs → List StructField
struct_of name structs = elim (lookup name structs) [ none ↦ [] | some fields ↦ fields ]

pub record ReasonSet : Type 0 where
  pub static : List String
  pub patterns : List String

-- A list of values under its heading, if there are any.
unfoldable pub section : String → List String → List String
section heading [] = []
section heading (v ∷ vs) = heading ∷ bullets (v ∷ vs) ++ "\n" ∷ []

-- `renderReasonsMarkdown`
unfoldable pub render_reasons_markdown :
    List String → List String → ReasonSet → List String → Structs → List String
render_reasons_markdown budget_reasons circuit_reasons outcome modes structs =
    generated_line
      ∷ "# Reason codes and timeline fields\n\n"
      ∷ "Generated from: `budget/reasons.go`, `circuit/types.go`, `classify/`, `retry/`, `integrations/grpc/grpc.go`, `observe/types.go`.\n\n"
      ∷ "These reason codes and timeline fields are part of the v1 telemetry contract. Changes are breaking.\n\n"
      ∷ "## Outcome reasons\n\n"
      ∷ "These values appear in `observe.AttemptRecord.Outcome.Reason`.\n\n"
      ∷ section "### Static reasons\n\n" (set_to_sorted outcome.static)
    ++ section "### Pattern reasons\n\n" (set_to_sorted outcome.patterns)
    ++ "## Budget reasons\n\n"
      ∷ "These values appear in `observe.BudgetDecisionEvent.Reason` and `observe.AttemptRecord.BudgetReason`.\n\n"
      ∷ bullets budget_reasons
    ++ "\n"
      ∷ "## Circuit reasons\n\n"
      ∷ "These values appear on `retry.CircuitOpenError.Reason`.\n\n"
      ∷ bullets circuit_reasons
    ++ "\n"
      ∷ "## Budget decision modes\n\n"
      ∷ "These values appear in `observe.BudgetDecisionEvent.Mode`.\n\n"
      ∷ bullets (set_to_sorted modes)
    ++ "\n" ∷ "## Timeline fields\n\n" ∷ write_struct "Timeline" (struct_of "Timeline" structs)
    ++ write_struct "AttemptRecord" (struct_of "AttemptRecord" structs)
    ++ write_struct "BudgetDecisionEvent" (struct_of "BudgetDecisionEvent" structs)

pub record ConstValue : Type 0 where
  pub name : String
  pub value : String

-- A table of constants under its heading, if there are any.
unfoldable pub const_table : String → List ConstValue → List String
const_table heading [] = []
const_table heading (v ∷ vs) =
    heading
      ∷ "| Name | Value |\n"
      ∷ "|---|---|\n"
      ∷ map (λ (c : ConstValue). pair_row c.name c.value) (v ∷ vs)
    ++ "\n" ∷ []

unfoldable pub limit_table : List (String × String) → List String
limit_table [] = []
limit_table (l ∷ ls) =
    "## Normalization limits\n\n"
      ∷ "Values are defined in `policy/schema.go` and used by `EffectivePolicy.Normalize`.\n\n"
      ∷ "| Constant | Value |\n"
      ∷ "|---|---|\n"
      ∷ pair_rows (l ∷ ls) (sorted_keys (l ∷ ls))
    ++ "\n" ∷ []

unfoldable pub default_table : List (String × String) → List String
default_table defaults =
    "Defaults are taken from `policy.DefaultPolicyFor`. Normalization may adjust values when fields are zero or out of bounds.\n\n"
      ∷ "| Field path | Default |\n"
      ∷ "|---|---|\n"
      ∷ pair_rows defaults (sorted_keys defaults)
    ++ "\n" ∷ []

-- `renderPolicySchemaMarkdown`
unfoldable pub render_policy_schema_markdown :
    Structs
    → List (String × String)
    → List ConstValue
    → List ConstValue
    → List (String × String)
    → List String
render_policy_schema_markdown structs defaults jitter_values policy_sources limits =
    generated_line
      ∷ "# Policy schema reference\n\n"
      ∷ "Generated from: `policy/key.go`, `policy/schema.go`.\n\n"
      ∷ "## Types\n\n"
      ∷ write_struct_with_tags "policy.PolicyKey" (struct_of "PolicyKey" structs)
    ++ write_struct_with_tags "policy.BudgetRef" (struct_of "BudgetRef" structs)
    ++ write_struct_with_tags "policy.RetryPolicy" (struct_of "RetryPolicy" structs)
    ++ write_struct_with_tags "policy.HedgePolicy" (struct_of "HedgePolicy" structs)
    ++ write_struct_with_tags "policy.CircuitPolicy" (struct_of "CircuitPolicy" structs)
    ++ write_struct_with_tags "policy.NormalizationInfo" (struct_of "NormalizationInfo" structs)
    ++ write_struct_with_tags "policy.Metadata" (struct_of "Metadata" structs)
    ++ write_struct_with_tags "policy.EffectivePolicy" (struct_of "EffectivePolicy" structs)
    ++ "## Default policy values\n\n" ∷ default_table defaults
    ++ const_table "## JitterKind values\n\n" jitter_values
    ++ const_table "## PolicySource values\n\n" policy_sources
    ++ limit_table limits
