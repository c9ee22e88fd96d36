-- ===== src/Scripts/GenReference/Laws.antt =====
-- scripts/gen_reference.go with scripts/claims_check/main.go: the check leaves the generated documents
-- out; and the notes of a table do not break its rows.
use Prim.Native.Char.{code}
use Prim.Native.String.{◌++◌ as concat}
use text.Mathlib.TextLemmas.{cons-append, nil-append}
use rego.Common.{
  ℕ, suc, ◌≡◌, refl, ◌==◌, String, Bool, true, false, Bool-cases, inl, inr, List, ◌∷◌, some,
  if◌then◌else◌,
}
use rego.Errors.Texts.{has_prefix-concat}
use rego.Scripts.ClaimsCheck.{Tree, Visited, Found, should_ignore, any_marker, scan_content}
use rego.Scripts.ClaimsCheck.Rows.{has_prefix, contains}
use rego.Scripts.ClaimsCheck.Ledger.{Fault}
use rego.Scripts.GenReference.Tables.{contents, escape_pipes}
use rego.Scripts.GenReference.Documents.{
  generated_line, Structs, ReasonSet, ConstValue, render_reasons_markdown,
  render_policy_schema_markdown,
}
use rego.Scripts.GenReference.Safety.{
  Fallbacks, DefaultExecutorConfig, render_defaults_safety_markdown,
}

abbrev marker : String
marker = "<!-- Generated by scripts/gen_reference.go; do not edit by hand. -->"

has_prefix-contains : (t s : String) → has_prefix t s ≡ true → contains t s ≡ true
unfolding has_prefix contains
has_prefix-contains String.[] String.[] h = refl
has_prefix-contains (String.◌∷◌ c t) String.[] h = absurd (cc h)
has_prefix-contains t (String.◌∷◌ c s) h = rw h

line-begins : has_prefix marker generated_line ≡ true
unfolding has_prefix
line-begins = refl

either_way : (b : Bool) → (if b then true else true) ≡ true
either_way true = refl
either_way false = refl

-- Every document that begins with the generated line.
marked-should_ignore :
    (pieces : List String) → should_ignore (contents (generated_line ∷ pieces)) ≡ true
unfolding should_ignore any_marker contents
marked-should_ignore pieces =
    let content = concat generated_line (contents pieces) in
    let begins : has_prefix marker content ≡ true =
      has_prefix-concat marker generated_line (contents pieces) line-begins in
    rw (has_prefix-contains marker content begins) (either_way _)

-- The check takes nothing from it.
left_out :
    (t : Tree) (v : Visited) (acc : Found × List Fault) (pieces : List String)
    → scan_content t v (some (contents (generated_line ∷ pieces))) acc ≡ acc
unfolding scan_content
left_out t v acc pieces = rw (marked-should_ignore pieces)

-- Whatever was collected from the sources, the claims check takes nothing from the three documents
-- that the generator writes: a scan of the reference of reason codes, of the policy schema and of
-- the defaults leaves the found Claim-IDs and the errors as they were.
pub generated_ignored :
    (t : Tree) (v : Visited) (acc : Found × List Fault)
    (budget_reasons circuit_reasons modes : List String) (outcome : ReasonSet) (structs : Structs)
    (jitter_values policy_sources : List ConstValue)
    (defaults limits mode_defaults : List (String × String)) (fallbacks : Fallbacks)
    (builtins : List String) (config : DefaultExecutorConfig) (hedge_fallback uses_default : Bool)
    → let scan : List String → Found × List Fault =
        λ pieces. scan_content t v (some (contents pieces)) acc in
      (scan (render_reasons_markdown budget_reasons circuit_reasons outcome modes structs) ≡ acc)
      × (scan (render_policy_schema_markdown structs defaults jitter_values policy_sources limits)
          ≡ acc)
      × (scan (
            render_defaults_safety_markdown defaults limits fallbacks mode_defaults builtins config
              hedge_fallback uses_default)
          ≡ acc)
unfolding render_reasons_markdown render_policy_schema_markdown render_defaults_safety_markdown
generated_ignored t v acc budget_reasons circuit_reasons modes outcome structs jitter_values
      policy_sources defaults limits mode_defaults fallbacks builtins config hedge_fallback
      uses_default =
    (left_out t v acc _, left_out t v acc _, left_out t v acc _)

-- The pipes that end a cell: those with no backslash before them.
bare_pipes : Bool → String → ℕ
bare_pipes escaped String.[] = 0
bare_pipes escaped (String.◌∷◌ c s) =
    let rest = bare_pipes (code c == 0x5c) s in
    if code c == b'|' then (if escaped then rest else suc rest) else rest

-- No note ends a cell of its table.
escape_pipes-bare_pipes : (escaped : Bool) (s : String) → bare_pipes escaped (escape_pipes s) ≡ 0
unfolding bare_pipes escape_pipes
escape_pipes-bare_pipes escaped String.[] = refl
escape_pipes-bare_pipes escaped (String.◌∷◌ c s) = elim (Bool-cases (code c == b'|')) [
  | inl pipe ↦ rw (pipe, cons-append, cons-append, nil-append) (escape_pipes-bare_pipes false s)
  | inr other ↦ rw (other, other) (escape_pipes-bare_pipes (code c == 0x5c) s)
]
