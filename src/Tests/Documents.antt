-- ===== src/Tests/Documents.antt =====
-- A ledger with one claim, and a document that names it.
use rego.Common.{
  trim_space, trim_right, trim_left, is_space, insert, lookup, String, str_eq, ◌≡◌, refl, true,
  false, List, [], ◌∷◌, none, some, if◌then◌else◌,
}
use rego.Scripts.ClaimsCheck.Rows.{
  split_lines, split, unify_newlines, is_row, has_column, split_row, trim_suffix, trim_prefix,
  all_dashes, get_column, is_dashes, is_separator_row, contains, has_prefix,
}
use rego.Scripts.ClaimsCheck.{
  Tree, Visited, Found, succeeds, faults, add_id, add_ids, any_marker, markdown, missing_ids,
  report_missing, scan_claim_ids, scan_content, scan_file, scan_files, should_ignore, targets,
}
use rego.Scripts.GenReference.Tables.{contents}
use rego.Scripts.GenReference.Documents.{
  ReasonSet, render_reasons_markdown, render_policy_schema_markdown,
}
use rego.Scripts.GenReference.Safety.{
  Fallbacks, DefaultExecutorConfig, render_defaults_safety_markdown,
}
use rego.Scripts.GenReference.Laws.{generated_ignored}
use rego.Scripts.ClaimsCheck.Laws.{IsLedgered, success_is_checked}
use rego.Scripts.ClaimsCheck.Ledger.{
  Fault, LedgerEntry, find_header, parse_ledger, parse_table, fill_table, missing_columns,
  add_entry, index_columns, lacks_code, new_entry, read_row, read_rows, store_entry,
}
use rego.Scripts.ClaimsCheck.Ledger.Complete.{HasRow, ledger_complete}

abbrev body : String
body =
    "| claim-id | claim | doc location | code source | status |\n|---|---|---|---|---|\n| X-1 | It works. | README.md | main.go | verified |"

abbrev header : List String
header = "claim-id" ∷ "claim" ∷ "doc location" ∷ "code source" ∷ "status" ∷ []

abbrev behind : List String
behind = "|---|---|---|---|---|" ∷ "| X-1 | It works. | README.md | main.go | verified |" ∷ []

ledger_complete_example :
    HasRow
      (λ s. s)
      (index_columns (λ s. s) 0 header [])
      2
      "| X-1 | It works. | README.md | main.go | verified |"
      (parse_ledger (λ s. s) (some body)).0
unfolding find_header split_lines split unify_newlines is_row trim_space trim_right trim_left
    is_space has_column split_row trim_suffix trim_prefix parse_ledger parse_table fill_table
    missing_columns insert lookup add_entry index_columns lacks_code new_entry read_row read_rows
    store_entry all_dashes get_column is_dashes is_separator_row
ledger_complete_example =
    ledger_complete (λ s. s) body 0 header behind 1
      "| X-1 | It works. | README.md | main.go | verified |" refl refl refl (refl, refl, refl)

abbrev readme : Visited
readme = record { path = "README.md"; is_dir = false; ext = ".md"; base = "README.md" }

abbrev tree : Tree
tree = record {
  root_found = true;
  readme = some readme;
  docs = none;
  read_file = λ p. if str_eq p "README.md" then some "It works. Claim-ID: X-1" else some body;
  ledger_path = "docs/claims-ledger.md";
  claim_ids = λ s. "X-1" ∷ [];
  to_slash = λ s. s;
  to_lower = λ s. s;
}

tree-succeeds : succeeds tree ≡ true
unfolding succeeds faults find_header split_lines split unify_newlines is_row trim_space trim_right
    trim_left is_space has_column split_row trim_suffix trim_prefix parse_ledger parse_table
    fill_table missing_columns insert lookup add_entry index_columns lacks_code new_entry read_row
    read_rows store_entry all_dashes get_column is_dashes is_separator_row contains has_prefix
    add_id add_ids any_marker markdown missing_ids report_missing scan_claim_ids scan_content
    scan_file scan_files should_ignore targets
tree-succeeds = refl

success_is_checked_example :
    (text : String) × (e : LedgerEntry) × (tree.read_file tree.ledger_path ≡ some text)
    × IsLedgered tree text "X-1" e
unfolding targets should_ignore contains has_prefix any_marker
success_is_checked_example = success_is_checked tree readme "X-1" 0 tree-succeeds refl (record {
  content = "It works. Claim-ID: X-1";
  place = 0;
  not_ledger = refl;
  is_read = refl;
  not_ignored = refl;
  matched = refl;
})

abbrev defaults : List (String × String)
defaults = ("retry.max_attempts", "3") ∷ []

abbrev reasons : ReasonSet
reasons = record { static = "success" ∷ []; patterns = [] }

abbrev fallbacks : Fallbacks
fallbacks = record { defaults = []; classifier_builtins = true }

abbrev config : DefaultExecutorConfig
config = record { observer = ""; default_classifier = "auto"; budgets = []; triggers = [] }

abbrev scan : List String → Found × List Fault
scan pieces = scan_content tree readme (some (contents pieces)) ([], [])

generated_ignored_example :
    (scan (render_reasons_markdown ("allowed" ∷ []) [] reasons [] []) ≡ ([], []))
    × (scan (render_policy_schema_markdown [] defaults [] [] []) ≡ ([], []))
    × (scan (render_defaults_safety_markdown defaults [] fallbacks [] [] config true true)
        ≡ ([], []))
generated_ignored_example =
    generated_ignored tree readme ([], []) ("allowed" ∷ []) [] [] reasons [] [] [] defaults [] []
      fallbacks [] config true true
