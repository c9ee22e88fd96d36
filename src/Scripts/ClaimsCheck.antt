-- ===== src/Scripts/ClaimsCheck.antt =====
-- scripts/claims_check/main.go: the program that checks the documents against the ledger of claims.
-- The files, the walk over the directory `docs`, the regular expression and `strings.ToLower` are
-- what stands outside.
pub mod Rows
pub mod Ledger
pub mod Laws
use rego.Common.{
  String, ◌≡◌, is_empty, Bool, true, false, not, List, [], ◌∷◌, ◌++◌, map, Option, none, some,
  lookup, insert, str_eq, if◌then◌else◌,
}
use rego.Budget.Registry.{String-eq}
use rego.Scripts.ClaimsCheck.Rows.{contains}
use rego.Scripts.ClaimsCheck.Ledger.{
  LedgerEntry, Entries, Fault, unreadable, walk_failed, missing_id, parse_ledger,
}

abbrev generated_markers : List String
generated_markers =
    "<!-- Generated by scripts/gen_reference.go; do not edit by hand. -->"
    ∷ "<!-- GENERATED: DO NOT EDIT -->" ∷ []

abbrev ignore_marker : String
ignore_marker = "<!-- claims-scan: ignore -->"

-- The loop over the markers.
unfoldable pub any_marker : List String → String → Bool
any_marker [] content = false
any_marker (m ∷ ms) content = if contains m content then true else any_marker ms content

unfoldable pub should_ignore : String → Bool
should_ignore content =
    if contains ignore_marker content then true else any_marker generated_markers content

-- What the walk visits: the path, whether it is a directory, its extension and its last part.
pub record Visited : Type 0 where
  pub path : String
  pub is_dir : Bool
  pub ext : String
  pub base : String

-- The surroundings of a run; `none` of a file is a failed read.
pub record Tree : Type 0 where
  pub root_found : Bool  -- os.Getwd
  pub readme : Option Visited  -- README.md, if it is a file
  pub docs : Option (List Visited × Bool)  -- the walk over docs, and whether it failed
  pub read_file : String → Option String
  pub ledger_path : String
  pub claim_ids : String → List String  -- the matches of `claimIDPattern`
  pub to_slash : String → String
  pub to_lower : String → String

-- The Markdown files of a walk.
unfoldable pub markdown : List Visited → List Visited
markdown [] = []
markdown (v ∷ vs) =
    let rest = markdown vs in
    if v.is_dir then rest else if str_eq v.ext ".md" then v ∷ rest else rest

-- Where each Claim-ID was found.
abbrev pub Found : Type 0
Found = List (String × List String)

unfoldable pub add_id : String → Found → String → Found
add_id path found id =
    insert id ((elim (lookup id found) [ none ↦ [] | some paths ↦ paths ]) ++ path ∷ []) found

unfoldable pub add_ids : String → List String → Found → Found
add_ids path [] found = found
add_ids path (id ∷ ids) found = add_ids path ids (add_id path found id)

-- A found Claim-ID, with what the ledger has for it.
unfoldable pub report_missing : String → List String → Option LedgerEntry → List Fault
report_missing id files none = missing_id id files ∷ []
report_missing id files (some e) = []

unfoldable pub missing_ids : Entries → Found → List Fault
missing_ids entries [] = []
missing_ids entries ((id, files) ∷ found) =
    report_missing id files (lookup id entries) ++ missing_ids entries found

abbrev pub no_faults : List Fault → Bool
no_faults [] = true
no_faults (e ∷ es) = false

module _ (t : Tree) where
  unfoldable pub targets : List Visited
  targets =
      (elim t.readme [ none ↦ [] | some v ↦ v ∷ [] ])
      ++ elim t.docs [ none ↦ [] | some (vs, failed) ↦ markdown vs ]

  -- What was read of a file.
  unfoldable pub scan_content : Visited → Option String → Found × List Fault → Found × List Fault
  scan_content v none (found, errs) = (found, errs ++ unreadable v.path ∷ [])
  scan_content v (some content) (found, errs) =
      if should_ignore content
      then (found, errs)
      else (add_ids (t.to_slash v.path) (t.claim_ids content) found, errs)

  -- One file: the ledger itself is left out.
  unfoldable pub scan_file : Visited → Found × List Fault → Found × List Fault
  scan_file v acc =
      if str_eq v.base "claims-ledger.md" then acc else scan_content v (t.read_file v.path) acc

  unfoldable pub scan_files : List Visited → Found × List Fault → Found × List Fault
  scan_files [] acc = acc
  scan_files (v ∷ vs) acc = scan_files vs (scan_file v acc)

  unfoldable pub scan_claim_ids : Found × List Fault
  scan_claim_ids =
      scan_files targets (
        [],
        elim t.docs [ none ↦ [] | some (vs, failed) ↦ if failed then walk_failed ∷ [] else [] ],
      )

  -- `main` behind `os.Getwd`: what it prints. The order in which a map is gone through is open in
  -- the source.
  unfoldable pub faults : List Fault
  faults =
      let (entries, ledger_errs) = parse_ledger t.to_lower (t.read_file t.ledger_path) in
      let (found, scan_errs) = scan_claim_ids in
      ledger_errs ++ scan_errs ++ missing_ids entries found

  -- Whether `main` ends with the exit code 0.
  unfoldable pub succeeds : Bool
  succeeds = if t.root_found then no_faults faults else false
