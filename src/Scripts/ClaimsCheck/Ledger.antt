-- ===== src/Scripts/ClaimsCheck/Ledger.antt =====
-- scripts/claims_check/main.go, `parseLedger`: the ledger's table as entries by Claim-ID. The errors
-- are a data type in place of their texts.
pub mod Laws
pub mod Complete
use rego.Common.{
  ℕ, ◌+◌, String, is_empty, trim_space, Bool, true, false, not, ◌&&◌, List, [], ◌∷◌, ◌++◌, Option,
  none, some, lookup, insert, str_eq, if◌then◌else◌,
}
use rego.Budget.Registry.{String-eq}
use rego.Scripts.ClaimsCheck.Rows.{
  split_lines, is_row, split_row, has_column, Columns, get_column, is_separator_row,
}

pub record LedgerEntry : Type 0 where
  pub id : String
  pub claim : String
  pub location : String
  pub code : String
  pub status : String
  pub raw_line : String
  pub line_index : ℕ

abbrev pub Entries : Type 0
Entries = List (String × LedgerEntry)

-- The errors that are printed.
pub data Fault : Type 0 where
  ledger_unreadable : Fault
  no_header : Fault
  missing_column : String → Fault
  duplicate_id : String → Fault
  missing_code : String → ℕ → Fault
  unreadable : String → Fault
  walk_failed : Fault
  missing_id : String → List String → Fault

abbrev pub required : List String
required = "claim-id" ∷ "claim" ∷ "doc location" ∷ "code source" ∷ "status" ∷ []

unfoldable pub missing_columns : List String → Columns → List Fault
missing_columns [] idx = []
missing_columns (name ∷ names) idx =
    let rest = missing_columns names idx in
    elim (lookup name idx) [ none ↦ missing_column name ∷ rest | some i ↦ rest ]

module _ (to_lower : String → String) where
  -- The header's index and columns, with the lines behind it.
  unfoldable pub find_header : ℕ → List String → Option (ℕ × List String × List String)
  find_header i [] = none
  find_header i (line ∷ lines) =
      let rest = find_header (i + 1) lines in
      if is_row line
      then if has_column to_lower (split_row line) "claim-id"
        then some (i, split_row line, lines)
        else rest
      else rest

  -- The loop that fills `colIndex`.
  unfoldable pub index_columns : ℕ → List String → Columns → Columns
  index_columns i [] idx = idx
  index_columns i (col ∷ cols) idx = index_columns (i + 1) cols (insert (to_lower col) i idx)

  unfoldable pub new_entry : Columns → ℕ → String → LedgerEntry
  new_entry idx i line =
      let cols = split_row line in
      record {
        id = get_column cols idx "claim-id";
        claim = get_column cols idx "claim";
        location = get_column cols idx "doc location";
        code = get_column cols idx "code source";
        status = to_lower (get_column cols idx "status");
        raw_line = line;
        line_index = i + 1;
      }

  -- A verified claim wants a code source.
  unfoldable pub lacks_code : LedgerEntry → Bool
  lacks_code e = str_eq e.status "verified" && is_empty (trim_space e.code)

  -- An entry, with what the map has for its Claim-ID: the first entry stays.
  unfoldable pub store_entry :
      LedgerEntry → Option LedgerEntry → Entries × List Fault → Entries × List Fault
  store_entry e (some old) (entries, errs) = (entries, errs ++ duplicate_id e.id ∷ [])
  store_entry e none (entries, errs) = (
    insert e.id e entries,
    if lacks_code e then errs ++ missing_code e.id e.line_index ∷ [] else errs,
  )

  -- A row that is not a separator.
  unfoldable pub add_entry : LedgerEntry → Entries × List Fault → Entries × List Fault
  add_entry e acc = if is_empty e.id then acc else store_entry e (lookup e.id acc.0) acc

  -- One line behind the header.
  unfoldable pub read_row : Columns → ℕ → String → Entries × List Fault → Entries × List Fault
  read_row idx i line acc =
      if is_row line
      then if is_separator_row (split_row line) then acc else add_entry (new_entry idx i line) acc
      else acc

  unfoldable pub read_rows : Columns → ℕ → List String → Entries × List Fault → Entries × List Fault
  read_rows idx i [] acc = acc
  read_rows idx i (line ∷ lines) acc = read_rows idx (i + 1) lines (read_row idx i line acc)

  -- Behind the header, with the missing columns: they end the parse, with a nil map.
  unfoldable pub fill_table : Columns → ℕ → List String → List Fault → Entries × List Fault
  fill_table idx i lines [] = read_rows idx (i + 1) lines ([], [])
  fill_table idx i lines (e ∷ es) = ([], e ∷ es)

  unfoldable pub parse_table : Option (ℕ × List String × List String) → Entries × List Fault
  parse_table none = ([], no_header ∷ [])
  parse_table (some (i, header, lines)) =
      let idx = index_columns 0 header [] in fill_table idx i lines (missing_columns required idx)

  unfoldable pub parse_ledger : Option String → Entries × List Fault
  parse_ledger none = ([], ledger_unreadable ∷ [])
  parse_ledger (some body) = parse_table (find_header 0 (split_lines body))
