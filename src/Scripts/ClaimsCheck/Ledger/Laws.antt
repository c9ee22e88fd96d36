-- ===== src/Scripts/ClaimsCheck/Ledger/Laws.antt =====
-- scripts/claims_check/main.go: what `parseLedger` makes of the rows of the ledger.
use rego.Common.{
  ℕ, suc, ◌+◌, String, is_empty, ◌≡◌, refl, ap, ◌∙◌, subst, inl, inr, Bool, true, false, Bool-cases,
  List, [], ◌∷◌, ◌++◌, Option, none, some, get_elem?, lookup, insert, All, str_eq, str_eq_iff,
  if◌then◌else◌, arith,
}
use rego.Budget.Registry.{String-eq}
use rego.Scripts.ClaimsCheck.Rows.{
  is_row, split_row, Columns, is_separator_row, split_lines, has_column,
}
use rego.Scripts.ClaimsCheck.Ledger.{
  LedgerEntry, Entries, Fault, new_entry, lacks_code, store_entry, add_entry, read_row, read_rows,
  find_header, fill_table, parse_table, parse_ledger, duplicate_id, missing_code,
}

module _ {V : Type 0} (P : String × V → Type 0) where
  All-insert :
      (k : String) (v : V) (m : List (String × V)) → P (k, v) → All P m → All P (insert k v m)
  unfolding insert
  All-insert k v [] p a = (p, tt)
  All-insert k v ((j, w) ∷ m) p a = elim (Bool-cases (str_eq j k)) [
    | inl e ↦ rw e (p, a.1)
    | inr e ↦ rw e (a.0, All-insert k v m p a.1)
  ]

  agree : {j k : String} {w v : V} → j ≡ k → some w ≡ some v → ◌≡◌ {A = String × V} (j, w) (k, v)
  agree e h = cc

  pub All-lookup :
      (k : String) (v : V) (m : List (String × V)) → All P m → lookup k m ≡ some v → P (k, v)
  unfolding lookup
  All-lookup k v [] a e = absurd (cc e)
  All-lookup k v ((j, w) ∷ m) a e = elim (Bool-cases (str_eq j k)) [
    | inl same ↦ subst P (agree ((str_eq_iff j k).0 same) (rw same at e)) a.0
    | inr other ↦ All-lookup k v m a.1 (rw other at e)
  ]

pub snoc-ne-nil : {A : Type 0} (xs : List A) (x : A) → xs ++ x ∷ [] ≡ [] → ⊥
snoc-ne-nil [] x e = cc e
snoc-ne-nil (y ∷ ys) x e = cc e

module _ (to_lower : String → String) (lines : List String) where
  -- An entry is kept under its own Claim-ID, which is not empty, and is the row at its line; and
  -- where nothing was wrong, it has a code source if it is verified.
  abbrev pub IsSound : List Fault → String × LedgerEntry → Type 0
  IsSound errs (id, e) =
      (e.id ≡ id)
      × (is_empty id ≡ false)
      × ((i : ℕ) × (e.line_index ≡ i + 1) × (get_elem? lines i ≡ some e.raw_line))
      × (errs ≡ [] → lacks_code to_lower e ≡ false)

  abbrev pub AreSound : Entries × List Fault → Type 0
  AreSound (entries, errs) = All (IsSound errs) entries

  IsSound-snoc :
      (errs : List Fault) (x : Fault) (entries : Entries)
      → All (IsSound errs) entries
      → All (IsSound (errs ++ x ∷ [])) entries
  IsSound-snoc errs x [] a = tt
  IsSound-snoc errs x ((id, e) ∷ m) ((same, full, found, fine), a) =
      ((same, full, found, λ n. absurd (snoc-ne-nil errs x n)), IsSound-snoc errs x m a)

  -- An entry that is the row at its line.
  abbrev IsAt : LedgerEntry → Type 0
  IsAt e = (i : ℕ) × (e.line_index ≡ i + 1) × (get_elem? lines i ≡ some e.raw_line)

  store_entry-AreSound :
      (e : LedgerEntry) (old : Option LedgerEntry) (acc : Entries × List Fault)
      → is_empty e.id ≡ false
      → IsAt e
      → AreSound acc
      → AreSound (store_entry to_lower e old acc)
  unfolding store_entry
  store_entry-AreSound e (some old) (entries, errs) full at a =
      IsSound-snoc errs (duplicate_id e.id) entries a
  store_entry-AreSound e none (entries, errs) full at a = by_code (lacks_code to_lower e) refl
    where
      by_code :
          (b : Bool)
          → lacks_code to_lower e ≡ b
          → All
              (IsSound (if b then errs ++ missing_code e.id e.line_index ∷ [] else errs))
              (insert e.id e entries)
      by_code true h =
          All-insert _ e.id e entries (refl, full, at, λ z. absurd (snoc-ne-nil errs _ z))
            (IsSound-snoc errs _ entries a)
      by_code false h = All-insert _ e.id e entries (refl, full, at, λ z. h) a

  add_entry-AreSound :
      (e : LedgerEntry) (acc : Entries × List Fault)
      → IsAt e
      → AreSound acc
      → AreSound (add_entry to_lower e acc)
  unfolding add_entry
  add_entry-AreSound e acc at a = elim (Bool-cases (is_empty e.id)) [
    | inl blank ↦ rw blank a
    | inr full ↦ rw full (store_entry-AreSound e (lookup e.id acc.0) acc full at a)
  ]

  read_row-AreSound :
      (idx : Columns) (i : ℕ) (line : String) (acc : Entries × List Fault)
      → get_elem? lines i ≡ some line
      → AreSound acc
      → AreSound (read_row to_lower idx i line acc)
  unfolding read_row new_entry
  read_row-AreSound idx i line acc at a = elim (Bool-cases (is_row line)) [
    | inr skip ↦ rw skip a
    | inl row ↦ elim (Bool-cases (is_separator_row (split_row line))) [
      | inl bar ↦ rw (row, bar) a
      | inr plain ↦
          rw (row, plain) (add_entry-AreSound (new_entry to_lower idx i line) acc (i, refl, at) a)
    ]
  ]

  -- The lines from an index on.
  abbrev IsRest : ℕ → List String → Type 0
  IsRest i rest = (j : ℕ) → get_elem? lines (i + j) ≡ get_elem? rest j

  tail-IsRest :
      (i : ℕ) (line : String) (rest : List String) → IsRest i (line ∷ rest) → IsRest (i + 1) rest
  tail-IsRest i line rest h j = ap (get_elem? lines) (omega arith) ∙ h (suc j)

  head-IsRest :
      (i : ℕ) (line : String) (rest : List String)
      → IsRest i (line ∷ rest)
      → get_elem? lines i ≡ some line
  head-IsRest i line rest h = ap (get_elem? lines) (omega arith) ∙ h 0

  read_rows-AreSound :
      (idx : Columns) (i : ℕ) (rest : List String) (acc : Entries × List Fault)
      → IsRest i rest
      → AreSound acc
      → AreSound (read_rows to_lower idx i rest acc)
  unfolding read_rows
  read_rows-AreSound idx i [] acc r a = a
  read_rows-AreSound idx i (line ∷ rest) acc r a =
      read_rows-AreSound idx (i + 1) rest _ (tail-IsRest i line rest r)
        (read_row-AreSound idx i line acc (head-IsRest i line rest r) a)

  find_header-IsRest :
      (i k : ℕ) (rest header behind : List String)
      → IsRest i rest
      → find_header to_lower i rest ≡ some (k, header, behind)
      → IsRest (k + 1) behind
  unfolding find_header
  find_header-IsRest i k [] header behind r e = absurd (cc e)
  find_header-IsRest i k (line ∷ rest) header behind r e = elim (Bool-cases (is_row line)) [
    | inr skip ↦
        find_header-IsRest (i + 1) k rest header behind (tail-IsRest i line rest r) (rw skip at e)
    | inl row ↦ elim (Bool-cases (has_column to_lower (split_row line) "claim-id")) [
      | inr other ↦
          find_header-IsRest (i + 1) k rest header behind (tail-IsRest i line rest r)
            (rw (row, other) at e)
      | inl found ↦ here (rw (row, found) at e)
    ]
  ]
    where
      here :
          ◌≡◌ {A = Option (ℕ × List String × List String)}
            (some (i, split_row line, rest))
            (some (k, header, behind))
          → IsRest (k + 1) behind
      here h =
          let at : i ≡ k = cc h in
          let same : rest ≡ behind = cc h in
          subst (IsRest (k + 1)) same
            (subst (λ n. IsRest (n + 1) rest) at (tail-IsRest i line rest r))

module _ (to_lower : String → String) where
  fill_table-AreSound :
      (lines : List String) (idx : Columns) (i : ℕ) (behind : List String) (missing : List Fault)
      → IsRest to_lower lines (i + 1) behind
      → AreSound to_lower lines (fill_table to_lower idx i behind missing)
  unfolding fill_table
  fill_table-AreSound lines idx i behind [] r =
      read_rows-AreSound to_lower lines idx (i + 1) behind ([], []) r tt
  fill_table-AreSound lines idx i behind (e ∷ es) r = tt

  parse_table-AreSound :
      (lines : List String) (found : Option (ℕ × List String × List String))
      → find_header to_lower 0 lines ≡ found
      → AreSound to_lower lines (parse_table to_lower found)
  unfolding parse_table
  parse_table-AreSound lines none e = tt
  parse_table-AreSound lines (some (i, header, behind)) e = fill_table-AreSound lines _ i behind _ (
      find_header-IsRest to_lower lines 0 i lines header behind
        (λ j. ap (get_elem? lines) (omega arith)) e)

  -- Every entry of a ledger.
  pub parse_ledger-AreSound :
      (body : String) → AreSound to_lower (split_lines body) (parse_ledger to_lower (some body))
  unfolding parse_ledger
  parse_ledger-AreSound body = parse_table-AreSound (split_lines body) _ refl
