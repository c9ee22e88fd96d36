-- ===== src/Scripts/ClaimsCheck/Ledger/Complete.antt =====
-- scripts/claims_check/main.go, `parseLedger`: a ledger without a fault is read whole.
use rego.Common.{
  ℕ, zero, suc, ◌+◌, String, is_empty, ◌≡◌, refl, sym, ap, ◌∙◌, subst, inl, inr, Bool, true, false,
  Bool-cases, List, [], ◌∷◌, ◌++◌, Option, none, some, get_elem?, lookup, insert, lookup-insert,
  lookup-insert_self, str_eq, str_eq_iff, if◌then◌else◌, arith,
}
use rego.Budget.Registry.{String-eq}
use rego.Scripts.ClaimsCheck.Rows.{is_row, split_row, Columns, is_separator_row, split_lines}
use rego.Scripts.ClaimsCheck.Ledger.Laws.{snoc-ne-nil}
use rego.Scripts.ClaimsCheck.Ledger.{
  LedgerEntry, Entries, Fault, new_entry, lacks_code, store_entry, add_entry, read_row, read_rows,
  find_header, fill_table, parse_table, parse_ledger, index_columns,
}

module _ (to_lower : String → String) where
  -- What one step keeps: no fault is forgotten, and no entry is overwritten.
  abbrev Keeps : Entries × List Fault → Entries × List Fault → Type 0
  Keeps acc out =
      (out.1 ≡ [] → acc.1 ≡ [])
      × ((k : String) (v : LedgerEntry) → lookup k acc.0 ≡ some v → lookup k out.0 ≡ some v)

  Keeps-refl : (acc : Entries × List Fault) → Keeps acc acc
  Keeps-refl acc = (λ e. e, λ k v h. h)

  store_entry-Keeps :
      (e : LedgerEntry) (old : Option LedgerEntry) (acc : Entries × List Fault)
      → lookup e.id acc.0 ≡ old
      → Keeps acc (store_entry to_lower e old acc)
  unfolding store_entry
  store_entry-Keeps e (some old) (entries, errs) o =
      (λ h. absurd (snoc-ne-nil errs _ h), λ k v h. h)
  store_entry-Keeps e none (entries, errs) o = (by_code (lacks_code to_lower e) _, fresh)
    where
      by_code : (b : Bool) (x : Fault) → (if b then errs ++ x ∷ [] else errs) ≡ [] → errs ≡ []
      by_code true x h = absurd (snoc-ne-nil errs x h)
      by_code false x h = h

      fresh :
          (k : String) (v : LedgerEntry)
          → lookup k entries ≡ some v
          → lookup k (insert e.id e entries) ≡ some v
      fresh k v h = elim (Bool-cases (str_eq e.id k)) [
        | inl same ↦
            absurd (clash (sym o ∙ ap (λ x. lookup x entries) ((str_eq_iff e.id k).0 same) ∙ h))
        | inr other ↦ lookup-insert e.id k e entries ∙ ground (arith, other, h)
      ]
        where
          clash : none ≡ some v → ⊥
          clash c = cc c

  add_entry-Keeps :
      (e : LedgerEntry) (acc : Entries × List Fault) → Keeps acc (add_entry to_lower e acc)
  unfolding add_entry
  add_entry-Keeps e acc = elim (Bool-cases (is_empty e.id)) [
    | inl blank ↦ rw blank (Keeps-refl acc)
    | inr full ↦ rw full (store_entry-Keeps e (lookup e.id acc.0) acc refl)
  ]

  read_row-Keeps :
      (idx : Columns) (i : ℕ) (line : String) (acc : Entries × List Fault)
      → Keeps acc (read_row to_lower idx i line acc)
  unfolding read_row
  read_row-Keeps idx i line acc = elim (Bool-cases (is_row line)) [
    | inr skip ↦ rw skip (Keeps-refl acc)
    | inl row ↦ elim (Bool-cases (is_separator_row (split_row line))) [
      | inl bar ↦ rw (row, bar) (Keeps-refl acc)
      | inr plain ↦ rw (row, plain) (add_entry-Keeps (new_entry to_lower idx i line) acc)
    ]
  ]

  read_rows-Keeps :
      (idx : Columns) (i : ℕ) (lines : List String) (acc : Entries × List Fault)
      → Keeps acc (read_rows to_lower idx i lines acc)
  unfolding read_rows
  read_rows-Keeps idx i [] acc = Keeps-refl acc
  read_rows-Keeps idx i (line ∷ lines) acc =
      let one = read_row-Keeps idx i line acc in
      let more = read_rows-Keeps idx (i + 1) lines (read_row to_lower idx i line acc) in
      (λ e. one.0 (more.0 e), λ k v h. more.1 k v (one.1 k v h))

  -- A row that holds an entry.
  abbrev pub IsEntry : Columns → ℕ → String → Type 0
  IsEntry idx i line =
      (is_row line ≡ true)
      × (is_separator_row (split_row line) ≡ false)
      × (is_empty (new_entry to_lower idx i line).id ≡ false)

  store_entry-lookup :
      (e : LedgerEntry) (old : Option LedgerEntry) (acc : Entries × List Fault)
      → (store_entry to_lower e old acc).1 ≡ []
      → lookup e.id (store_entry to_lower e old acc).0 ≡ some e
  unfolding store_entry
  store_entry-lookup e (some old) (entries, errs) h = absurd (snoc-ne-nil errs _ h)
  store_entry-lookup e none (entries, errs) h = lookup-insert_self e.id e entries

  read_row-lookup :
      (idx : Columns) (i : ℕ) (line : String) (acc : Entries × List Fault)
      → IsEntry idx i line
      → (read_row to_lower idx i line acc).1 ≡ []
      → lookup (new_entry to_lower idx i line).id (read_row to_lower idx i line acc).0
        ≡ some (new_entry to_lower idx i line)
  unfolding read_row add_entry
  read_row-lookup idx i line acc (row, plain, full) h =
      rw (row, plain, full)
        (store_entry-lookup (new_entry to_lower idx i line) _ acc (rw (row, plain, full) at h))

  -- The map has the row's entry under its Claim-ID.
  abbrev pub HasRow : Columns → ℕ → String → Entries → Type 0
  HasRow idx i line entries =
      lookup (new_entry to_lower idx i line).id entries ≡ some (new_entry to_lower idx i line)

  read_rows-HasRow :
      (idx : Columns) (i j : ℕ) (lines : List String) (line : String) (acc : Entries × List Fault)
      → get_elem? lines j ≡ some line
      → IsEntry idx (i + j) line
      → (read_rows to_lower idx i lines acc).1 ≡ []
      → HasRow idx (i + j) line (read_rows to_lower idx i lines acc).0
  unfolding read_rows
  read_rows-HasRow idx i j [] line acc g r h = absurd (cc g)
  read_rows-HasRow idx i zero (l ∷ lines) line acc g r h =
      let more = read_rows-Keeps idx (i + 1) lines (read_row to_lower idx i l acc) in
      let first : l ≡ line = cc g in
      let here : i + 0 ≡ i = omega arith in
      let r' : IsEntry idx i l =
        subst (IsEntry idx i) (sym first) (subst (λ n. IsEntry idx n line) here r) in
      let end : Entries =
        (read_rows to_lower idx (i + 1) lines (read_row to_lower idx i l acc)).0 in
      let kept : HasRow idx i l end = more.1 _ _ (read_row-lookup idx i l acc r' (more.0 h)) in
      subst (λ n. HasRow idx n line end) (sym here) (subst (λ x. HasRow idx i x end) first kept)
  read_rows-HasRow idx i (suc j) (l ∷ lines) line acc g r h =
      let there : i + suc j ≡ i + 1 + j = omega arith in
      let end : Entries =
        (read_rows to_lower idx (i + 1) lines (read_row to_lower idx i l acc)).0 in
      subst (λ n. HasRow idx n line end) (sym there)
        (read_rows-HasRow idx (i + 1) j lines line (read_row to_lower idx i l acc) g
          (subst (λ n. IsEntry idx n line) there r) h)

  fill_table-HasRow :
      (idx : Columns) (i j : ℕ) (lines : List String) (line : String) (missing : List Fault)
      → get_elem? lines j ≡ some line
      → IsEntry idx (i + 1 + j) line
      → (fill_table to_lower idx i lines missing).1 ≡ []
      → HasRow idx (i + 1 + j) line (fill_table to_lower idx i lines missing).0
  unfolding fill_table
  fill_table-HasRow idx i j lines line [] g r h =
      read_rows-HasRow idx (i + 1) j lines line ([], []) g r h
  fill_table-HasRow idx i j lines line (e ∷ es) g r h = absurd (cc h)

  -- A ledger that is parsed without an error is read whole: every row behind the header that is no
  -- separator and has a Claim-ID is in the map under that Claim-ID, with its own columns, line and
  -- line index. So no two such rows share a Claim-ID.
  pub ledger_complete :
      (body : String) (i : ℕ) (header lines : List String) (j : ℕ) (line : String)
      → find_header to_lower 0 (split_lines body) ≡ some (i, header, lines)
      → (parse_ledger to_lower (some body)).1 ≡ []
      → get_elem? lines j ≡ some line
      → IsEntry (index_columns to_lower 0 header []) (i + 1 + j) line
      → HasRow
          (index_columns to_lower 0 header [])
          (i + 1 + j)
          line
          (parse_ledger to_lower (some body)).0
  unfolding parse_ledger parse_table
  ledger_complete body i header lines j line found clean g r =
      let idx = index_columns to_lower 0 header [] in
      subst
        (λ x.
          (parse_table to_lower x).1 ≡ [] → HasRow idx (i + 1 + j) line (parse_table to_lower x).0)
        (sym found) (fill_table-HasRow idx i j lines line _ g r) clean
