-- ===== src/Scripts/ClaimsCheck/Laws.antt =====
-- scripts/claims_check/main.go: what a run that ends with the exit code 0 has checked.
use rego.Common.{
  ℕ, zero, suc, ◌+◌, String, ◌≡◌, refl, sym, ap, ◌∙◌, subst, inl, inr, Bool, true, false,
  Bool-cases, is_some, List, [], ◌∷◌, ◌++◌, Option, none, some, get_elem?, lookup, insert,
  lookup-insert, lookup-insert_self, str_eq, str_eq_iff, if◌then◌else◌, arith,
}
use rego.Budget.Registry.{String-eq}
use rego.Scripts.ClaimsCheck.Rows.{split_lines}
use rego.Scripts.ClaimsCheck.Ledger.{LedgerEntry, Entries, Fault, parse_ledger, lacks_code}
use rego.Scripts.ClaimsCheck.Ledger.Laws.{All-lookup, IsSound, parse_ledger-AreSound}
use rego.Scripts.ClaimsCheck.{
  Tree, Visited, Found, report_missing, scan_content, add_id, add_ids, targets, scan_file,
  scan_files, scan_claim_ids, missing_ids, faults, no_faults, succeeds, should_ignore,
}

append-nil_parts : {A : Type 0} (xs ys : List A) → xs ++ ys ≡ [] → (xs ≡ []) × (ys ≡ [])
append-nil_parts [] ys e = (refl, e)
append-nil_parts (x ∷ xs) ys e = absurd (cc e)

-- A Claim-ID that was found somewhere.
abbrev IsFound : String → Found → Type 0
IsFound id found = is_some (lookup id found) ≡ true

IsFound-insert :
    (id k : String) (paths : List String) (found : Found)
    → IsFound id found
    → IsFound id (insert k paths found)
IsFound-insert id k paths found h = ground (arith, h, lookup-insert k id paths found)

add_id-IsFound :
    (path : String) (found : Found) (id k : String)
    → IsFound id found
    → IsFound id (add_id path found k)
unfolding add_id
add_id-IsFound path found id k h = IsFound-insert id k _ found h

add_id-IsFound_self :
    (path : String) (found : Found) (id : String) → IsFound id (add_id path found id)
unfolding add_id
add_id-IsFound_self path found id = ap is_some (lookup-insert_self id _ found)

add_ids-IsFound :
    (path : String) (ids : List String) (found : Found) (id : String)
    → IsFound id found
    → IsFound id (add_ids path ids found)
unfolding add_ids
add_ids-IsFound path [] found id h = h
add_ids-IsFound path (k ∷ ids) found id h =
    add_ids-IsFound path ids (add_id path found k) id (add_id-IsFound path found id k h)

add_ids-IsFound_all :
    (path : String) (ids : List String) (found : Found) (id : String) (j : ℕ)
    → get_elem? ids j ≡ some id
    → IsFound id (add_ids path ids found)
unfolding add_ids
add_ids-IsFound_all path [] found id j g = absurd (cc g)
add_ids-IsFound_all path (k ∷ ids) found id zero g =
    add_ids-IsFound path ids (add_id path found k) id
      (subst (λ x. IsFound x (add_id path found k)) (cc g) (add_id-IsFound_self path found k))
add_ids-IsFound_all path (k ∷ ids) found id (suc j) g =
    add_ids-IsFound_all path ids (add_id path found k) id j g

report_missing-nil :
    (id : String) (files : List String) (o : Option LedgerEntry)
    → report_missing id files o ≡ []
    → (e : LedgerEntry) × (o ≡ some e)
unfolding report_missing
report_missing-nil id files none h = absurd (cc h)
report_missing-nil id files (some e) h = (e, refl)

missing_ids-nil :
    (entries : Entries) (found : Found) (id : String)
    → missing_ids entries found ≡ []
    → IsFound id found
    → (e : LedgerEntry) × (lookup id entries ≡ some e)
unfolding missing_ids lookup
missing_ids-nil entries [] id n f = absurd (cc f)
missing_ids-nil entries ((k, files) ∷ found) id n f =
    let (here, rest) = append-nil_parts (report_missing k files (lookup k entries)) _ n in
    elim (Bool-cases (str_eq k id)) [
      | inl same ↦
          let (e, found_e) = report_missing-nil k files (lookup k entries) here in
          (e, ap (λ x. lookup x entries) (sym ((str_eq_iff k id).0 same)) ∙ found_e)
      | inr other ↦ missing_ids-nil entries found id rest (rw other at f)
    ]

no_faults-nil : (errs : List Fault) → no_faults errs ≡ true → errs ≡ []
no_faults-nil [] h = refl
no_faults-nil (e ∷ es) h = absurd (cc h)

module _ (t : Tree) where
  scan_content-IsFound :
      (v : Visited) (o : Option String) (acc : Found × List Fault) (id : String)
      → IsFound id acc.0
      → IsFound id (scan_content t v o acc).0
  unfolding scan_content
  scan_content-IsFound v none (found, errs) id h = h
  scan_content-IsFound v (some content) (found, errs) id h =
      elim (Bool-cases (should_ignore content)) [
        | inl ignored ↦ rw ignored h
        | inr read ↦ rw read (add_ids-IsFound _ (t.claim_ids content) found id h)
      ]

  scan_file-IsFound :
      (v : Visited) (acc : Found × List Fault) (id : String)
      → IsFound id acc.0
      → IsFound id (scan_file t v acc).0
  unfolding scan_file
  scan_file-IsFound v acc id h = elim (Bool-cases (str_eq v.base "claims-ledger.md")) [
    | inl ledger ↦ rw ledger h
    | inr other ↦ rw other (scan_content-IsFound v (t.read_file v.path) acc id h)
  ]

  scan_files-IsFound :
      (vs : List Visited) (acc : Found × List Fault) (id : String)
      → IsFound id acc.0
      → IsFound id (scan_files t vs acc).0
  unfolding scan_files
  scan_files-IsFound [] acc id h = h
  scan_files-IsFound (v ∷ vs) acc id h =
      scan_files-IsFound vs (scan_file t v acc) id (scan_file-IsFound v acc id h)

  -- A file that is scanned holds the Claim-ID.
  pub record Holds (v : Visited) (id : String) : Type 0 where
    pub content : String
    pub place : ℕ
    pub not_ledger : str_eq v.base "claims-ledger.md" ≡ false
    pub is_read : t.read_file v.path ≡ some content
    pub not_ignored : should_ignore content ≡ false
    pub matched : get_elem? (t.claim_ids content) place ≡ some id

  scan_file-Holds :
      (v : Visited) (acc : Found × List Fault) (id : String)
      → Holds v id
      → IsFound id (scan_file t v acc).0
  unfolding scan_file scan_content
  scan_file-Holds v acc id h =
      rw (h.not_ledger, h.is_read, h.not_ignored)
        (add_ids-IsFound_all _ (t.claim_ids h.content) acc.0 id h.place h.matched)

  scan_files-Holds :
      (vs : List Visited) (v : Visited) (acc : Found × List Fault) (id : String) (j : ℕ)
      → get_elem? vs j ≡ some v
      → Holds v id
      → IsFound id (scan_files t vs acc).0
  unfolding scan_files
  scan_files-Holds [] v acc id j g h = absurd (cc g)
  scan_files-Holds (w ∷ vs) v acc id zero g h =
      scan_files-IsFound vs (scan_file t w acc) id
        (scan_file-Holds w acc id (subst (λ x. Holds x id) (sym (cc g)) h))
  scan_files-Holds (w ∷ vs) v acc id (suc j) g h =
      scan_files-Holds vs v (scan_file t w acc) id j g h

  succeeds-nil : succeeds t ≡ true → faults t ≡ []
  unfolding succeeds
  succeeds-nil h = elim (Bool-cases t.root_found) [
    | inl root ↦ no_faults-nil (faults t) (subst branch root h)
    | inr root ↦ absurd (cc (subst branch root h))
  ]
    where
      branch : Bool → Type 0
      branch b = (if b then no_faults (faults t) else false) ≡ true

  -- The entry of a Claim-ID in the text of a ledger: the row at its line, with a code source if it
  -- is verified.
  abbrev pub IsLedgered : String → String → LedgerEntry → Type 0
  IsLedgered body id e =
      (e.id ≡ id)
      × ((i : ℕ) × (e.line_index ≡ i + 1) × (get_elem? (split_lines body) i ≡ some e.raw_line))
      × (lacks_code t.to_lower e ≡ false)

  parsed-IsLedgered :
      (o : Option String) (id : String) (e : LedgerEntry)
      → (parse_ledger t.to_lower o).1 ≡ []
      → lookup id (parse_ledger t.to_lower o).0 ≡ some e
      → (body : String) × (o ≡ some body) × IsLedgered body id e
  unfolding parse_ledger
  parsed-IsLedgered none id e n f = absurd (cc n)
  parsed-IsLedgered (some body) id e n f =
      let (same, full, at, fine) =
        All-lookup (IsSound t.to_lower (split_lines body) (parse_ledger t.to_lower (some body)).1)
          id e (parse_ledger t.to_lower (some body)).0 (parse_ledger-AreSound t.to_lower body) f in
      (body, refl, (same, at, fine n))

  -- If the claims check ends with the exit code 0, then the ledger could be read, and every Claim-
  -- ID that is found in a scanned file that is not ignored has an entry in it: the entry carries
  -- that Claim-ID, its line index is that of the row it was read from, and it has a code source if
  -- its status is verified.
  pub success_is_checked :
      (v : Visited) (id : String) (j : ℕ)
      → succeeds t ≡ true
      → get_elem? (targets t) j ≡ some v
      → Holds v id
      → (body : String) × (e : LedgerEntry) × (t.read_file t.ledger_path ≡ some body)
        × IsLedgered body id e
  unfolding faults scan_claim_ids
  success_is_checked v id j ok g h =
      let ledger = parse_ledger t.to_lower (t.read_file t.ledger_path) in
      let scan = scan_claim_ids t in
      let (files_clean, all_there) =
        append-nil_parts (ledger.1 ++ scan.1) (missing_ids ledger.0 scan.0) (succeeds-nil ok) in
      let (ledger_clean, scan_clean) = append-nil_parts ledger.1 scan.1 files_clean in
      let (e, found) =
        missing_ids-nil ledger.0 (scan_claim_ids t).0 id all_there
          (scan_files-Holds (targets t) v _ id j g h) in
      let (body, is_read, kept) =
        parsed-IsLedgered (t.read_file t.ledger_path) id e ledger_clean found in
      (body, e, is_read, kept)
