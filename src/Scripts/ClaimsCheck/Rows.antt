-- ===== src/Scripts/ClaimsCheck/Rows.antt =====
-- scripts/claims_check/main.go: lines, the rows of a Markdown table, and what it uses of package
-- strings.
use Prim.Native.Char.{Char, code}
use rego.Common.{
  ℕ, ◌==◌, String, is_empty, trim_space, Bool, true, false, ◌&&◌, ◌||◌, List, [], ◌∷◌, map, none,
  some, lookup, get_elem?, str_eq, if◌then◌else◌,
}
use rego.Budget.Registry.{String-eq}

-- `strings.HasPrefix(s, t)`, with `t` first.
unfoldable pub has_prefix : String → String → Bool
has_prefix String.[] s = true
has_prefix (String.◌∷◌ c t) String.[] = false
has_prefix (String.◌∷◌ c t) (String.◌∷◌ d s) = code c == code d && has_prefix t s

-- `strings.Contains(s, t)`, with `t` first.
unfoldable pub contains : String → String → Bool
contains t String.[] = is_empty t
contains t (String.◌∷◌ c s) = has_prefix t (String.◌∷◌ c s) || contains t s

cons_first : Char → List String → List String
cons_first c [] = String.◌∷◌ c "" ∷ []
cons_first c (s ∷ ss) = String.◌∷◌ c s ∷ ss

-- `strings.Split` at a character.
unfoldable pub split : ℕ → String → List String
unfolding cons_first
split d String.[] = "" ∷ []
split d (String.◌∷◌ c s) =
    let rest = split d s in if code c == d then "" ∷ rest else cons_first c rest

abbrev starts_with : ℕ → String → Bool
starts_with d String.[] = false
starts_with d (String.◌∷◌ c s) = code c == d

-- `strings.ReplaceAll(s, "\r\n", "\n")`
unfoldable pub unify_newlines : String → String
unify_newlines String.[] = String.[]
unify_newlines (String.◌∷◌ c s) =
    let rest = unify_newlines s in
    if code c == 0x0d && starts_with 0x0a s then rest else String.◌∷◌ c rest

unfoldable pub split_lines : String → List String
split_lines s = split 0x0a (unify_newlines s)

-- A row of a table.
unfoldable pub is_row : String → Bool
is_row line = starts_with b'|' (trim_space line)

unfoldable pub trim_prefix : String → String
trim_prefix String.[] = String.[]
trim_prefix (String.◌∷◌ c s) = if code c == b'|' then s else String.◌∷◌ c s

unfoldable pub trim_suffix : String → String
trim_suffix String.[] = String.[]
trim_suffix (String.◌∷◌ c s) =
    let rest = trim_suffix s in
    if is_empty s && code c == b'|' then String.[] else String.◌∷◌ c rest

unfoldable pub split_row : String → List String
split_row line = map trim_space (split b'|' (trim_suffix (trim_prefix (trim_space line))))

unfoldable pub has_column : (String → String) → List String → String → Bool
has_column to_lower [] name = false
has_column to_lower (col ∷ cols) name =
    if str_eq (to_lower col) (to_lower name) then true else has_column to_lower cols name

-- `colIndex`
abbrev pub Columns : Type 0
Columns = List (String × ℕ)

unfoldable pub get_column : List String → Columns → String → String
get_column cols idx name = elim (lookup name idx) [
  | none ↦ ""
  | some i ↦ elim (get_elem? cols i) [ none ↦ "" | some col ↦ col ]
]

unfoldable pub is_dashes : String → Bool
is_dashes String.[] = true
is_dashes (String.◌∷◌ c s) = if code c == b'-' then is_dashes s else false

unfoldable pub all_dashes : List String → Bool
all_dashes [] = true
all_dashes (col ∷ cols) = if is_dashes (trim_space col) then all_dashes cols else false

unfoldable pub is_separator_row : List String → Bool
is_separator_row [] = false
is_separator_row (col ∷ cols) = all_dashes (col ∷ cols)
