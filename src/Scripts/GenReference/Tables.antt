-- ===== src/Scripts/GenReference/Tables.antt =====
-- scripts/gen_reference.go: the helpers that the documents share, and the tables of fields.
use Prim.Native.Char.{code}
use Prim.Native.String.{◌++◌ as concat, compare}
use text.Mathlib.Text.{is_le}
use rego.Common.{
  ◌==◌, String, is_empty, List, [], ◌∷◌, ◌++◌, map, none, some, lookup, if◌then◌else◌,
}
use rego.Budget.Registry.{String-eq}

pub record StructField : Type 0 where
  pub name : String
  pub type_name : String
  pub json : String
  pub notes : String

-- The bytes of a buffer.
unfoldable pub contents : List String → String
contents [] = ""
contents (s ∷ ss) = concat s (contents ss)

-- `sort.Strings`, as an insertion sort.
insert_string : String → List String → List String
insert_string s [] = s ∷ []
insert_string s (t ∷ ts) = if is_le (compare s t) then s ∷ t ∷ ts else t ∷ insert_string s ts

unfoldable pub sort_strings : List String → List String
unfolding insert_string
sort_strings [] = []
sort_strings (s ∷ ss) = insert_string s (sort_strings ss)

-- A set by its elements, in any order.
abbrev pub set_to_sorted : List String → List String
set_to_sorted set = sort_strings set

keys : List (String × String) → List String
keys [] = []
keys ((k, v) ∷ m) = k ∷ keys m

abbrev pub sorted_keys : List (String × String) → List String
unfolding keys
sorted_keys m = sort_strings (keys m)

-- The value of a key, and the zero value where there is none.
unfoldable pub value_of : String → List (String × String) → String
value_of k m = elim (lookup k m) [ none ↦ "" | some v ↦ v ]

-- `strings.ReplaceAll(s, "|", "\\|")`
unfoldable pub escape_pipes : String → String
escape_pipes String.[] = String.[]
escape_pipes (String.◌∷◌ c s) =
    let rest = escape_pipes s in if code c == b'|' then concat "\\|" rest else String.◌∷◌ c rest

unfoldable pub quoted : String → String
quoted v = concat "`" (concat v "`")

-- `strings.Join(values, ", ")` behind the first value.
unfoldable pub join_rest : List String → String
join_rest [] = ""
join_rest (v ∷ vs) = concat ", " (concat (quoted v) (join_rest vs))

unfoldable pub join_backticked : List String → String
join_backticked [] = "-"
join_backticked (v ∷ vs) = concat (quoted v) (join_rest vs)

abbrev pub or_dash : String → String
or_dash s = if is_empty s then "-" else s

-- A row of two quoted cells.
unfoldable pub pair_row : String → String → String
pair_row a b = contents ("| `" ∷ a ∷ "` | `" ∷ b ∷ "` |\n" ∷ [])

unfoldable pub pair_rows : List (String × String) → List String → List String
pair_rows m [] = []
pair_rows m (k ∷ ks) = pair_row k (value_of k m) ∷ pair_rows m ks

unfoldable pub bullets : List String → List String
bullets [] = []
bullets (v ∷ vs) = contents ("- `" ∷ v ∷ "`\n" ∷ []) ∷ bullets vs

unfoldable pub field_row : StructField → String
field_row f = contents (
    "| `"
    ∷ f.name
    ∷ "` | `"
    ∷ or_dash f.type_name
    ∷ "` | "
    ∷ escape_pipes (or_dash f.notes)
    ∷ " |\n"
    ∷ [])

unfoldable pub write_struct : String → List StructField → List String
write_struct name [] = []
write_struct name (f ∷ fs) =
    contents ("### observe." ∷ name ∷ "\n\n" ∷ [])
      ∷ "| Field | Type | Notes |\n"
      ∷ "|---|---|---|\n"
      ∷ map field_row (f ∷ fs)
    ++ "\n" ∷ []

unfoldable pub tagged_row : StructField → String
tagged_row f = contents (
    "| `"
    ∷ f.name
    ∷ "` | `"
    ∷ or_dash f.type_name
    ∷ "` | `"
    ∷ or_dash f.json
    ∷ "` | "
    ∷ escape_pipes (or_dash f.notes)
    ∷ " |\n"
    ∷ [])

unfoldable pub write_struct_with_tags : String → List StructField → List String
write_struct_with_tags name [] = []
write_struct_with_tags name (f ∷ fs) =
    contents ("### " ∷ name ∷ "\n\n" ∷ [])
      ∷ "| Field | Type | JSON | Notes |\n"
      ∷ "|---|---|---|---|\n"
      ∷ map tagged_row (f ∷ fs)
    ++ "\n" ∷ []
