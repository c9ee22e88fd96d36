-- ===== src/Policy/Key.antt =====
-- policy/key.go: keys, `ParseKey` and `String`.
pub mod RoundTrip
use Prim.Native.Char.{code}
use Prim.Native.String.{◌++◌ as concat}
use rego.Common.{
  ◌≡◌, String, str_eq, str_eq_iff, is_empty, trim_space, Bool, true, ◌&&◌, Option, none, some, ◌↔◌,
  arith, Eq, ◌==◌, if◌then◌else◌,
}

pub record PolicyKey : Type 0 where
  pub namespace : String
  pub name : String

abbrev pub key_eq : PolicyKey → PolicyKey → Bool
key_eq a b = str_eq a.namespace b.namespace && str_eq a.name b.name

pub key_eq_iff : (a b : PolicyKey) → (key_eq a b ≡ true) ↔ (a ≡ b)
key_eq_iff a b = ground (arith, str_eq_iff a.namespace b.namespace, str_eq_iff a.name b.name)

-- Keys are compared by `==`, as those of a Go map are.
instance abbrev pub Key-eq : Eq PolicyKey
Key-eq = record { beq = key_eq; beq_iff = key_eq_iff }

-- `s[:i]` and `s[i+1:]` for `i = strings.IndexByte(s, '.')`; `none` if there is no dot.
unfoldable pub cut_dot : String → Option (String × String)
cut_dot String.[] = none
cut_dot (String.◌∷◌ c s) =
    let rest = cut_dot s in
    if code c == b'.'
    then some ("", s)
    else elim rest [ none ↦ none | some (a, b) ↦ some (String.◌∷◌ c a, b) ]

unfoldable pub parse_key : String → PolicyKey
parse_key text =
    let s = trim_space text in
    if is_empty s then record { namespace = ""; name = "" } else elim (cut_dot s) [
      | none ↦ record { namespace = ""; name = s }
      | some (before, after) ↦
          let ns = trim_space before in
          let name = trim_space after in
          if is_empty name
          then record { namespace = ""; name = s }
          else record { namespace = ns; name = name }
    ]

unfoldable pub to_string : PolicyKey → String
to_string k =
    if is_empty k.namespace
    then k.name
    else if is_empty k.name
    then k.namespace
    else concat k.namespace (concat "." k.name)
