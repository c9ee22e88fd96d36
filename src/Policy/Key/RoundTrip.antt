-- ===== src/Policy/Key/RoundTrip.antt =====
-- policy/key.go: `String` followed by `ParseKey`.
use Prim.Native.Char.{Char, code}
use Prim.Native.String.{◌++◌ as concat}
use text.Mathlib.TextLemmas.{nil-append, cons-append}
use rego.Common.{
  ℕ, suc, ◌≤◌, ◌≡◌, refl, ap, String, true, false, none, some, is_empty, is_space, trim_left,
  trim_right, trim_space, Bool-cases, ◌==◌, inl, inr, arith,
}
use rego.Policy.Key.{PolicyKey, cut_dot, parse_key, to_string}

abbrev size : String → ℕ
size String.[] = 0
size (String.◌∷◌ c s) = suc (size s)

size-trim_right-le : (s : String) → size (trim_right s) ≤ size s
unfolding trim_right
size-trim_right-le String.[] = omega arith
size-trim_right-le (String.◌∷◌ c s) = ground (arith, size-trim_right-le s)

size-trim_left-le : (s : String) → size (trim_left s) ≤ size s
unfolding trim_left
size-trim_left-le String.[] = omega arith
size-trim_left-le (String.◌∷◌ c s) = ground (arith, size-trim_left-le s)

-- A trimmed text does not begin with a space.
trimmed_head :
    (c : Char) (s : String)
    → trim_space (String.◌∷◌ c s) ≡ String.◌∷◌ c s
    → is_space (code c) ≡ false
unfolding trim_space trim_left
trimmed_head c s h = elim (Bool-cases (is_space (code c))) [
  | inl e ↦
      let shorter : trim_right (trim_left s) ≡ String.◌∷◌ c s = rw e at h in
      absurd (omega (arith, ap size shorter, size-trim_right-le (trim_left s), size-trim_left-le s))
  | inr e ↦ e
]

trim_left-cons :
    (c : Char) (s : String)
    → is_space (code c) ≡ false
    → trim_left (String.◌∷◌ c s) ≡ String.◌∷◌ c s
unfolding trim_left
trim_left-cons c s e = rw e

trim_right_of_trimmed : (s : String) → trim_space s ≡ s → trim_right s ≡ s
unfolding trim_space trim_left
trim_right_of_trimmed String.[] h = h
trim_right_of_trimmed (String.◌∷◌ c s) h = rw (trim_left-cons c s (trimmed_head c s h)) at h

is_empty-concat : (s t : String) → is_empty t ≡ false → is_empty (concat s t) ≡ false
is_empty-concat String.[] t h = rw nil-append h
is_empty-concat (String.◌∷◌ c s) t h = rw cons-append

trim_right-concat :
    (s t : String) → is_empty t ≡ false → trim_right t ≡ t → trim_right (concat s t) ≡ concat s t
unfolding trim_right
trim_right-concat String.[] t e h = rw nil-append h
trim_right-concat (String.◌∷◌ c s) t e h =
    rw (cons-append, trim_right-concat s t e h, is_empty-concat s t e)

-- The first dot of the two parts joined is the one between them.
cut_dot-concat : (s t : String) → cut_dot s ≡ none → cut_dot (concat s (concat "." t)) ≡ some (s, t)
unfolding cut_dot
cut_dot-concat String.[] t h = rw (nil-append, cons-append, nil-append)
cut_dot-concat (String.◌∷◌ c s) t h = elim (Bool-cases (code c == b'.')) [
  | inl e ↦ absurd (ground (arith, h, e))
  | inr e ↦ rw (cons-append, cut_dot-concat s t (ground (arith, h, e)), e)
]

-- The keys that `ParseKey` can give back: both parts trimmed, no dot before the one that `String`
-- writes, and a name.
pub record IsCanonical (k : PolicyKey) : Type 0 where
  pub namespace_trimmed : trim_space k.namespace ≡ k.namespace
  pub name_trimmed : trim_space k.name ≡ k.name
  pub name_given : is_empty k.name ≡ false
  pub namespace_dotless : cut_dot k.namespace ≡ none
  pub lone_name_dotless : is_empty k.namespace ≡ true → cut_dot k.name ≡ none

join_trimmed :
    (c : Char) (s t : String)
    → trim_space (String.◌∷◌ c s) ≡ String.◌∷◌ c s
    → trim_space t ≡ t
    → is_empty t ≡ false
    → trim_space (concat (String.◌∷◌ c s) (concat "." t)) ≡ concat (String.◌∷◌ c s) (concat "." t)
unfolding trim_space
join_trimmed c s t hs ht et =
    rw
      (
        cons-append (c) s (concat "." t),
        trim_left-cons c (concat s (concat "." t)) (trimmed_head c s hs),
        ← cons-append (c) s (concat "." t),
      )
      (trim_right-concat (String.◌∷◌ c s) (concat "." t) (is_empty-concat "." t et)
        (trim_right-concat "." t et (trim_right_of_trimmed t ht)))

parse_lone_name :
    (name : String)
    → IsCanonical (record { namespace = ""; name = name })
    → parse_key name ≡ record { namespace = ""; name = name }
unfolding parse_key
parse_lone_name name v = ground (arith, v.name_trimmed, v.name_given, v.lone_name_dotless refl)

parse_joined :
    (c : Char) (s name : String)
    → IsCanonical (record { namespace = String.◌∷◌ c s; name = name })
    → parse_key (concat (String.◌∷◌ c s) (concat "." name))
      ≡ record { namespace = String.◌∷◌ c s; name = name }
unfolding parse_key
parse_joined c s name v = ground (
  arith,
  v.name_trimmed,
  v.name_given,
  v.namespace_trimmed,
  join_trimmed c s name v.namespace_trimmed v.name_trimmed v.name_given,
  is_empty-concat (String.◌∷◌ c s) (concat "." name) (is_empty-concat "." name v.name_given),
  cut_dot-concat (String.◌∷◌ c s) name v.namespace_dotless,
)

by_namespace :
    (ns name : String)
    → IsCanonical (record { namespace = ns; name = name })
    → parse_key (to_string (record { namespace = ns; name = name }))
      ≡ record { namespace = ns; name = name }
unfolding to_string
by_namespace String.[] name v = parse_lone_name name v
by_namespace (String.◌∷◌ c s) name v = rw (v.name_given) (parse_joined c s name v)

-- A canonical key written by `String` is read back by `ParseKey` as it was.
pub parse_key-to_string : (k : PolicyKey) → IsCanonical k → parse_key (to_string k) ≡ k
parse_key-to_string k v = by_namespace k.namespace k.name v
