-- ===== src/Classify/Registry.antt =====
-- classify/registry.go: classifiers by trimmed name.
use rego.Common.{
  ◌≡◌, String, str_eq, str_eq_iff, trim_space, is_empty, false, List, Option, none, some, lookup,
  insert, lookup-insert, arith, if◌then◌else◌,
}
use rego.Budget.Registry.{String-eq}
use rego.Classify.Types.{Classifier}

-- The map of a registry that is not nil; a nil map reads as an empty one.
abbrev pub Registry : Type 0 → Type 0
Registry T = List (String × Classifier T)

module _ {T : Type 0} where
  -- `Register` on a pointer; `none` for the classifier is a nil interface. Nothing is reported.
  unfoldable pub register :
      String → Option (Classifier T) → Option (Registry T) → Option (Registry T)
  register name c none = none
  register name none (some m) = some m
  register name (some c) (some m) =
      if is_empty (trim_space name) then some m else some (insert (trim_space name) c m)

  -- `Get`: the classifier, if `ok`.
  unfoldable pub get : String → Option (Registry T) → Option (Classifier T)
  get name none = none
  get name (some m) = if is_empty (trim_space name) then none else lookup (trim_space name) m

  -- A classifier that is registered under a name is found under every name that trims to the same
  -- text; other names read what they read before.
  pub get-register :
      (name other : String) (c : Classifier T) (m : Registry T)
      → is_empty (trim_space name) ≡ false
      → get other (register name (some c) (some m))
        ≡ (if str_eq (trim_space name) (trim_space other) then some c else get other (some m))
  unfolding get register
  get-register name other c m h = ground (
    arith,
    lookup-insert (trim_space name) (trim_space other) c m,
    str_eq_iff (trim_space name) (trim_space other),
  )
