-- ===== src/Budget/Registry.antt =====
-- budget/registry.go. A registered value is what an interface of type Budget may hold: nothing, a
-- nil pointer of some type, or a budget.
use rego.Common.{
  ◌≡◌, String, str_eq, str_eq_iff, trim_space, is_empty, Bool, true, false, List, Option, none,
  some, Eq, lookup, insert, lookup-insert, arith, if◌then◌else◌,
}

pub data Held {ℓ} (B : Type ℓ) : Type ℓ where
  nil_interface : Held B
  typed_nil : Held B
  object : B → Held B

instance abbrev pub String-eq : Eq String
String-eq = record { beq = str_eq; beq_iff = str_eq_iff }

-- `internal.IsTypedNil`, for the values that a Budget can be.
abbrev pub is_typed_nil : {B : Type 0} → Held B → Bool
is_typed_nil nil_interface = true
is_typed_nil typed_nil = true
is_typed_nil (object b) = false

-- A nil map reads as an empty one and is made before the first write.
abbrev pub Registry : Type 0 → Type 0
Registry B = List (String × Held B)

abbrev pub error_nil_registry : String
error_nil_registry = "registry is nil"

abbrev pub error_empty_name : String
error_empty_name = "budget name cannot be empty"

abbrev pub error_nil_budget : String
error_nil_budget = "budget cannot be nil"

module _ {B : Type 0} where
  -- `Register`, with the error's text; `none` for the registry is the nil pointer.
  unfoldable pub register :
      String → Held B → Option (Registry B) → Option (Registry B) × Option String
  register name b none = (none, some error_nil_registry)
  register name b (some m) =
      if is_empty (trim_space name)
      then (some m, some error_empty_name)
      else if is_typed_nil b
      then (some m, some error_nil_budget)
      else (some (insert (trim_space name) b m), none)

  -- `Get`: the value and `ok`.
  unfoldable pub get : String → Option (Registry B) → Held B × Bool
  get name none = (nil_interface, false)
  get name (some m) =
      if is_empty (trim_space name)
      then (nil_interface, false)
      else elim (lookup (trim_space name) m) [
        | none ↦ (nil_interface, false)
        | some nil_interface ↦ (nil_interface, false)
        | some typed_nil ↦ (typed_nil, true)
        | some (object b) ↦ (object b, true)
      ]

  -- Names are trimmed on both sides: a budget registered under a name is found under every name
  -- that trims to the same text, and a name that trims to another text reads what it read before.
  pub get-register :
      (name other : String) (b : B) (m : Registry B)
      → is_empty (trim_space name) ≡ false
      → get other (register name (object b) (some m)).0 ≡ (
          if str_eq (trim_space name) (trim_space other)
          then (object b, true)
          else get other (some m))
  unfolding get register
  get-register name other b m h = ground (
    arith,
    lookup-insert (trim_space name) (trim_space other) (object b) m,
    str_eq_iff (trim_space name) (trim_space other),
  )

  -- A registration that returns an error leaves the registry as it was.
  pub register_refused :
      (name : String) (b : Held B) (r : Option (Registry B)) {e : String}
      → (register name b r).1 ≡ some e
      → (register name b r).0 ≡ r
  unfolding register
  register_refused name b r h = ground arith
