-- ===== src/Hedge/Registry.antt =====
-- hedge/registry.go: triggers by name. The lock makes each method one step.
use rego.Common.{String, is_empty, List, Option, none, some, lookup, insert, if◌then◌else◌}
use rego.Budget.Registry.{String-eq}
use rego.Classify.{Exit, returned, panicked}

-- A registry over triggers of type `A`; `NewRegistry` is the empty one.
abbrev pub Registry : Type 0 → Type 0
Registry A = List (String × A)

module _ {A : Type 0} where
  -- `Register`; `none` is a nil trigger.
  unfoldable pub register : String → Option A → Registry A → Exit (Registry A)
  register name trigger r =
      if is_empty name then panicked "hedge: name cannot be empty" else elim trigger [
        | none ↦ panicked "hedge: trigger cannot be nil"
        | some t ↦ returned (insert name t r)
      ]

  -- `Get`: the trigger, if `ok`. Names are not trimmed.
  unfoldable pub get : String → Registry A → Option A
  get name r = lookup name r
