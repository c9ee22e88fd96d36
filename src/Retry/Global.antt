-- ===== src/Retry/Global.antt =====
-- retry/global.go: the executor of the process. `sync.Once` makes its function run at most once: the
-- state is the pointer and whether it has run. The calls of the exported functions are one step each.
use rego.Common.{◌≡◌, refl, ap, Bool, true, false, List, [], ◌∷◌, Option, none, some}

pub record Global (E : Type 0) : Type 0 where
  pub exec : Option E
  pub once_done : Bool

-- Before the first call.
abbrev pub unset : {E : Type 0} → Global E
unset = record { exec = none; once_done = false }

pub data GlobalCall (E : Type 0) : Type 0 where
  sets : Option E → GlobalCall E  -- `SetGlobal`, of a pointer
  gets : GlobalCall E  -- `DefaultExecutor`

module _ {E : Type 0} (new_default : E) where
  -- `globalOnce.Do`
  unfoldable pub once : (Option E → Option E) → Global E → Global E
  once change g = elim g.once_done [
    | true ↦ g
    | false ↦ record { exec = change g.exec; once_done = true }
  ]

  abbrev or_new : Option E → Option E
  or_new none = some new_default
  or_new (some e) = some e

  -- `DefaultExecutor`
  unfoldable pub default_executor : Global E → Global E × Option E
  default_executor g = let g' = once or_new g in (g', g'.exec)

  -- `SetGlobal`
  unfoldable pub set_global : Option E → Global E → Global E
  set_global none g = g
  set_global (some e) g = elim g.exec [ some old ↦ g | none ↦ once (λ _. some e) g ]

  unfoldable pub call : GlobalCall E → Global E → Global E
  call (sets e) g = set_global e g
  call gets g = (default_executor g).0

  unfoldable pub calls : List (GlobalCall E) → Global E → Global E
  calls [] g = g
  calls (c ∷ cs) g = calls cs (call c g)

  -- The executor that the first call to matter chooses.
  abbrev pub first_of : List (GlobalCall E) → E
  first_of [] = new_default
  first_of (sets none ∷ cs) = first_of cs
  first_of (sets (some e) ∷ cs) = e
  first_of (gets ∷ cs) = new_default

  abbrev chosen : E → Global E
  chosen e = record { exec = some e; once_done = true }

  kept : (e : E) (cs : List (GlobalCall E)) → calls cs (chosen e) ≡ chosen e
  unfolding calls call set_global default_executor once
  kept e [] = refl
  kept e (sets none ∷ cs) = kept e cs
  kept e (sets (some new) ∷ cs) = kept e cs
  kept e (gets ∷ cs) = kept e cs

  -- The executor that `DefaultExecutor` returns is chosen once: after any calls of `SetGlobal` and
  -- `DefaultExecutor` it is the first that was set before the first use, or the default one if
  -- there was none.
  pub global_chosen_once :
      (cs : List (GlobalCall E)) → (default_executor (calls cs unset)).1 ≡ some (first_of cs)
  unfolding calls call set_global default_executor once
  global_chosen_once [] = refl
  global_chosen_once (sets none ∷ cs) = global_chosen_once cs
  global_chosen_once (sets (some e) ∷ cs) =
      ap (λ (g : Global E). (default_executor g).1) (kept e cs)
  global_chosen_once (gets ∷ cs) =
      ap (λ (g : Global E). (default_executor g).1) (kept new_default cs)
