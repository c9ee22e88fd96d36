-- ===== src/Observe/Observers.antt =====
-- observe/observers.go and observe/noop.go. An observer is what it does to a state `S` for each call;
-- its seven methods are the constructors of `Event`.
use rego.Common.{◌≡◌, refl, List, [], ◌∷◌, ◌++◌, Option, none, some}
use rego.Observe.Types.{Event}

abbrev pub Observer : Type 0 → Type 0 → Type 0
Observer S F = Event F → S → S

module _ {S F : Type 0} where
  -- `BaseObserver` and `NoopObserver`
  unfoldable pub base_observer : Observer S F
  base_observer e s = s

  -- The methods of `MultiObserver`, which are one loop each over the same list; `none` is a nil
  -- observer.
  unfoldable pub multi_observer : List (Option (Observer S F)) → Observer S F
  multi_observer [] e s = s
  multi_observer (none ∷ os) e s = multi_observer os e s
  multi_observer (some o ∷ os) e s = multi_observer os e (o e s)

  -- The calls of one execution, in their order.
  unfoldable pub notify_all : Observer S F → List (Event F) → S → S
  notify_all o [] s = s
  notify_all o (e ∷ es) s = notify_all o es (o e s)

  -- A fan-out within a fan-out is one fan-out to all of them in the same order.
  pub nested_observer :
      (xs ys : List (Option (Observer S F))) (e : Event F) (s : S)
      → multi_observer (some (multi_observer xs) ∷ ys) e s ≡ multi_observer (xs ++ ys) e s
  unfolding multi_observer
  nested_observer [] ys e s = refl
  nested_observer (none ∷ xs) ys e s = nested_observer xs ys e s
  nested_observer (some o ∷ xs) ys e s = nested_observer xs ys e (o e s)
