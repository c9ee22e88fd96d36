-- ===== src/Circuit/Registry.antt =====
-- circuit/registry.go. The registry hands out pointers to breakers: its map is the store of all of
-- them, and a breaker is reached by its key. The two look-ups of `Get`, before and under the write
-- lock, are one step here, since the lock serialises the calls that insert.
use rego.Common.{
  ◌≡◌, refl, true, false, List, Option, none, some, lookup, insert, lookup-insert,
  lookup-insert_self, Option-cases, inl, inr, ◌∙◌, arith, if◌then◌else◌,
}
use rego.Policy.Key.{PolicyKey, Key-eq, key_eq}
use rego.Policy.Schema.{CircuitPolicy}
use rego.Circuit.Breaker.{Breaker, new_breaker}

abbrev pub Registry : Type 0
Registry = List (PolicyKey × Breaker)

-- `Get`: no breaker where the policy has none enabled; else the key's breaker, built at first use.
unfoldable pub get : PolicyKey → CircuitPolicy → Registry → Registry × Option Breaker
get key config r =
    if config.enabled
    then elim (lookup key r) [
      | some cb ↦ (r, some cb)
      | none ↦ (
        insert key (new_breaker config.threshold config.cooldown) r,
        some (new_breaker config.threshold config.cooldown),
      )
    ]
    else (r, none)

-- A call on the breaker of a key, through the pointer that `Get` gave.
unfoldable pub update : PolicyKey → (Breaker → Breaker) → Registry → Registry
update key op r = elim (lookup key r) [ none ↦ r | some cb ↦ insert key (op cb) r ]

-- A breaker that exists is handed out as it is: the threshold and the cooldown of a later policy
-- for the same key are not looked at. Asking a second time changes nothing, and breakers of other
-- keys are never touched.
pub get_once :
    (key other : PolicyKey) (first second : CircuitPolicy) (r : Registry)
    → first.enabled ≡ true
    → second.enabled ≡ true
    → key_eq key other ≡ false
    → (get key second (get key first r).0 ≡ get key first r)
      × (lookup other (get key first r).0 ≡ lookup other r)
unfolding get
get_once key other first second r a b ne = elim (Option-cases (lookup key r)) [
  | inl e ↦ ground (
    arith,
    e,
    lookup-insert_self key (new_breaker first.threshold first.cooldown) r,
    lookup-insert key other (new_breaker first.threshold first.cooldown) r,
  )
  | inr (cb, e) ↦ ground (arith, e)
]

lookup-get :
    (key : PolicyKey) (config : CircuitPolicy) (r : Registry)
    → config.enabled ≡ true
    → lookup key (get key config r).0 ≡ (get key config r).1
unfolding get
lookup-get key config r a = elim (Option-cases (lookup key r)) [
  | inl e ↦
      ground (arith, e, lookup-insert_self key (new_breaker config.threshold config.cooldown) r)
  | inr (cb, e) ↦ ground (arith, e)
]

pub get_found :
    (key : PolicyKey) (config : CircuitPolicy) (r : Registry) (cb : Breaker)
    → config.enabled ≡ true
    → lookup key r ≡ some cb
    → get key config r ≡ (r, some cb)
unfolding get
get_found key config r cb a h = rw (a, h) refl

pub lookup-update :
    (key : PolicyKey) (op : Breaker → Breaker) (r : Registry) (cb : Breaker)
    → lookup key r ≡ some cb
    → lookup key (update key op r) ≡ some (op cb)
unfolding update
lookup-update key op r cb h = ground (arith, h, lookup-insert_self key (op cb) r)

update_found :
    (key other : PolicyKey) (op : Breaker → Breaker) (config : CircuitPolicy) (r : Registry)
    → config.enabled ≡ true
    → (cb : Breaker) → lookup key r ≡ some cb
    → key_eq key other ≡ false
    → ((get key config (update key op r)).1 ≡ some (op cb))
      × (lookup other (update key op r) ≡ lookup other r)
unfolding get update
update_found key other op config r a cb h ne =
    ground (arith, h, lookup-insert_self key (op cb) r, lookup-insert key other (op cb) r)

-- What is recorded through the breaker that `Get` gave is what the next `Get` of that key finds,
-- and no other key's breaker changes.
pub update_seen :
    (key other : PolicyKey) (op : Breaker → Breaker) (config : CircuitPolicy) (r : Registry)
    → config.enabled ≡ true
    → (cb : Breaker) → (get key config r).1 ≡ some cb
    → key_eq key other ≡ false
    → ((get key config (update key op (get key config r).0)).1 ≡ some (op cb))
      × (lookup other (update key op (get key config r).0) ≡ lookup other r)
update_seen key other op config r a cb h ne =
    let found =
      update_found key other op config (get key config r).0 a cb (lookup-get key config r a ∙ h)
        ne in
    (found.0, found.1 ∙ (get_once key other config config r a a ne).1)
