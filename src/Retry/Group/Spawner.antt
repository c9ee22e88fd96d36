-- ===== src/Retry/Group/Spawner.antt =====
-- retry/group.go, the loop of `doRetryGroup` that launches hedges: a timer fires, the trigger is
-- asked, and a hedge is launched or the timer is set again. The clock's reading and the latencies of
-- the key's tracker are read each time and come from outside.
pub mod Laws
pub mod Refinement
use rego.Common.{
  ℕ, ◌+◌, ℤ, pos, ◌+ℤ◌, leb_ℤ, ltb_ℤ, String, is_empty, Bool, true, false, List, [], ◌∷◌, ◌++◌,
  Option, none, some, if◌then◌else◌,
}
use rego.Policy.Schema.{HedgePolicy, ms}
use rego.Hedge.Tracker.{LatencySnapshot}
use rego.Hedge.Triggers.{HedgeState, fixed_delay}
use rego.Hedge.Registry.{Registry, get}

-- `hedge.Trigger`
abbrev pub Trigger : Type 0
Trigger = HedgeState → Bool × ℤ

-- The trigger that the policy names, or the fixed delay.
unfoldable pub find_trigger : HedgePolicy → Option (Registry Trigger) → Trigger
find_trigger h triggers =
    if is_empty h.trigger_name then fixed_delay h.hedge_delay else elim triggers [
      | none ↦ fixed_delay h.hedge_delay
      | some r ↦ elim (get h.trigger_name r) [ none ↦ fixed_delay h.hedge_delay | some t ↦ t ]
    ]

-- What the loop reads when its timer fires: the time since the launch of the primary, and the
-- snapshot.
pub record Reading : Type 0 where
  pub elapsed : ℤ
  pub snapshot : LatencySnapshot

-- What the loop's `select` wakes up for.
pub data Wake : Type 0 where
  group_done : Wake
  timer_fired : Reading → Wake

-- `timer` is the wait that the timer is set to, and `none` where it has fired and is not set again.
pub record Loop : Type 0 where
  pub hedges_launched : ℕ
  pub timer : Option ℤ
  pub runs : Bool

-- The loop's start: the timer is to fire at once.
abbrev pub new_loop : Loop
new_loop = record { hedges_launched = 0; timer = some (pos 0); runs = true }

abbrev pub Launches : Type 0
Launches = List (ℕ × Reading)

-- `hedge.HedgeState` for a reading.
unfoldable pub hedge_state : HedgePolicy → ℕ → Reading → HedgeState
hedge_state h launched r = record {
  attempts_launched = pos (1 + launched);
  max_hedges = h.max_hedges;
  elapsed = r.elapsed;
  snapshot = r.snapshot;
  hedge_delay = h.hedge_delay;
}

-- The wait before the trigger is asked again.
unfoldable pub next_wait : ℤ → ℤ
next_wait next_check = if leb_ℤ next_check (pos 0) then ms 25 else next_check

-- The trigger has answered.
unfoldable pub act : HedgePolicy → Reading → Loop → Bool × ℤ → Loop × Launches
act h r l (true, next_check) =
    let launched = l.hedges_launched + 1 in
    (
      record l {
        hedges_launched = launched;
        timer = if ltb_ℤ (pos launched) h.max_hedges then some (pos 0) else none;
      },
      (launched, r) ∷ [],
    )
act h r l (false, next_check) = (record l { timer = some (next_wait next_check) }, [])

-- The case of the timer.
unfoldable pub on_timer : HedgePolicy → Trigger → Reading → Loop → Loop × Launches
on_timer h trigger r l =
    if leb_ℤ h.max_hedges (pos l.hedges_launched)
    then (record l { timer = none; runs = false }, [])
    else act h r l (trigger (hedge_state h l.hedges_launched r))

-- A timer that is not set does not fire.
unfoldable pub wake : HedgePolicy → Trigger → Wake → Loop → Loop × Launches
wake h trigger group_done l = (record l { timer = none; runs = false }, [])
wake h trigger (timer_fired r) l = elim l.timer [
  | none ↦ (l, [])
  | some wait ↦ if l.runs then on_timer h trigger r l else (l, [])
]

-- The loop over what wakes it up, with its launches in their order.
unfoldable pub hedge_loop : HedgePolicy → Trigger → List Wake → Loop → Loop × Launches
hedge_loop h trigger [] l = (l, [])
hedge_loop h trigger (w ∷ ws) l =
    let (l', now) = wake h trigger w l in
    let (l'', rest) = hedge_loop h trigger ws l' in (l'', now ++ rest)
