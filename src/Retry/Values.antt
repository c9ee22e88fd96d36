-- ===== src/Retry/Values.antt =====
-- retry/executor.go, `doValueInternal` and `DoValue`, on an executor that is complete: the choice
-- between the fast path and the path with a timeline, and the capture of the timeline. The captures
-- are a part of the state `W`, which nested calls share.
use mathlib.Core.Path.{fun_ext}
use rego.Common.{
  ℕ, zero, suc, set, ◌++◌, length-append, ◌∷◌, ◌<◌, ◌≤◌, ◌≡◌, refl, sym, ap, ◌∙◌, subst, Bool, true,
  false, not, ◌||◌, List, [], Option, none, some, is_some, length, if◌then◌else◌, arith,
}
use rego.Errors.{Error, sentinel, hedging_requires_timeline}
use rego.Classify.{Exit, returned, panicked}
use rego.Observe.Types.{Timeline, Event, zero_timeline}
use rego.Observe.Capture.{
  Context, Captures, capturing, timeline_capture_from_context, without_timeline_capture,
  store_timeline_capture, captured, record_timeline,
}

-- An operation: a value and an error, or a panic.
abbrev pub Op : Type 0 → Type 0 → Type 0
Op W T = Context → W → Exit (T × Option Error) × W

-- What ends with a timeline, and with the calls that the observer got.
abbrev pub Timed : Type 0 → Type 0 → Type 0 → Type 0
Timed W T F = Exit (T × Timeline × Option Error) × List (Event F) × W

-- `doValueFast` and `doValueWithTimeline` for a key, and the executor's observer as far as the choice
-- depends on it.
pub record Paths (W T F : Type 0) : Type 0 where
  pub fast : Op W T → Op W T
  pub timed : Op W T → Context → W → Timed W T F
  pub noop_observer : Bool
  pub captures : W → Captures
  pub set_captures : Captures → W → W

-- `err == errHedgingRequiresTimeline`
abbrev pub requires_timeline : Option Error → Bool
requires_timeline (some (sentinel hedging_requires_timeline)) = true
requires_timeline _ = false

captured-set :
    (c : ℕ) (cells : Captures) (tl : Timeline)
    → c < length cells
    → captured c (set cells c (some tl)) ≡ some tl
unfolding captured
captured-set c [] tl room = absurd (omega (arith, room))
captured-set zero (cell ∷ cells) tl room = refl
captured-set (suc c) (cell ∷ cells) tl room = captured-set c cells tl (omega (arith, room))

-- The value `struct{}{}`, put beside an error and taken from it.
abbrev with_unit : Exit (Option Error) → Exit {0} (Unit × Option Error)
with_unit (panicked v) = panicked v
with_unit (returned err) = returned (tt, err)

abbrev without_unit : Exit {0} (Unit × Option Error) → Exit (Option Error)
without_unit (panicked v) = panicked v
without_unit (returned (val, err)) = returned err

-- A call's end, less its timeline.
abbrev pub without_timeline :
    {T : Type 0} → Exit (T × Timeline × Option Error) → Exit (T × Option Error)
without_timeline (panicked v) = panicked v
without_timeline (returned (val, tl, err)) = returned (val, err)

module _ {W T F : Type 0} (paths : Paths W T F) where
  open paths use {fast, timed, noop_observer, captures, set_captures}

  -- The operation without the caller's capture.
  unfoldable pub safe_op : Op W T → Op W T
  safe_op op ctx = op (without_timeline_capture ctx)

  unfoldable pub stored : Option ℕ → Timed W T F → Timed W T F
  stored capture (panicked v, events, w) = (panicked v, events, w)
  stored capture (returned (val, tl, err), events, w) = (
    returned (val, tl, err),
    events,
    set_captures (store_timeline_capture capture tl (captures w)) w,
  )

  unfoldable pub do_timed : Op W T → Context → W → Timed W T F
  do_timed op ctx w = stored (timeline_capture_from_context ctx) (timed op ctx w)

  -- Behind the fast path.
  unfoldable pub after_fast : Op W T → Context → Exit (T × Option Error) → W → Timed W T F
  after_fast op ctx (panicked v) w = (panicked v, [], w)
  after_fast op ctx (returned (val, err)) w =
      if requires_timeline err
      then do_timed op ctx w
      else (returned (val, zero_timeline, err), [], w)

  -- The choice of the path, with the operation that is safe.
  unfoldable pub choose : Bool → Op W T → Context → W → Timed W T F
  choose want op ctx w =
      if want || is_some (timeline_capture_from_context ctx) || not noop_observer
      then do_timed op ctx w
      else (let (exit, w') = fast op ctx w in after_fast op ctx exit w')

  -- `doValueInternal`
  unfoldable pub do_value_internal : Bool → Op W T → Context → W → Timed W T F
  do_value_internal want op = choose want (safe_op op)

  -- `DoValue`
  unfoldable pub do_value : Op W T → Context → W → Exit (T × Option Error) × W
  do_value op ctx w =
      let (exit, events, w') = do_value_internal false op ctx w in (without_timeline exit, w')

  suppressed : (c : Context) → timeline_capture_from_context (without_timeline_capture c) ≡ none
  unfolding timeline_capture_from_context without_timeline_capture
  suppressed c = refl

  -- An operation never sees the capture of its caller: two operations that agree on every context
  -- in which no capture is found give the same result of a call, its timeline, its events and its
  -- effects included.
  pub captures_suppressed :
      (want : Bool) (op other : Op W T) (ctx : Context) (w : W)
      → ((c : Context) (v : W) → timeline_capture_from_context c ≡ none → op c v ≡ other c v)
      → do_value_internal want op ctx w ≡ do_value_internal want other ctx w
  unfolding do_value_internal safe_op
  captures_suppressed want op other ctx w same =
      ap (λ (safe : Op W T). choose want safe ctx w)
        (fun_ext (λ c. fun_ext (λ v. same (without_timeline_capture c) v (suppressed c))))

  -- A call that is asked to record leaves in the cell what it returned.
  pub data Recorded (c : ℕ) (w : W) : Exit (T × Timeline × Option Error) → Type 0 where
    kept :
        (val : T) (tl : Timeline) (err : Option Error)
        → captured c (captures w) ≡ some tl
        → Recorded c w (returned (val, tl, err))
    lost : (v : _) → Recorded c w (panicked v)

  stored-Recorded :
      (reads_written : (cells : Captures) (w : W) → captures (set_captures cells w) ≡ cells) (c : ℕ)
      (r : Timed W T F)
      → c < length (captures r.2)
      → Recorded c (stored (some c) r).2 (stored (some c) r).0
  unfolding stored captured store_timeline_capture
  stored-Recorded reads_written c (panicked v, events, w) room = lost v
  stored-Recorded reads_written c (returned (val, tl, err), events, w) room =
      kept val tl err (ap (captured c) (reads_written _ w) ∙ captured-set c (captures w) tl room)

  chosen :
      (want : Bool) (op : Op W T) (ctx : Context) (c : ℕ) (w : W)
      → choose want op (capturing c ∷ ctx) w ≡ stored (some c) (timed op (capturing c ∷ ctx) w)
  unfolding choose do_timed timeline_capture_from_context
  chosen true op ctx c w = refl
  chosen false op ctx c w = refl

  -- A call with the context of `RecordTimeline`.
  abbrev pub record_run : Bool → Op W T → Context → W → ℕ × Timed W T F
  record_run want op ctx w =
      let (ctx', c, cells) = record_timeline ctx (captures w) in
      (c, do_value_internal want op ctx' (set_captures cells w))

  -- A call with the context of `RecordTimeline` takes the path with a timeline, and if it returns,
  -- the capture holds exactly the timeline that the call returned. The captures are never fewer
  -- behind that path than before, and what is written to them is read back.
  pub timeline_recorded :
      (reads_written : (cells : Captures) (w : W) → captures (set_captures cells w) ≡ cells)
      → ((op : Op W T) (ctx : Context) (w : W)
          → length (captures w) ≤ length (captures (timed op ctx w).2))
      → (want : Bool) (op : Op W T) (ctx : Context) (w : W)
      → Recorded
          (record_run want op ctx w).0
          (record_run want op ctx w).1.2
          (record_run want op ctx w).1.0
  unfolding do_value_internal record_timeline
  timeline_recorded reads_written grows want op ctx w =
      let c : ℕ = length (captures w) in
      let w' : W = set_captures (captures w ++ none ∷ []) w in
      let ran : Timed W T F = timed (safe_op op) (capturing c ∷ ctx) w' in
      let room : c < length (captures ran.2) = omega (
        arith,
        grows (safe_op op) (capturing c ∷ ctx) w',
        ap length (reads_written (captures w ++ none ∷ []) w),
        length-append (captures w) (none ∷ []),
      ) in
      subst (λ (r : Timed W T F). Recorded c r.2 r.0) (sym (chosen want (safe_op op) ctx c w'))
        (stored-Recorded reads_written c ran room)

-- `Do`: an operation that has no value.
unfoldable pub do_error :
    {W F : Type 0}
    → Paths W Unit F
    → (Context → W → Exit (Option Error) × W)
    → Context
    → W
    → Exit (Option Error) × W
do_error paths op ctx w =
    let (exit, w') = do_value paths (λ c v. let (e, v') = op c v in (with_unit e, v')) ctx w in
    (without_unit exit, w')
