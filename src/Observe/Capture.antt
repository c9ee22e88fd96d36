-- ===== src/Observe/Capture.antt =====
-- observe/timeline_capture.go and observe/attempt_info.go: what a context carries. A context is the
-- list of its values, the innermost first; a capture is a cell of a store, named by a number.
use rego.Common.{ℕ, List, [], ◌∷◌, Option, none, some, length, get_elem?, set, ◌++◌}
use rego.Observe.Types.{Timeline, AttemptInfo}

-- The values that the packages put into a context; another package's are `foreign`.
pub data ContextValue : Type 0 where
  capturing : ℕ → ContextValue
  capture_disabled : ContextValue
  attempt_info : AttemptInfo → ContextValue
  foreign : ContextValue

abbrev pub Context : Type 0
Context = List ContextValue

-- The cells of all captures.
abbrev pub Captures : Type 0
Captures = List (Option Timeline)

-- `RecordTimeline`
unfoldable pub record_timeline : Context → Captures → Context × ℕ × Captures
record_timeline ctx cells = (capturing (length cells) ∷ ctx, length cells, cells ++ none ∷ [])

-- `TimelineCaptureFromContext`: the capture, if `ok`.
unfoldable pub timeline_capture_from_context : Context → Option ℕ
timeline_capture_from_context [] = none
timeline_capture_from_context (capturing c ∷ ctx) = some c
timeline_capture_from_context (capture_disabled ∷ ctx) = none
timeline_capture_from_context (attempt_info i ∷ ctx) = timeline_capture_from_context ctx
timeline_capture_from_context (foreign ∷ ctx) = timeline_capture_from_context ctx

-- `WithoutTimelineCapture`
unfoldable pub without_timeline_capture : Context → Context
without_timeline_capture ctx = capture_disabled ∷ ctx

-- `StoreTimelineCapture`; `none` is a nil capture.
unfoldable pub store_timeline_capture : Option ℕ → Timeline → Captures → Captures
store_timeline_capture none tl cells = cells
store_timeline_capture (some c) tl cells = set cells c (some tl)

-- `TimelineCapture.Timeline`
unfoldable pub captured : ℕ → Captures → Option Timeline
captured c cells = elim (get_elem? cells c) [ none ↦ none | some cell ↦ cell ]

-- `WithAttemptInfo` and `AttemptFromContext`
unfoldable pub with_attempt_info : Context → AttemptInfo → Context
with_attempt_info ctx info = attempt_info info ∷ ctx

unfoldable pub attempt_from_context : Context → Option AttemptInfo
attempt_from_context [] = none
attempt_from_context (attempt_info i ∷ ctx) = some i
attempt_from_context (capturing c ∷ ctx) = attempt_from_context ctx
attempt_from_context (capture_disabled ∷ ctx) = attempt_from_context ctx
attempt_from_context (foreign ∷ ctx) = attempt_from_context ctx
