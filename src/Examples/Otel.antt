-- ===== src/Examples/Otel.antt =====
-- examples/otel/observer.go: the span that an observer records for a call. The tracer is outside:
-- what `record` gives it is a value. The zero time is 0.
use rego.Common.{
  ℕ, ℤ, pos, eqb_ℤ, ◌≡◌, refl, ap, suc, String, is_empty, Bool, List, [], ◌∷◌, ◌++◌, map, length,
  Option, none, some, if◌then◌else◌,
}
use Prim.Native.String.{◌++◌ as concat}
use rego.Errors.{Error}
use rego.Policy.Key.{PolicyKey, to_string}
use rego.Observe.Types.{AttemptRecord, Timeline, Event, on_success, on_failure}

-- attribute.KeyValue
pub data KeyValue : Type 0 where
  text_value : String → String → KeyValue
  int_value : String → ℕ → KeyValue
  bool_value : String → Bool → KeyValue

pub record SpanEvent : Type 0 where
  pub attributes : List KeyValue
  pub timestamp : Option ℤ

pub record Span : Type 0 where
  pub name : String
  pub start : Option ℤ
  pub attributes : List KeyValue
  pub events : List SpanEvent
  pub error : Option Error  -- RecordError and the status; `none` is the status Ok
  pub end : Option ℤ

abbrev stamp : ℤ → Option ℤ
stamp t = if eqb_ℤ t (pos 0) then none else some t

-- The event of an attempt, with `err.Error()`.
unfoldable pub attempt_event : (Error → String) → AttemptRecord → SpanEvent
attempt_event text attempt = record {
  attributes =
      int_value "recourse.attempt" attempt.attempt
        ∷ bool_value "recourse.hedge" attempt.is_hedge
        ∷ []
      ++ (if is_empty attempt.outcome.reason
          then []
          else text_value "recourse.outcome" attempt.outcome.reason ∷ [])
      ++ (elim attempt.err [ none ↦ [] | some e ↦ text_value "recourse.error" (text e) ∷ [] ]);
  timestamp = stamp attempt.end_time;
}

-- `record`, with a tracer.
unfoldable pub record_call : (Error → String) → PolicyKey → Timeline → Option Error → Span
record_call text key tl err = record {
  name = concat "recourse." (to_string key);
  start = stamp tl.start;
  attributes =
      text_value "recourse.key" (to_string key)
      ∷ int_value "recourse.attempts" (length tl.attempts)
      ∷ [];
  events = map (attempt_event text) tl.attempts;
  error = err;
  end = stamp tl.end;
}

-- The spans that a call of a method records; `false` is an observer without a tracer.
unfoldable pub spans : {F : Type 0} → (Error → String) → Bool → Event F → List Span
spans text has_tracer (on_success key tl) =
    if has_tracer then record_call text key tl none ∷ [] else []
spans text has_tracer (on_failure key tl) =
    if has_tracer then record_call text key tl tl.final_err ∷ [] else []
spans text has_tracer _ = []

length-map : {A B : Type 0} (g : A → B) (xs : List A) → length (map g xs) ≡ length xs
length-map g [] = refl
length-map g (x ∷ xs) = ap suc (length-map g xs)

-- A span has one event for each attempt on the timeline.
record_call-events :
    (text : Error → String) (key : PolicyKey) (tl : Timeline) (err : Option Error)
    → length (record_call text key tl err).events ≡ length tl.attempts
unfolding record_call
record_call-events text key tl err = length-map (attempt_event text) tl.attempts
