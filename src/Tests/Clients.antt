-- ===== src/Tests/Clients.antt =====
-- Captures of timelines, an HTTP client with one kind of response, and gRPC keys.
use rego.Common.{◌≡◌, refl, ℕ, ◌+◌, ◌-◌, pos, Bool, true, false, [], none, some, inr, arith}
use rego.Classify.{returned}
use rego.Observe.Types.{zero_timeline}
use rego.Observe.Capture.{Context, Captures, timeline_capture_from_context}
use rego.Retry.Values.{
  Op, Paths, do_value_internal, record_run, Recorded, timeline_recorded, captures_suppressed,
}
use rego.Integrations.Http.{Net, HttpRequest, StatusError, no_body, attempt}
use rego.Integrations.Http.Laws.{Opens, holds_body, bodies_closed}

-- The state is the captures; each path runs the operation once.
abbrev paths : (T : Type 0) → T → Paths Captures T Bool
paths T zero_value = record {
  fast = λ op ctx w. op ctx w;
  timed = λ op ctx w. (returned (zero_value, zero_timeline, none), [], w);
  noop_observer = true;
  captures = λ w. w;
  set_captures = λ cells w. cells;
}

abbrev op : Op Captures Bool
op ctx w = (returned (true, none), w)

timeline_recorded_example :
    Recorded
      (paths Bool true)
      (record_run (paths Bool true) true op [] []).0
      (record_run (paths Bool true) true op [] []).1.2
      (record_run (paths Bool true) true op [] []).1.0
timeline_recorded_example =
    timeline_recorded (paths Bool true) (λ cells w. refl) (λ op' ctx w. omega arith) true op [] []

-- An operation that answers `false` where it finds a capture.
abbrev curious : Op Captures Bool
curious ctx w = elim (timeline_capture_from_context ctx) [
  | none ↦ (returned (true, none), w)
  | some c ↦ (returned (false, none), w)
]

same : (c : Context) (v : Captures) → timeline_capture_from_context c ≡ none → op c v ≡ curious c v
same c v h = ground (arith, h)

captures_suppressed_example :
    do_value_internal (paths Bool true) false op [] []
    ≡ do_value_internal (paths Bool true) false curious [] []
captures_suppressed_example = captures_suppressed (paths Bool true) false op curious [] [] same

-- The state counts the open bodies; every response is a 503.
abbrev net : Net ℕ Bool Bool Bool
net = record {
  client_do =
      λ ctx r b w. (inr (record { status_code = pos 503; header = true; body = true }), w + 1);
  discard = λ n b w. w;
  close = λ b w. w - 1;
  header_get = λ h name. "9223372037";
  atoi = λ s. some (pos 9223372037);
  parse_time = λ s. none;
  itoa = λ n. "";
  text = λ e. "";
}

abbrev request : HttpRequest ℕ Bool Bool
request = record { method = "GET"; body = no_body; get_body = none; rest = true }

net-Opens : Opens net (λ n. n)
net-Opens = record {
  client_opens = λ ctx r b w. refl;
  close_closes = λ b w. refl;
  discard_keeps = λ n b w. refl;
}

bodies_closed_example :
    (attempt net request [] 0).1 ≡ 0 + holds_body net (attempt net request [] 0).0
bodies_closed_example = bodies_closed net (λ n. n) net-Opens request (λ get w h. absurd (cc h)) [] 0

abbrev overloaded : StatusError Bool
overloaded = record { code = pos 503; method = "GET"; header = some true; err = none }
