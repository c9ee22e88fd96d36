-- ===== src/Integrations/Http/Laws.antt =====
-- integrations/http/http.go: response bodies, and the Retry-After header.
use rego.Common.{
  ℕ, ◌+◌, ◌-◌, ◌*◌, ◌≤◌, ◌≡◌, refl, ap, ◌∙◌, ℤ, pos, ◌<ℤ◌, String, is_empty, leb_ℤ, ltb_ℤ, false,
  ◌&&◌, Option, none, some, length, ◌⊎◌, inl, inr, Bool-cases, arith,
}
use rego.Errors.{Error}
use rego.Classify.{Exit, returned}
use rego.Observe.Types.{Timeline}
use rego.Observe.Capture.{Context, Captures, record_timeline}
use rego.Retry.Values.{
  Op, Timed, Paths, do_value, record_run, without_timeline, Recorded, kept, lost, timeline_recorded,
}
use rego.Integrations.Http.{
  Net, HttpRequest, Response, StatusError, Attempt, response, status_error, body_error, wrap_int64,
  retry_after, check_response, attempt, operation, is_single_use, do_http, or_zero, with_captured,
  fetch_body, send,
}

module _ {W B R H : Type 0} (net : Net W B R H) where
  open net use {client_do, discard, close, header_get, atoi, parse_time}

  -- How many more response bodies are open after a request to the client.
  abbrev pub got_body : Error ⊎ Response H B → ℕ
  got_body (inl e) = 0
  got_body (inr r) = 1

  abbrev pub holds_body : Attempt net → ℕ
  holds_body (response r) = 1
  holds_body (status_error e) = 0
  holds_body (body_error e) = 0

  -- A count of the open response bodies: the client opens one with each response, Close closes one.
  pub record Opens (opened : W → ℕ) : Type 0 where
    pub client_opens :
        (ctx : Context) (r : R) (b : Option B) (w : W)
        → opened (client_do ctx r b w).1 ≡ opened w + got_body (client_do ctx r b w).0
    pub close_closes : (b : B) (w : W) → opened (close b w) ≡ opened w - 1
    pub discard_keeps : (n : ℕ) (b : B) (w : W) → opened (discard n b w) ≡ opened w

  check_response-opened :
      (opened : W → ℕ) (o : Opens opened) (method : String) (got : Error ⊎ Response H B) (w : W)
      (before : ℕ)
      → opened w ≡ before + got_body got
      → opened (check_response net method got w).1
        ≡ before + holds_body (check_response net method got w).0
  unfolding check_response
  check_response-opened opened o method (inl e) w before h = h
  check_response-opened opened o method (inr r) w before h =
      elim (Bool-cases (leb_ℤ (pos 200) r.status_code && ltb_ℤ r.status_code (pos 300))) [
        | inl s ↦ rw s h
        | inr s ↦ rw s (
            omega (
              arith,
              h,
              o.close_closes r.body (discard 4096 r.body w),
              o.discard_keeps 4096 r.body w,
            ))
      ]

  fetch_body-opened :
      (opened : W → ℕ) (get_body : Option (W → (Error ⊎ B) × W))
      → ((get : W → (Error ⊎ B) × W) (w : W) → get_body ≡ some get → opened (get w).1 ≡ opened w)
      → (w : W) → opened (fetch_body net get_body w).1 ≡ opened w
  unfolding fetch_body
  fetch_body-opened opened none keeps w = refl
  fetch_body-opened opened (some get) keeps w = keeps get w refl

  send-opened :
      (opened : W → ℕ) (o : Opens opened) (req : HttpRequest W B R) (ctx : Context)
      (b : Error ⊎ Option B) (w : W)
      → opened (send net req ctx b w).1 ≡ opened w + holds_body (send net req ctx b w).0
  unfolding send
  send-opened opened o req ctx (inl e) w = omega arith
  send-opened opened o req ctx (inr b) w =
      check_response-opened opened o req.method (client_do ctx req.rest b w).0
        (client_do ctx req.rest b w).1 (opened w) (o.client_opens ctx req.rest b w)

  -- An attempt of `DoHTTP` leaves no response body open but that of the response that it returns:
  -- every response outside 200 to 299 is closed exactly once, and one within is not closed. The
  -- count of open bodies is any function of the state that each response raises by one, that
  -- `Close` lowers by one, and that nothing else changes.
  pub bodies_closed :
      (opened : W → ℕ) (o : Opens opened) (req : HttpRequest W B R)
      → ((get : W → (Error ⊎ B) × W) (w : W)
          → req.get_body ≡ some get
          → opened (get w).1 ≡ opened w)
      → (ctx : Context) (w : W)
      → opened (attempt net req ctx w).1 ≡ opened w + holds_body (attempt net req ctx w).0
  unfolding attempt
  bodies_closed opened o req keeps ctx w =
      send-opened opened o req ctx (fetch_body net req.get_body w).0
        (fetch_body net req.get_body w).1
      ∙ ap (λ (n : ℕ). n + holds_body (attempt net req ctx w).0)
          (fetch_body-opened opened req.get_body keeps w)

  -- Up to 9223372036 seconds the duration is exact.
  pub retry_after_exact :
      (e : StatusError H) (h : H) (secs : ℕ) (now : ℤ)
      → e.header ≡ some h
      → is_empty (header_get h "Retry-After") ≡ false
      → atoi (header_get h "Retry-After") ≡ some (pos secs)
      → secs ≤ 9223372036
      → retry_after net e now ≡ some (pos (secs * 1000000000))
  unfolding retry_after wrap_int64
  retry_after_exact e h secs now a b c l = ground (arith, a, b, c)

  -- A Retry-After header of 9223372037 to 18446744073 seconds, which is 292 years and more, is
  -- taken for a negative duration.
  pub retry_after_overflows :
      (e : StatusError H) (h : H) (secs : ℕ) (now : ℤ)
      → e.header ≡ some h
      → is_empty (header_get h "Retry-After") ≡ false
      → atoi (header_get h "Retry-After") ≡ some (pos secs)
      → 9223372037 ≤ secs
      → secs ≤ 18446744073
      → (d : ℤ) × (retry_after net e now ≡ some d) × (d <ℤ pos 0)
  unfolding retry_after wrap_int64
  retry_after_overflows e h secs now a b c l m =
      (wrap_int64 (secs * 1000000000), ground (arith, a, b, c), ground arith)

  captured_same :
      {F : Type 0} (paths : Paths W (Option (Response H B)) F) (c : ℕ)
      (exit : Exit (Option (Response H B) × Timeline × Option Error)) (w : W)
      → Recorded paths c w exit
      → with_captured net c (paths.captures w) (without_timeline exit) ≡ exit
  captured_same paths c exit w (kept val tl err h) =
      ap (λ (t : Option Timeline). returned (val, or_zero t, err)) h
  captured_same paths c exit w (lost v) = refl

  -- With a body that can be got again, `DoHTTP` returns the value, the error and the timeline of
  -- the call that it made, under the same conditions on the captures as for a recorded timeline.
  pub do_http_timeline :
      {F : Type 0} (paths : Paths W (Option (Response H B)) F)
      (reads_written : (cells : Captures) (w : W)
        → paths.captures (paths.set_captures cells w) ≡ cells)
      → ((op : Op W (Option (Response H B))) (ctx : Context) (w : W)
          → length (paths.captures w) ≤ length (paths.captures (paths.timed op ctx w).2))
      → (now : W → ℤ) (req : HttpRequest W B R) (ctx : Context) (w : W)
      → is_single_use net req ≡ false
      → (do_http net paths now req ctx w).0
        ≡ (record_run paths false (operation net now req) ctx w).1.0
  unfolding do_http do_value record_timeline
  do_http_timeline {F = F} paths reads_written grows now req ctx w s =
      let ran : ℕ × Timed W (Option (Response H B)) F =
        record_run paths false (operation net now req) ctx w in
      rw s (
        captured_same paths ran.0 ran.1.0 ran.1.2
          (timeline_recorded paths reads_written grows false (operation net now req) ctx w))
