-- ===== src/Integrations/Http.antt =====
-- integrations/http/http.go. The package net/http is a parameter: the client, the bodies, the header
-- and the parsers act on the state `W`.
pub mod Laws
use Prim.Native.String.{◌++◌ as concat}
use rego.Common.{
  ℕ, zero, suc, ◌-◌, ◌*◌, ◌%◌, ◌^◌, ltb, ℤ, pos, negsuc, ◌-ℤ◌, saturate, ltb_ℤ, leb_ℤ, String,
  is_empty, Bool, true, false, ◌&&◌, List, [], Option, none, some, is_some, not, ◌⊎◌, inl, inr,
  if◌then◌else◌,
}
use rego.Errors.{Error, Sentinel, HttpError, ExternalError, message, external, errors_is}
use rego.Classify.{Exit, returned, panicked}
use rego.Observe.Types.{Timeline, zero_timeline}
use rego.Observe.Capture.{Context, Captures, record_timeline, captured}
use rego.Retry.Values.{Op, Paths, do_value}

-- The wrap-around of int64 on a number that is not negative.
unfoldable pub wrap_int64 : ℕ → ℤ
wrap_int64 n = let r = n % 2 ^ 64 in if ltb r (2 ^ 63) then pos r else negsuc (2 ^ 64 - 1 - r)

-- `req.Body`
pub data RequestBody : Type 0 where
  no_body : RequestBody  -- nil or http.NoBody
  body : RequestBody

-- A request, less what the code does not read: `rest`.
pub record HttpRequest (W B R : Type 0) : Type 0 where
  pub method : String
  pub body : RequestBody
  pub get_body : Option (W → (Error ⊎ B) × W)
  pub rest : R

pub record Response (H B : Type 0) : Type 0 where
  pub status_code : ℤ
  pub header : H
  pub body : B

-- net/http, io and strconv, as the code uses them.
pub record Net (W B R H : Type 0) : Type 0 where
  -- `client.Do` on the clone of the request, with a body that was got anew if there is one
  pub client_do : Context → R → Option B → W → (Error ⊎ Response H B) × W
  pub discard : ℕ → B → W → W  -- io.CopyN(io.Discard, …)
  pub close : B → W → W
  pub header_get : H → String → String
  pub atoi : String → Option ℤ
  pub parse_time : String → Option ℤ
  pub itoa : ℤ → String
  pub text : Error → String  -- the method Error

-- `StatusError`; a nil header and a nil error are `none`.
pub record StatusError (H : Type 0) : Type 0 where
  pub code : ℤ
  pub method : String
  pub header : Option H
  pub err : Option Error

-- The timeline that was captured, or the zero value.
abbrev pub or_zero : Option Timeline → Timeline
or_zero none = zero_timeline
or_zero (some tl) = tl

module _ {W B R H : Type 0} (net : Net W B R H) where
  open net use {client_do, discard, close, header_get, atoi, parse_time, itoa, text}

  -- `StatusError.Error`
  unfoldable pub error_text : StatusError H → String
  error_text e = elim e.err [ some cause ↦ text cause | none ↦ concat "http status " (itoa e.code) ]

  -- The date of a header, as the time until then.
  unfoldable pub until_date : String → ℤ → Option ℤ
  until_date s now = elim (parse_time s) [
    | none ↦ none
    | some t ↦ let d = saturate (t -ℤ now) in some (if ltb_ℤ d (pos 0) then pos 0 else d)
  ]

  -- `StatusError.RetryAfter` at a time; `none` where `ok` is false.
  unfoldable pub retry_after : StatusError H → ℤ → Option ℤ
  retry_after e now = elim e.header [
    | none ↦ none
    | some h ↦
        let s = header_get h "Retry-After" in
        if is_empty s then none else elim (atoi s) [
          | some (pos secs) ↦ some (wrap_int64 (secs * 1000000000))
          | _ ↦ until_date s now
        ]
  ]

  -- The error as a classifier sees it, at the time it looks.
  unfoldable pub as_error : StatusError H → ℤ → Error
  as_error e now = external (record {
    text = error_text e;
    wraps = λ s. elim e.err [ none ↦ false | some cause ↦ errors_is cause s ];
    http = some (record {
      http_status_code = e.code;
      http_method = e.method;
      retry_after = retry_after e now;
    });
  })

  -- An attempt's result: a response, or an error that may be a StatusError.
  pub data Attempt : Type 0 where
    response : Response H B → Attempt
    status_error : StatusError H → Attempt
    body_error : Error → Attempt

  -- What follows `client.Do`.
  unfoldable pub check_response : String → Error ⊎ Response H B → W → Attempt × W
  check_response method (inl e) w =
      (status_error (record { code = pos 0; method = method; header = none; err = some e }), w)
  check_response method (inr r) w =
      if leb_ℤ (pos 200) r.status_code && ltb_ℤ r.status_code (pos 300) then (response r, w) else (
        status_error
            (record { code = r.status_code; method = method; header = some r.header; err = none }),
        close r.body (discard 4096 r.body w),
      )

  -- `req.GetBody`, if there is one.
  unfoldable pub fetch_body : Option (W → (Error ⊎ B) × W) → W → (Error ⊎ Option B) × W
  fetch_body none w = (inr none, w)
  fetch_body (some get_body) w =
      let (got, w') = get_body w in (elim got [ inl e ↦ inl e | inr b ↦ inr (some b) ], w')

  -- The request with its body.
  unfoldable pub send : HttpRequest W B R → Context → Error ⊎ Option B → W → Attempt × W
  send req ctx (inl e) w = (body_error e, w)
  send req ctx (inr b) w =
      let (got, w') = client_do ctx req.rest b w in check_response req.method got w'

  -- One attempt of `DoHTTP`.
  unfoldable pub attempt : HttpRequest W B R → Context → W → Attempt × W
  attempt req ctx w = let (b, w') = fetch_body req.get_body w in send req ctx b w'

  -- The operation; `now` is the clock at the classification.
  unfoldable pub operation : (W → ℤ) → HttpRequest W B R → Op W (Option (Response H B))
  operation now req ctx w =
      let (result, w') = attempt req ctx w in
      elim result [
        | response r ↦ (returned (some r, none), w')
        | status_error e ↦ (returned (none, some (as_error e (now w'))), w')
        | body_error e ↦ (returned (none, some e), w')
      ]

  abbrev pub error_not_replayable : String
  error_not_replayable = "recourse: request body is not replayable (GetBody is nil)"

  -- A body that cannot be got again.
  unfoldable pub is_single_use : HttpRequest W B R → Bool
  is_single_use req = elim req.body [ no_body ↦ false | body ↦ not (is_some req.get_body) ]

  -- The result with the timeline in the cell.
  abbrev pub with_captured :
      ℕ
      → Captures
      → Exit (Option (Response H B) × Option Error)
      → Exit (Option (Response H B) × Timeline × Option Error)
  with_captured c cells (panicked v) = panicked v
  with_captured c cells (returned (val, err)) = returned (val, or_zero (captured c cells), err)

  -- `DoHTTP` on an executor's paths.
  unfoldable pub do_http :
      {F : Type 0}
      → Paths W (Option (Response H B)) F
      → (W → ℤ)
      → HttpRequest W B R
      → Context
      → W
      → Exit (Option (Response H B) × Timeline × Option Error) × W
  do_http paths now req ctx w =
      if is_single_use req
      then (returned (none, zero_timeline, some (message error_not_replayable)), w)
      else (let (ctx', c, cells) = record_timeline ctx (paths.captures w) in
          let (exit, w') = do_value paths (operation now req) ctx' (paths.set_captures cells w) in
          (with_captured c (paths.captures w') exit, w'))
