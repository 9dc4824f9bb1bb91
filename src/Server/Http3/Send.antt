-- ===== src/Server/Http3/Send.antt =====
-- silent/src/server/quic/service.rs: the answer to a request over HTTP/3. How many sends succeed is
-- given from outside; a response's head is known by its status.
use silent.Prelude.{
  ℕ, zero, suc, min, Bool, false, ◌&&◌, Option, none, some, List, [], ◌∷◌, ◌++◌, leb, if◌then◌else◌,
  length, take, drop, ◌=?◌, nat_Eq,
}
use silent.Text.{Text, text, is_empty, Text_Eq}
use silent.Core.Error.{Result, ok, err}
use silent.Core.Http.{Response, HeaderApi, ResBody, error_response}
use silent.Server.Http3.Body.{ReadRun, Outcome, finished, awaiting, bailed, saturating_add}

-- What is written to the stream, with the points where the task yields.
pub data Write : Type 0 where
  head : ℕ → Write
  chunk_of : Text → Write
  yielded finish : Write

pub data Broken : Type 0 where
  response_failed data_failed finish_failed : Broken
  body_failed : Text → Broken

-- `sends_left` is the number of sends that still succeed.
pub record Out : Type 0 where
  pub writes : List Write
  pub sends_left : ℕ
  pub sent_since_yield : ℕ

pub data Progress : Type 0 where
  going : Out → Progress
  stopped : Out → Broken → Progress

-- A send, with so many more that succeed.
abbrev pub send_with : Write → Broken → Out → ℕ → Progress
send_with w broken out zero = stopped out broken
send_with w broken out (suc n) =
    going (record out { writes = out.writes ++ w ∷ []; sends_left = n })

unfoldable pub send : Write → Broken → Out → Progress
send w broken out = send_with w broken out out.sends_left

-- After a chunk of this length.
unfoldable pub count_sent : ℕ → ℕ → Out → Out
count_sent h3_yield_bytes len out =
    let since = saturating_add out.sent_since_yield len in
    if leb h3_yield_bytes since
    then record out { writes = out.writes ++ yielded ∷ []; sent_since_yield = 0 }
    else record out { sent_since_yield = since }

abbrev pub and_then : Progress → (Out → Option Progress) → Option Progress
and_then (going out) k = k out
and_then (stopped out broken) k = some (stopped out broken)

pub record Limits : Type 0 where
  pub h3_chunk_size : ℕ
  pub h3_yield_bytes : ℕ

-- The inner loop: `none` is that the fuel is used up.
unfoldable pub send_chunks : ℕ → Limits → Text → Out → Option Progress
unfolding send count_sent
send_chunks zero limits buf out = none
send_chunks (suc fuel) limits buf out =
    let chunk_len = min (length buf) limits.h3_chunk_size in
    if is_empty buf
    then some (going out)
    else and_then (send (chunk_of (take chunk_len buf)) data_failed out) (λ out'.
      send_chunks fuel limits (drop chunk_len buf)
        (count_sent limits.h3_yield_bytes chunk_len out'))

-- What `body.frame().await` gives.
pub data Frame : Type 0 where
  data_frame : Text → Frame
  trailers : Frame
  error_frame : Text → Frame

-- The chunks of one frame; trailers are passed over, and so is a frame with no data.
unfoldable pub send_frame : Limits → Frame → Out → Option Progress
unfolding send_chunks
send_frame limits (data_frame buf) out = send_chunks (suc (length buf)) limits buf out
send_frame limits trailers out = some (going out)
send_frame limits (error_frame e) out = some (stopped out (body_failed e))

abbrev pub bind_progress : Option Progress → (Out → Option Progress) → Option Progress
bind_progress none k = none
bind_progress (some p) k = and_then p k

-- The loop over the frames of the body, and `finish`.
unfoldable pub send_frames : Limits → List Frame → Out → Option Progress
unfolding send_frame
send_frames limits [] out = some (going out)
send_frames limits (frame ∷ frames) out =
    bind_progress (send_frame limits frame out) (send_frames limits frames)

-- The response's head, then its body, then the end of the stream.
unfoldable pub respond : Limits → ℕ → List Frame → Out → Option Progress
unfolding send send_frames
respond limits status frames out = and_then (send (head status) response_failed out) (λ sent.
    bind_progress (send_frames limits frames sent) (λ done. some (send finish finish_failed done)))

-- How `handle_http3_request_impl` ends; `pending` is that the reading does not end, or the writing.
pub data Exchange : Type 0 where
  pending : Exchange
  read_failed : Text → Exchange
  answered : Progress → Exchange

abbrev pub as_exchange : Option Progress → Exchange
as_exchange none = pending
as_exchange (some p) = answered p

abbrev pub after_read : Outcome → Option Progress → Exchange
after_read awaiting p = pending
after_read (bailed e) p = read_failed e
after_read finished p = as_exchange p

-- `unwrap_or_else(Into::into)`
abbrev pub or_error :
    {H : Type 0} ⦃api : HeaderApi H⦄ → (Text → Bool) → Result (Response H) → Response H
or_error is_json (ok res) = res
or_error is_json (err e) = error_response is_json e

-- `handle_http3_request_impl`: what the handler answers, `called`, is written only when the reading
-- of the body has ended well. `frames_of` gives the frames of a body.
unfoldable pub handle_http3_request :
    {H : Type 0} ⦃api : HeaderApi H⦄
    → (Text → Bool)
    → (ResBody → List Frame)
    → Limits
    → Result (Response H)
    → ReadRun
    → ℕ
    → Exchange
unfolding respond
handle_http3_request is_json frames_of limits called run sends_left =
    let response = or_error is_json called in
    after_read run.outcome (
      respond limits response.status (frames_of response.body)
        (record { writes = []; sends_left = sends_left; sent_since_yield = 0 }))

-- The test of `handle_request`: a WebTransport session, or else a request. The protocol is that of
-- the extended CONNECT, if there is one.
unfoldable pub is_webtransport : Text → Option Text → Bool
is_webtransport method none = false
is_webtransport method (some protocol) = method =? text "CONNECT" && protocol =? text "webtransport"

abbrev pub draft_header : Text
draft_header = text "sec-webtransport-http3-draft"

-- `build_webtransport_handshake_response`: the status and the headers.
unfoldable pub handshake_response : {H : Type 0} ⦃api : HeaderApi H⦄ → H → ℕ × H
handshake_response ⦃api = api⦄ headers = elim (api.get draft_header headers) [
  | none ↦ (200, api.empty)
  | some value ↦ (200, api.insert draft_header value api.empty)
]
