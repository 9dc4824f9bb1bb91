-- ===== src/Quic/Core.antt =====
-- silent/src/server/quic/core.rs: the limits on a session's datagrams. Time is in nanoseconds, and
-- u64 is added as a release build adds it. What quinn answers is an argument of the call.
pub mod Rate
use silent.Prelude.{
  ℕ, zero, suc, ◌+◌, ◌-◌, ◌*◌, ◌/◌, ◌%◌, ◌^◌, ◌≤◌, ◌<◌, min, max, String, ◌≡◌, refl, sym, ap, ap₂,
  subst, ◌∙◌, fun_ext, ◌≡⟨◌⟩◌, ◌∎, ◌≢◌, ◌↔◌, ◌⊎◌, inl, inr, Bool, true, false, not, ◌&&◌, ◌||◌,
  Option, none, some, List, [], ◌∷◌, ◌++◌, map, foldr, append-nil, append_assoc, arith, ltb, leb,
  ◌==◌, if◌then◌else◌, ltb→lt, lt→ltb, leb→le, ==_iff, tests, Bool-cases, Option-cases, length,
  get_elem?, take, drop, any, find, retain, length-append, drop-length-append, take-length-append,
  length-drop, length-retain-le, All, All-append, All-get, Eq, ◌=?◌, nat_Eq,
}
use silent.Text.{Text}

pub record WebTransportStream : Type 0 where
  pub max_frame_size : Option ℕ
  pub max_datagram_size : Option ℕ
  pub datagram_per_sec : Option ℕ
  pub datagram_tokens : ℕ
  pub last_refill : ℕ
  pub record_drop : Bool
  pub has_conn : Bool

-- The messages that the operations fail with.
pub data Failure : Type 0 where
  webtransport_frame_exceeds_limit frame_exceeds_limit rate_limited : Failure
  send_failed recv_failed : Text → Failure
  read_failed : Text → Failure
  not_supported : Failure

pub data Outcome (A : Type 0) : Type 0 where
  done : A → Outcome A
  bail : Failure → Outcome A

abbrev pub unwrap_or_zero : Option ℕ → ℕ
unwrap_or_zero none = 0
unwrap_or_zero (some n) = n

unfoldable pub new_stream : Option ℕ → Option ℕ → Option ℕ → Bool → Bool → ℕ → WebTransportStream
new_stream frame_size datagram_size per_sec drop conn now = record {
  max_frame_size = frame_size;
  max_datagram_size = datagram_size;
  datagram_per_sec = per_sec;
  datagram_tokens = unwrap_or_zero per_sec;
  last_refill = now;
  record_drop = drop;
  has_conn = conn;
}

abbrev pub as_secs : ℕ → ℕ
as_secs nanos = nanos / 1000000000

abbrev pub saturating_mul : ℕ → ℕ → ℕ
saturating_mul a b = min (a * b) (2 ^ 64 - 1)

-- The tokens after `elapsed` nanoseconds.
unfoldable pub refilled : ℕ → ℕ → ℕ → ℕ
refilled rate elapsed tokens = min ((tokens + saturating_mul rate (as_secs elapsed)) % 2 ^ 64) rate

abbrev pub refill_at : ℕ → Option ℕ → WebTransportStream → WebTransportStream
refill_at now none self = self
refill_at now (some rate) self = record self {
  datagram_tokens = refilled rate (now - self.last_refill) self.datagram_tokens;
  last_refill = now;
}

unfoldable pub refill : ℕ → WebTransportStream → WebTransportStream
refill now self = refill_at now self.datagram_per_sec self

abbrev pub exceeds : Option ℕ → Text → Bool
exceeds none data' = false
exceeds (some limit) data' = ltb limit (length data')

-- `recv_data`, when the stream answers `polled`: the frame, its end or an error
unfoldable pub recv_data :
    ℕ → Outcome (Option Text) → WebTransportStream → Outcome (Option Text) × WebTransportStream
recv_data now (bail e) self = (bail e, self)
recv_data now (done none) self = (done none, refill now self)
recv_data now (done (some frame)) self =
    if exceeds self.max_frame_size frame
    then (bail webtransport_frame_exceeds_limit, refill now self)
    else (done (some frame), refill now self)

-- The token that a datagram takes, if there is a rate and a token.
abbrev pub spend : Option ℕ → WebTransportStream → Option WebTransportStream
spend none self = some self
spend (some rate) self =
    if self.datagram_tokens == 0
    then none
    else some (record self { datagram_tokens = self.datagram_tokens - 1 })

-- What follows on the checks: quinn's answer, none if it took the datagram.
abbrev pub deliver : Bool → Option Text → Outcome Unit
deliver false answer = bail not_supported
deliver true none = done tt
deliver true (some e) = bail (send_failed e)

abbrev pub send_spent :
    Option Text → WebTransportStream → Option WebTransportStream → Outcome Unit × WebTransportStream
send_spent answer self none = (bail rate_limited, self)
send_spent answer self (some next) = (deliver next.has_conn answer, next)

abbrev pub send_refilled :
    Text → Option Text → WebTransportStream → Outcome Unit × WebTransportStream
send_refilled data' answer self =
    if exceeds self.max_datagram_size data'
    then (bail frame_exceeds_limit, self)
    else send_spent answer self (spend self.datagram_per_sec self)

-- `try_send_datagram` at the time `now`
unfoldable pub try_send_datagram :
    ℕ → Text → Option Text → WebTransportStream → Outcome Unit × WebTransportStream
try_send_datagram now data' answer self = send_refilled data' answer (refill now self)

-- What `read_datagram` answers: bytes, that the connection was closed, or another error.
pub data Incoming : Type 0 where
  bytes : Text → Incoming
  closed : Incoming
  failed : Text → Incoming

-- A datagram over a limit is dropped or ends the call.
abbrev pub refuse : Bool → Failure → Outcome (Option Text)
refuse true e = done none
refuse false e = bail e

abbrev pub recv_spent :
    Text
    → WebTransportStream
    → Option WebTransportStream
    → Outcome (Option Text) × WebTransportStream
recv_spent raw self none = (refuse self.record_drop rate_limited, self)
recv_spent raw self (some next) = (done (some raw), next)

abbrev pub recv_refilled :
    Incoming → WebTransportStream → Outcome (Option Text) × WebTransportStream
recv_refilled closed self = (done none, self)
recv_refilled (failed e) self = (bail (recv_failed e), self)
recv_refilled (bytes raw) self =
    if exceeds self.max_datagram_size raw
    then (refuse self.record_drop frame_exceeds_limit, self)
    else recv_spent raw self (spend self.datagram_per_sec self)

-- `recv_datagram`, called at `now`
unfoldable pub recv_datagram :
    ℕ → Incoming → WebTransportStream → Outcome (Option Text) × WebTransportStream
recv_datagram now incoming self =
    if self.has_conn then recv_refilled incoming (refill now self) else (bail not_supported, self)
