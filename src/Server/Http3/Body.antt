-- ===== src/Server/Http3/Body.antt =====
-- silent/src/server/quic/service.rs: the body of a request over HTTP/3. What the stream answers to
-- `recv_data`, and how many messages the reader of the body still takes, are given from outside;
-- logs and metrics are left out.
use silent.Prelude.{
  ℕ, zero, suc, ◌+◌, ◌-◌, ◌^◌, min, Bool, true, false, Option, none, some, List, [], ◌∷◌, ◌++◌, ltb,
  if◌then◌else◌, length, nat_Eq,
}
use silent.Text.{Text, text, is_empty, Text_Eq}

abbrev pub usize_max : ℕ
usize_max = 2 ^ 64 - 1

abbrev pub saturating_add : ℕ → ℕ → ℕ
saturating_add a b = min (a + b) usize_max

-- An answer of `recv_data`; `late` is none within the read timeout, if there is one.
pub data Arrival : Type 0 where
  data_of : Text → Arrival
  ended late : Arrival
  failed : Text → Arrival

pub data IoError : Type 0 where
  timed_out other : Text → IoError

-- A message to the reader of the body.
pub data Item : Type 0 where
  bytes : Text → Item
  fault : IoError → Item

-- How the reading ends: `Ok(stream)`, `Err`, or not yet.
pub data Outcome : Type 0 where
  finished awaiting : Outcome
  bailed : Text → Outcome

pub record ReadRun : Type 0 where
  pub sent : List Item
  pub outcome : Outcome

-- `sender.send(item)`, with room for so many more messages before the reader is gone.
abbrev pub deliver : ℕ → Item → List Item
deliver zero item = []
deliver (suc _) item = item ∷ []

abbrev pub exceeds : Option ℕ → ℕ → Bool
exceeds none total = false
exceeds (some limit) total = ltb limit total

abbrev pub cons_item : Item → ReadRun → ReadRun
cons_item item run = record run { sent = item ∷ run.sent }

abbrev pub oversize_message : Text
oversize_message = text "HTTP/3 request body exceeds limit"

abbrev pub timeout_message : Text
timeout_message = text "HTTP/3 body read timeout"

-- `sender.send(Ok(bytes))`: with the reader gone, the reading ends.
abbrev pub pass_on : ℕ → ℕ → Text → (ℕ → ℕ → ReadRun) → ReadRun
pass_on zero total chunk rest = record { sent = []; outcome = finished }
pass_on (suc left) total chunk rest = cons_item (bytes chunk) (rest left total)

-- What is done with a chunk; `rest` reads on with the room and the total that are then left.
abbrev pub on_data : Option ℕ → ℕ → ℕ → Text → (ℕ → ℕ → ReadRun) → ReadRun
on_data max_body_size room total chunk rest =
    let total' = saturating_add total (length chunk) in
    if is_empty chunk
    then rest room total
    else if exceeds max_body_size total'
    then record {
      sent = deliver room (fault (other oversize_message));
      outcome = bailed oversize_message;
    }
    else pass_on room total' chunk rest

abbrev pub on_late : Bool → ℕ → ReadRun → ReadRun
on_late false room rest = rest
on_late true room rest = record {
  sent = deliver room (fault (timed_out timeout_message));
  outcome = bailed timeout_message;
}

-- The loop of `read_http3_body`; `timeout` says that there is a read timeout.
unfoldable pub read_from : Option ℕ → Bool → ℕ → ℕ → List Arrival → ReadRun
read_from max_body_size timeout room total [] = record { sent = []; outcome = awaiting }
read_from max_body_size timeout room total (data_of chunk ∷ arrivals) =
    on_data max_body_size room total chunk
      (λ room' total'. read_from max_body_size timeout room' total' arrivals)
read_from max_body_size timeout room total (ended ∷ arrivals) = record {
  sent = [];
  outcome = finished;
}
read_from max_body_size timeout room total (late ∷ arrivals) =
    on_late timeout room (read_from max_body_size timeout room total arrivals)
read_from max_body_size timeout room total (failed e ∷ arrivals) = record {
  sent = deliver room (fault (other (text "HTTP/3 body read failed: " ++ e)));
  outcome = bailed e;
}

unfoldable pub read_http3_body : Option ℕ → Bool → ℕ → List Arrival → ReadRun
unfolding read_from
read_http3_body max_body_size timeout room arrivals =
    read_from max_body_size timeout room 0 arrivals
