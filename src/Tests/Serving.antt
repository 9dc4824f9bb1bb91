-- ===== src/Tests/Serving.antt =====
-- The theorems on the server and on requests over HTTP/3 at concrete inputs.
use silent.Prelude.{
  ◌*◌, ◌+◌, ◌≤◌, ◌<◌, ◌≡◌, refl, ◌⊎◌, true, false, none, some, List, [], ◌∷◌, ◌++◌, map, arith,
  length, nat_Eq,
}
use silent.Text.{Text, text, Text_Eq}
use silent.Core.Http.{ResBody}
use silent.Server.Net.{
  aborting, shutdown, abort_all, waiting, serving, accepting, graceful, Server, start, accept,
  acquire, finish, tick, Reach, here, next, spawn_connection, refill_permits, release,
}
use silent.Server.Net.Permits.{Reach-Permits, in_circulation, serving_in, ticks}
use silent.Server.Net.Shutdown.{Reach-Left, Left}
use silent.Server.Net.Abort.{Steps, none_made, one_more, Returns, aborting_ends}
use silent.Server.Net.Burst.{permits_grow}
use silent.Server.Http3.Body.{Arrival, data_of, ended, bytes, read_http3_body, finished, ReadRun}
use silent.Server.Http3.Delivery.{delivered, payload, Within, read_http3_body-Within}
use silent.Server.Http3.Limit.{total_length, filled, arriving, Refused, read_http3_body-Refused}
use silent.Server.Http3.Send.{Limits, Out, Frame, data_frame, trailers, send_chunks}
use silent.Server.Http3.Chunks.{send_chunks_stuck}
use silent.Tests.Samples.{headers_api}

-- One connection that is served, with its permit refilled.
abbrev serving_one : Server
serving_one = record {
  rate = some 1;
  permits = 1;
  tasks = (7, serving) ∷ [];
  refilling = true;
  mode = accepting;
}

abbrev one_run : Reach (start (some 1)) serving_one
unfolding start spawn_connection refill_permits
one_run =
    let begun = record serving_one { tasks = []; permits = 1 } in
    let accepted = record serving_one { tasks = (7, waiting) ∷ []; permits = 1 } in
    let running = record serving_one { permits = 0 } in
    next (next (next here (accept begun 7 refl)) (acquire accepted [] [] 7 0 refl refl))
      (tick running 1 refl refl)

Reach-Permits_example :
    (1 ≤ in_circulation serving_one)
    × (in_circulation serving_one ≤ 1 + ticks one_run)
    × (serving_in serving_one.tasks ≤ 1 + ticks one_run)
Reach-Permits_example = Reach-Permits 1 one_run

-- The same connection when the wait for it is over, and then its end.
abbrev cut_off : Server
cut_off = record serving_one { refilling = false; mode = aborting }

abbrev cut_run : Reach (start (some 1)) cut_off
cut_run =
    next (next one_run (shutdown serving_one refl))
      (abort_all (record serving_one { mode = graceful }) refl)

abbrev one_step : Steps 1 cut_off (record cut_off { tasks = []; permits = 2 })
unfolding release
one_step = one_more none_made (finish cut_off [] [] 7 refl)

aborting_ends_example :
    (1 ≤ 2 * length cut_off.tasks + 1) × Returns (record cut_off { tasks = []; permits = 2 })
aborting_ends_example = aborting_ends (some 1) cut_run refl one_step

abbrev stopping : Server
stopping = record serving_one { mode = graceful }

abbrev emptied : Reach stopping (record stopping { tasks = []; permits = 2 })
unfolding release
emptied = next here (finish stopping [] [] 7 refl)

Reach-Left_example : Left stopping (record stopping { tasks = []; permits = 2 })
Reach-Left_example = Reach-Left emptied (λ e. cc)

permits_grow_example :
    (s : Server) × (Reach (start (some 2)) s) × (s.tasks ≡ []) × (s.permits ≡ 2 + 3)
permits_grow_example = permits_grow 1 3

abbrev arrivals : List Arrival
arrivals = data_of (text "ab") ∷ data_of (text "cde") ∷ data_of (text "f") ∷ ended ∷ []

read_http3_body-Within_example :
    ((rest : Text) × (delivered (read_http3_body (some 5) true 4 arrivals).sent ++ rest
        ≡ payload arrivals))
    × Within (some 5) (length (delivered (read_http3_body (some 5) true 4 arrivals).sent))
read_http3_body-Within_example = read_http3_body-Within (some 5) true 4 arrivals (omega arith)

abbrev body_chunks : List Text
body_chunks = text "ab" ∷ [] ∷ text "cde" ∷ []

read_http3_body-Refused_example :
    ((total_length body_chunks ≤ 4)
      × (read_http3_body (some 4) true 3 (arriving body_chunks (ended ∷ []))
          ≡ record { sent = map bytes (filled body_chunks); outcome = finished }))
    ⊎ ((4 < total_length body_chunks)
        × Refused (read_http3_body (some 4) true 3 (arriving body_chunks (ended ∷ []))))
read_http3_body-Refused_example =
    read_http3_body-Refused 4 true body_chunks [] 3 (omega arith) (omega arith)

abbrev small : Limits
small = record { h3_chunk_size = 2; h3_yield_bytes = 4 }

abbrev frames_of : ResBody → List Frame
frames_of body = data_frame (text "hello") ∷ trailers ∷ []

abbrev read_run : ReadRun
read_run = record { sent = []; outcome = finished }

abbrev fresh_out : Out
fresh_out = record { writes = []; sends_left = 5; sent_since_yield = 0 }

send_chunks_stuck_example :
    send_chunks 5 (record { h3_chunk_size = 0; h3_yield_bytes = 4 }) (text "hello") fresh_out ≡ none
send_chunks_stuck_example = send_chunks_stuck 5 4 b'h' (text "ello") fresh_out (omega arith)
