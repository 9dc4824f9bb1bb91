-- ===== src/Tests/Parts.antt =====
-- The theorems on the other components at concrete inputs.
use silent.Prelude.{
  ◌⊎◌, ℕ, ◌+◌, ◌-◌, ◌*◌, ◌/◌, ◌≤◌, ◌≡◌, refl, true, false, none, some, List, [], ◌∷◌, ◌++◌, map,
  arith, if◌then◌else◌, ◌=?◌, nat_Eq, All, inl,
}
use silent.Text.{contains, Text, text, split, Text_Eq}
use silent.Core.Error.{err, ok}
use silent.Core.State.{State}
use silent.Core.Http.{boxed, Request, Response, copy_from_response}
use silent.Quic.Core.{WebTransportStream, bytes}
use silent.Quic.Core.Rate.{Op, send, recv, perform_all, perform_all_bound, perform_all_starved}
use silent.Scheduler.{Task, Scheduler, datetime, run, spawn, get_task, remove_task_sub}
use silent.Scheduler.Tasks.{Distinct, run-tasks, get_task-remove_task_sub}
use silent.Middleware.Cors
use silent.Middleware.Cors.{HeaderValues, Cors, some_origins, not_allowed, origin_of, new_cors}
use silent.Middleware.Cors.Laws.{handle_forbidden, handle_allowed, granted, allow_origin}
use silent.Middleware.Compression
use silent.Middleware.Compression.{
  upper, below, Compression, Encoders, Algorithm, gzip, brotli, negotiate, compressed,
  encoding_name, is_compressible,
}
use silent.Middleware.Compression.Laws.{KeptAs, CompressedAs, handle-compressed}
use silent.Sse.Event.{
  SseEvent, text_data, display, newline, show_duration, set_comment, default_event,
}
use silent.Static.Paths.{IsName, sanitize_path_param, sanitize_path_param-IsName}
use silent.Static.Html.{escape_html, contains-escape_html}
use silent.Sse.Event.Lines.{split-display}
use silent.Sse.KeepAlive.{SseKeepAlive, poll_next, idle, event, ready, pending, poll_next-idle}
use silent.Tests.Samples.{Headers, headers_api, request_with, response, answer}

abbrev stream : WebTransportStream
stream = record {
  max_frame_size = none;
  max_datagram_size = some 10;
  datagram_per_sec = some 2;
  datagram_tokens = 2;
  last_refill = 5;
  record_drop = false;
  has_conn = true;
}

abbrev ops : List Op
ops = send 6 (text "a") none ∷ recv 7 (bytes (text "b")) ∷ send 8 (text "c") none ∷ []

perform_all_bound_example :
    (stream.last_refill ≤ (perform_all ops stream).1.last_refill)
    × ((perform_all ops stream).0 + (perform_all ops stream).1.datagram_tokens
        ≤ 2 + 2 * (((perform_all ops stream).1.last_refill - 5) / 1000000000))
perform_all_bound_example =
    perform_all_bound 2 ops stream (refl, refl) (omega arith, (omega arith, (omega arith, tt)))

perform_all_starved_example :
    (perform_all ops stream).0 + (perform_all ops stream).1.datagram_tokens ≤ 2
perform_all_starved_example =
    perform_all_starved 2 ops stream (refl, refl) (omega arith, (omega arith, (omega arith, tt)))

abbrev task_named : Text → ℕ → Task
task_named name due = record {
  id = name;
  process_time = datetime due;
  description = [];
  action = none;
  action_async = none;
  is_async = false;
}

abbrev scheduler : Scheduler
scheduler = record {
  tasks = task_named (text "a") 3 ∷ task_named (text "b") 9 ∷ [];
  schedule = true;
}

scheduler-Distinct : Distinct scheduler
scheduler-Distinct = (refl, (refl, tt))

run-tasks_example :
    ((run 5 scheduler).0 ≡ map (spawn 5) scheduler.tasks)
    × (((run 5 scheduler).1.tasks ≡ task_named (text "b") 9 ∷ []) × Distinct (run 5 scheduler).1)
run-tasks_example = run-tasks 5 scheduler scheduler-Distinct

get_task-remove_task_sub_example : get_task (text "b") (remove_task_sub (text "a") scheduler) ≡ none
get_task-remove_task_sub_example = get_task-remove_task_sub (text "a") (text "b") scheduler refl

instance abbrev header_values : HeaderValues
header_values = record { parses = λ t. true; readable = λ t. true; parse_error = [] }

abbrev from_origin : Request Headers
from_origin = request_with (λ k. if k =? text "origin" then some (text "a.org") else none)

abbrev cors_for : Text → Cors Headers
unfolding new_cors
cors_for origin = record new_cors { origin = some (some_origins (origin ∷ [])) }

handle_forbidden_example :
    Cors.handle (λ t. false) (cors_for (text "b.org")) from_origin answer 0
    ≡ (err (not_allowed (text "a.org")), 0)
unfolding cors_for
handle_forbidden_example =
    handle_forbidden (λ t. false) (cors_for (text "b.org")) from_origin answer 0 (text "b.org" ∷ [])
      refl refl refl

handle_allowed_example :
    let res = granted (cors_for (text "a.org")) (text "a.org") in
    (Cors.handle (λ t. false) (cors_for (text "a.org")) from_origin answer 0
      ≡ Cors.answer (λ t. false) res (answer from_origin 0))
    × ((headers_api.get allow_origin res.headers ≡ some (text "a.org"))
        × (headers_api.get allow_origin (copy_from_response res response).headers
            ≡ some (text "a.org")))
unfolding cors_for
handle_allowed_example =
    handle_allowed (λ t. false) (cors_for (text "a.org")) from_origin answer 0
      (some_origins (text "a.org" ∷ [])) response refl refl refl refl

instance abbrev encoders : Encoders
encoders = record {
  parse_zero = λ t. some (t =? text "0");
  readable = λ t. true;
  encode = λ a body. 7;
}

abbrev gzip_or_none : Text
gzip_or_none = text "br;q=0, gzip"

abbrev both : Compression
both = record { enable_brotli = true; enable_gzip = true; min_size = 2 }

negotiates : negotiate both gzip_or_none ≡ some gzip
unfolding negotiate
negotiates = refl

abbrev accepting : Request Headers
accepting = request_with (λ k. if k =? text "accept-encoding" then some gzip_or_none else none)

-- A boxed body of a known small size is left alone.
small_boxed : below 128 (upper (boxed (record { source = 1; size_upper = some 5 }))) ≡ true
small_boxed = refl

handle-compressed_example :
    (out : Response Headers) × (Compression.handle both accepting answer 0 ≡ (ok out, 1))
    × (KeptAs both accepting response out
        ⊎ (CompressedAs both accepting (text "vary") response out
            × (Compression.handle both accepting (λ r. Compression.handle both r answer) 0
                ≡ (ok out, 1))))
handle-compressed_example =
    handle-compressed both both accepting answer 0 (text "vary") response refl

abbrev sse_event : SseEvent
sse_event = record {
  id = some (text "7");
  data_field = some (text_data (text "a" ++ (newline ∷ text "b")));
  event = none;
  comment = none;
  retry = some (record { secs = 1; millis = 5 });
}

split-display_example :
    split newline (display sse_event)
    ≡ text "data:a"
      ∷ text "data:b"
      ∷ text "id:7"
      ∷ (text "retry:" ++ show_duration (record { secs = 1; millis = 5 }))
      ∷ []
      ∷ []
      ∷ []
split-display_example = split-display sse_event tt tt tt refl

abbrev keep_alive : SseKeepAlive
keep_alive = record { comment_text = text "ping"; max_interval = 15; alive_timer = 3 }

poll_next-idle_example :
    ((poll_next 1 (ready (event sse_event)) keep_alive).0 ≡ ready (some (ok sse_event)))
    × ((poll_next 16 pending
          (idle (4 ∷ 9 ∷ []) (poll_next 1 (ready (event sse_event)) keep_alive).1)).0
        ≡ ready (some (ok (set_comment (text "ping") default_event))))
poll_next-idle_example =
    poll_next-idle 1 sse_event (4 ∷ 9 ∷ []) 16 keep_alive (omega arith, (omega arith, tt))

abbrev low : State
low = record { map = some ((1, 10) ∷ []) }

sanitizes : sanitize_path_param (text "./a//b") ≡ some (text "a" ∷ text "b" ∷ [])
unfolding sanitize_path_param
sanitizes = refl

sanitize_path_param-IsName_example : All IsName (text "a" ∷ text "b" ∷ [])
sanitize_path_param-IsName_example =
    sanitize_path_param-IsName (text "./a//b") (text "a" ∷ text "b" ∷ []) sanitizes

contains-escape_html_example : contains b'<' (escape_html (text "<b>&")) ≡ false
contains-escape_html_example = contains-escape_html b'<' (text "<b>&") (inl refl)
