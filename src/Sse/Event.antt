-- ===== src/Sse/Event.antt =====
-- silent/src/sse/event.rs: an event, and the text that is sent for it. The JSON text of serde_json
-- is given as it is.
pub mod Lines
use silent.Prelude.{
  ℕ, zero, suc, ◌+◌, ◌-◌, ◌*◌, ◌/◌, ◌%◌, ◌^◌, ◌≤◌, ◌<◌, min, max, String, ◌≡◌, refl, sym, ap, ap₂,
  subst, ◌∙◌, fun_ext, ◌≡⟨◌⟩◌, ◌∎, ◌≢◌, ◌↔◌, ◌⊎◌, inl, inr, Bool, true, false, not, ◌&&◌, ◌||◌,
  Option, none, some, List, [], ◌∷◌, ◌++◌, map, foldr, append-nil, append_assoc, arith, ltb, leb,
  ◌==◌, if◌then◌else◌, ltb→lt, lt→ltb, leb→le, ==_iff, tests, Bool-cases, Option-cases, length,
  get_elem?, take, drop, any, find, retain, length-append, drop-length-append, take-length-append,
  length-drop, length-retain-le, All, All-append, All-get, Eq, ◌=?◌, nat_Eq,
}
use silent.Text.{Text, text, split}
use silent.Text.Decimal.{decimal}

pub data DataType : Type 0 where
  text_data json : Text → DataType

-- `std::time::Duration`, by `as_secs` and `subsec_millis`
pub record Duration : Type 0 where
  pub secs : ℕ
  pub millis : ℕ

pub record SseEvent : Type 0 where
  pub id : Option Text
  pub data_field : Option DataType
  pub event : Option Text
  pub comment : Option Text
  pub retry : Option Duration

unfoldable pub default_event : SseEvent
default_event = record { id = none; data_field = none; event = none; comment = none; retry = none }

unfoldable pub set_data : Text → SseEvent → SseEvent
set_data data' self = record self { data_field = some (text_data data') }

unfoldable pub set_json_data : Text → SseEvent → SseEvent
set_json_data json_text self = record self { data_field = some (json json_text) }

unfoldable pub set_comment : Text → SseEvent → SseEvent
set_comment c self = record self { comment = some c }

unfoldable pub set_event : Text → SseEvent → SseEvent
set_event name self = record self { event = some name }

unfoldable pub set_retry : Duration → SseEvent → SseEvent
set_retry d self = record self { retry = some d }

unfoldable pub set_id : Text → SseEvent → SseEvent
set_id i self = record self { id = some i }

abbrev pub newline : ℕ
newline = 10

-- A field's name, its value and the end of its line.
abbrev pub field : String → Text → Text
field name value = text name ++ (value ++ (newline ∷ []))

abbrev pub optional : String → Option Text → Text
optional name none = []
optional name (some value) = field name value

abbrev pub data_lines : List Text → Text
data_lines [] = []
data_lines (line ∷ lines) = field "data:" line ++ data_lines lines

abbrev pub show_data : Option DataType → Text
show_data none = []
show_data (some (text_data t)) = data_lines (split newline t)
show_data (some (json t)) = field "data:" t

-- Seconds are written only if there are any, and then the milliseconds have three digits.
unfoldable pub padding : ℕ → Text
padding millis = if ltb millis 10 then text "00" else if ltb millis 100 then text "0" else []

unfoldable pub show_duration : Duration → Text
unfolding padding
show_duration d =
    if ltb 0 d.secs
    then decimal d.secs ++ (padding d.millis ++ decimal d.millis)
    else decimal d.millis

abbrev pub show_retry : Option Duration → Option Text
show_retry none = none
show_retry (some d) = some (show_duration d)

-- `fmt` of `Display`
unfoldable pub display : SseEvent → Text
unfolding show_duration
display self =
    optional ":" self.comment
    ++ (optional "event:" self.event
        ++ (show_data self.data_field
            ++ (optional "id:" self.id
                ++ (optional "retry:" (show_retry self.retry) ++ (newline ∷ [])))))
