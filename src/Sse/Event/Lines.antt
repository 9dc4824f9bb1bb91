-- ===== src/Sse/Event/Lines.antt =====
-- The lines of an event's text, and the number that a client reads for its retry time.
use silent.Prelude.{
  ℕ, ◌+◌, ◌*◌, ◌<◌, String, ◌≡◌, refl, sym, ap, ◌∙◌, inl, inr, false, Option, none, some, List, [],
  ◌∷◌, ◌++◌, map, append_assoc, arith, ltb, ltb→lt, Bool-cases, All, nat_Eq,
}
use silent.Text.{Text, text, contains, split}
use silent.Text.Laws.{contains-either, split-append, split_clean}
use silent.Text.Decimal.{
  decimal, value_of, value_of-decimal, value_after, value_after-append, contains-decimal,
  value_after-decimal_small, value_after-decimal_two, value_after-decimal_three,
}
use silent.Sse.Event.{
  DataType, text_data, json, Duration, SseEvent, newline, field, optional, data_lines, show_data,
  padding, show_duration, show_retry, display,
}

-- No value has a line break in it, the text of the data excepted.
abbrev pub OneLine : Option Text → Type 0
OneLine none = Unit
OneLine (some t) = contains newline t ≡ false

abbrev pub OneLineData : Option DataType → Type 0
OneLineData (some (json t)) = contains newline t ≡ false
OneLineData _ = Unit

abbrev pub optional_line : String → Option Text → List Text
optional_line name none = []
optional_line name (some value) = (text name ++ value) ∷ []

abbrev pub lines_of_data : Option DataType → List Text
lines_of_data none = []
lines_of_data (some (text_data t)) = map (λ line. text "data:" ++ line) (split newline t)
lines_of_data (some (json t)) = (text "data:" ++ t) ∷ []

split-field :
    (name : String) (value rest : Text)
    → contains newline (text name) ≡ false
    → contains newline value ≡ false
    → split newline (field name value ++ rest) ≡ (text name ++ value) ∷ split newline rest
split-field name value rest a b =
    let e : field name value ++ rest ≡ (text name ++ value) ++ (newline ∷ rest) =
      append_assoc (text name) (value ++ (newline ∷ [])) rest
      ∙ ap (λ t. text name ++ t) (append_assoc value (newline ∷ []) rest)
      ∙ sym (append_assoc (text name) value (newline ∷ rest)) in
    ap (split newline) e
    ∙ split-append newline (text name ++ value) rest (contains-either newline (text name) value a b)

split-optional :
    (name : String) (value : Option Text) (rest : Text)
    → contains newline (text name) ≡ false
    → OneLine value
    → split newline (optional name value ++ rest) ≡ optional_line name value ++ split newline rest
split-optional name none rest a b = refl
split-optional name (some value) rest a b = split-field name value rest a b

split-data_lines :
    (lines : List Text) (rest : Text)
    → All (λ l. contains newline l ≡ false) lines
    → split newline (data_lines lines ++ rest)
      ≡ map (λ line. text "data:" ++ line) lines ++ split newline rest
split-data_lines [] rest h = refl
split-data_lines (l ∷ lines) rest (h, hs) =
    ap (split newline) (append_assoc (field "data:" l) (data_lines lines) rest)
    ∙ split-field "data:" l (data_lines lines ++ rest) refl h
    ∙ ap (λ ls. (text "data:" ++ l) ∷ ls) (split-data_lines lines rest hs)

split-show_data :
    (d : Option DataType) (rest : Text)
    → OneLineData d
    → split newline (show_data d ++ rest) ≡ lines_of_data d ++ split newline rest
split-show_data none rest h = refl
split-show_data (some (text_data t)) rest h =
    split-data_lines (split newline t) rest (split_clean newline t)
split-show_data (some (json t)) rest h = split-field "data:" t rest refl h

contains-show_duration : (d : Duration) → contains newline (show_duration d) ≡ false
unfolding show_duration padding
contains-show_duration d =
    let s = contains-decimal newline d.secs (omega arith) in
    let m = contains-decimal newline d.millis (omega arith) in
    let sm = contains-either newline (decimal d.secs) (decimal d.millis) s m in
    let m1 = contains-either newline (decimal d.secs) (text "0" ++ decimal d.millis) s m in
    let m2 = contains-either newline (decimal d.secs) (text "00" ++ decimal d.millis) s m in
    ground arith

retry_line : (r : Option Duration) → OneLine (show_retry r)
retry_line none = tt
retry_line (some d) = contains-show_duration d

-- If no value but the text of the data has a line break, the lines of an event's text are its
-- comment, its event name, one `data:` line for each line of the data, its id and its retry time,
-- each that is there, and then two empty ones.
pub split-display :
    (e : SseEvent)
    → OneLine e.comment
    → OneLine e.event
    → OneLineData e.data_field
    → OneLine e.id
    → split newline (display e)
      ≡ optional_line ":" e.comment
        ++ (optional_line "event:" e.event
            ++ (lines_of_data e.data_field
                ++ (optional_line "id:" e.id
                    ++ (optional_line "retry:" (show_retry e.retry) ++ ([] ∷ [] ∷ [])))))
unfolding display
split-display e hc he hd hi =
    split-optional ":" e.comment _ refl hc
    ∙ ap (λ ls. optional_line ":" e.comment ++ ls)
        (split-optional "event:" e.event _ refl he
          ∙ ap (λ ls. optional_line "event:" e.event ++ ls)
              (split-show_data e.data_field _ hd
                ∙ ap (λ ls. lines_of_data e.data_field ++ ls)
                    (split-optional "id:" e.id _ refl hi
                      ∙ ap (λ ls. optional_line "id:" e.id ++ ls)
                          (split-optional "retry:" (show_retry e.retry) (newline ∷ []) refl
                            (retry_line e.retry)))))

value_padded :
    (secs millis : ℕ)
    → millis < 1000
    → value_after secs (padding millis ++ decimal millis) ≡ secs * 1000 + millis
unfolding padding
value_padded secs millis lt = elim (Bool-cases (ltb millis 10)) [
  | inl one ↦
      rw (one, value_after-decimal_small ((secs * 10 + 0) * 10 + 0) millis (ltb→lt millis 10 one))
        omega arith
  | inr more ↦ elim (Bool-cases (ltb millis 100)) [
    | inl two ↦
        rw
          (
            more,
            two,
            value_after-decimal_two (secs * 10 + 0) millis (ground arith) (ltb→lt millis 100 two),
          )
          omega arith
    | inr three ↦ rw (more, three, value_after-decimal_three secs millis (ground arith) lt) refl
  ]
]

-- The digits of a retry time, with fewer than 1000 milliseconds beside its seconds, are the number
-- of its milliseconds in all.
pub value_of-show_duration :
    (d : Duration) → d.millis < 1000 → value_of (show_duration d) ≡ d.secs * 1000 + d.millis
unfolding show_duration
value_of-show_duration d lt = elim (Bool-cases (ltb 0 d.secs)) [
  | inl some_secs ↦
      rw
        (
          some_secs,
          value_after-append 0 (decimal d.secs) (padding d.millis ++ decimal d.millis),
          value_of-decimal d.secs,
        )
        (value_padded d.secs d.millis lt)
  | inr no_secs ↦
      let zero_secs : d.secs ≡ 0 = ground arith in
      rw (no_secs, value_of-decimal d.millis) omega arith
]
