-- ===== src/Sse/KeepAlive.antt =====
-- silent/src/sse/keep_alive.rs: events are passed on, and a comment is sent when there was none for
-- the interval. Time is a number of any unit; the timer is ready from its deadline on.
use silent.Prelude.{
  ℕ, ◌+◌, ◌<◌, ◌≡◌, refl, inl, inr, true, false, Option, none, some, List, [], ◌∷◌, arith, ltb, leb,
  if◌then◌else◌, Bool-cases, All, nat_Eq,
}
use silent.Text.{Text, text}
use silent.Core.Error.{Result, ok, err, business_error}
use silent.Sse.Event.{SseEvent, default_event, set_comment}

pub data Poll {ℓ} (A : Type ℓ) : Type ℓ where
  pending : Poll A
  ready : A → Poll A

-- What the event stream answers: an event, an error or its end.
pub data Item : Type 0 where
  event : SseEvent → Item
  error : Text → Item
  end : Item

pub record SseKeepAlive : Type 0 where
  pub comment_text : Text
  pub max_interval : ℕ
  pub alive_timer : ℕ

-- `poll_next` at the time `now`, when the stream answers `polled`
unfoldable pub poll_next :
    ℕ → Poll Item → SseKeepAlive → Poll (Option (Result SseEvent)) × SseKeepAlive
poll_next now pending self =
    if leb self.alive_timer now
    then (
      ready (some (ok (set_comment self.comment_text default_event))),
      record self { alive_timer = now + self.max_interval },
    )
    else (pending, self)
poll_next now (ready (event e)) self =
    (ready (some (ok e)), record self { alive_timer = now + self.max_interval })
poll_next now (ready end) self = (ready none, self)
poll_next now (ready (error e)) self =
    (ready (some (err (business_error 500 (text "sse::keep error")))), self)

-- Polls at the given times, while the stream has nothing.
abbrev pub idle : List ℕ → SseKeepAlive → SseKeepAlive
idle [] self = self
idle (now ∷ later) self = idle later (poll_next now pending self).1

idle_quiet :
    (times : List ℕ) (self : SseKeepAlive)
    → All (λ t. t < self.alive_timer) times
    → idle times self ≡ self
unfolding poll_next
idle_quiet [] self h = refl
idle_quiet (t ∷ ts) self (h, hs) =
    let e : leb self.alive_timer t ≡ false = ground arith in rw e (idle_quiet ts self hs)

-- After an event that was passed on, and after any polls of the idle stream before the interval is
-- over, a poll of the idle stream finds nothing before the end of the interval and the comment from
-- then on.
pub poll_next-idle :
    (now : ℕ) (e : SseEvent) (times : List ℕ) (t : ℕ) (self : SseKeepAlive)
    → All (λ s. s < now + self.max_interval) times
    → (poll_next now (ready (event e)) self).0 ≡ ready (some (ok e))
      × (poll_next t pending (idle times (poll_next now (ready (event e)) self).1)).0 ≡ (
          if ltb t (now + self.max_interval)
          then pending
          else ready (some (ok (set_comment self.comment_text default_event))))
unfolding poll_next
poll_next-idle now e times t self quiet =
    let next : SseKeepAlive = record self { alive_timer = now + self.max_interval } in
    let e2 = idle_quiet times next quiet in
    (
      refl,
      elim (Bool-cases (ltb t next.alive_timer)) [
        | inl early ↦
            let e : leb next.alive_timer t ≡ false = ground arith in rw (e2, e, early) refl
        | inr late ↦ let e : leb next.alive_timer t ≡ true = ground arith in rw (e2, e, late) refl
      ],
    )
