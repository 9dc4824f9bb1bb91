-- ===== src/Quic/Core/Rate.antt =====
-- The rate limit of a session's datagrams over any sequence of sends and receptions.
use silent.Prelude.{
  ℕ, zero, suc, ◌+◌, ◌-◌, ◌*◌, ◌/◌, ◌≤◌, ◌<◌, ◌≡◌, refl, sym, subst, ◌∙◌, inl, inr, Bool, true,
  false, Option, none, some, List, [], ◌∷◌, arith, ◌==◌, if◌then◌else◌, Bool-cases, nat_Eq,
}
use silent.Text.{Text}
use silent.Quic.Core.{
  WebTransportStream, Outcome, done, bail, Failure, rate_limited, frame_exceeds_limit, Incoming,
  bytes, closed, failed, refilled, refill, refill_at, exceeds, spend, deliver, send_spent,
  send_refilled, try_send_datagram, recv_spent, recv_refilled, recv_datagram, refuse, as_secs,
  not_supported,
}

-- A call: when it is made, and what it is given.
pub data Op : Type 0 where
  send : ℕ → Text → Option Text → Op
  recv : ℕ → Incoming → Op

abbrev pub time_of : Op → ℕ
time_of (send now data' answer) = now
time_of (recv now incoming) = now

-- The datagrams that a call lets through, and the state after it.
abbrev pub passed_send : Outcome Unit → ℕ
passed_send (done _) = 1
passed_send (bail _) = 0

abbrev pub passed_recv : Outcome (Option Text) → ℕ
passed_recv (done (some raw)) = 1
passed_recv _ = 0

unfoldable pub perform : Op → WebTransportStream → ℕ × WebTransportStream
perform (send now data' answer) self =
    let r = try_send_datagram now data' answer self in (passed_send r.0, r.1)
perform (recv now incoming) self = let r = recv_datagram now incoming self in (passed_recv r.0, r.1)

-- The datagrams that got through in all, and the state at the end.
abbrev pub perform_all : List Op → WebTransportStream → ℕ × WebTransportStream
perform_all [] self = (0, self)
perform_all (op ∷ ops) self =
    let r = perform op self in let rest = perform_all ops r.1 in (r.0 + rest.0, rest.1)

refilled_le :
    (rate elapsed tokens : ℕ) → refilled rate elapsed tokens ≤ tokens + rate * as_secs elapsed
unfolding refilled
refilled_le rate elapsed tokens = ground arith

refilled_le_rate : (rate elapsed tokens : ℕ) → refilled rate elapsed tokens ≤ rate
unfolding refilled
refilled_le_rate rate elapsed tokens = ground arith

refilled_soon :
    (rate elapsed tokens : ℕ) → elapsed < 1000000000 → refilled rate elapsed tokens ≤ tokens
unfolding refilled
refilled_soon rate elapsed tokens soon =
    let e : elapsed / 1000000000 ≡ 0 = omega arith in rw e ground arith

-- What a call on a refilled state does to the tokens.
abbrev Spent : ℕ → WebTransportStream → WebTransportStream → Type 0
Spent passed before after =
    (passed + after.datagram_tokens ≤ before.datagram_tokens)
    × ((after.last_refill ≡ before.last_refill)
        × ((after.datagram_per_sec ≡ before.datagram_per_sec) × (after.has_conn ≡ before.has_conn)))

unspent : (s : WebTransportStream) → Spent 0 s s
unspent s = (omega arith, (refl, (refl, refl)))

passed-deliver : (conn : Bool) (answer : Option Text) → passed_send (deliver conn answer) ≤ 1
passed-deliver false answer = omega arith
passed-deliver true none = omega arith
passed-deliver true (some e) = omega arith

send_spent-Spent :
    (rate : ℕ) (answer : Option Text) (s : WebTransportStream)
    → let r = send_spent answer s (spend (some rate) s) in Spent (passed_send r.0) s r.1
send_spent-Spent rate answer s = elim (Bool-cases (s.datagram_tokens == 0)) [
  | inl empty ↦ rw empty (unspent s)
  | inr some_left ↦
      let one = passed-deliver s.has_conn answer in
      let positive : 1 ≤ s.datagram_tokens = ground arith in
      rw some_left (omega arith, (refl, (refl, refl)))
]

passed-refuse : (drop : Bool) (e : Failure) → passed_recv (refuse drop e) ≡ 0
passed-refuse true e = refl
passed-refuse false e = refl

recv_spent-Spent :
    (rate : ℕ) (raw : Text) (s : WebTransportStream)
    → let r = recv_spent raw s (spend (some rate) s) in Spent (passed_recv r.0) s r.1
recv_spent-Spent rate raw s = elim (Bool-cases (s.datagram_tokens == 0)) [
  | inl empty ↦ rw (empty, passed-refuse s.record_drop rate_limited) (unspent s)
  | inr some_left ↦
      let positive : 1 ≤ s.datagram_tokens = ground arith in
      rw some_left (omega arith, (refl, (refl, refl)))
]

send_refilled-Spent :
    (rate : ℕ) (data' : Text) (answer : Option Text) (s : WebTransportStream)
    → s.datagram_per_sec ≡ some rate
    → let r = send_refilled data' answer s in Spent (passed_send r.0) s r.1
send_refilled-Spent rate data' answer s limited =
    elim (Bool-cases (exceeds s.max_datagram_size data')) [
      | inl big ↦ rw big (unspent s)
      | inr fits ↦ rw fits (
          subst
            (λ per_sec.
              let r = send_spent answer s (spend per_sec s) in Spent (passed_send r.0) s r.1)
            (sym limited) (send_spent-Spent rate answer s))
    ]

recv_refilled-Spent :
    (rate : ℕ) (incoming : Incoming) (s : WebTransportStream)
    → s.datagram_per_sec ≡ some rate
    → let r = recv_refilled incoming s in Spent (passed_recv r.0) s r.1
recv_refilled-Spent rate closed s limited = unspent s
recv_refilled-Spent rate (failed e) s limited = unspent s
recv_refilled-Spent rate (bytes raw) s limited =
    elim (Bool-cases (exceeds s.max_datagram_size raw)) [
      | inl big ↦ rw (big, passed-refuse s.record_drop frame_exceeds_limit) (unspent s)
      | inr fits ↦ rw fits (
          subst
            (λ per_sec. let r = recv_spent raw s (spend per_sec s) in Spent (passed_recv r.0) s r.1)
            (sym limited) (recv_spent-Spent rate raw s))
    ]

-- What a call does on a stream with a rate: it refills, and then spends, or it does nothing.
perform-Spent :
    (rate : ℕ) (op : Op) (s : WebTransportStream)
    → s.datagram_per_sec ≡ some rate
    → s.has_conn ≡ true
    → Spent (perform op s).0 (refill_at (time_of op) (some rate) s) (perform op s).1
unfolding perform try_send_datagram recv_datagram refill
perform-Spent rate (send now data' answer) s limited conn =
    subst
      (λ per_sec.
        let r = send_refilled data' answer (refill_at now per_sec s) in
        Spent (passed_send r.0) (refill_at now (some rate) s) r.1)
      (sym limited) (send_refilled-Spent rate data' answer (refill_at now (some rate) s) limited)
perform-Spent rate (recv now incoming) s limited conn =
    let done_by =
      subst
        (λ per_sec.
          let r = recv_refilled incoming (refill_at now per_sec s) in
          Spent (passed_recv r.0) (refill_at now (some rate) s) r.1)
        (sym limited) (recv_refilled-Spent rate incoming (refill_at now (some rate) s) limited) in
    subst
      (λ b.
        let r =
          if b
          then recv_refilled incoming (refill_at now s.datagram_per_sec s)
          else (bail not_supported, s) in
        Spent (passed_recv r.0) (refill_at now (some rate) s) r.1)
      (sym conn) done_by

-- The calls are made one after another, the first not before the time `last`.
abbrev pub InOrder : ℕ → List Op → Type 0
InOrder last [] = Unit
InOrder last (op ∷ ops) = (last ≤ time_of op) × InOrder (time_of op) ops

-- Each call comes less than a second after the one before it.
abbrev pub Soon : ℕ → List Op → Type 0
Soon last [] = Unit
Soon last (op ∷ ops) = (time_of op - last < 1000000000) × Soon (time_of op) ops

mul_monotone : (rate a b : ℕ) → a ≤ b → rate * a ≤ rate * b
mul_monotone zero a b le = omega arith
mul_monotone (suc rate) a b le = let more = mul_monotone rate a b le in omega arith

-- Two spans of time, of which the first gave some tokens and the second pays for the rest.
spans :
    (rate last now end had got passed rest : ℕ)
    → last ≤ now
    → now ≤ end
    → got ≤ had + rate * as_secs (now - last)
    → passed ≤ got
    → rest ≤ (got - passed) + rate * as_secs (end - now)
    → passed + rest ≤ had + rate * as_secs (end - last)
spans rate last now end had got passed rest le₁ le₂ a b c =
    let whole =
      mul_monotone rate (as_secs (now - last) + as_secs (end - now)) (as_secs (end - last))
        (omega arith) in
    omega arith

-- A session that has a rate and a connection.
abbrev pub Limited : ℕ → WebTransportStream → Type 0
Limited rate s = (s.datagram_per_sec ≡ some rate) × (s.has_conn ≡ true)

-- On a session with a rate and a connection, in any sequence of sends and receptions in the order
-- of time, the datagrams that get through and the tokens left are together at most the tokens at
-- the start plus the rate times the whole seconds from the first refill time to the last.
pub perform_all_bound :
    (rate : ℕ) (ops : List Op) (s : WebTransportStream)
    → Limited rate s
    → InOrder s.last_refill ops
    → let r = perform_all ops s in
      (s.last_refill ≤ r.1.last_refill)
      × (r.0 + r.1.datagram_tokens
          ≤ s.datagram_tokens + rate * as_secs (r.1.last_refill - s.last_refill))
perform_all_bound rate [] s limited order = (omega arith, omega arith)
perform_all_bound rate (op ∷ ops) s (per_sec, conn) (le, order) =
    let (tokens, (time, (same_rate, same_conn))) = perform-Spent rate op s per_sec conn in
    let after = (perform op s).1 in
    let bound = refilled_le rate (time_of op - s.last_refill) s.datagram_tokens in
    let (later, rest) =
      perform_all_bound rate ops after (same_rate ∙ per_sec, same_conn ∙ conn)
        (subst (λ t. InOrder t ops) (sym time) order) in
    let first_le : s.last_refill ≤ after.last_refill = rw time le in
    let total =
      spans rate s.last_refill (time_of op) (perform_all ops after).1.last_refill s.datagram_tokens
        (refill_at (time_of op) (some rate) s).datagram_tokens (perform op s).0
        ((perform_all ops after).0 + (perform_all ops after).1.datagram_tokens) le
        (subst (λ t. t ≤ (perform_all ops after).1.last_refill) time later) bound (omega arith)
        (subst
          (λ t.
            (perform_all ops after).0 + (perform_all ops after).1.datagram_tokens
            ≤ ((refill_at (time_of op) (some rate) s).datagram_tokens - (perform op s).0)
              + rate * as_secs ((perform_all ops after).1.last_refill - t))
          time (omega arith)) in
    (omega arith, omega arith)

-- On a session with a rate and a connection, sends and receptions of which each comes less than a
-- second after the one before get no token: the datagrams that get through, however long it goes
-- on, and the tokens left are together at most the tokens at the start.
pub perform_all_starved :
    (rate : ℕ) (ops : List Op) (s : WebTransportStream)
    → Limited rate s
    → Soon s.last_refill ops
    → (perform_all ops s).0 + (perform_all ops s).1.datagram_tokens ≤ s.datagram_tokens
perform_all_starved rate [] s limited soon = omega arith
perform_all_starved rate (op ∷ ops) s (per_sec, conn) (now, soon) =
    let (tokens, (time, (same_rate, same_conn))) = perform-Spent rate op s per_sec conn in
    let after = (perform op s).1 in
    let bound = refilled_soon rate (time_of op - s.last_refill) s.datagram_tokens now in
    let rest =
      perform_all_starved rate ops after (same_rate ∙ per_sec, same_conn ∙ conn)
        (subst (λ t. Soon t ops) (sym time) soon) in
    omega arith
