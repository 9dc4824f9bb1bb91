-- ===== src/Server/Http3/Delivery.antt =====
-- What the reader of a request's body over HTTP/3 gets.
use silent.Prelude.{
  ℕ, zero, suc, ◌+◌, ◌≤◌, ◌<◌, ◌≡◌, refl, ap, subst, ◌∙◌, inl, inr, Bool, true, false, Option, none,
  some, List, [], ◌∷◌, ◌++◌, append_assoc, arith, Bool-cases, length, length-append, nat_Eq,
}
use silent.Text.{Text, text}
use silent.Server.Http3.Body.{
  usize_max, saturating_add, Arrival, data_of, ended, late, failed, Item, bytes, fault, IoError,
  timed_out, other, Outcome, finished, awaiting, bailed, ReadRun, deliver, exceeds, pass_on,
  on_data, read_from, read_http3_body, oversize_message, timeout_message,
}

-- The bytes among the messages, and those among the answers of the stream.
abbrev pub delivered : List Item → Text
delivered [] = []
delivered (bytes b ∷ items) = b ++ delivered items
delivered (fault _ ∷ items) = delivered items

abbrev pub payload : List Arrival → Text
payload [] = []
payload (data_of b ∷ arrivals) = b ++ payload arrivals
payload (_ ∷ arrivals) = payload arrivals

-- So many bytes more are within the limit.
abbrev pub Within : Option ℕ → ℕ → Type 0
Within none n = Unit
Within (some limit) n = n ≤ limit

-- The reader gets a first part of the body, which the limit allows after what was read.
abbrev Prefix : Option ℕ → ℕ → ReadRun → List Arrival → Type 0
Prefix limit total run arrivals =
    ((rest : Text) × (delivered run.sent ++ rest ≡ payload arrivals))
    × (Within limit total → Within limit (total + length (delivered run.sent)))

-- The limit is below the largest `usize`, at which the count of the bytes saturates.
abbrev pub BelowMax : Option ℕ → Type 0
BelowMax none = Unit
BelowMax (some limit) = limit < usize_max

Within-same : (limit : Option ℕ) (m n : ℕ) → m ≡ n → Within limit m → Within limit n
Within-same limit m n e w = subst (Within limit) e w

-- Nothing is delivered.
stop_Prefix :
    (limit : Option ℕ) (total : ℕ) (items : List Item) (o : Outcome) (arrivals : List Arrival)
    → delivered items ≡ []
    → Prefix limit total (record { sent = items; outcome = o }) arrivals
stop_Prefix limit total items o arrivals e = (
  (payload arrivals, ap (λ t. t ++ payload arrivals) e),
  λ w. Within-same limit total _ (omega (arith, ap length e)) w,
)

delivered-deliver : (room : ℕ) (e : IoError) → delivered (deliver room (fault e)) ≡ []
delivered-deliver zero e = refl
delivered-deliver (suc room) e = refl

fault_Prefix :
    (limit : Option ℕ) (total room : ℕ) (e : IoError) (o : Outcome) (arrivals : List Arrival)
    → Prefix limit total (record { sent = deliver room (fault e); outcome = o }) arrivals
fault_Prefix limit total room e o arrivals =
    stop_Prefix limit total (deliver room (fault e)) o arrivals (delivered-deliver room e)

-- A count that the limit lets pass is the true one, and within the limit.
counted :
    (limit : Option ℕ) (total n : ℕ)
    → BelowMax limit
    → exceeds limit (saturating_add total n) ≡ false
    → Within limit total
    → Within limit (total + n)
counted none total n below fits w = tt
counted (some l) total n below fits w = ground arith

onward :
    (limit : Option ℕ) (total n m : ℕ)
    → BelowMax limit
    → exceeds limit (saturating_add total n) ≡ false
    → (Within limit (saturating_add total n) → Within limit (saturating_add total n + m))
    → Within limit total
    → Within limit (total + (n + m))
onward none total n m below fits ih w = tt
onward (some l) total n m below fits ih w =
    let true_count : saturating_add total n ≡ total + n = ground arith in
    let within : total + n ≤ l = ground arith in
    let more = ih (rw true_count within) in omega (arith, true_count, more)

pass_on-Prefix :
    (limit : Option ℕ) (room total : ℕ) (chunk : Text) (k : ℕ → ℕ → ReadRun)
    (arrivals : List Arrival)
    → BelowMax limit
    → exceeds limit (saturating_add total (length chunk)) ≡ false
    → ((r t : ℕ) → Prefix limit t (k r t) arrivals)
    → Prefix limit total
        (pass_on room (saturating_add total (length chunk)) chunk k)
        (data_of chunk ∷ arrivals)
pass_on-Prefix limit zero total chunk k arrivals below fits ih =
    stop_Prefix limit total [] finished (data_of chunk ∷ arrivals) refl
pass_on-Prefix limit (suc left) total chunk k arrivals below fits ih =
    let t = saturating_add total (length chunk) in
    let got = delivered (k left t).sent in
    let ((rest, same), bound) = ih left t in
    (
      (rest, append_assoc chunk got rest ∙ ap (λ x. chunk ++ x) same),
      λ w.
          Within-same limit (total + (length chunk + length got)) _
            (omega (arith, length-append chunk got))
            (onward limit total (length chunk) (length got) below fits bound w),
    )

on_data-Prefix :
    (limit : Option ℕ) (room total : ℕ) (chunk : Text) (k : ℕ → ℕ → ReadRun)
    (arrivals : List Arrival)
    → BelowMax limit
    → ((r t : ℕ) → Prefix limit t (k r t) arrivals)
    → Prefix limit total (on_data limit room total chunk k) (data_of chunk ∷ arrivals)
on_data-Prefix limit room total [] k arrivals below ih = ih room total
on_data-Prefix limit room total (c ∷ cs) k arrivals below ih =
    elim (Bool-cases (exceeds limit (saturating_add total (suc (length cs))))) [
      | inl over ↦ rw over (
          fault_Prefix limit total room (other oversize_message) (bailed oversize_message)
            (data_of (c ∷ cs) ∷ arrivals))
      | inr fits ↦ rw fits (pass_on-Prefix limit room total (c ∷ cs) k arrivals below fits ih)
    ]

read_from-Prefix :
    (limit : Option ℕ) (timeout : Bool) (arrivals : List Arrival) (room total : ℕ)
    → BelowMax limit
    → Prefix limit total (read_from limit timeout room total arrivals) arrivals
unfolding read_from
read_from-Prefix limit timeout [] room total below = stop_Prefix limit total [] awaiting [] refl
read_from-Prefix limit timeout (data_of chunk ∷ arrivals) room total below =
    on_data-Prefix limit room total chunk (λ r t. read_from limit timeout r t arrivals) arrivals
      below (λ r t. read_from-Prefix limit timeout arrivals r t below)
read_from-Prefix limit timeout (ended ∷ arrivals) room total below =
    stop_Prefix limit total [] finished (ended ∷ arrivals) refl
read_from-Prefix limit false (late ∷ arrivals) room total below =
    read_from-Prefix limit false arrivals room total below
read_from-Prefix limit true (late ∷ arrivals) room total below =
    fault_Prefix limit total room (timed_out timeout_message) (bailed timeout_message)
      (late ∷ arrivals)
read_from-Prefix limit timeout (failed e ∷ arrivals) room total below =
    fault_Prefix limit total room (other (text "HTTP/3 body read failed: " ++ e)) (bailed e)
      (failed e ∷ arrivals)

Within-zero : (limit : Option ℕ) → Within limit 0
Within-zero none = tt
Within-zero (some l) = omega arith

-- Whatever the stream answers and however soon the reader is gone, the bytes that the reader of a
-- body gets are a first part of the bytes that arrive, and with a limit below the largest `usize`
-- they are no more than the limit.
pub read_http3_body-Within :
    (limit : Option ℕ) (timeout : Bool) (room : ℕ) (arrivals : List Arrival)
    → BelowMax limit
    → ((rest : Text) × (delivered (read_http3_body limit timeout room arrivals).sent ++ rest
          ≡ payload arrivals))
      × Within limit (length (delivered (read_http3_body limit timeout room arrivals).sent))
unfolding read_http3_body
read_http3_body-Within limit timeout room arrivals below =
    let (first, bound) = read_from-Prefix limit timeout arrivals room 0 below in
    (first, Within-same limit _ _ (omega arith) (bound (Within-zero limit)))
