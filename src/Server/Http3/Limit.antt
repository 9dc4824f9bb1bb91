-- ===== src/Server/Http3/Limit.antt =====
-- Which bodies over HTTP/3 are read to their end, and which are refused.
use silent.Prelude.{
  ℕ, zero, suc, ◌+◌, ◌≤◌, ◌<◌, ◌≡◌, refl, ap, subst, ◌⊎◌, inl, inr, Bool, false, not, Option, none,
  some, List, [], ◌∷◌, ◌++◌, map, arith, ltb, leb, leb→le, Bool-cases, length, retain, nat_Eq,
}
use silent.Text.{Text, is_empty}
use silent.Server.Http3.Delivery.{BelowMax, Within}
use silent.Server.Http3.Body.{
  usize_max, saturating_add, Arrival, data_of, ended, bytes, fault, other, finished, bailed,
  ReadRun, exceeds, cons_item, read_from, read_http3_body, oversize_message,
}

abbrev pub total_length : List Text → ℕ
total_length [] = 0
total_length (b ∷ bs) = length b + total_length bs

-- The chunks that are not empty.
abbrev pub filled : List Text → List Text
filled bs = retain (λ b. not (is_empty b)) bs

abbrev pub arriving : List Text → List Arrival → List Arrival
arriving bs rest = map data_of bs ++ rest

-- With so much read, and a chunk of `n` bytes, and `m` bytes to come.
passes :
    (limit : Option ℕ) (total n m : ℕ)
    → BelowMax limit
    → Within limit (total + (n + m))
    → (exceeds limit (saturating_add total n) ≡ false) × Within limit (saturating_add total n + m)
passes none total n m below w = (refl, tt)
passes (some l) total n m below w =
    let true_count : saturating_add total n ≡ total + n = ground arith in
    (rw true_count (ground arith), rw true_count (omega arith))

read_whole :
    (limit : Option ℕ) (timeout : Bool) (bs : List Text) (rest : List Arrival) (room total : ℕ)
    → BelowMax limit
    → Within limit (total + total_length bs)
    → length bs ≤ room
    → read_from limit timeout room total (arriving bs (ended ∷ rest))
      ≡ record { sent = map bytes (filled bs); outcome = finished }
unfolding read_from
read_whole limit timeout [] rest room total below w le = refl
read_whole limit timeout ([] ∷ bs) rest room total below w le =
    read_whole limit timeout bs rest room total below (subst (Within limit) (omega arith) w)
      (omega arith)
read_whole limit timeout ((c ∷ cs) ∷ bs) rest zero total below w le = absurd (omega arith)
read_whole limit timeout ((c ∷ cs) ∷ bs) rest (suc left) total below w le =
    let (fits, within) = passes limit total (suc (length cs)) (total_length bs) below w in
    rw fits (
      ap (cons_item (bytes (c ∷ cs))) (
        read_whole limit timeout bs rest left (saturating_add total (suc (length cs))) below within
          (omega arith)))

abbrev pub Refused : ReadRun → Type 0
Refused run =
    (run.outcome ≡ bailed oversize_message)
    × ((front : List Text) × (run.sent ≡ map bytes front ++ fault (other oversize_message) ∷ []))

Refused-cons_item : (b : Text) (run : ReadRun) → Refused run → Refused (cons_item (bytes b) run)
Refused-cons_item b run (bail, (front, same)) = (bail, (b ∷ front, ap (◌∷◌ (bytes b)) same))

read_refuses :
    (limit : ℕ) (timeout : Bool) (bs : List Text) (rest : List Arrival) (room total : ℕ)
    → limit < usize_max
    → total ≤ limit
    → limit < total + total_length bs
    → length bs ≤ room
    → Refused (read_from (some limit) timeout room total (arriving bs rest))
unfolding read_from
read_refuses limit timeout [] rest room total below ok over le = absurd (omega arith)
read_refuses limit timeout ([] ∷ bs) rest room total below ok over le =
    read_refuses limit timeout bs rest room total below ok (omega arith) (omega arith)
read_refuses limit timeout ((c ∷ cs) ∷ bs) rest zero total below ok over le = absurd (omega arith)
read_refuses limit timeout ((c ∷ cs) ∷ bs) rest (suc left) total below ok over le =
    elim (Bool-cases (ltb limit (saturating_add total (suc (length cs))))) [
      | inl beyond ↦ rw beyond (refl, ([], refl))
      | inr fits ↦
          let true_count : saturating_add total (suc (length cs)) ≡ total + suc (length cs) =
            ground arith in
          let within : saturating_add total (suc (length cs)) ≤ limit = ground arith in
          rw fits (
            Refused-cons_item (c ∷ cs) _ (
              read_refuses limit timeout bs rest left (saturating_add total (suc (length cs))) below
                within (omega arith) (omega arith)))
    ]

-- Of a body that comes in chunks and then ends, with a limit below the largest `usize` and a reader
-- that takes all the chunks: if it is within the limit, the reader gets the chunks that are not
-- empty, in order, and the reading ends well; if it is over the limit, the reader gets some chunks
-- and then the error, and the reading fails.
pub read_http3_body-Refused :
    (limit : ℕ) (timeout : Bool) (bs : List Text) (rest : List Arrival) (room : ℕ)
    → limit < usize_max
    → length bs ≤ room
    → ((total_length bs ≤ limit)
        × (read_http3_body (some limit) timeout room (arriving bs (ended ∷ rest))
            ≡ record { sent = map bytes (filled bs); outcome = finished }))
      ⊎ ((limit < total_length bs)
          × Refused (read_http3_body (some limit) timeout room (arriving bs (ended ∷ rest))))
unfolding read_http3_body
read_http3_body-Refused limit timeout bs rest room below le =
    elim (Bool-cases (leb (total_length bs) limit)) [
      | inl small ↦
          let ok = leb→le (total_length bs) limit small in
          inl (ok, read_whole (some limit) timeout bs rest room 0 below (omega arith) le)
      | inr large ↦
          let over : limit < total_length bs = ground arith in
          inr (
            over,
            read_refuses limit timeout bs (ended ∷ rest) room 0 below (omega arith) (omega arith)
                le,
          )
    ]
