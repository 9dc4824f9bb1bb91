-- ===== src/Server/Http3/Chunks.antt =====
-- The chunks that a response over HTTP/3 is sent in.
use silent.Prelude.{
  ℕ, zero, suc, ◌-◌, ◌≤◌, ◌<◌, min, ◌≡◌, refl, sym, ap, subst, ◌∙◌, ◌⊎◌, inl, inr, Option, none,
  some, List, [], ◌∷◌, ◌++◌, append-nil, append_assoc, arith, leb, Bool-cases, length, take, drop,
  length-drop, All, All-append, nat_Eq,
}
use silent.Text.{Text}
use silent.Server.Http3.Body.{saturating_add}
use silent.Server.Http3.Send.{
  Write, head, chunk_of, yielded, finish, Broken, data_failed, Out, Progress, going, stopped,
  send_with, send, count_sent, and_then, Limits, send_chunks,
}

-- The bytes that were written.
abbrev pub written : List Write → Text
written [] = []
written (chunk_of b ∷ ws) = b ++ written ws
written (_ ∷ ws) = written ws

pub written-append : (vs ws : List Write) → written (vs ++ ws) ≡ written vs ++ written ws
written-append [] ws = refl
written-append (chunk_of b ∷ vs) ws =
    ap (λ t. b ++ t) (written-append vs ws) ∙ sym (append_assoc b (written vs) (written ws))
written-append (head n ∷ vs) ws = written-append vs ws
written-append (yielded ∷ vs) ws = written-append vs ws
written-append (finish ∷ vs) ws = written-append vs ws

-- A chunk is not empty, and no larger than the size that is set.
abbrev pub IsChunk : ℕ → Write → Type 0
IsChunk size (chunk_of b) = (1 ≤ length b) × (length b ≤ size)
IsChunk size _ = Unit

abbrev pub out_of : Progress → Out
out_of (going out) = out
out_of (stopped out _) = out

-- What is left unsent.
abbrev pub Unsent : Progress → Text → Type 0
Unsent (going out) rest = rest ≡ []
Unsent (stopped out e) rest = e ≡ data_failed

-- From `out` on, `p` has written `content`, in chunks, but for a rest of which `Left` is said.
abbrev pub SendsBy : (Progress → Text → Type 0) → ℕ → Text → Out → Progress → Type 0
SendsBy Left size content out p =
    (ws : List Write) × (rest : Text) × ((out_of p).writes ≡ out.writes ++ ws)
    × (written ws ++ rest ≡ content)
    × All (IsChunk size) ws
    × Left p rest

abbrev pub Sends : ℕ → Text → Out → Progress → Type 0
Sends = SendsBy Unsent

-- The bytes since the last yield stay below the threshold.
abbrev pub Fresh : Limits → Out → Type 0
Fresh limits out = out.sent_since_yield < limits.h3_yield_bytes

Yields : Limits → Out → Out → Type 0
Yields limits before after =
    (ws : List Write) × (after.writes ≡ before.writes ++ ws)
    × (written ws ≡ [])
    × All (IsChunk limits.h3_chunk_size) ws
    × Fresh limits after

count_sent-Yields :
    (limits : Limits) (n : ℕ) (out : Out)
    → 0 < limits.h3_yield_bytes
    → Yields limits out (count_sent limits.h3_yield_bytes n out)
unfolding count_sent Yields
count_sent-Yields limits n out pos =
    elim (Bool-cases (leb limits.h3_yield_bytes (saturating_add out.sent_since_yield n))) [
      | inl reached ↦ rw reached (yielded ∷ [], refl, refl, (tt, tt), pos)
      | inr below ↦ rw below ([], sym (append-nil out.writes), refl, tt, ground arith)
    ]

take-drop : (n : ℕ) (t : Text) → take n t ++ drop n t ≡ t
take-drop zero t = refl
take-drop (suc n) [] = refl
take-drop (suc n) (c ∷ t) = ap (◌∷◌ c) (take-drop n t)

length-take : (n : ℕ) (t : Text) → n ≤ length t → length (take n t) ≡ n
length-take zero t le = refl
length-take (suc n) [] le = absurd (omega arith)
length-take (suc n) (c ∷ t) le = ap suc (length-take n t (omega arith))

pub send_cases :
    (w : Write) (b : Broken) (out : Out)
    → (send w b out ≡ stopped out b)
      ⊎ ((k : ℕ) × (send w b out
            ≡ going (record out { writes = out.writes ++ w ∷ []; sends_left = k })))
unfolding send
send_cases w b out = by_left out.sends_left refl
  where
    by_left :
        (n : ℕ)
        → out.sends_left ≡ n
        → (send w b out ≡ stopped out b)
          ⊎ ((k : ℕ) × (send w b out
                ≡ going (record out { writes = out.writes ++ w ∷ []; sends_left = k })))
    by_left zero e = inl (ap (send_with w b out) e)
    by_left (suc k) e = inr (k, ap (send_with w b out) e)

-- What is sent of a buffer and then of the rest of it.
Sends-and_then :
    (limits : Limits) (n : ℕ) (chunk content : Text) (out sent : Out) (p : Progress)
    → sent.writes ≡ out.writes ++ chunk_of chunk ∷ []
    → (1 ≤ length chunk) × (length chunk ≤ limits.h3_chunk_size)
    → Yields limits sent (count_sent limits.h3_yield_bytes n sent)
    → Sends limits.h3_chunk_size content (count_sent limits.h3_yield_bytes n sent) p
    → Sends limits.h3_chunk_size (chunk ++ content) out p
unfolding Yields
Sends-and_then limits n chunk content out sent p here fits (ys, at, blank, plain, fresh)
      (ws, rest, writes, same, small, left) =
    (
      chunk_of chunk ∷ (ys ++ ws),
      rest,
      writes
          ∙ ap (λ l. l ++ ws) (at ∙ ap (λ l. l ++ ys) here)
          ∙ append_assoc (out.writes ++ chunk_of chunk ∷ []) ys ws
          ∙ append_assoc out.writes (chunk_of chunk ∷ []) (ys ++ ws),
      append_assoc chunk (written (ys ++ ws)) rest
          ∙ ap (λ t. chunk ++ t)
              (ap (λ t. t ++ rest) (written-append ys ws ∙ ap (λ t. t ++ written ws) blank) ∙ same),
      (fits, All-append (IsChunk limits.h3_chunk_size) ys ws plain small),
      left,
    )

-- The loop ends, has sent all of the buffer if no send failed, and leaves the count below the
-- threshold.
abbrev pub Chunked : Limits → Text → Out → Option Progress → Type 0
Chunked limits buf out sent =
    (p : Progress) × (sent ≡ some p)
    × Sends limits.h3_chunk_size buf out p
    × Fresh limits (out_of p)

pub send_chunks-Chunked :
    (fuel : ℕ) (limits : Limits) (buf : Text) (out : Out)
    → 0 < limits.h3_chunk_size
    → 0 < limits.h3_yield_bytes
    → Fresh limits out
    → length buf < fuel
    → Chunked limits buf out (send_chunks fuel limits buf out)
unfolding send_chunks Yields
send_chunks-Chunked zero limits buf out size pos fresh lt = absurd (omega arith)
send_chunks-Chunked (suc fuel) limits [] out size pos fresh lt =
    (going out, refl, ([], [], sym (append-nil out.writes), refl, tt, refl), fresh)
send_chunks-Chunked (suc fuel) limits (c ∷ cs) out size pos fresh lt =
    let n = min (suc (length cs)) limits.h3_chunk_size in
    let chunk = take n (c ∷ cs) in
    let more = λ (o : Out).
      send_chunks fuel limits (drop n (c ∷ cs)) (count_sent limits.h3_yield_bytes n o) in
    elim (send_cases (chunk_of chunk) data_failed out) [
      | inl failed ↦ (
        stopped out data_failed,
        ap (λ p. and_then p more) failed,
        ([], c ∷ cs, sym (append-nil out.writes), refl, tt, refl),
        fresh,
      )
      | inr (k, sent) ↦
          let now : Out = record out {
            writes = out.writes ++ chunk_of chunk ∷ [];
            sends_left = k;
          } in
          let size_of : length chunk ≡ n = length-take n (c ∷ cs) (omega arith) in
          let counted = count_sent-Yields limits n now pos in
          let (p, ends, sends, below) =
            send_chunks-Chunked fuel limits (drop n (c ∷ cs))
              (count_sent limits.h3_yield_bytes n now) size pos counted.4
              (rw (length-drop n (c ∷ cs)) (omega arith)) in
          (
            p,
            ap (λ q. and_then q more) sent ∙ ends,
            subst (λ t. Sends limits.h3_chunk_size t out p) (take-drop n (c ∷ cs))
                (Sends-and_then limits n chunk (drop n (c ∷ cs)) out now p refl
                  (omega (arith, size_of), omega (arith, size_of)) counted sends),
            below,
          )
    ]

count_sent_left : (y n : ℕ) (out : Out) → (count_sent y n out).sends_left ≡ out.sends_left
unfolding count_sent
count_sent_left y n out = ground arith

send_with_room :
    (w : Write) (b : Broken) (out : Out) (k : ℕ)
    → out.sends_left ≡ suc k
    → send w b out ≡ going (record out { writes = out.writes ++ w ∷ []; sends_left = k })
unfolding send
send_with_room w b out k e = ap (send_with w b out) e

-- With a chunk size of 0 the loop that sends data that is not empty does not end in any number of
-- rounds in which sends succeed.
pub send_chunks_stuck :
    (fuel y : ℕ) (c : ℕ) (cs : Text) (out : Out)
    → fuel ≤ out.sends_left
    → send_chunks fuel (record { h3_chunk_size = 0; h3_yield_bytes = y }) (c ∷ cs) out ≡ none
unfolding send_chunks
send_chunks_stuck zero y c cs out le = refl
send_chunks_stuck (suc fuel) y c cs out le =
    let limits : Limits = record { h3_chunk_size = 0; h3_yield_bytes = y } in
    let k = out.sends_left - 1 in
    let now : Out = record out { writes = out.writes ++ chunk_of [] ∷ []; sends_left = k } in
    let none_taken : min (suc (length cs)) 0 ≡ 0 = omega arith in
    let room : out.sends_left ≡ suc k = omega arith in
    let left = count_sent_left y 0 now in
    rw (none_taken) (
      ap (λ p. and_then p (λ o. send_chunks fuel limits (c ∷ cs) (count_sent y 0 o)))
        (send_with_room (chunk_of []) data_failed out k room)
      ∙ send_chunks_stuck fuel y c cs (count_sent y 0 now) (omega arith))
