-- ===== src/Router/Slice/Laws.antt =====
-- The cuts of a path agree with cuts of the plain text, and with the offsets that are computed
-- from them.
use silent.Prelude.{
  ℕ, zero, suc, ◌+◌, ◌≤◌, ◌<◌, ◌≡◌, refl, ap, ◌∙◌, ◌⊎◌, inl, inr, Option, none, some, List, [], ◌∷◌,
  arith, ◌==◌, if◌then◌else◌, Option-cases, length, take, drop, length-drop, nat_Eq,
}
use silent.Text.{Text, splitn, Text_Eq}
use silent.Core.PathParam.{str_slice}
use silent.Router.Slice.{
  Str, Platform, prefix, advance, strip_leading_slash, memchr, remain_offset, slice_range,
  strip_one_segment, cut_trimmed,
}

-- The text behind a leading '/', if there is one.
abbrev pub trim_slash : Text → Text
trim_slash [] = []
trim_slash (c ∷ s) = if c == b'/' then s else c ∷ s

abbrev pub or_empty : Option Text → Text
or_empty none = []
or_empty (some t) = t

pub bytes-strip_leading_slash : (s : Str) → (strip_leading_slash s).bytes ≡ trim_slash s.bytes
unfolding strip_leading_slash
bytes-strip_leading_slash s = strip_bytes s.addr s.bytes
  where
    strip_bytes :
        (a : ℕ) (t : Text)
        → (strip_leading_slash (record { addr = a; bytes = t })).bytes ≡ trim_slash t
    strip_bytes a [] = refl
    strip_bytes a (c ∷ t) = ground arith

-- Where `memchr` finds the byte, the text is cut as by `splitn`.
memchr_cut :
    (c : ℕ) (s : Text) {i : ℕ}
    → memchr c s ≡ some i
    → splitn c s ≡ (take i s, some (drop (i + 1) s))
unfolding memchr
memchr_cut c [] e = cc
memchr_cut c (d ∷ s) {i = zero} e = ground arith
memchr_cut c (d ∷ s) {i = suc i} e = ground (arith, memchr_cut c s {i = i})

memchr-none : (c : ℕ) (s : Text) → memchr c s ≡ none → splitn c s ≡ (s, none)
unfolding memchr
memchr-none c [] e = refl
memchr-none c (d ∷ s) e = ground (arith, memchr-none c s)

drop-nil {ℓ} : {A : Type ℓ} (n : ℕ) → drop {A = A} n [] ≡ []
drop-nil zero = refl
drop-nil (suc n) = refl

pub drop-drop {ℓ} : {A : Type ℓ} (a b : ℕ) (xs : List A) → drop (a + b) xs ≡ drop b (drop a xs)
drop-drop zero b xs = ap (λ n. drop n xs) (omega arith)
drop-drop {A} (suc a) b [] = ground (arith, drop-nil {A = A} (suc a + b), drop-nil {A = A} b)
drop-drop (suc a) b (x ∷ xs) =
    let e : suc a + b ≡ suc (a + b) = omega arith in ap (λ n. drop n (x ∷ xs)) e ∙ drop-drop a b xs

pub advance-advance : (a b : ℕ) (s : Str) → advance b (advance a s) ≡ advance (a + b) s
advance-advance a b s = ground (arith, drop-drop a b s.bytes)

length-take-le : (k : ℕ) (s : Text) → length (take k s) ≤ length s
length-take-le zero s = omega arith
length-take-le (suc k) [] = omega arith
length-take-le (suc k) (c ∷ s) = omega (arith, length-take-le k s)

take-length-take : (k : ℕ) (s : Text) → take (length (take k s)) s ≡ take k s
take-length-take zero s = refl
take-length-take (suc k) [] = refl
take-length-take (suc k) (c ∷ s) = ap (◌∷◌ c) (take-length-take k s)

take-length : (s : Text) → take (length s) s ≡ s
take-length [] = refl
take-length (c ∷ s) = ap (◌∷◌ c) (take-length s)

strip_cases :
    (s : Str)
    → (strip_leading_slash s ≡ s) ⊎ ((strip_leading_slash s ≡ advance 1 s) × (0 < length s.bytes))
unfolding strip_leading_slash
strip_cases s = by_bytes s.addr s.bytes
  where
    by_bytes :
        (a : ℕ) (t : Text)
        → let s : Str = record { addr = a; bytes = t } in
          (strip_leading_slash s ≡ s) ⊎ ((strip_leading_slash s ≡ advance 1 s) × (0 < length t))
    by_bytes a [] = inl refl
    by_bytes a (c ∷ t) = ground arith

module _ (full : Str) where
  -- A capture that is cut out of the path reads back as what was cut out.
  pub slice-prefix :
      (o k : ℕ)
      → o ≤ length full.bytes
      → let (start, end) = slice_range full (prefix k (advance o full)) in
        str_slice full.bytes start end ≡ some (take k (drop o full.bytes))
  unfolding slice_range
  slice-prefix o k h = ground (
    arith,
    length-take-le k (drop o full.bytes),
    length-drop o full.bytes,
    take-length-take k (drop o full.bytes),
  )

  pub slice-advance :
      (o : ℕ)
      → o ≤ length full.bytes
      → let (start, end) = slice_range full (advance o full) in
        str_slice full.bytes start end ≡ some (drop o full.bytes)
  unfolding slice_range
  slice-advance o h = ground (arith, length-drop o full.bytes, take-length (drop o full.bytes))

  -- The offset of what remains leads back to it.
  pub remain_offset-advance :
      (o : ℕ) → o ≤ length full.bytes → remain_offset full (advance o full) ≡ o
  unfolding remain_offset
  remain_offset-advance o h = omega (arith, length-drop o full.bytes)

  -- Stripping the slash is a move of the offset by 0 or 1.
  pub strip_leading_slash-advance :
      (o : ℕ)
      → o ≤ length full.bytes
      → (o' : ℕ) × (strip_leading_slash (advance o full) ≡ advance o' full)
        × (o ≤ o')
        × (o' ≤ length full.bytes)
  strip_leading_slash-advance o h = elim (strip_cases (advance o full)) [
    | inl same ↦ (o, same, omega arith, h)
    | inr (moved, some_left) ↦ (
      o + 1,
      moved ∙ advance-advance o 1 full,
      omega arith,
      omega (arith, some_left, length-drop o full.bytes),
    )
  ]

-- The parts of `splitn` at the first '/', the second empty if there is none.
abbrev pub cut : Text → Text × Text
cut s = let (first, rest) = splitn b'/' s in (first, or_empty rest)

module _ ⦃p : Platform⦄ where
  cut_trimmed_bytes :
      (t : Str)
      → let (segment, remain) = cut_trimmed t in (segment.bytes, remain.bytes) ≡ cut t.bytes
  unfolding cut_trimmed
  cut_trimmed_bytes t = by_bytes t.addr t.bytes
    where
      by_bytes :
          (a : ℕ) (s : Text)
          → let (segment, remain) = cut_trimmed (record { addr = a; bytes = s }) in
            ◌≡◌ {A = Text × Text} (segment.bytes, remain.bytes) (cut s)
      by_bytes a [] = refl
      by_bytes a (c ∷ s) = elim (Option-cases (memchr b'/' (c ∷ s))) [
        | inl e ↦ ground (arith, memchr-none b'/' (c ∷ s))
        | inr (k, e) ↦ ground (arith, memchr_cut b'/' (c ∷ s) {i = k})
      ]

  -- The bytes of the two parts of `strip_one_segment` are those of the plain cut of the path at the
  -- first '/' behind one leading '/'.
  pub strip_one_segment_bytes :
      (path : Str)
      → let (segment, remain) = strip_one_segment path in
        (segment.bytes, remain.bytes) ≡ cut (trim_slash path.bytes)
  unfolding strip_one_segment
  strip_one_segment_bytes path =
      cut_trimmed_bytes (strip_leading_slash path) ∙ ap cut (bytes-strip_leading_slash path)
