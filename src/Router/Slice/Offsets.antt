-- ===== src/Router/Slice/Offsets.antt =====
-- The offset of what remains of a path behind a cut, and the range of the part before it.
use silent.Prelude.{
  ℕ, zero, suc, ◌+◌, ◌≤◌, ◌<◌, ◌≡◌, refl, ap, ◌∙◌, ◌≢◌, inl, inr, some, List, [], ◌∷◌, arith,
  Bool-cases, Option-cases, length, drop, length-drop, nat_Eq,
}
use silent.Text.{Text, is_empty, Text_Eq}
use silent.Core.PathParam.{str_slice}
use silent.Router.Slice.{
  Str, Platform, prefix, advance, strip_leading_slash, memchr, remain_offset, slice_range,
  empty_str, strip_one_segment, cut_trimmed,
}
use silent.Router.Slice.Laws.{
  drop-drop, advance-advance, slice-prefix, slice-advance, remain_offset-advance,
  strip_leading_slash-advance,
}

-- A cut of the path at an offset: the offset of what remains is no less, lies in the path and leads
-- to it, and a segment that is not empty reads back from its range.
pub record Cut (full : Str) (o : ℕ) (segment remain : Str) : Type 0 where
  pub after : o ≤ remain_offset full remain
  pub within : remain_offset full remain ≤ length full.bytes
  pub remains : drop (remain_offset full remain) full.bytes ≡ remain.bytes
  pub reads :
      segment.bytes ≢ []
      → let (start, end) = slice_range full segment in
        str_slice full.bytes start end ≡ some segment.bytes

drop-length {ℓ} : {A : Type ℓ} (xs : List A) → drop (length xs) xs ≡ []
drop-length [] = refl
drop-length (x ∷ xs) = drop-length xs

memchr-lt : (c : ℕ) (s : Text) {i : ℕ} → memchr c s ≡ some i → i < length s
unfolding memchr
memchr-lt c [] e = cc
memchr-lt c (d ∷ s) {i = zero} e = omega arith
memchr-lt c (d ∷ s) {i = suc i} e = ground (arith, memchr-lt c s {i = i})

module _ ⦃p : Platform⦄ (full : Str) (o : ℕ) (h : o ≤ length full.bytes) where
  -- Nothing remains.
  end-Cut :
      (segment : Str)
      → (segment.bytes ≢ []
          → let (start, end) = slice_range full segment in
            str_slice full.bytes start end ≡ some segment.bytes)
      → Cut full o segment empty_str
  unfolding remain_offset
  end-Cut segment reads = record {
    after = omega arith;
    within = omega arith;
    remains = ground (arith, drop-length full.bytes);
    reads = reads;
  }

  mid-Cut :
      (k : ℕ)
      → k < length (drop o full.bytes)
      → Cut full o (prefix k (advance o full)) (advance (k + 1) (advance o full))
  mid-Cut k lt =
      let inside : o + (k + 1) ≤ length full.bytes = omega (arith, length-drop o full.bytes) in
      let at : remain_offset full (advance (k + 1) (advance o full)) ≡ o + (k + 1) =
        ap (remain_offset full) (advance-advance o (k + 1) full)
        ∙ remain_offset-advance full (o + (k + 1)) inside in
      record {
        after = omega (arith, at);
        within = omega (arith, at, inside);
        remains = rw at (drop-drop o (k + 1) full.bytes);
        reads = λ _. slice-prefix full o k h;
      }

  cut_trimmed-Cut :
      let (segment, remain) = cut_trimmed (advance o full) in Cut full o segment remain
  unfolding cut_trimmed
  cut_trimmed-Cut = elim (Bool-cases (is_empty (drop o full.bytes))) [
    | inl e ↦ rw e (end-Cut empty_str (λ ne. absurd (ne refl)))
    | inr e ↦ rw e (elim (Option-cases (memchr b'/' (drop o full.bytes))) [
      | inl m ↦ rw m (end-Cut (advance o full) (λ _. slice-advance full o h))
      | inr (k, m) ↦ rw m (mid-Cut k (memchr-lt b'/' (drop o full.bytes) m))
    ])
  ]

Cut-weaken :
    (full segment remain : Str) (a b : ℕ)
    → a ≤ b
    → Cut full b segment remain
    → Cut full a segment remain
Cut-weaken full segment remain a b h c = record {
  after = omega (arith, c.after);
  within = c.within;
  remains = c.remains;
  reads = c.reads;
}

module _ ⦃p : Platform⦄ (full : Str) where
  pub strip_one_segment-Cut :
      (o : ℕ)
      → o ≤ length full.bytes
      → let (segment, remain) = strip_one_segment (advance o full) in Cut full o segment remain
  unfolding strip_one_segment
  strip_one_segment-Cut o h =
      let (o', e, lo, hi) = strip_leading_slash-advance full o h in
      rw e (Cut-weaken full _ _ o o' lo (cut_trimmed-Cut full o' hi))

-- What remains of the path behind an offset: `Cut` without its segment.
pub record Suffix (full : Str) (o : ℕ) (remain : Str) : Type 0 where
  pub after : o ≤ remain_offset full remain
  pub within : remain_offset full remain ≤ length full.bytes
  pub remains : drop (remain_offset full remain) full.bytes ≡ remain.bytes

pub Cut-Suffix :
    (full : Str) (o : ℕ) (segment remain : Str) → Cut full o segment remain → Suffix full o remain
Cut-Suffix full o segment remain c = record {
  after = c.after;
  within = c.within;
  remains = c.remains;
}

pub advance-Suffix :
    (full : Str) (o k : ℕ) → o + k ≤ length full.bytes → Suffix full o (advance k (advance o full))
advance-Suffix full o k h =
    let at : remain_offset full (advance k (advance o full)) ≡ o + k =
      ap (remain_offset full) (advance-advance o k full) ∙ remain_offset-advance full (o + k) h in
    record {
      after = omega (arith, at);
      within = omega (arith, at, h);
      remains = rw at (drop-drop o k full.bytes);
    }

pub end-Suffix :
    (full : Str) (o a : ℕ) → o ≤ length full.bytes → Suffix full o (record { addr = a; bytes = [] })
unfolding remain_offset
end-Suffix full o a h = record {
  after = omega arith;
  within = omega arith;
  remains = ground (arith, drop-length full.bytes);
}

pub Suffix-weaken :
    (full remain : Str) (a b : ℕ) → a ≤ b → Suffix full b remain → Suffix full a remain
Suffix-weaken full remain a b h c = record {
  after = omega (arith, c.after);
  within = c.within;
  remains = c.remains;
}

pub self-Suffix : (full : Str) (o : ℕ) → o ≤ length full.bytes → Suffix full o (advance o full)
self-Suffix full o h =
    let at = remain_offset-advance full o h in
    record { after = omega (arith, at); within = omega (arith, at, h); remains = rw at refl }

pub strip_one_segment_end :
    ⦃p : Platform⦄ (s : Str) → s.bytes ≡ [] → strip_one_segment s ≡ (empty_str, empty_str)
unfolding strip_one_segment strip_leading_slash
strip_one_segment_end s e = by_bytes s.addr s.bytes e
  where
    by_bytes :
        (a : ℕ) (t : Text)
        → t ≡ []
        → strip_one_segment (record { addr = a; bytes = t }) ≡ (empty_str, empty_str)
    by_bytes a [] e = refl
    by_bytes a (c ∷ t) e = cc
