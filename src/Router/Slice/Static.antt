-- ===== src/Router/Slice/Static.antt =====
-- The match of a static segment: it takes exactly the value, up to the end of the path or a '/'.
use silent.Prelude.{
  ℕ, suc, ◌+◌, ◌≤◌, ◌≡◌, refl, sym, ap, subst, ◌∙◌, ◌≢◌, ◌⊎◌, inl, inr, Option, none, some, [], ◌∷◌,
  ◌++◌, arith, Bool-cases, length, drop, length-append, length-drop, nat_Eq,
}
use mathlib.Core.Option.{some_inj}
use silent.Text.{Text, strip_prefix, Text_Eq, text_eq, text_eq_iff}
use silent.Text.Laws.{strip_prefix-eq-some, strip_prefix-append}
use silent.Router.Slice.{
  Str, Platform, advance, strip_leading_slash, empty_str, after_value, slash_then, match_trimmed,
  match_static_segment,
}
use silent.Router.Slice.Laws.{trim_slash, bytes-strip_leading_slash, strip_leading_slash-advance}
use silent.Router.Slice.Offsets.{Suffix, advance-Suffix, end-Suffix, Suffix-weaken, self-Suffix}

-- The text that remains of a path behind a static value, if the value is there.
abbrev pub Behind : Text → Text → Text → Type 0
Behind value path rest = ((path ≡ value) × (rest ≡ [])) ⊎ (path ≡ value ++ (b'/' ∷ rest))

slash_then-some :
    (a : ℕ) (o : Option Text) {rem : Str}
    → slash_then a o ≡ some rem
    → (o ≡ some (b'/' ∷ rem.bytes)) × (rem.addr ≡ a + 1)
slash_then-some a none e = cc
slash_then-some a (some []) e = cc
slash_then-some a (some (c ∷ rest)) e = ground arith

drop-append-cons :
    (value : Text) (c : ℕ) (rest : Text) → drop (length value + 1) (value ++ (c ∷ rest)) ≡ rest
drop-append-cons [] c rest = refl
drop-append-cons (v ∷ value) c rest =
    let e : suc (length value) + 1 ≡ suc (length value + 1) = omega arith in
    ap (λ n. drop n (v ∷ (value ++ (c ∷ rest)))) e ∙ drop-append-cons value c rest

after_value_lem :
    (t : Str) (value : Text) {rem : Str}
    → after_value t value ≡ some rem
    → (t.bytes ≡ value ++ (b'/' ∷ rem.bytes)) × (rem ≡ advance (length value + 1) t)
after_value_lem t value {rem} e =
    let (found, at) = slash_then-some (t.addr + length value) (strip_prefix value t.bytes) e in
    let whole = strip_prefix-eq-some value t.bytes found in
    (
      whole,
      ground (arith, drop-append-cons value b'/' rem.bytes, ap (drop (length value + 1)) whole),
    )

module _ ⦃p : Platform⦄ where
  match_trimmed_sound :
      (value : Text) (t : Str) {rem : Str}
      → match_trimmed value t ≡ some rem
      → ((t.bytes ≡ value) × (rem ≡ empty_str))
        ⊎ ((t.bytes ≡ value ++ (b'/' ∷ rem.bytes)) × (rem ≡ advance (length value + 1) t))
  unfolding match_trimmed
  match_trimmed_sound value t {rem} e = elim (Bool-cases (text_eq t.bytes value)) [
    | inl same ↦ inl ((text_eq_iff t.bytes value).0 same, ground arith)
    | inr other ↦
        let found : after_value t value ≡ some rem = ground arith in
        inr (after_value_lem t value found)
  ]

  match_trimmed_complete :
      (value : Text) (t : Str) (rest : Text)
      → Behind value t.bytes rest
      → (rem : Str) × (match_trimmed value t ≡ some rem) × (rem.bytes ≡ rest)
  unfolding match_trimmed
  match_trimmed_complete value t rest (inl (same, none_left)) =
      (empty_str, ground (arith, text_eq_iff t.bytes value), sym none_left)
  match_trimmed_complete value t rest (inr more) = (
    record { addr = t.addr + length value + 1; bytes = rest },
    rw more (
        ground (
          arith,
          text_eq_iff (value ++ (b'/' ∷ rest)) value,
          length-append value (b'/' ∷ rest),
          ap length more,
          ap (length {A = ℕ}) {x = value ++ (b'/' ∷ rest)} {y = value},
          strip_prefix-append value (b'/' ∷ rest),
        )),
    refl,
  )

  -- What is found behind a value is what the text has behind it.
  pub match_static_segment_sound :
      (value : Text) (path : Str) {rem : Str}
      → value ≢ []
      → match_static_segment value path ≡ some rem
      → Behind value (trim_slash path.bytes) rem.bytes
  unfolding match_static_segment
  match_static_segment_sound [] path ne e = absurd (ne refl)
  match_static_segment_sound (v ∷ vs) path {rem} ne e =
      rw (← bytes-strip_leading_slash path)
        (elim (match_trimmed_sound (v ∷ vs) (strip_leading_slash path) e) [
          | inl (same, at) ↦ inl (same, ground arith)
          | inr (more, at) ↦ inr more
        ])

  -- A static text that is not empty matches every path that, behind one leading '/', is the text
  -- itself or begins with the text and a '/', and what remains of the match is what follows.
  pub match_static_segment_complete :
      (value : Text) (path : Str) (rest : Text)
      → value ≢ []
      → Behind value (trim_slash path.bytes) rest
      → (rem : Str) × (match_static_segment value path ≡ some rem) × (rem.bytes ≡ rest)
  unfolding match_static_segment
  match_static_segment_complete [] path rest ne b = absurd (ne refl)
  match_static_segment_complete (v ∷ vs) path rest ne b =
      match_trimmed_complete (v ∷ vs) (strip_leading_slash path) rest
        (rw (bytes-strip_leading_slash path) b)

  trimmed-Suffix :
      (value : Text) (full : Str) (o : ℕ) {rem : Str}
      → o ≤ length full.bytes
      → match_trimmed value (advance o full) ≡ some rem
      → Suffix full o rem
  trimmed-Suffix value full o {rem} h e = elim (match_trimmed_sound value (advance o full) e) [
    | inl (same, at) ↦ rw at (end-Suffix full o p.empty_addr h)
    | inr (more, at) ↦ rw at (
        advance-Suffix full o (length value + 1) (
          omega (
            arith,
            ap length more,
            length-drop o full.bytes,
            length-append value (b'/' ∷ rem.bytes),
          )))
  ]

  pub match_static_segment-Suffix :
      (value : Text) (full : Str) (o : ℕ) {rem : Str}
      → o ≤ length full.bytes
      → match_static_segment value (advance o full) ≡ some rem
      → Suffix full o rem
  unfolding match_static_segment
  match_static_segment-Suffix [] full o {rem} h e =
      subst (Suffix full o) (some_inj.0 e) (self-Suffix full o h)
  match_static_segment-Suffix (v ∷ vs) full o {rem} h e =
      let (o', at, lo, hi) = strip_leading_slash-advance full o h in
      Suffix-weaken full rem o o' lo
        (trimmed-Suffix (v ∷ vs) full o' hi (subst (λ t. match_trimmed (v ∷ vs) t ≡ some rem) at e))
