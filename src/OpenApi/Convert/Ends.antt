-- ===== src/OpenApi/Convert/Ends.antt =====
-- The conversion of a path ends.
use silent.Prelude.{
  ℕ, zero, suc, ◌+◌, ◌-◌, ◌≤◌, ◌<◌, min, ◌≡◌, refl, sym, ap, subst, ◌∙◌, inl, inr, true, Option,
  none, some, [], ◌∷◌, ◌++◌, append_assoc, arith, Bool-cases, Option-cases, length, length-append,
  nat_Eq,
}
use mathlib.Core.Option.{some_inj}
use silent.Text.{Text, text, starts_with, splitn, Text_Eq}
use silent.Text.Laws.{starts_with-append, rejoin-splitn, rejoin}
use silent.OpenApi.Convert.{
  replace_from, replace, at_colon, at_close, at_open, round, continue_with, convert_loop, rooted,
  convert_path_format,
}

starts_with-length : (p s : Text) → starts_with p s ≡ true → length p ≤ length s
starts_with-length [] s h = omega arith
starts_with-length (c ∷ p) [] h = cc
starts_with-length (c ∷ p) (d ∷ s) h = ground (arith, starts_with-length p s)

replace_from_short :
    (pattern by : Text) (skip : ℕ) (t : Text)
    → length by ≤ length pattern
    → 0 < length pattern
    → length (replace_from pattern by skip t) + min skip (length t) ≤ length t
replace_from_short pattern by skip [] le pos = omega arith
replace_from_short pattern by (suc skip) (c ∷ t) le pos =
    let rest = replace_from_short pattern by skip t le pos in omega arith
replace_from_short pattern by zero (c ∷ t) le pos =
    elim (Bool-cases (starts_with pattern (c ∷ t))) [
      | inl hit ↦
          let fits = starts_with-length pattern (c ∷ t) hit in
          let rest = replace_from_short pattern by (length pattern - 1) t le pos in
          rw (hit, length-append by (replace_from pattern by (length pattern - 1) t)) (omega arith)
      | inr missed ↦ let rest = replace_from_short pattern by 0 t le pos in rw missed (omega arith)
    ]

match_shorter :
    (pattern by : Text) (c : ℕ) (t : Text)
    → length by < length pattern
    → starts_with pattern (c ∷ t) ≡ true
    → length (replace_from pattern by 0 (c ∷ t)) < length (c ∷ t)
match_shorter pattern by c t lt hit =
    let fits = starts_with-length pattern (c ∷ t) hit in
    let rest = replace_from_short pattern by (length pattern - 1) t (omega arith) (omega arith) in
    rw (hit, length-append by (replace_from pattern by (length pattern - 1) t)) (omega arith)

-- With an occurrence of a longer pattern, the text gets shorter.
replace_from_shorter :
    (pattern by before after : Text)
    → length by < length pattern
    → length (replace_from pattern by 0 (before ++ (pattern ++ after)))
      < length (before ++ (pattern ++ after))
replace_from_shorter [] by [] after lt = absurd (omega arith)
replace_from_shorter (d ∷ p) by [] after lt =
    match_shorter (d ∷ p) by d (p ++ after) lt (starts_with-append (d ∷ p) after)
replace_from_shorter pattern by (c ∷ before) after lt =
    elim (Bool-cases (starts_with pattern (c ∷ (before ++ (pattern ++ after))))) [
      | inl hit ↦ match_shorter pattern by c (before ++ (pattern ++ after)) lt hit
      | inr missed ↦
          let rest = replace_from_shorter pattern by before after lt in rw missed (omega arith)
    ]

split_at : (c : ℕ) (t first rest : Text) → splitn c t ≡ (first, some rest) → t ≡ first ++ c ∷ rest
split_at c t first rest e = sym (rejoin-splitn c t) ∙ ap (rejoin c) e

module _ (t : Text) where
  colon_shorter :
      (before rest inner after : Text) (x : Text × Option Text) {t' : Text}
      → t ≡ before ++ b'<' ∷ rest
      → rest ≡ inner ++ b'>' ∷ after
      → splitn b':' inner ≡ x
      → at_colon t inner x ≡ some t'
      → length t' < length t
  unfolding replace
  colon_shorter before rest inner after (name, none) opened closed e found = cc
  colon_shorter before rest inner after (name, some ty) opened closed e found =
      let pattern : Text = b'<' ∷ (inner ++ b'>' ∷ []) in
      let by : Text = b'{' ∷ (name ++ b'}' ∷ []) in
      let whole : t ≡ before ++ (pattern ++ after) =
        opened
        ∙ ap (λ r. before ++ b'<' ∷ r) (closed ∙ sym (append_assoc inner (b'>' ∷ []) after)) in
      let short : length by < length pattern = omega (
        arith,
        length-append name (b'}' ∷ []),
        length-append inner (b'>' ∷ []),
        ap length (split_at b':' inner name ty e),
        length-append name (b':' ∷ ty),
      ) in
      subst (λ u. length u < length t) (some_inj.0 found)
        (subst (λ u. length (replace_from pattern by 0 u) < length u) (sym whole)
          (replace_from_shorter pattern by before after short))

  close_shorter :
      (before rest : Text) (x : Text × Option Text) {t' : Text}
      → t ≡ before ++ b'<' ∷ rest
      → splitn b'>' rest ≡ x
      → at_close t x ≡ some t'
      → length t' < length t
  close_shorter before rest (inner, none) opened e found = cc
  close_shorter before rest (inner, some after) opened e found =
      colon_shorter before rest inner after (splitn b':' inner) opened
        (split_at b'>' rest inner after e) refl found

  open_shorter :
      (x : Text × Option Text) {t' : Text}
      → splitn b'<' t ≡ x
      → at_open t x ≡ some t'
      → length t' < length t
  open_shorter (before, none) e found = cc
  open_shorter (before, some rest) e found =
      close_shorter before rest (splitn b'>' rest) (split_at b'<' t before rest e) refl found

round_shorter : (t : Text) {t' : Text} → round t ≡ some t' → length t' < length t
unfolding round
round_shorter t e = open_shorter t (splitn b'<' t) refl e

-- A text that begins with '/'.
abbrev pub Rooted : Text → Type 0
Rooted t = (v : Text) × (t ≡ b'/' ∷ v)

at_open-Rooted :
    (t : Text) (x : Text × Option Text) {t' : Text} → at_open (b'/' ∷ t) x ≡ some t' → Rooted t'
unfolding replace
at_open-Rooted t (before, none) e = cc
at_open-Rooted t (before, some rest) e = close_Rooted (splitn b'>' rest) e
  where
    colon_Rooted :
        (inner : Text) (x : Text × Option Text) {t' : Text}
        → at_colon (b'/' ∷ t) inner x ≡ some t'
        → Rooted t'
    colon_Rooted inner (name, none) e = cc
    colon_Rooted inner (name, some ty) e = (
      replace_from (b'<' ∷ (inner ++ b'>' ∷ [])) (b'{' ∷ (name ++ b'}' ∷ [])) 0 t,
      sym (some_inj.0 e),
    )

    close_Rooted :
        (x : Text × Option Text) {t' : Text} → at_close (b'/' ∷ t) x ≡ some t' → Rooted t'
    close_Rooted (inner, none) e = cc
    close_Rooted (inner, some after) e = colon_Rooted inner (splitn b':' inner) e

round-Rooted : (t : Text) {t' : Text} → Rooted t → round t ≡ some t' → Rooted t'
unfolding round
round-Rooted t (v, same) e = at_open-Rooted v (splitn b'<' (b'/' ∷ v)) (ap round (sym same) ∙ e)

rooted-Rooted : (path : Text) → Rooted (rooted path)
unfolding rooted
rooted-Rooted [] = ([], refl)
rooted-Rooted (c ∷ path) = elim (Bool-cases (starts_with (text "/") (c ∷ path))) [
  | inl slash ↦ let (rest, same) = starts_with_rest slash in rw slash (rest, same)
  | inr bare ↦ rw bare (c ∷ path, refl)
]
  where
    starts_with_rest : starts_with (text "/") (c ∷ path) ≡ true → Rooted (c ∷ path)
    starts_with_rest h = (path, ap (λ d. d ∷ path) (ground arith))

convert_loop_ends :
    (fuel : ℕ) (t : Text)
    → length t < fuel
    → Rooted t
    → (u : Text) × (convert_loop fuel t ≡ some u) × (round u ≡ none) × Rooted u
unfolding convert_loop
convert_loop_ends zero t lt at = absurd (omega arith)
convert_loop_ends (suc fuel) t lt at = elim (Option-cases (round t)) [
  | inl stop ↦ (t, ap (λ o. continue_with t o (convert_loop fuel)) stop, stop, at)
  | inr (t', go) ↦
      let shorter = round_shorter t go in
      let (u, done, stop, kept) = convert_loop_ends fuel t' (omega arith) (round-Rooted t at go) in
      (u, ap (λ o. continue_with t o (convert_loop fuel)) go ∙ done, stop, kept)
]

-- The conversion of every path ends, with a path that begins with '/' and in which a further round
-- finds nothing to replace.
pub convert_path_format_ends :
    (path : Text) → (u : Text) × (convert_path_format path ≡ some u) × (round u ≡ none) × Rooted u
unfolding convert_path_format
convert_path_format_ends path =
    convert_loop_ends (suc (length (rooted path))) (rooted path) (omega arith) (rooted-Rooted path)
