-- ===== src/Text/Laws.antt =====
-- Laws of the text operations: stripping a prefix, splitting and joining.
use silent.Prelude.{
  true, ℕ, ◌≡◌, refl, false, Option, none, some, List, [], ◌∷◌, ◌++◌, arith, ◌==◌, All, ◌≤◌, length,
}
use silent.Text.{
  starts_with, Text, strip_prefix, contains, trim_start_matches, splitn, split, cons_head,
}

pub strip_prefix-append : (p s : Text) → strip_prefix p (p ++ s) ≡ some s
strip_prefix-append [] s = refl
strip_prefix-append (c ∷ p) s = ground (arith, strip_prefix-append p s)

pub strip_prefix-eq-some : (p s : Text) {rest : Text} → strip_prefix p s ≡ some rest → s ≡ p ++ rest
strip_prefix-eq-some [] s e = ground arith
strip_prefix-eq-some (p ∷ ps) [] e = cc
strip_prefix-eq-some (p ∷ ps) (c ∷ s) {rest} e =
    ground (arith, strip_prefix-eq-some ps s {rest = rest})

pub starts_with-append : (p s : Text) → starts_with p (p ++ s) ≡ true
starts_with-append [] s = refl
starts_with-append (c ∷ p) s = ground (arith, starts_with-append p s)

-- `splitn` at its first occurrence of the byte: the first part has none.
pub splitn_first : (c : ℕ) (s : Text) → contains c (splitn c s).0 ≡ false
splitn_first c [] = refl
splitn_first c (d ∷ s) = ground (arith, splitn_first c s)

-- The two parts, and the byte between them, make up the text again.
abbrev pub rejoin : ℕ → Text × Option Text → Text
rejoin c (first, none) = first
rejoin c (first, some rest) = first ++ (c ∷ rest)

pub rejoin-splitn : (c : ℕ) (s : Text) → rejoin c (splitn c s) ≡ s
rejoin-splitn c [] = refl
rejoin-splitn c (d ∷ s) = ground (arith, rejoin-splitn c s)

pub splitn_of_clean : (c : ℕ) (s : Text) → contains c s ≡ false → splitn c s ≡ (s, none)
splitn_of_clean c [] h = refl
splitn_of_clean c (d ∷ s) h = ground (arith, splitn_of_clean c s)

pub splitn-append :
    (c : ℕ) (s rest : Text) → contains c s ≡ false → splitn c (s ++ (c ∷ rest)) ≡ (s, some rest)
splitn-append c [] rest h = ground arith
splitn-append c (d ∷ s) rest h = ground (arith, splitn-append c s rest)

-- No part of a split has the separator.
cons_head-All :
    (c d : ℕ) (parts : List Text)
    → (d == c) ≡ false
    → All (λ p. contains c p ≡ false) parts
    → All (λ p. contains c p ≡ false) (cons_head d parts)
cons_head-All c d [] e h = ground arith
cons_head-All c d (p ∷ parts) e h = ground arith

pub split_clean : (c : ℕ) (s : Text) → All (λ p. contains c p ≡ false) (split c s)
split_clean c [] = (refl, tt)
split_clean c (d ∷ s) = ground (arith, split_clean c s, cons_head-All c d (split c s))

pub trim_start_matches_le : (c : ℕ) (s : Text) → length (trim_start_matches c s) ≤ length s
trim_start_matches_le c [] = omega arith
trim_start_matches_le c (d ∷ s) = ground (arith, trim_start_matches_le c s)

pub split-append :
    (c : ℕ) (s rest : Text) → contains c s ≡ false → split c (s ++ (c ∷ rest)) ≡ s ∷ split c rest
split-append c [] rest h = ground arith
split-append c (d ∷ s) rest h = ground (arith, split-append c s rest)

pub contains-either :
    (c : ℕ) (s t : Text) → contains c s ≡ false → contains c t ≡ false → contains c (s ++ t) ≡ false
contains-either c [] t a b = b
contains-either c (d ∷ s) t a b = ground (arith, contains-either c s t)
