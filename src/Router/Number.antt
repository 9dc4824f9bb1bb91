-- ===== src/Router/Number.antt =====
-- `str::parse` of the standard library at `i32`, `i64`, `u64` and `u32`: an optional sign, at least
-- one digit, and a value in range.
use silent.Prelude.{
  ℕ, ◌+◌, ◌-◌, ◌*◌, ◌<◌, ◌≡◌, Bool, ◌&&◌, Option, none, some, [], ◌∷◌, if◌then◌else◌, ◌==◌, ltb,
  leb, arith,
}
use silent.Prelude.Int.{ℤ, pos, negsuc, pos_part, neg_part}
use silent.Text.{Text}

abbrev is_digit : ℕ → Bool
is_digit c = leb b'0' c && leb c b'9'

-- The value of the digits after those that make `acc`.
digits_from : ℕ → Text → Option ℕ
digits_from acc [] = some acc
digits_from acc (c ∷ s) =
    let rest = digits_from (acc * 10 + (c - b'0')) s in if is_digit c then rest else none

digits : Text → Option ℕ
unfolding digits_from
digits [] = none
digits (c ∷ s) = digits_from 0 (c ∷ s)

abbrev below : ℕ → Option ℕ → Option ℕ
below limit none = none
below limit (some n) = if ltb n limit then some n else none

-- The numbers below `limit`; a `+` may stand in front.
unfoldable pub parse_unsigned : ℕ → Text → Option ℕ
unfolding digits
parse_unsigned limit [] = none
parse_unsigned limit (c ∷ s) = below limit (if c == b'+' then digits s else digits (c ∷ s))

abbrev negated : Option ℕ → Option ℤ
negated none = none
negated (some n) = some (if n == 0 then pos 0 else negsuc (n - 1))

abbrev positive : Option ℕ → Option ℤ
positive none = none
positive (some n) = some (pos n)

-- The numbers from `-half` up to `half - 1`.
unfoldable pub parse_signed : ℕ → Text → Option ℤ
unfolding digits
parse_signed half [] = none
parse_signed half (c ∷ s) =
    if c == b'-'
    then negated (below (half + 1) (digits s))
    else positive (below half (if c == b'+' then digits s else digits (c ∷ s)))

-- A parsed number lies in the type's range.
pub parse_unsigned_bound :
    (limit : ℕ) (s : Text) {n : ℕ} → parse_unsigned limit s ≡ some n → n < limit
unfolding parse_unsigned
parse_unsigned_bound limit [] e = ground arith
parse_unsigned_bound limit (c ∷ s) {n} e = ground arith

pub parse_signed_bound :
    (half : ℕ) (s : Text) {v : ℤ}
    → parse_signed half s ≡ some v
    → (pos_part v < half + 1) × (neg_part v < half + 1)
unfolding parse_signed
parse_signed_bound half [] e = ground arith
parse_signed_bound half (c ∷ s) {v} e = ground arith
