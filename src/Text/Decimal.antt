-- ===== src/Text/Decimal.antt =====
-- The decimal digits that Rust's formatting writes for an unsigned integer.
use silent.Prelude.{
  ℕ, zero, suc, ◌+◌, ◌-◌, ◌*◌, ◌/◌, ◌%◌, ◌≤◌, ◌<◌, ◌≡◌, refl, ◌∙◌, inl, inr, false, [], ◌∷◌, ◌++◌,
  arith, ltb, if◌then◌else◌, ltb→lt, lt→ltb, tests, Bool-cases, All, All-append, nat_Eq,
}
use silent.Text.{Text, contains}

-- `n.to_string()`. A number has no more digits than its value plus one.
decimal_from : ℕ → ℕ → Text
decimal_from zero n = []
decimal_from (suc fuel) n =
    let rest = decimal_from fuel (n / 10) in
    if ltb n 10 then (b'0' + n) ∷ [] else rest ++ ((b'0' + n % 10) ∷ [])

unfoldable pub decimal : ℕ → Text
unfolding decimal_from
decimal n = decimal_from (suc n) n

-- The number that digits stand for.
abbrev pub value_after : ℕ → Text → ℕ
value_after acc [] = acc
value_after acc (c ∷ s) = value_after (acc * 10 + (c - b'0')) s

abbrev pub value_of : Text → ℕ
value_of s = value_after 0 s

pub value_after-append :
    (acc : ℕ) (s rest : Text) → value_after acc (s ++ rest) ≡ value_after (value_after acc s) rest
value_after-append acc [] rest = refl
value_after-append acc (c ∷ s) rest = value_after-append (acc * 10 + (c - b'0')) s rest

value_of-decimal_from : (fuel n : ℕ) → n < fuel → value_of (decimal_from fuel n) ≡ n
unfolding decimal_from
value_of-decimal_from zero n lt = elim lt [ ]
value_of-decimal_from (suc fuel) n lt = elim (Bool-cases (ltb n 10)) [
  | inl small ↦ rw small omega (arith, tests)
  | inr large ↦
      let ih = value_of-decimal_from fuel (n / 10) (grind (arith, tests)) in
      let app = value_after-append 0 (decimal_from fuel (n / 10)) ((b'0' + n % 10) ∷ []) in
      rw (large, app, ih) omega arith
]

pub value_of-decimal : (n : ℕ) → value_of (decimal n) ≡ n
unfolding decimal
value_of-decimal n = value_of-decimal_from (suc n) n (omega arith)

-- All the digits of a number are digits, so none of them is another byte.
abbrev pub Digits : Text → Type 0
Digits s = All (λ c. (b'0' ≤ c) × (c ≤ b'9')) s

decimal_from-Digits : (fuel n : ℕ) → Digits (decimal_from fuel n)
unfolding decimal_from
decimal_from-Digits zero n = tt
decimal_from-Digits (suc fuel) n = elim (Bool-cases (ltb n 10)) [
  | inl small ↦ let lt = ltb→lt n 10 small in rw small ((omega arith, omega arith), tt)
  | inr large ↦
      let last : Digits ((b'0' + n % 10) ∷ []) = ((omega arith, omega arith), tt) in
      rw large (
        All-append (λ c. (b'0' ≤ c) × (c ≤ b'9')) (decimal_from fuel (n / 10))
          ((b'0' + n % 10) ∷ []) (decimal_from-Digits fuel (n / 10)) last)
]

Digits-contains : (c : ℕ) (s : Text) → Digits s → c < b'0' → contains c s ≡ false
Digits-contains c [] ds lt = refl
Digits-contains c (d ∷ s) ((low, high), ds) lt = ground (arith, Digits-contains c s)

pub contains-decimal : (c n : ℕ) → c < b'0' → contains c (decimal n) ≡ false
unfolding decimal
contains-decimal c n lt = Digits-contains c (decimal n) (decimal_from-Digits (suc n) n) lt

-- What digits add to those read before them.
value_after_small :
    (fuel acc n : ℕ) → n < fuel → n < 10 → value_after acc (decimal_from fuel n) ≡ acc * 10 + n
unfolding decimal_from
value_after_small zero acc n lt small = elim lt [ ]
value_after_small (suc fuel) acc n lt small = rw (lt→ltb n 10 small) omega arith

value_after_large :
    (fuel acc n : ℕ)
    → 10 ≤ n
    → value_after acc (decimal_from (suc fuel) n)
      ≡ value_after acc (decimal_from fuel (n / 10)) * 10 + n % 10
unfolding decimal_from
value_after_large fuel acc n large =
    let e : ltb n 10 ≡ false = ground arith in
    rw (e, value_after-append acc (decimal_from fuel (n / 10)) ((b'0' + n % 10) ∷ [])) omega arith

value_after_two :
    (fuel acc n : ℕ)
    → n < fuel
    → 10 ≤ n
    → n < 100
    → value_after acc (decimal_from fuel n) ≡ acc * 100 + n
value_after_two zero acc n lt large small = elim lt [ ]
value_after_two (suc fuel) acc n lt large small =
    let digit = value_after_small fuel acc (n / 10) (omega arith) (omega arith) in
    value_after_large fuel acc n large ∙ rw digit omega arith

value_after_three :
    (fuel acc n : ℕ)
    → n < fuel
    → 100 ≤ n
    → n < 1000
    → value_after acc (decimal_from fuel n) ≡ acc * 1000 + n
value_after_three zero acc n lt large small = elim lt [ ]
value_after_three (suc fuel) acc n lt large small =
    let digits = value_after_two fuel acc (n / 10) (omega arith) (omega arith) (omega arith) in
    value_after_large fuel acc n (omega arith) ∙ rw digits omega arith

pub value_after-decimal_small : (acc n : ℕ) → n < 10 → value_after acc (decimal n) ≡ acc * 10 + n
unfolding decimal
value_after-decimal_small acc n = value_after_small (suc n) acc n (omega arith)

pub value_after-decimal_two :
    (acc n : ℕ) → 10 ≤ n → n < 100 → value_after acc (decimal n) ≡ acc * 100 + n
unfolding decimal
value_after-decimal_two acc n = value_after_two (suc n) acc n (omega arith)

pub value_after-decimal_three :
    (acc n : ℕ) → 100 ≤ n → n < 1000 → value_after acc (decimal n) ≡ acc * 1000 + n
unfolding decimal
value_after-decimal_three acc n = value_after_three (suc n) acc n (omega arith)
