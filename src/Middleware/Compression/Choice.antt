-- ===== src/Middleware/Compression/Choice.antt =====
-- Which algorithm is negotiated.
use silent.Prelude.{
  ◌≡◌, Option, inl, inr, true, false, none, some, List, [], ◌∷◌, arith, Bool-cases, nat_Eq,
}
use mathlib.Core.Bool.{false≢true}
use silent.Text.{Text, split, trim, Text_Eq}
use silent.Middleware.Compression.{
  Algorithm, brotli, gzip, Encoders, Compression, Accepted, accept_encoding, accept_item,
  accept_items, choose, negotiate, zero_quality, algorithm_of,
}

-- The algorithm is switched on.
abbrev pub Enabled : Compression → Algorithm → Type 0
Enabled self brotli = self.enable_brotli ≡ true
Enabled self gzip = self.enable_gzip ≡ true

-- What is accepted is switched on.
abbrev Sound : Compression → Accepted → Type 0
Sound self acc =
    (acc.brotli_ok ≡ true → self.enable_brotli ≡ true)
    × (acc.gzip_ok ≡ true → self.enable_gzip ≡ true)

accept_encoding-Sound :
    (self : Compression) (encoding : Text) (acc : Accepted)
    → Sound self acc
    → Sound self (accept_encoding self encoding acc)
accept_encoding-Sound self encoding acc (b, g) = ground arith

module _ ⦃encoders : Encoders⦄ where
  accept_item-Sound :
      (self : Compression) (parts : List Text) (acc : Accepted)
      → Sound self acc
      → Sound self (accept_item self parts acc)
  accept_item-Sound self [] acc s = accept_encoding-Sound self [] acc s
  accept_item-Sound self (e ∷ params) acc s = elim (Bool-cases (zero_quality false params)) [
    | inl zero_q ↦ rw zero_q s
    | inr more ↦ rw more (accept_encoding-Sound self (trim e) acc s)
  ]

  accept_items-Sound :
      (self : Compression) (items : List Text) (acc : Accepted)
      → Sound self acc
      → Sound self (accept_items self items acc)
  accept_items-Sound self [] acc s = s
  accept_items-Sound self (item ∷ items) acc s =
      accept_items-Sound self items (accept_item self (split b';' (trim item)) acc)
        (accept_item-Sound self (split b';' (trim item)) acc s)

  choose-Sound :
      (self : Compression) (acc : Accepted) (a : Algorithm)
      → Sound self acc
      → choose acc ≡ some a
      → Enabled self a
  choose-Sound self acc brotli (b, g) e = ground arith
  choose-Sound self acc gzip (b, g) e = ground arith

  -- Only an algorithm that is switched on is negotiated, whatever the client accepts.
  negotiate-Enabled :
      (self : Compression) (accept : Text) (a : Algorithm)
      → negotiate self accept ≡ some a
      → Enabled self a
  unfolding negotiate
  negotiate-Enabled self accept a e =
      let start : Accepted = record { brotli_ok = false; gzip_ok = false } in
      let sound : Sound self start = (λ h. absurd (false≢true h), λ h. absurd (false≢true h)) in
      choose-Sound self (accept_items self (split b',' accept) start) a
        (accept_items-Sound self (split b',' accept) start sound) e

  pub algorithm_of-Enabled :
      (self : Compression) (accept : Option Text) (a : Algorithm)
      → algorithm_of self accept ≡ some a
      → Enabled self a
  algorithm_of-Enabled self none a e = cc
  algorithm_of-Enabled self (some accept) a e = elim (Bool-cases (encoders.readable accept)) [
    | inl readable ↦ negotiate-Enabled self accept a (rw readable at e)
    | inr unreadable ↦ let none_left : none ≡ some a = rw unreadable at e in cc
  ]
