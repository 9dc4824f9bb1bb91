-- ===== src/Static/Compression/Same.antt =====
-- The choice of an encoding for static files and that of the middleware.
use silent.Prelude.{
  ℕ, suc, ◌≡◌, refl, sym, ap, subst, inl, inr, true, false, Option, none, some, List, [], ◌∷◌, map,
  arith, ◌==◌, Bool-cases, All, ◌=?◌, nat_Eq,
}
use silent.Text.{Text, text, split, cons_head, trim, Text_Eq}
use silent.Middleware.Compression.{
  Encoders, Accepted, accept_encoding, accept_item, accept_items, choose, negotiate, zero_quality,
  new_compression,
}
use silent.Static.Compression.{
  Places, get_or_insert, place_encoding, is_listed, choose_place, place_item, place_items,
  parse_accept_encoding,
}

-- The same encodings have been seen.
abbrev Agree : Places → Accepted → Type 0
Agree places acc =
    (is_listed places.brotli_at ≡ acc.brotli_ok) × (is_listed places.gzip_at ≡ acc.gzip_ok)

-- The item is not for every encoding.
abbrev pub NotStar : List Text → Type 0
NotStar [] = Unit
NotStar (encoding ∷ params) = (trim encoding =? text "*") ≡ false

is_listed-get_or_insert : (n : ℕ) (o : Option ℕ) → is_listed (get_or_insert n o) ≡ true
is_listed-get_or_insert n none = refl
is_listed-get_or_insert n (some m) = refl

place_encoding-Agree :
    (index : ℕ) (encoding : Text) (places : Places) (acc : Accepted)
    → (encoding =? text "*") ≡ false
    → Agree places acc
    → Agree (place_encoding index encoding places) (accept_encoding new_compression encoding acc)
unfolding new_compression
place_encoding-Agree index encoding places acc apart (b, g) = ground (
  arith,
  is_listed-get_or_insert index places.brotli_at,
  is_listed-get_or_insert index places.gzip_at,
)

choose-Agree :
    (places : Places) (acc : Accepted) → Agree places acc → choose_place places ≡ choose acc
choose-Agree places acc (b, g) = rw b (rw g refl)

split_cons : (c : ℕ) (s : Text) → (first : Text) × (rest : List Text) × (split c s ≡ first ∷ rest)
split_cons c [] = ([], [], refl)
split_cons c (d ∷ s) =
    let (first, rest, e) = split_cons c s in
    elim (Bool-cases (d == c)) [
      | inl cut ↦ ([], split c s, rw cut refl)
      | inr joined ↦ (d ∷ first, rest, rw joined (ap (cons_head d) e))
    ]

module _ ⦃encoders : Encoders⦄ where
  place_item-Agree :
      (index : ℕ) (encoding : Text) (params : List Text) (places : Places) (acc : Accepted)
      → (trim encoding =? text "*") ≡ false
      → Agree places acc
      → Agree
          (place_item index encoding params places)
          (accept_item new_compression (encoding ∷ params) acc)
  place_item-Agree index encoding params places acc apart agree =
      elim (Bool-cases (zero_quality false params)) [
        | inl zero_q ↦ rw zero_q agree
        | inr more ↦ rw more (place_encoding-Agree index (trim encoding) places acc apart agree)
      ]

  place_items-Agree :
      (index : ℕ) (items : List Text) (places : Places) (acc : Accepted)
      → All (λ item. NotStar (split b';' (trim item))) items
      → Agree places acc
      → place_items index (map (λ item. split b';' (trim item)) items) places
        ≡ choose (accept_items new_compression items acc)
  place_items-Agree index [] places acc plain agree = choose-Agree places acc agree
  place_items-Agree index (item ∷ items) places acc (first, plain) agree =
      let (encoding, params, e) = split_cons b';' (trim item) in
      subst
        (λ parts.
          place_items index (parts ∷ map (λ other. split b';' (trim other)) items) places
          ≡ choose (accept_items new_compression items (accept_item new_compression parts acc)))
        (sym e)
        (place_items-Agree (suc index) items (place_item index encoding params places)
          (accept_item new_compression (encoding ∷ params) acc) plain
          (place_item-Agree index encoding params places acc (subst NotStar e first) agree))

  -- For a header without an item for `*`, the static files and the compression middleware as it is
  -- made at first choose the same encoding, or both none.
  pub parse_accept_encoding-negotiate :
      (header : Text)
      → All (λ item. NotStar (split b';' (trim item))) (split b',' header)
      → parse_accept_encoding header ≡ negotiate new_compression header
  unfolding parse_accept_encoding negotiate
  parse_accept_encoding-negotiate header plain =
      place_items-Agree 0 (split b',' header) (record { brotli_at = none; gzip_at = none })
        (record { brotli_ok = false; gzip_ok = false }) plain (refl, refl)
