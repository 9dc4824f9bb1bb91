-- ===== src/Router/Slice.antt =====
-- The `&str` helpers at the end of silent/src/route/route_tree.rs. A slice is its address and its
-- bytes, since `slice_range` computes with addresses. All cuts are at a '/' or at an end, so they
-- fall between characters.
pub mod Laws
pub mod Offsets
pub mod Static
use silent.Prelude.{
  ℕ, zero, suc, ◌+◌, ◌-◌, ◌≡◌, refl, Bool, ◌&&◌, Option, none, some, List, [], ◌∷◌, length, take,
  drop, if◌then◌else◌, ◌==◌, ltb, ◌=?◌,
}
use silent.Text.{Text, text, is_empty, strip_prefix, Text_Eq}

pub record Str : Type 0 where
  pub addr : ℕ
  pub bytes : Text

-- What the code takes from outside: where the buffer of the request path and the literal `""` lie,
-- the uuid crate's parser, and the order in which a hash map's values are visited.
pub record Platform : Type 0 where
  pub buffer_addr : ℕ
  pub empty_addr : ℕ
  pub parse_uuid : Text → Option ℕ
  pub hash_order : List (Text × ℕ) → List ℕ

-- `&s[..k]` and `&s[k..]`
abbrev pub prefix : ℕ → Str → Str
prefix k s = record { addr = s.addr; bytes = take k s.bytes }

abbrev pub advance : ℕ → Str → Str
advance k s = record { addr = s.addr + k; bytes = drop k s.bytes }

unfoldable pub strip_leading_slash : Str → Str
strip_leading_slash path = elim (strip_prefix (text "/") path.bytes) [
  | some rest ↦ record { addr = path.addr + 1; bytes = rest }
  | none ↦ path
]

-- The first index of a byte.
abbrev next_index : Option ℕ → Option ℕ
next_index none = none
next_index (some i) = some (suc i)

unfoldable pub memchr : ℕ → Text → Option ℕ
memchr c [] = none
memchr c (d ∷ s) = if d == c then some 0 else next_index (memchr c s)

-- `full.len() - remain.len()`
unfoldable pub remain_offset : Str → Str → ℕ
remain_offset full remain = length full.bytes - length remain.bytes

-- `start..end`, where `start` is a difference of addresses that stops at 0.
unfoldable pub slice_range : Str → Str → ℕ × ℕ
slice_range full slice = let start = slice.addr - full.addr in (start, start + length slice.bytes)

-- What follows the value: `rest.strip_prefix('/')`, at an address.
abbrev pub slash_then : ℕ → Option Text → Option Str
slash_then a none = none
slash_then a (some []) = none
slash_then a (some (c ∷ rem)) =
    if c == b'/' then some (record { addr = a + 1; bytes = rem }) else none

abbrev pub after_value : Str → Text → Option Str
after_value trimmed value =
    slash_then (trimmed.addr + length value) (strip_prefix value trimmed.bytes)

module _ ⦃p : Platform⦄ where
  -- The literal `""`.
  abbrev pub empty_str : Str
  empty_str = record { addr = p.empty_addr; bytes = [] }

  -- The cut at the index that `memchr` gives.
  abbrev pub cut_at : Str → Option ℕ → Str × Str
  cut_at trimmed (some idx) = (prefix idx trimmed, advance (idx + 1) trimmed)
  cut_at trimmed none = (trimmed, empty_str)

  unfoldable pub cut_trimmed : Str → Str × Str
  cut_trimmed trimmed =
      if is_empty trimmed.bytes
      then (empty_str, empty_str)
      else cut_at trimmed (memchr b'/' trimmed.bytes)

  unfoldable pub strip_one_segment : Str → Str × Str
  unfolding cut_trimmed
  strip_one_segment path = cut_trimmed (strip_leading_slash path)

  -- The match of a value that is not empty, behind the leading '/'.
  unfoldable pub match_trimmed : Text → Str → Option Str
  match_trimmed value trimmed =
      if trimmed.bytes =? value
      then some empty_str
      else if ltb (length value) (length trimmed.bytes)
      then after_value trimmed value
      else none

  unfoldable pub match_static_segment : Text → Str → Option Str
  unfolding match_trimmed
  match_static_segment value path =
      if is_empty value then some path else match_trimmed value (strip_leading_slash path)
