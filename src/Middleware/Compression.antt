-- ===== src/Middleware/Compression.antt =====
-- silent/src/middleware/middlewares/compression.rs. `Encoders` is what is not the repository's: the
-- number parser of Rust, of which only the test for zero is read, and the encoders.
pub mod Choice
pub mod Laws
use silent.Prelude.{
  ℕ, zero, suc, ◌+◌, ◌-◌, ◌*◌, ◌/◌, ◌%◌, ◌^◌, ◌≤◌, ◌<◌, min, max, String, ◌≡◌, refl, sym, ap, ap₂,
  subst, ◌∙◌, fun_ext, ◌≡⟨◌⟩◌, ◌∎, ◌≢◌, ◌↔◌, ◌⊎◌, inl, inr, Bool, true, false, not, ◌&&◌, ◌||◌,
  Option, none, some, List, [], ◌∷◌, ◌++◌, map, foldr, append-nil, append_assoc, arith, ltb, leb,
  ◌==◌, if◌then◌else◌, ltb→lt, lt→ltb, leb→le, ==_iff, tests, Bool-cases, Option-cases, length,
  get_elem?, take, drop, any, find, retain, length-append, drop-length-append, take-length-append,
  length-drop, length-retain-le, All, All-append, All-get, Eq, ◌=?◌, nat_Eq,
}
use silent.Text.{Text, text, split, splitn, trim, starts_with, Text_Eq}
use silent.Core.Error.{SilentError, Result, ok, err}
use silent.Core.Http.{
  HeaderApi, Request, Response, ResBody, no_body, once, chunks, incoming, stream, boxed,
}
use silent.Core.Next.{Action, Handler, Middleware}

pub data Algorithm : Type 0 where
  brotli gzip : Algorithm

pub record Encoders : Type 0 where
  -- `parse::<f32>()`: none if it fails, and else whether the number is zero
  pub parse_zero : Text → Option Bool
  pub readable : Text → Bool
  -- the source of the stream that compresses a body
  pub encode : Algorithm → ResBody → ℕ

pub record Compression : Type 0 where
  pub enable_brotli : Bool
  pub enable_gzip : Bool
  pub min_size : ℕ

unfoldable pub new_compression : Compression
new_compression = record { enable_brotli = true; enable_gzip = true; min_size = 128 }

unfoldable pub gzip_only : Compression
gzip_only = record { enable_brotli = false; enable_gzip = true; min_size = 128 }

unfoldable pub brotli_only : Compression
brotli_only = record { enable_brotli = true; enable_gzip = false; min_size = 128 }

unfoldable pub set_min_size : ℕ → Compression → Compression
set_min_size size self = record self { min_size = size }

abbrev pub or_keep : Bool → Option Bool → Bool
or_keep zero_so_far none = zero_so_far
or_keep zero_so_far (some is_zero) = is_zero

module _ ⦃encoders : Encoders⦄ where
  -- One parameter of an item, by its name and its value: only a `q` with a number counts.
  abbrev pub quality_of : Bool → Text × Option Text → Bool
  quality_of zero_so_far (name, none) = zero_so_far
  quality_of zero_so_far (name, some value) =
      if trim name =? text "q"
      then or_keep zero_so_far (encoders.parse_zero (trim value))
      else zero_so_far

  -- Whether the quality is zero, after all the parameters.
  abbrev pub zero_quality : Bool → List Text → Bool
  zero_quality zero_so_far [] = zero_so_far
  zero_quality zero_so_far (param ∷ params) =
      zero_quality (quality_of zero_so_far (splitn b'=' param)) params

-- `brotli_ok` and `gzip_ok`
pub record Accepted : Type 0 where
  pub brotli_ok : Bool
  pub gzip_ok : Bool

-- The `match` on an encoding.
abbrev pub accept_encoding : Compression → Text → Accepted → Accepted
accept_encoding self encoding acc =
    if (encoding =? text "br") && self.enable_brotli
    then record acc { brotli_ok = true }
    else if (encoding =? text "gzip" || encoding =? text "x-gzip") && self.enable_gzip
    then record acc { gzip_ok = true }
    else if (encoding =? text "*") && self.enable_brotli
    then record acc { brotli_ok = true }
    else if (encoding =? text "*") && self.enable_gzip
    then record acc { gzip_ok = true }
    else acc

module _ ⦃encoders : Encoders⦄ where
  -- An item, split at its semicolons.
  abbrev pub accept_item : Compression → List Text → Accepted → Accepted
  accept_item self [] acc = accept_encoding self [] acc
  accept_item self (encoding ∷ params) acc =
      if zero_quality false params then acc else accept_encoding self (trim encoding) acc

  abbrev pub accept_items : Compression → List Text → Accepted → Accepted
  accept_items self [] acc = acc
  accept_items self (item ∷ items) acc =
      accept_items self items (accept_item self (split b';' (trim item)) acc)

abbrev pub choose : Accepted → Option Algorithm
choose acc = if acc.brotli_ok then some brotli else if acc.gzip_ok then some gzip else none

module _ ⦃encoders : Encoders⦄ where
  unfoldable pub negotiate : Compression → Text → Option Algorithm
  negotiate self accept =
      choose (accept_items self (split b',' accept) (record { brotli_ok = false; gzip_ok = false }))

abbrev pub lower : ℕ → ℕ
lower c = if leb b'A' c && leb c b'Z' then c + 32 else c

abbrev pub first_or_empty : List Text → Text
first_or_empty [] = []
first_or_empty (t ∷ _) = t

abbrev pub compressible_types : List Text
compressible_types =
    text "application/json"
    ∷ text "application/xml"
    ∷ text "application/javascript"
    ∷ text "application/ecmascript"
    ∷ text "application/x-javascript"
    ∷ text "application/xhtml+xml"
    ∷ text "application/rss+xml"
    ∷ text "application/svg+xml"
    ∷ text "image/svg+xml"
    ∷ []

unfoldable pub is_compressible : Text → Bool
is_compressible content_type =
    let mime_part = trim (first_or_empty (split b';' (map lower content_type))) in
    starts_with (text "text/") mime_part || any (λ t. t =? mime_part) compressible_types

abbrev pub encoding_name : Algorithm → Text
encoding_name brotli = text "br"
encoding_name gzip = text "gzip"

-- `size_hint().upper()` of a body
abbrev pub upper : ResBody → Option ℕ
upper no_body = some 0
upper (once bytes) = some (length bytes)
upper (chunks parts) = some (foldr (λ part n. length part + n) 0 parts)
upper (incoming recv) = recv.size_upper
upper (boxed recv) = recv.size_upper
upper (stream source) = none

-- A body that is known to be smaller than the threshold.
abbrev pub below : ℕ → Option ℕ → Bool
below min_size none = false
below min_size (some size) = ltb 0 min_size && ltb size min_size

abbrev pub is_there : Option Text → Bool
is_there none = false
is_there (some _) = true

module _ ⦃encoders : Encoders⦄ where
  -- The algorithm for a request.
  abbrev pub algorithm_of : Compression → Option Text → Option Algorithm
  algorithm_of self none = none
  algorithm_of self (some accept) = if encoders.readable accept then negotiate self accept else none

  abbrev pub type_compresses : Option Text → Bool
  type_compresses none = false
  type_compresses (some t) = if encoders.readable t then is_compressible t else false

module _ {H : Type 0} ⦃api : HeaderApi H⦄ ⦃encoders : Encoders⦄ where
  -- The early returns.
  abbrev pub leaves_alone : Compression → Response H → Bool
  leaves_alone self res =
      is_there (api.get (text "content-encoding") res.headers)
      || (not (type_compresses (api.get (text "content-type") res.headers))
          || below self.min_size (upper res.body))

  abbrev pub compressed : Algorithm → Response H → Response H
  compressed algorithm res = record res {
    headers = api.remove (text "content-length") (
        api.insert (text "vary") (text "Accept-Encoding")
          (api.insert (text "content-encoding") (encoding_name algorithm) res.headers));
    body = stream (encoders.encode algorithm res.body);
  }

  abbrev pub finish_with :
      Compression → Option Algorithm → Result (Response H) → Result (Response H)
  finish_with self algorithm (err e) = err e
  finish_with self none (ok res) = ok res
  finish_with self (some algorithm) (ok res) =
      ok (if leaves_alone self res then res else compressed algorithm res)

  -- `handle`
  unfoldable pub handle : {W : Type 0} → Compression → Middleware H W
  handle self req next w =
      let (r, v) = next req w in
      (finish_with self (algorithm_of self (api.get (text "accept-encoding") req.headers)) r, v)
