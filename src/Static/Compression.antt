-- ===== src/Static/Compression.antt =====
-- silent/src/handler/static/compression.rs: the encoding of a static file. Its enum has the same
-- two cases as the middleware's, which is taken for both, and the parameters of an item are read
-- in the same way. The parser of media types is not the repository's: `MimeApi` is what is read of
-- one.
pub mod Same
use silent.Prelude.{
  ℕ, zero, suc, ◌+◌, ◌-◌, ◌*◌, ◌/◌, ◌%◌, ◌^◌, ◌≤◌, ◌<◌, min, max, String, ◌≡◌, refl, sym, ap, ap₂,
  subst, ◌∙◌, fun_ext, ◌≡⟨◌⟩◌, ◌∎, ◌≢◌, ◌↔◌, ◌⊎◌, inl, inr, Bool, true, false, not, ◌&&◌, ◌||◌,
  Option, none, some, List, [], ◌∷◌, ◌++◌, map, foldr, append-nil, append_assoc, arith, ltb, leb,
  ◌==◌, if◌then◌else◌, ltb→lt, lt→ltb, leb→le, ==_iff, tests, Bool-cases, Option-cases, length,
  get_elem?, take, drop, any, find, retain, length-append, drop-length-append, take-length-append,
  length-drop, length-retain-le, All, All-append, All-get, Eq, ◌=?◌, nat_Eq,
}
use silent.Text.{Text, text, split, trim, Text_Eq}
use silent.Core.Http.{HeaderApi, Request, Response}
use silent.Middleware.Compression.{Algorithm, brotli, gzip, Encoders, encoding_name, zero_quality}

pub record MimeApi (M : Type 0) : Type 0 where
  pub type_ : M → Text
  pub subtype : M → Text

pub record StaticOptions : Type 0 where
  pub enable_compression : Bool
  pub directory_listing : Bool

-- Where the two encodings are first listed.
pub record Places : Type 0 where
  pub brotli_at : Option ℕ
  pub gzip_at : Option ℕ

abbrev pub get_or_insert : ℕ → Option ℕ → Option ℕ
get_or_insert index none = some index
get_or_insert index (some first) = some first

-- The `match` on an encoding.
abbrev pub place_encoding : ℕ → Text → Places → Places
place_encoding index encoding places =
    if encoding =? text "br"
    then record places { brotli_at = get_or_insert index places.brotli_at }
    else if encoding =? text "gzip" || encoding =? text "x-gzip"
    then record places { gzip_at = get_or_insert index places.gzip_at }
    else if encoding =? text "*"
    then record places { gzip_at = get_or_insert (index + 1000) places.gzip_at }
    else places

abbrev pub is_listed : Option ℕ → Bool
is_listed none = false
is_listed (some _) = true

abbrev pub choose_place : Places → Option Algorithm
choose_place places =
    if is_listed places.brotli_at
    then some brotli
    else if is_listed places.gzip_at
    then some gzip
    else none

module _ ⦃encoders : Encoders⦄ where
  abbrev pub place_item : ℕ → Text → List Text → Places → Places
  place_item index encoding params places =
      if zero_quality false params then places else place_encoding index (trim encoding) places

  -- The loop from an item on; `parts.next()?` ends it without an answer.
  abbrev pub place_items : ℕ → List (List Text) → Places → Option Algorithm
  place_items index [] places = choose_place places
  place_items index ([] ∷ items) places = none
  place_items index ((encoding ∷ params) ∷ items) places =
      place_items (suc index) items (place_item index encoding params places)

  unfoldable pub parse_accept_encoding : Text → Option Algorithm
  parse_accept_encoding header =
      place_items 0 (map (λ item. split b';' (trim item)) (split b',' header))
        (record { brotli_at = none; gzip_at = none })

abbrev pub application_subtypes : List Text
application_subtypes =
    text "json"
    ∷ text "xml"
    ∷ text "javascript"
    ∷ text "ecmascript"
    ∷ text "x-javascript"
    ∷ text "xhtml+xml"
    ∷ text "rss+xml"
    ∷ text "svg+xml"
    ∷ []

module _ {M : Type 0} ⦃mimes : MimeApi M⦄ where
  unfoldable pub is_mime_compressible : M → Bool
  is_mime_compressible mime =
      mimes.type_ mime =? text "text"
      || ((mimes.type_ mime =? text "application"
            && any (λ s. s =? mimes.subtype mime) application_subtypes)
          || (mimes.type_ mime =? text "image" && mimes.subtype mime =? text "svg+xml"))

module _ ⦃encoders : Encoders⦄ where
  -- `get(ACCEPT_ENCODING)?` and `to_str().ok()?`
  abbrev pub accepted_by : Option Text → Option Algorithm
  accepted_by none = none
  accepted_by (some value) = if encoders.readable value then parse_accept_encoding value else none

module _ {M H : Type 0} ⦃mimes : MimeApi M⦄ ⦃api : HeaderApi H⦄ ⦃encoders : Encoders⦄ where
  abbrev pub negotiate_for : Request H → Option M → Option Algorithm
  unfolding is_mime_compressible
  negotiate_for req none = none
  negotiate_for req (some content_type) =
      if is_mime_compressible content_type
      then accepted_by (api.get (text "accept-encoding") req.headers)
      else none

  unfoldable pub negotiate_static : StaticOptions → Request H → Option M → Option Algorithm
  negotiate_static options req content_type =
      if options.enable_compression then negotiate_for req content_type else none

module _ {H : Type 0} ⦃api : HeaderApi H⦄ where
  unfoldable pub apply_headers : Response H → Algorithm → Response H
  apply_headers res compression = record res {
    headers =
        api.insert (text "vary") (text "Accept-Encoding")
          (api.insert (text "content-encoding") (encoding_name compression) res.headers);
  }
