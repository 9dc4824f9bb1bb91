-- ===== src/Tests/Files.antt =====
-- The theorems on what is served from files at concrete inputs.
use silent.Prelude.{◌≡◌, refl, true, some, ◌=?◌, nat_Eq}
use silent.Text.{text, Text_Eq}
use silent.Middleware.Compression.{Encoders, gzip, negotiate, new_compression}
use silent.Static.Compression.{parse_accept_encoding}
use silent.Static.Compression.Same.{parse_accept_encoding-negotiate}

instance encoders : Encoders
encoders = record {
  parse_zero = λ t. some (t =? text "0");
  readable = λ t. true;
  encode = λ a body. 7;
}

parse_accept_encoding-negotiate_example :
    parse_accept_encoding (text "br;q=0, gzip") ≡ negotiate new_compression (text "br;q=0, gzip")
parse_accept_encoding-negotiate_example =
    parse_accept_encoding-negotiate (text "br;q=0, gzip") (refl, (refl, tt))

-- `*` is gzip for a static file and Brotli for the middleware.
any_encoding : parse_accept_encoding (text "*") ≡ some gzip
unfolding parse_accept_encoding
any_encoding = refl
