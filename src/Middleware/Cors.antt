-- ===== src/Middleware/Cors.antt =====
-- silent/src/middleware/middlewares/cors.rs. The header values of the http crate are texts here;
-- `HeaderValues` says which texts are values, and which values `to_str` reads.
pub mod Laws
use silent.Prelude.{
  ℕ, zero, suc, ◌+◌, ◌-◌, ◌*◌, ◌/◌, ◌%◌, ◌^◌, ◌≤◌, ◌<◌, min, max, String, ◌≡◌, refl, sym, ap, ap₂,
  subst, ◌∙◌, fun_ext, ◌≡⟨◌⟩◌, ◌∎, ◌≢◌, ◌↔◌, ◌⊎◌, inl, inr, Bool, true, false, not, ◌&&◌, ◌||◌,
  Option, none, some, List, [], ◌∷◌, ◌++◌, map, foldr, append-nil, append_assoc, arith, ltb, leb,
  ◌==◌, if◌then◌else◌, ltb→lt, lt→ltb, leb→le, ==_iff, tests, Bool-cases, Option-cases, length,
  get_elem?, take, drop, any, find, retain, length-append, drop-length-append, take-length-append,
  length-drop, length-retain-le, All, All-append, All-get, Eq, ◌=?◌, nat_Eq,
}
use silent.Text.{Text, text, is_empty, join, split, Text_Eq}
use silent.Text.Decimal.{decimal}
use silent.Core.Error.{SilentError, Result, ok, err, business_error}
use silent.Core.Http.{
  HeaderApi, Request, Response, empty_response, copy_from_response, error_response,
}
use silent.Core.Next.{Action, Handler, Middleware}

pub record HeaderValues : Type 0 where
  pub parses : Text → Bool
  pub readable : Text → Bool
  pub parse_error : Text

pub data CorsType : Type 0 where
  any_type : CorsType
  allow_some : List Text → CorsType

abbrev pub get_value : CorsType → Text
get_value any_type = text "*"
get_value (allow_some value) = join (text ",") value

-- `CorsType::from` of a text
unfoldable pub cors_type_from : Text → CorsType
cors_type_from value = if value =? text "*" then any_type else allow_some (split b',' value)

pub data CorsOriginType : Type 0 where
  any_origin : CorsOriginType
  some_origins : List Text → CorsOriginType

abbrev pub found_or_empty : Option Text → Text
found_or_empty none = []
found_or_empty (some v) = v

-- `CorsOriginType::get_value`
abbrev pub origin_value : Text → CorsOriginType → Text
origin_value origin any_origin = origin
origin_value origin (some_origins value) = found_or_empty (find (λ v. v =? origin) value)

abbrev pub origin_from : CorsType → CorsOriginType
origin_from any_type = any_origin
origin_from (allow_some value) = some_origins value

pub record Cors (H : Type 0) : Type 0 where
  pub origin : Option CorsOriginType
  pub methods : Option CorsType
  pub headers : Option CorsType
  pub credentials : Option Bool
  pub max_age : Option ℕ
  pub expose : Option CorsType
  pub cached_headers : Option H

module _ {H : Type 0} where
  unfoldable pub new_cors : Cors H
  new_cors = record {
    origin = none;
    methods = none;
    headers = none;
    credentials = none;
    max_age = none;
    expose = none;
    cached_headers = none;
  }

  unfoldable pub set_origin : CorsType → Cors H → Cors H
  set_origin origin self = record self { origin = some (origin_from origin) }

  unfoldable pub set_methods : CorsType → Cors H → Cors H
  set_methods methods self = record self { methods = some methods }

  unfoldable pub set_headers : CorsType → Cors H → Cors H
  set_headers headers self = record self { headers = some headers }

  unfoldable pub set_credentials : Bool → Cors H → Cors H
  set_credentials credentials self = record self { credentials = some credentials }

  unfoldable pub set_max_age : ℕ → Cors H → Cors H
  set_max_age max_age self = record self { max_age = some max_age }

  unfoldable pub set_expose : CorsType → Cors H → Cors H
  set_expose expose self = record self { expose = some expose }

abbrev pub show_bool : Bool → Text
show_bool true = text "true"
show_bool false = text "false"

module _ ⦃values : HeaderValues⦄ where
  abbrev pub readable_or_empty : Option Text → Text
  readable_or_empty none = []
  readable_or_empty (some v) = if values.readable v then v else []

abbrev pub not_allowed : Text → SilentError
not_allowed req_origin =
    business_error 403 (text "Cors: Origin \"" ++ (req_origin ++ text "\" is not allowed"))

module _ {H : Type 0} ⦃api : HeaderApi H⦄ ⦃values : HeaderValues⦄ where
  -- A header whose value is there and parses.
  abbrev pub insert_some : {A : Type 0} → String → (A → Text) → Option A → H → H
  insert_some name show none headers = headers
  insert_some name show (some a) headers =
      if values.parses (show a) then api.insert (text name) (show a) headers else headers

  -- What `get_or_init` builds.
  unfoldable pub static_headers : Cors H → H
  static_headers self = insert_some "access-control-expose-headers" get_value self.expose (
      insert_some "access-control-max-age" decimal self.max_age (
        insert_some "access-control-allow-credentials" show_bool self.credentials (
          insert_some "access-control-allow-headers" get_value self.headers
            (insert_some "access-control-allow-methods" get_value self.methods api.empty))))

  abbrev pub get_or_init : Option H → H → H
  get_or_init none built = built
  get_or_init (some cached) built = cached

  -- The headers, and the middleware with its cache filled.
  unfoldable pub get_cached_headers : Cors H → H × Cors H
  unfolding static_headers
  get_cached_headers self =
      let headers = get_or_init self.cached_headers (static_headers self) in
      (headers, record self { cached_headers = some headers })

  -- The `origin` header of a request.
  abbrev pub origin_of : Request H → Text
  origin_of req = readable_or_empty (api.get (text "origin") req.headers)

  -- The header of an allowed origin.
  abbrev pub allow : Text → Text → Response H → Result (Response H)
  allow req_origin origin res =
      if is_empty origin
      then err (not_allowed req_origin)
      else if values.parses origin
      then ok (record res {
        headers = api.insert (text "access-control-allow-origin") origin res.headers;
      })
      else err (
          business_error 500
            (text "Cors: Failed to parse cors allow origin: " ++ values.parse_error))

  abbrev pub with_origin : Text → Option CorsOriginType → Response H → Result (Response H)
  with_origin req_origin none res = ok res
  with_origin req_origin (some origin) res = allow req_origin (origin_value req_origin origin) res

  -- What the rest of the chain answers is copied into the response; an error becomes one first.
  abbrev pub copied : (Text → Bool) → Response H → Result (Response H) → Result (Response H)
  copied is_json res (ok result) = ok (copy_from_response res result)
  copied is_json res (err e) = ok (copy_from_response res (error_response is_json e))

  abbrev pub answer :
      {W : Type 0} → (Text → Bool) → Response H → Result (Response H) × W → Result (Response H) × W
  answer is_json res (r, w) = (copied is_json res r, w)

  abbrev pub go_on :
      {W : Type 0} → (Text → Bool) → Request H → Handler H W → Result (Response H) → Action H W
  go_on is_json req next (err e) w = (err e, w)
  go_on is_json req next (ok res) w =
      if req.method =? text "OPTIONS" then (ok res, w) else answer is_json res (next req w)

  -- `handle`
  unfoldable pub handle : {W : Type 0} → (Text → Bool) → Cors H → Middleware H W
  unfolding empty_response get_cached_headers
  handle is_json self req next w =
      let headers = (get_cached_headers self).0 in
      let res : Response H = record empty_response { headers = api.extend api.empty headers } in
      if is_empty (origin_of req)
      then next req w
      else go_on is_json req next (with_origin (origin_of req) self.origin res) w
