-- ===== src/OpenApi/Operation.antt =====
-- silent-openapi/src/route.rs: the operation that a method of a route is documented by. What
-- utoipa builds is a record of the parts that are set; a schema that is referred to is its name.
pub mod Parameters
use silent.Prelude.{
  ℕ, zero, suc, ◌+◌, ◌-◌, ◌*◌, ◌/◌, ◌%◌, ◌^◌, ◌≤◌, ◌<◌, min, max, String, ◌≡◌, refl, sym, ap, ap₂,
  subst, ◌∙◌, fun_ext, ◌≡⟨◌⟩◌, ◌∎, ◌≢◌, ◌↔◌, ◌⊎◌, inl, inr, Bool, true, false, not, ◌&&◌, ◌||◌,
  Option, none, some, List, [], ◌∷◌, ◌++◌, map, foldr, append-nil, append_assoc, arith, ltb, leb,
  ◌==◌, if◌then◌else◌, ltb→lt, lt→ltb, leb→le, ==_iff, tests, Bool-cases, Option-cases, length,
  get_elem?, take, drop, any, find, retain, length-append, drop-length-append, take-length-append,
  length-drop, length-retain-le, All, All-append, All-get, Eq, ◌=?◌, nat_Eq,
}
use silent.Text.{
  Text, text, is_empty, starts_with, contains, splitn, split, trim_start_matches, Text_Eq,
}
use silent.Text.Decimal.{decimal}
use silent.Dict
use silent.Dict.{Dict}
use silent.OpenApi.Doc.{
  DocMeta, ResponseMeta, text_plain, json, RequestMeta, json_body, form_body, query_params,
  ExtraResponse,
}

pub data SchemaType : Type 0 where
  integer number boolean string : SchemaType

-- The type and the format of a parameter, or the name of a schema.
pub data Schema : Type 0 where
  inline : SchemaType → Option Text → Schema
  reference : Text → Schema

pub data Place : Type 0 where
  in_path in_query : Place

pub record Parameter : Type 0 where
  pub name : Text
  pub place : Place
  pub required : Bool
  pub schema : Schema

-- The content is its type and the name of its schema, if that is not a plain object.
pub record Documented : Type 0 where
  pub description : Text
  pub content : Option (Text × Option Text)

pub record Operation : Type 0 where
  pub summary : Option Text
  pub description : Option Text
  pub operation_id : Option Text
  pub deprecated : Bool
  pub tags : Option (List Text)
  pub responses : Dict Text Documented
  pub request_body : Option (Text × Text)
  pub parameters : List Parameter

abbrev any_of : List Text → Text → Bool
any_of names t = any (λ n. n =? t) names

unfoldable pub rust_type_to_schema : Text → Schema
rust_type_to_schema hint =
    if any_of (text "i8" ∷ text "i16" ∷ text "i32" ∷ text "u8" ∷ text "u16" ∷ text "u32" ∷ []) hint
    then inline integer (some (text "int32"))
    else if any_of
        (text "i64" ∷ text "u64" ∷ text "i128" ∷ text "u128" ∷ text "isize" ∷ text "usize" ∷ [])
        hint
    then inline integer (some (text "int64"))
    else if hint =? text "f32"
    then inline number (some (text "float"))
    else if hint =? text "f64"
    then inline number (some (text "double"))
    else if hint =? text "bool"
    then inline boolean none
    else inline string none

abbrev pub path_parameter : Text → Text → Parameter
path_parameter n hint = record {
  name = n;
  place = in_path;
  required = true;
  schema = rust_type_to_schema hint;
}

abbrev pub or_empty : Option Text → Text
or_empty none = []
or_empty (some t) = t

-- A parameter that has a name, before those of the rest.
abbrev pub named : Text × Option Text → List Parameter → List Parameter
named ([], hint) more = more
named (c ∷ n, hint) more = path_parameter (c ∷ n) (or_empty hint) ∷ more

-- What stands between '<' and '>' and is cut at ':', on fuel; the rest of the path is scanned on.
abbrev pub typed_close : Text × Option Text → (Text → List Parameter) → List Parameter
typed_close (inner, none) scan = []
typed_close (inner, some rest) scan = named (splitn b':' inner) (scan rest)

abbrev pub typed_open : Text × Option Text → (Text → List Parameter) → List Parameter
typed_open (before, none) scan = []
typed_open (before, some rest) scan = typed_close (splitn b'>' rest) scan

unfoldable pub typed_parameters : ℕ → Text → List Parameter
unfolding rust_type_to_schema
typed_parameters zero path = []
typed_parameters (suc fuel) path = typed_open (splitn b'<' path) (typed_parameters fuel)

-- The same of `{name}`.
abbrev pub braced_close : Text × Option Text → (Text → List Parameter) → List Parameter
braced_close (inner, none) scan = []
braced_close (inner, some rest) scan = path_parameter inner (text "String") ∷ scan rest

abbrev pub braced_open : Text × Option Text → (Text → List Parameter) → List Parameter
braced_open (before, none) scan = []
braced_open (before, some rest) scan = braced_close (splitn b'}' rest) scan

unfoldable pub braced_parameters : ℕ → Text → List Parameter
unfolding rust_type_to_schema
braced_parameters zero path = []
braced_parameters (suc fuel) path = braced_open (splitn b'{' path) (braced_parameters fuel)

abbrev pub or_else_list {ℓ} : {A : Type ℓ} → List A → List A → List A
or_else_list [] ys = ys
or_else_list (x ∷ xs) ys = x ∷ xs

unfoldable pub path_parameters : Text → List Parameter
unfolding typed_parameters braced_parameters
path_parameters path =
    or_else_list (typed_parameters (suc (length path)) path)
      (braced_parameters (suc (length path)) path)

-- `to_lowercase` of a method's token.
abbrev pub lower : ℕ → ℕ
lower c = if leb b'A' c && leb c b'Z' then c + 32 else c

abbrev pub is_alphanumeric : ℕ → Bool
is_alphanumeric c =
    (leb b'a' c && leb c b'z') || ((leb b'A' c && leb c b'Z') || (leb b'0' c && leb c b'9'))

abbrev pub sanitize : ℕ → ℕ
sanitize c = if is_alphanumeric c then c else b'_'

-- The `map` over the characters of the path: one of several bytes is one character, so the bytes
-- that continue it are dropped.
abbrev pub sanitize_all : Text → Text
sanitize_all [] = []
sanitize_all (c ∷ t) =
    if leb 128 c && ltb c 192 then sanitize_all t else sanitize c ∷ sanitize_all t

-- `trim_matches(c)`, for one byte
abbrev pub keep_unless : ℕ → ℕ → Text → Text
keep_unless c d [] = if d == c then [] else d ∷ []
keep_unless c d (e ∷ t) = d ∷ e ∷ t

abbrev pub trim_end_matches : ℕ → Text → Text
trim_end_matches c [] = []
trim_end_matches c (d ∷ t) = keep_unless c d (trim_end_matches c t)

abbrev pub trim_matches : ℕ → Text → Text
trim_matches c t = trim_end_matches c (trim_start_matches c t)

unfoldable pub operation_id_of : Text → Text → Text
operation_id_of method path = trim_matches b'_' (map lower method ++ (b'_' ∷ sanitize_all path))

-- The first part of the path that is not empty.
unfoldable pub default_tag : Text → Option Text
default_tag path = find (λ s. not (is_empty s)) (split b'/' path)

abbrev pub singleton_or_none : Option Text → Option (List Text)
singleton_or_none none = none
singleton_or_none (some tag) = some (tag ∷ [])

-- Custom tags come first, then those of the group, then the default.
unfoldable pub tags_of : List Text → List Text → Option Text → Option (List Text)
tags_of (t ∷ ts) parent_tags tag = some (t ∷ ts)
tags_of [] (t ∷ ts) tag = some (t ∷ ts)
tags_of [] [] tag = singleton_or_none tag

abbrev pub or_text : Option Text → Text → Text
or_text none t = t
or_text (some s) t = s

abbrev pub meta_or_default : Option DocMeta → DocMeta
meta_or_default none = record { summary = none; description = none; deprecated = false; tags = [] }
meta_or_default (some meta) = meta

abbrev pub content_of : Option ResponseMeta → Option (Text × Option Text)
content_of none = none
content_of (some text_plain) = some (text "text/plain", none)
content_of (some (json name)) = some (text "application/json", some name)

-- The responses: "200" first, and then the others, a later one in place of one with its status.
unfoldable pub add_responses : List ExtraResponse → Dict Text Documented → Dict Text Documented
add_responses [] m = m
add_responses (er ∷ ers) m =
    add_responses ers
      (Dict.insert (decimal er.status) (record { description = er.description; content = none }) m)

abbrev pub listed {ℓ} : {A : Type ℓ} → Option (List A) → List A
listed none = []
listed (some xs) = xs

-- The last body that is declared stays.
unfoldable pub request_body_of : List RequestMeta → Option (Text × Text) → Option (Text × Text)
request_body_of [] body = body
request_body_of (json_body name ∷ metas) body =
    request_body_of metas (some (text "application/json", name))
request_body_of (form_body name ∷ metas) body =
    request_body_of metas (some (text "application/x-www-form-urlencoded", name))
request_body_of (query_params _ ∷ metas) body = request_body_of metas body

unfoldable pub query_parameters : List RequestMeta → List Parameter
query_parameters [] = []
query_parameters (query_params type_name ∷ metas) =
    record { name = type_name; place = in_query; required = false; schema = reference type_name }
    ∷ query_parameters metas
query_parameters (json_body _ ∷ metas) = query_parameters metas
query_parameters (form_body _ ∷ metas) = query_parameters metas

unfoldable pub create_operation_with_doc :
    Text
    → Text
    → Option DocMeta
    → Option ResponseMeta
    → Option (List RequestMeta)
    → Option (List ExtraResponse)
    → List Text
    → Operation
unfolding path_parameters operation_id_of default_tag tags_of add_responses request_body_of
    query_parameters
create_operation_with_doc method path doc resp req_meta extra_resp parent_tags =
    let meta : DocMeta = meta_or_default doc in
    let title : Text = method ++ (text " " ++ path) in
    record {
      summary = some (or_text meta.summary title);
      description = some (or_text meta.description (text "Handler for " ++ title));
      operation_id = some (operation_id_of method path);
      deprecated = meta.deprecated;
      tags = tags_of meta.tags parent_tags (default_tag path);
      responses = add_responses (listed extra_resp) (
          (
            text "200",
            record { description = text "Successful response"; content = content_of resp },
          )
          ∷ []);
      request_body = request_body_of (listed req_meta) none;
      parameters = query_parameters (listed req_meta) ++ path_parameters path;
    }
