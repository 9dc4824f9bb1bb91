-- ===== src/OpenApi/Collect.antt =====
-- silent-openapi/src/route.rs: the path items of a route and of the routes below it. What is
-- registered comes from doc.rs; the address of a handler and the name of a middleware's type are
-- given from outside; the handlers of a route come in the order of its map.
pub mod Items
pub mod Whole
use silent.Prelude.{
  ℕ, zero, suc, ◌+◌, ◌-◌, ◌*◌, ◌/◌, ◌%◌, ◌^◌, ◌≤◌, ◌<◌, min, max, String, ◌≡◌, refl, sym, ap, ap₂,
  subst, ◌∙◌, fun_ext, ◌≡⟨◌⟩◌, ◌∎, ◌≢◌, ◌↔◌, ◌⊎◌, inl, inr, Bool, true, false, not, ◌&&◌, ◌||◌,
  Option, none, some, List, [], ◌∷◌, ◌++◌, map, foldr, append-nil, append_assoc, arith, ltb, leb,
  ◌==◌, if◌then◌else◌, ltb→lt, lt→ltb, leb→le, ==_iff, tests, Bool-cases, Option-cases, length,
  get_elem?, take, drop, any, find, retain, length-append, drop-length-append, take-length-append,
  length-drop, length-retain-le, All, All-append, All-get, Eq, ◌=?◌, nat_Eq,
}
use silent.Text.{
  Text, text, is_empty, starts_with, contains, strip_prefix, trim_start_matches, Text_Eq,
}
use silent.Dict
use silent.Dict.{Dict}
use silent.Core.Next.{Handler, Middleware}
use silent.Router.Route.{RouteInfo, Route, Routes, route, nil, cons, info}
use silent.OpenApi.Doc.{
  Docs, ExtraResponse, or_nil, lookup_doc_by_handler_ptr, lookup_response_by_handler_ptr,
  lookup_extra_responses_by_handler_ptr, lookup_request_by_handler_ptr,
}
use silent.OpenApi.Convert.{convert_path_format}
use silent.OpenApi.Operation.{
  Operation, create_operation_with_doc, trim_matches, trim_end_matches, listed,
}

pub record PathItem : Type 0 where
  pub get : Option Operation
  pub post : Option Operation
  pub put : Option Operation
  pub delete : Option Operation
  pub patch : Option Operation
  pub head : Option Operation
  pub options : Option Operation
  pub trace : Option Operation

abbrev pub empty_item : PathItem
empty_item = record {
  get = none;
  post = none;
  put = none;
  delete = none;
  patch = none;
  head = none;
  options = none;
  trace = none;
}

unfoldable pub create_or_update_path_item : Text → Operation → PathItem
create_or_update_path_item method op =
    if method =? text "GET"
    then record empty_item { get = some op }
    else if method =? text "POST"
    then record empty_item { post = some op }
    else if method =? text "PUT"
    then record empty_item { put = some op }
    else if method =? text "DELETE"
    then record empty_item { delete = some op }
    else if method =? text "PATCH"
    then record empty_item { patch = some op }
    else if method =? text "HEAD"
    then record empty_item { head = some op }
    else if method =? text "OPTIONS"
    then record empty_item { options = some op }
    else if method =? text "TRACE"
    then record empty_item { trace = some op }
    else empty_item

-- `Option::or`
abbrev pub or_op : Option Operation → Option Operation → Option Operation
or_op none b = b
or_op (some a) b = some a

unfoldable pub merge_path_items : PathItem → PathItem → PathItem
merge_path_items a b = record {
  get = or_op a.get b.get;
  post = or_op a.post b.post;
  put = or_op a.put b.put;
  delete = or_op a.delete b.delete;
  patch = or_op a.patch b.patch;
  head = or_op a.head b.head;
  options = or_op a.options b.options;
  trace = or_op a.trace b.trace;
}

abbrev pub Paths : Type 0
Paths = List (Text × PathItem)

-- The first item with the path is merged with the new one; with none, the new one is pushed.
unfoldable pub add_path : Text → PathItem → Paths → Paths
unfolding merge_path_items
add_path key item [] = (key, item) ∷ []
add_path key item ((k, existing) ∷ paths) =
    if k =? key
    then (k, merge_path_items existing item) ∷ paths
    else (k, existing) ∷ add_path key item paths

-- `str::contains` of a pattern
abbrev pub has : Text → Text → Bool
has pattern [] = starts_with pattern []
has pattern (c ∷ t) = starts_with pattern (c ∷ t) || has pattern t

abbrev pub named_like : Text → Text → ExtraResponse → Text → List ExtraResponse
named_like a b response type_name = if has a type_name || has b type_name then response ∷ [] else []

abbrev pub responses_of_type : Text → List ExtraResponse
responses_of_type type_name =
    named_like (text "RateLimiter") (text "rate_limiter")
      (record { status = 429; description = text "Too Many Requests" }) type_name
    ++ (named_like (text "Auth") (text "auth")
          (record { status = 401; description = text "Unauthorized" }) type_name
        ++ named_like (text "Timeout") (text "timeout")
            (record { status = 408; description = text "Request Timeout" }) type_name)

-- `dedup_by_key(|r| r.status)`: of neighbours with one status, the first stays.
abbrev pub dedup_after : ExtraResponse → List ExtraResponse → List ExtraResponse
dedup_after r [] = r ∷ []
dedup_after r (s ∷ rs) = if s.status == r.status then dedup_after r rs else r ∷ dedup_after s rs

abbrev pub dedup : List ExtraResponse → List ExtraResponse
dedup [] = []
dedup (r ∷ rs) = dedup_after r rs

unfoldable pub infer_middleware_responses : List Text → List ExtraResponse
infer_middleware_responses type_names = dedup (gather type_names)
  where
    gather : List Text → List ExtraResponse
    gather [] = []
    gather (t ∷ ts) = responses_of_type t ++ gather ts

-- The loop that merges them with those of the handler.
unfoldable pub merge_responses : List ExtraResponse → List ExtraResponse → List ExtraResponse
merge_responses [] extra = extra
merge_responses (mw ∷ mws) extra =
    merge_responses mws
      (if any (λ (r : ExtraResponse). r.status == mw.status) extra then extra else extra ++ mw ∷ [])

abbrev pub some_if_any : List ExtraResponse → Option (List ExtraResponse)
some_if_any [] = none
some_if_any (r ∷ rs) = some (r ∷ rs)

-- What is registered, the address of a handler's data, and the name of a middleware's type.
pub record Registry (H W : Type 0) : Type 0 where
  pub docs : Docs
  pub ptr : Handler H W → ℕ
  pub type_name : Middleware H W → Text

unfoldable pub full_path_of : Text → Text → Text
full_path_of [] path = path
full_path_of (c ∷ current) [] = c ∷ current
full_path_of (c ∷ current) (d ∷ path) =
    trim_end_matches b'/' (c ∷ current) ++ (b'/' ∷ trim_start_matches b'/' (d ∷ path))

abbrev pub is_tag : Text → List Text → Bool
is_tag seg tags =
    not (is_empty seg)
    && (not (starts_with (text "<") seg)
        && (not (starts_with (text "{") seg) && not (any (λ t. t =? seg) tags)))

unfoldable pub current_tags_of : List Text → Text → List Text
current_tags_of parent_tags path =
    let seg = trim_matches b'/' path in
    if is_tag seg parent_tags then parent_tags ++ seg ∷ [] else parent_tags

-- The conversion always gives a path.
abbrev pub add_converted : Option Text → PathItem → Paths → Paths
add_converted none item paths = paths
add_converted (some key) item paths = add_path key item paths

module _ {H W : Type 0} where
  -- One round of the loop over the handlers.
  unfoldable pub document_method :
      Registry H W → Text → List Text → List ExtraResponse → Text → Handler H W → Paths → Paths
  unfolding convert_path_format create_operation_with_doc create_or_update_path_item add_path
      merge_responses
  document_method reg full_path tags mw_responses method handler paths =
      let ptr = reg.ptr handler in
      let known = lookup_extra_responses_by_handler_ptr ptr reg.docs in
      let extra = some_if_any (merge_responses mw_responses (or_nil known)) in
      let op =
        create_operation_with_doc method full_path (lookup_doc_by_handler_ptr ptr reg.docs)
          (lookup_response_by_handler_ptr ptr reg.docs) (lookup_request_by_handler_ptr ptr reg.docs)
          extra tags in
      add_converted (convert_path_format full_path) (create_or_update_path_item method op) paths

  unfoldable pub document_methods :
      Registry H W → Text → List Text → List ExtraResponse → Dict Text (Handler H W) → Paths → Paths
  unfolding document_method
  document_methods reg full_path tags mw_responses [] paths = paths
  document_methods reg full_path tags mw_responses ((method, handler) ∷ handlers) paths =
      document_methods reg full_path tags mw_responses handlers
        (document_method reg full_path tags mw_responses method handler paths)

  unfoldable pub document_route : Registry H W → RouteInfo H W → Text → List Text → Paths → Paths
  unfolding document_methods infer_middleware_responses
  document_route reg i full_path tags paths =
      document_methods reg full_path tags
        (infer_middleware_responses (map reg.type_name i.middlewares)) i.handler paths

unfoldable mutual
  unfolding document_route full_path_of current_tags_of

  pub collect_paths_recursive :
      {H W : Type 0} → Registry H W → Route H W → Text → List Text → Paths → Paths
  collect_paths_recursive reg (route i cs) current parent_tags paths =
      let full_path = full_path_of current i.path in
      let tags = current_tags_of parent_tags i.path in
      collect_children reg cs full_path tags (document_route reg i full_path tags paths)

  pub collect_children :
      {H W : Type 0} → Registry H W → Routes H W → Text → List Text → Paths → Paths
  collect_children reg nil current tags paths = paths
  collect_children reg (cons c cs) current tags paths =
      collect_children reg cs current tags (collect_paths_recursive reg c current tags paths)

-- `collect_openapi_paths`
unfoldable pub collect_openapi_paths : {H W : Type 0} → Registry H W → Route H W → Text → Paths
unfolding collect_paths_recursive
collect_openapi_paths reg r base_path = collect_paths_recursive reg r base_path [] []
