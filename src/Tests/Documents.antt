-- ===== src/Tests/Documents.antt =====
-- The theorems on the documentation of routes at concrete inputs.
use silent.Prelude.{
  ℕ, suc, ◌≡◌, refl, false, Option, none, some, List, [], ◌∷◌, if◌then◌else◌, ◌=?◌, nat_Eq,
}
use silent.Text.{Text, text, Text_Eq}
use silent.Router.Segment.{SpecialSeg, parse_special_seg}
use silent.Router.Route.{RouteInfo, Route, Routes, route}
use silent.OpenApi.Doc.{no_docs}
use silent.OpenApi.Convert.{convert_path_format, round}
use silent.OpenApi.Convert.Ends.{Rooted, convert_path_format_ends}
use silent.OpenApi.Convert.Untyped.{untyped, convert_path_format-untyped}
use silent.OpenApi.Agree.{convert_path_format-render}
use silent.OpenApi.Operation.{path_parameter, path_parameters}
use silent.OpenApi.Operation.Parameters.{Piece, plain, typed}
use silent.OpenApi.Collect.{PathItem, Registry, collect_openapi_paths, create_or_update_path_item}
use silent.OpenApi.Collect.Items.{OnePerPath, lookup_path}
use silent.OpenApi.Collect.Whole.{RouteDocumented, collect_openapi_paths-Documented}
use silent.OpenApi.PathDocs.{
  DocumentedRoute, new_documented, add_path_doc, new_path_info, set_summary, generate_path_items,
  create_operation_from_path_info,
}
use silent.OpenApi.Document.{PathsApi, generate_openapi_doc}
use silent.OpenApi.Document.Found.{generate_openapi_doc-find}
use silent.Tests.Samples.{Headers, answer, pass}

convert_path_format_ends_example :
    (u : Text) × (convert_path_format (text "a/<id:i64>") ≡ some u) × (round u ≡ none) × Rooted u
convert_path_format_ends_example = convert_path_format_ends (text "a/<id:i64>")

convert_path_format-untyped_example :
    (convert_path_format (text "/a/<id>/<b:int>") ≡ some (text "/a/<id>/<b:int>"))
    × (parse_special_seg (untyped (text "id")) ≡ SpecialSeg.string (text "id"))
convert_path_format-untyped_example =
    convert_path_format-untyped (text "a/") (text "id") (text "/<b:int>") refl refl refl

abbrev pieces : List Piece
pieces = typed (text "id") (text "i64") ∷ plain (text "/x") ∷ []

convert_path_format-render_example :
    (convert_path_format (text "/users/<id:i64>/x") ≡ some (text "/users/{id}/x"))
    × (path_parameters (text "/users/<id:i64>/x") ≡ path_parameter (text "id") (text "i64") ∷ [])
convert_path_format-render_example =
    convert_path_format-render (text "users/") pieces {p = path_parameter (text "id") (text "i64")}
      {more = []} (refl, (((λ e. cc), refl, refl), (refl, tt))) ((refl, refl), (tt, tt)) refl

abbrev registry : Registry Headers ℕ
unfolding no_docs
registry = record { docs = no_docs; ptr = λ h. 64; type_name = λ m. text "app::AuthMiddleware" }

abbrev info_at : Text → RouteInfo Headers ℕ
info_at path = record {
  path = path;
  handler = (text "GET", answer) ∷ (text "POST", answer) ∷ [];
  middlewares = pass ∷ [];
  special_match = false;
  create_path = path;
  state = none;
  session_set = false;
}

abbrev api : Route Headers ℕ
api = route (info_at []) (Routes.cons (route (info_at (text "users")) Routes.nil) Routes.nil)

collect_openapi_paths-Documented_example :
    OnePerPath (collect_openapi_paths registry api [])
    × RouteDocumented api [] (collect_openapi_paths registry api [])
collect_openapi_paths-Documented_example = collect_openapi_paths-Documented registry api []

abbrev put : Text → PathItem → (Text → Option PathItem) → Text → Option PathItem
put k item p j = if k =? j then some item else p j

put_self : (k : Text) (item : PathItem) (p : Text → Option PathItem) → put k item p k ≡ some item
put_self k item p = rw ((Text_Eq.beq_iff k k).1 refl) refl

put_other :
    (k j : Text) (item : PathItem) (p : Text → Option PathItem)
    → (j =? k) ≡ false
    → put j item p k ≡ p k
put_other k j item p apart = rw apart refl

instance paths_by_function : PathsApi (Text → Option PathItem)
paths_by_function = record {
  new = λ k. none;
  path = put;
  find = λ k p. p k;
  find-new = λ k. refl;
  find-path_new = λ k item p _. put_self k item p;
  find-path_other = put_other;
}

generate_openapi_doc-find_example :
    paths_by_function.find
      (text "/users")
      (generate_openapi_doc {P = Text → Option PathItem} registry 0
        (suc ∷ [])
        api
        (text "API")
        (text "1")
        none).paths
    ≡ lookup_path (text "/users") (collect_openapi_paths registry api [])
generate_openapi_doc-find_example =
    generate_openapi_doc-find (Text → Option PathItem) registry 0 (suc ∷ []) api (text "API")
      (text "1") none (text "/users")

abbrev by_hand : DocumentedRoute Headers ℕ
unfolding new_documented add_path_doc new_path_info set_summary
by_hand =
    add_path_doc (set_summary (text "ping") (new_path_info (text "GET") (text "/ping")))
      (new_documented api)

item_by_hand :
    generate_path_items by_hand []
    ≡ some (
        (
          text "/ping",
          create_or_update_path_item (text "GET") (
              create_operation_from_path_info
                (set_summary (text "ping") (new_path_info (text "GET") (text "/ping")))),
        )
        ∷ [])
unfolding generate_path_items by_hand convert_path_format new_documented add_path_doc new_path_info
    set_summary
item_by_hand = refl
