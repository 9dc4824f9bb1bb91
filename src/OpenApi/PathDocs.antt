-- ===== src/OpenApi/PathDocs.antt =====
-- silent-openapi/src/route.rs and schema.rs: the routes that are documented by hand, path by path.
pub mod Items
use silent.Prelude.{
  suc, ◌≡◌, refl, ap, ap₂, false, Option, none, some, List, [], ◌∷◌, ◌++◌, if◌then◌else◌, length,
  All, nat_Eq,
}
use silent.Text.{Text, text, is_empty}
use silent.Router.Route.{Route}
use silent.OpenApi.Convert.{convert_path_format}
use silent.OpenApi.Convert.Ends.{Rooted, convert_path_format_ends}
use silent.OpenApi.Operation.{Operation, trim_end_matches}
use silent.OpenApi.Collect.{PathItem, Paths, create_or_update_path_item}

pub record PathInfo : Type 0 where
  pub method : Text
  pub path : Text
  pub operation_id : Option Text
  pub summary : Option Text
  pub description : Option Text
  pub tags : List Text

unfoldable pub new_path_info : Text → Text → PathInfo
new_path_info method path = record {
  method = method;
  path = path;
  operation_id = none;
  summary = none;
  description = none;
  tags = [];
}

unfoldable pub set_operation_id : Text → PathInfo → PathInfo
set_operation_id id self = record self { operation_id = some id }

unfoldable pub set_summary : Text → PathInfo → PathInfo
set_summary summary self = record self { summary = some summary }

unfoldable pub describe : Text → PathInfo → PathInfo
describe description self = record self { description = some description }

unfoldable pub add_tag : Text → PathInfo → PathInfo
add_tag tag self = record self { tags = self.tags ++ (tag ∷ []) }

unfoldable pub set_tags : List Text → PathInfo → PathInfo
set_tags tags self = record self { tags = tags }

abbrev some_unless_nil : List Text → Option (List Text)
some_unless_nil [] = none
some_unless_nil (t ∷ ts) = some (t ∷ ts)

-- What the builder is not told stays as it is in a new operation.
unfoldable pub create_operation_from_path_info : PathInfo → Operation
create_operation_from_path_info path_info = record {
  summary = path_info.summary;
  description = path_info.description;
  operation_id = path_info.operation_id;
  deprecated = false;
  tags = some_unless_nil path_info.tags;
  responses =
      (text "200", record { description = text "Successful response"; content = none }) ∷ [];
  request_body = none;
  parameters = [];
}

pub record DocumentedRoute (H W : Type 0) : Type 0 where
  pub route : Route H W
  pub path_docs : List PathInfo

module _ {H W : Type 0} where
  unfoldable pub new_documented : Route H W → DocumentedRoute H W
  new_documented r = record { route = r; path_docs = [] }

  unfoldable pub add_path_doc : PathInfo → DocumentedRoute H W → DocumentedRoute H W
  add_path_doc path_info self = record self { path_docs = self.path_docs ++ (path_info ∷ []) }

  unfoldable pub add_path_docs : List PathInfo → DocumentedRoute H W → DocumentedRoute H W
  add_path_docs path_docs self = record self { path_docs = self.path_docs ++ path_docs }

  unfoldable pub into_route : DocumentedRoute H W → Route H W
  into_route self = self.route

-- `full_path`
abbrev pub under_base : Text → PathInfo → Text
under_base base_path path_doc =
    if is_empty base_path then path_doc.path else trim_end_matches b'/' base_path ++ path_doc.path

abbrev pub push_item : Option Text → PathItem → Option Paths → Option Paths
push_item none item rest = none
push_item (some path) item none = none
push_item (some path) item (some rest) = some ((path, item) ∷ rest)

-- The loop; a panic in the conversion would be `none`.
unfoldable items_of : Text → List PathInfo → Option Paths
unfolding convert_path_format create_or_update_path_item create_operation_from_path_info
items_of base_path [] = some []
items_of base_path (path_doc ∷ path_docs) =
    push_item (convert_path_format (under_base base_path path_doc))
      (create_or_update_path_item path_doc.method (create_operation_from_path_info path_doc))
      (items_of base_path path_docs)

unfoldable pub generate_path_items : {H W : Type 0} → DocumentedRoute H W → Text → Option Paths
unfolding items_of
generate_path_items self base_path = items_of base_path self.path_docs
