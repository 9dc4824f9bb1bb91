-- ===== src/OpenApi/PathDocs/Items.antt =====
-- The items of the paths that are documented by hand.
use silent.Prelude.{◌≡◌, ◌⊎◌, false, some, List, [], ◌∷◌, nat_Eq}
use silent.Text.{Text}
use silent.OpenApi.Convert.{convert_path_format}
use silent.OpenApi.Convert.Ends.{Rooted}
use silent.OpenApi.Collect.{Paths}
use silent.OpenApi.Collect.Items.{operation_of, is_standard}
use silent.OpenApi.PathDocs.{PathInfo, create_operation_from_path_info, under_base}

-- The items are those of the documented paths, one for each, in their order.
abbrev pub Described : Text → List PathInfo → Paths → Type 0
Described base_path [] [] = Unit
Described base_path [] (entry ∷ items) = ⊥
Described base_path (path_doc ∷ path_docs) [] = ⊥
Described base_path (path_doc ∷ path_docs) ((path, item) ∷ items) =
    ((convert_path_format (under_base base_path path_doc) ≡ some path) × Rooted path)
    × (((is_standard path_doc.method ≡ false)
          ⊎ (operation_of path_doc.method item ≡ some (create_operation_from_path_info path_doc)))
        × Described base_path path_docs items)
