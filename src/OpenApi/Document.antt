-- ===== src/OpenApi/Document.antt =====
-- silent-openapi/src/schema.rs and `generate_openapi_doc` of route.rs: the document. utoipa's map of
-- paths is given by its operations and what is known of them; its components are of a type `C`, and
-- the security schemes among them are left out.
pub mod Found
use silent.Prelude.{
  ℕ, zero, suc, ◌+◌, ◌-◌, ◌*◌, ◌/◌, ◌%◌, ◌^◌, ◌≤◌, ◌<◌, min, max, String, ◌≡◌, refl, sym, ap, ap₂,
  subst, ◌∙◌, fun_ext, ◌≡⟨◌⟩◌, ◌∎, ◌≢◌, ◌↔◌, ◌⊎◌, inl, inr, Bool, true, false, not, ◌&&◌, ◌||◌,
  Option, none, some, List, [], ◌∷◌, ◌++◌, map, foldr, append-nil, append_assoc, arith, ltb, leb,
  ◌==◌, if◌then◌else◌, ltb→lt, lt→ltb, leb→le, ==_iff, tests, Bool-cases, Option-cases, length,
  get_elem?, take, drop, any, find, retain, length-append, drop-length-append, take-length-append,
  length-drop, length-retain-le, All, All-append, All-get, Eq, ◌=?◌, nat_Eq,
}
use silent.Text.{Text, text, Text_Eq}
use silent.Router.Route.{Route}
use silent.OpenApi.Collect.{PathItem, Paths, Registry, collect_openapi_paths}

-- `utoipa::openapi::Paths` as `PathsBuilder` makes it. What `path` does with a path that is there
-- already is its own matter.
pub record PathsApi (P : Type 0) : Type 0 where
  pub new : P
  pub path : Text → PathItem → P → P
  pub find : Text → P → Option PathItem
  pub find-new : (k : Text) → find k new ≡ none
  pub find-path_new :
      (k : Text) (item : PathItem) (p : P) → find k p ≡ none → find k (path k item p) ≡ some item
  pub find-path_other :
      (k j : Text) (item : PathItem) (p : P) → (j =? k) ≡ false → find k (path j item p) ≡ find k p

-- The fields of the document that are set here.
pub record OpenApiDoc (P C : Type 0) : Type 0 where
  pub title : Text
  pub version : Text
  pub description : Option Text
  pub servers : Option (List (Text × Option Text))
  pub paths : P
  pub components : Option C
  pub security : Option (List (Text × List Text))

abbrev pub or_nil {ℓ} : {A : Type ℓ} → Option (List A) → List A
or_nil none = []
or_nil (some xs) = xs

abbrev pub or_default {ℓ} : {A : Type ℓ} → Option A → A → A
or_default none c = c
or_default (some d) c = d

abbrev pub apply_all {ℓ} : {A : Type ℓ} → List (A → A) → A → A
apply_all [] a = a
apply_all (f ∷ fs) a = apply_all fs (f a)

module _ {P : Type 0} ⦃api : PathsApi P⦄ where
  abbrev pub path_all : Paths → P → P
  path_all [] p = p
  path_all ((path, item) ∷ paths) p = path_all paths (api.path path item p)

module _ {P C : Type 0} ⦃api : PathsApi P⦄ where
  unfoldable pub new_doc : Text → Text → OpenApiDoc P C
  new_doc title version = record {
    title = title;
    version = version;
    description = none;
    servers = none;
    paths = api.new;
    components = none;
    security = none;
  }

  unfoldable pub set_description : Text → OpenApiDoc P C → OpenApiDoc P C
  set_description description doc = record doc { description = some description }

  unfoldable pub add_server : Text → Option Text → OpenApiDoc P C → OpenApiDoc P C
  add_server url description doc = record doc {
    servers = some (or_nil doc.servers ++ (url, description) ∷ []);
  }

  -- The paths that the document had are replaced.
  unfoldable pub add_path : Text → PathItem → OpenApiDoc P C → OpenApiDoc P C
  add_path path item doc = record doc { paths = api.path path item api.new }

  unfoldable pub add_paths : Paths → OpenApiDoc P C → OpenApiDoc P C
  add_paths paths doc = record doc { paths = path_all paths api.new }

  -- The functions of the schema registry, each of which adds its schemas.
  unfoldable pub apply_registered_schemas : C → List (C → C) → OpenApiDoc P C → OpenApiDoc P C
  apply_registered_schemas empty reg doc = record doc {
    components = some (apply_all reg (or_default doc.components empty));
  }

  unfoldable pub set_global_security : Text → List Text → OpenApiDoc P C → OpenApiDoc P C
  set_global_security scheme_name scopes doc = record doc {
    security = some (or_nil doc.security ++ (scheme_name, scopes) ∷ []);
  }

  abbrev pub with_description : Option Text → OpenApiDoc P C → OpenApiDoc P C
  unfolding set_description
  with_description none doc = doc
  with_description (some description) doc = set_description description doc

  unfoldable pub generate_openapi_doc :
      {H W : Type 0}
      → Registry H W
      → C
      → List (C → C)
      → Route H W
      → Text
      → Text
      → Option Text
      → OpenApiDoc P C
  unfolding new_doc set_description add_paths apply_registered_schemas collect_openapi_paths
  generate_openapi_doc reg empty registered r title version description =
      apply_registered_schemas empty registered (
        add_paths (collect_openapi_paths reg r [])
          (with_description description (new_doc title version)))
