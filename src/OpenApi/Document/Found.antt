-- ===== src/OpenApi/Document/Found.antt =====
-- The paths that are found in a document.
use silent.Prelude.{
  ◌≡◌, refl, ap, subst, ◌∙◌, inl, inr, false, Option, none, some, List, [], ◌∷◌, Bool-cases, ◌=?◌,
  nat_Eq,
}
use silent.Text.{Text, Text_Eq}
use silent.Router.Route.{Route}
use silent.OpenApi.Collect.{PathItem, Paths, Registry, collect_openapi_paths}
use silent.OpenApi.Collect.Items.{Absent, OnePerPath, eq_flip, lookup_path}
use silent.OpenApi.Collect.Whole.{collect_openapi_paths-Documented}
use silent.OpenApi.Document.{PathsApi, OpenApiDoc, add_path, path_all, generate_openapi_doc}

abbrev or_item : Option PathItem → Option PathItem → Option PathItem
or_item none o = o
or_item (some item) o = some item

or_item-none : (o : Option PathItem) → or_item o none ≡ o
or_item-none none = refl
or_item-none (some item) = refl

module _ {P : Type 0} ⦃api : PathsApi P⦄ where
  -- None of these paths is found yet.
  abbrev AllNew : Paths → P → Type 0
  AllNew [] p = Unit
  AllNew ((k, item) ∷ paths) p = (api.find k p ≡ none) × AllNew paths p

  AllNew-path :
      (k : Text) (item : PathItem) (paths : Paths) (p : P)
      → Absent k paths
      → AllNew paths p
      → AllNew paths (api.path k item p)
  AllNew-path k item [] p absent fresh = tt
  AllNew-path k item ((j, other) ∷ paths) p (apart, absent) (here, fresh) = (
    api.find-path_other j k item p (eq_flip j k apart) ∙ here,
    AllNew-path k item paths p absent fresh,
  )

  find-Absent :
      (j : Text) (paths : Paths) (p : P)
      → Absent j paths
      → api.find j (path_all paths p) ≡ api.find j p
  find-Absent j [] p absent = refl
  find-Absent j ((k, item) ∷ paths) p (apart, absent) =
      find-Absent j paths (api.path k item p) absent ∙ api.find-path_other j k item p apart

  find-path_all :
      (j : Text) (paths : Paths) (p : P)
      → OnePerPath paths
      → AllNew paths p
      → api.find j (path_all paths p) ≡ or_item (lookup_path j paths) (api.find j p)
  find-path_all j [] p one fresh = refl
  find-path_all j ((k, item) ∷ paths) p (root, (absent, one)) (here, fresh) =
      elim (Bool-cases (k =? j)) [
        | inl hit ↦
            let same : k ≡ j = (Text_Eq.beq_iff k j).0 hit in
            rw hit (
              subst (λ x. api.find x (path_all paths (api.path k item p)) ≡ some item) same
                (find-Absent k paths (api.path k item p) absent ∙ api.find-path_new k item p here))
        | inr missed ↦ rw missed (
            find-path_all j paths (api.path k item p) one (AllNew-path k item paths p absent fresh)
            ∙ ap (or_item (lookup_path j paths)) (api.find-path_other j k item p missed))
      ]

  -- Only the path that was added last is found, whatever the document had.
  pub add_path_forgets :
      {C : Type 0} (doc : OpenApiDoc P C) (k j : Text) (a b : PathItem)
      → (k =? j) ≡ false
      → api.find j (add_path k b (add_path j a doc)).paths ≡ none
  unfolding add_path
  add_path_forgets doc k j a b apart = api.find-path_other j k b api.new apart ∙ api.find-new j

AllNew-new : (P : Type 0) ⦃api : PathsApi P⦄ (paths : Paths) → AllNew paths api.new
AllNew-new P ⦃api⦄ [] = tt
AllNew-new P ⦃api⦄ ((k, item) ∷ paths) = (api.find-new k, AllNew-new P paths)

-- In the document that is generated for a route, what is found under a path is exactly the path
-- item that was collected for it, or nothing if none was.
pub generate_openapi_doc-find :
    (P : Type 0) {C H W : Type 0} ⦃api : PathsApi P⦄ (reg : Registry H W) (empty : C)
    (registered : List (C → C)) (r : Route H W) (title version : Text) (description : Option Text)
    (path : Text)
    → api.find path
        (generate_openapi_doc {P = P} reg empty registered r title version description).paths
      ≡ lookup_path path (collect_openapi_paths reg r [])
unfolding generate_openapi_doc
generate_openapi_doc-find P ⦃api⦄ reg empty registered r title version description path =
    let collected : Paths = collect_openapi_paths reg r [] in
    let (one, _) = collect_openapi_paths-Documented reg r [] in
    find-path_all path collected api.new one (AllNew-new P collected)
    ∙ ap (or_item (lookup_path path collected)) (api.find-new path)
    ∙ or_item-none (lookup_path path collected)
