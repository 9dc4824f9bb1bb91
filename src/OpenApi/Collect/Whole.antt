-- ===== src/OpenApi/Collect/Whole.antt =====
-- The collection over a whole tree of routes.
use silent.Prelude.{
  ◌≡◌, sym, subst, ◌⊎◌, inl, inr, false, some, List, [], ◌∷◌, map, Bool-cases, nat_Eq,
}
use silent.Text.{Text, Text_Eq}
use silent.Dict.{Dict}
use silent.Core.Next.{Handler}
use silent.Router.Route.{Route, Routes, route, nil, cons}
use silent.OpenApi.Doc.{
  ExtraResponse, or_nil, lookup_doc_by_handler_ptr, lookup_response_by_handler_ptr,
  lookup_extra_responses_by_handler_ptr, lookup_request_by_handler_ptr,
}
use silent.OpenApi.Convert.{convert_path_format}
use silent.OpenApi.Convert.Ends.{convert_path_format_ends, Rooted}
use silent.OpenApi.Operation.{Operation, create_operation_with_doc}
use silent.OpenApi.Collect.{
  create_or_update_path_item, Paths, add_path, add_converted, Registry, full_path_of,
  current_tags_of, document_method, document_methods, document_route, collect_paths_recursive,
  collect_children, collect_openapi_paths, infer_middleware_responses, merge_responses, some_if_any,
}
use silent.OpenApi.Collect.Items.{
  OnePerPath, OnePerPath-add_path, Has, Has-new, Has-kept, is_standard, operation_of-create,
}

-- What is true of `qs` if they come of `ps` by additions.
abbrev Grows : Paths → Paths → Type 0
Grows ps qs = ((k m : Text) → Has k m ps → Has k m qs) × (OnePerPath ps → OnePerPath qs)

Grows-trans : (ps qs rs : Paths) → Grows ps qs → Grows qs rs → Grows ps rs
Grows-trans ps qs rs (has, one) (has', one') = ((λ k m h. has' k m (has k m h)), λ h. one' (one h))

-- The handler of a method is documented, if the method has a place in a path item.
abbrev pub IsDocumented : Text → Text → Paths → Type 0
IsDocumented full_path method paths =
    (is_standard method ≡ false)
    ⊎ ((key : Text) × (convert_path_format full_path ≡ some key) × Has key method paths)

abbrev pub AreDocumented : {H W : Type 0} → Text → Dict Text (Handler H W) → Paths → Type 0
AreDocumented full_path [] paths = Unit
AreDocumented full_path ((method, handler) ∷ handlers) paths =
    IsDocumented full_path method paths × AreDocumented full_path handlers paths

unfoldable mutual
  -- All handlers of a route and of the routes below it.
  pub RouteDocumented : {H W : Type 0} → Route H W → Text → Paths → Type 0
  RouteDocumented (route i cs) current paths =
      AreDocumented (full_path_of current i.path) i.handler paths
      × RoutesDocumented cs (full_path_of current i.path) paths

  pub RoutesDocumented : {H W : Type 0} → Routes H W → Text → Paths → Type 0
  RoutesDocumented nil current paths = Unit
  RoutesDocumented (cons c cs) current paths =
      RouteDocumented c current paths × RoutesDocumented cs current paths

IsDocumented-Grows :
    (full_path method : Text) (ps qs : Paths)
    → Grows ps qs
    → IsDocumented full_path method ps
    → IsDocumented full_path method qs
IsDocumented-Grows full_path method ps qs grows (inl other) = inl other
IsDocumented-Grows full_path method ps qs (has, one) (inr (key, converted, h)) =
    inr (key, converted, has key method h)

AreDocumented-Grows :
    {H W : Type 0} (full_path : Text) (handlers : Dict Text (Handler H W)) (ps qs : Paths)
    → Grows ps qs
    → AreDocumented full_path handlers ps
    → AreDocumented full_path handlers qs
AreDocumented-Grows full_path [] ps qs grows h = tt
AreDocumented-Grows full_path ((method, handler) ∷ handlers) ps qs grows (here, h) = (
  IsDocumented-Grows full_path method ps qs grows here,
  AreDocumented-Grows full_path handlers ps qs grows h,
)

mutual
  unfolding RouteDocumented

  RouteDocumented-Grows :
      {H W : Type 0} (r : Route H W) (current : Text) (ps qs : Paths)
      → Grows ps qs
      → RouteDocumented r current ps
      → RouteDocumented r current qs
  RouteDocumented-Grows (route i cs) current ps qs grows (here, below) = (
    AreDocumented-Grows (full_path_of current i.path) i.handler ps qs grows here,
    RoutesDocumented-Grows cs (full_path_of current i.path) ps qs grows below,
  )

  RoutesDocumented-Grows :
      {H W : Type 0} (cs : Routes H W) (current : Text) (ps qs : Paths)
      → Grows ps qs
      → RoutesDocumented cs current ps
      → RoutesDocumented cs current qs
  RoutesDocumented-Grows nil current ps qs grows h = tt
  RoutesDocumented-Grows (cons c cs) current ps qs grows (here, h) = (
    RouteDocumented-Grows c current ps qs grows here,
    RoutesDocumented-Grows cs current ps qs grows h,
  )

-- One addition.
added_Documented :
    (full_path method key : Text) (op : Operation) (paths : Paths)
    → convert_path_format full_path ≡ some key
    → Rooted key
    → Grows paths (add_path key (create_or_update_path_item method op) paths)
      × IsDocumented full_path method (add_path key (create_or_update_path_item method op) paths)
added_Documented full_path method key op paths converted root =
    let item = create_or_update_path_item method op in
    (
      ((λ k m h. Has-kept k m key item paths h), OnePerPath-add_path key item paths root),
      elim (Bool-cases (is_standard method)) [
        | inl standard ↦ inr (
          key,
          converted,
          Has-new key method item paths op (operation_of-create method op standard),
        )
        | inr other ↦ inl other
      ],
    )

module _ {H W : Type 0} (reg : Registry H W) where
  document_method-Documented :
      (full_path : Text) (tags : List Text) (mws : List ExtraResponse) (method : Text)
      (handler : Handler H W) (paths : Paths)
      → Grows paths (document_method reg full_path tags mws method handler paths)
        × IsDocumented full_path method
            (document_method reg full_path tags mws method handler paths)
  unfolding document_method
  document_method-Documented full_path tags mws method handler paths =
      let (key, converted, ended, root) = convert_path_format_ends full_path in
      let ptr = reg.ptr handler in
      let op =
        create_operation_with_doc method full_path (lookup_doc_by_handler_ptr ptr reg.docs)
          (lookup_response_by_handler_ptr ptr reg.docs) (lookup_request_by_handler_ptr ptr reg.docs)
          (some_if_any
            (merge_responses mws (or_nil (lookup_extra_responses_by_handler_ptr ptr reg.docs))))
          tags in
      let item = create_or_update_path_item method op in
      subst
        (λ o.
          Grows paths (add_converted o item paths)
          × IsDocumented full_path method (add_converted o item paths))
        (sym converted) (added_Documented full_path method key op paths converted root)

  document_methods-Documented :
      (full_path : Text) (tags : List Text) (mws : List ExtraResponse)
      (handlers : Dict Text (Handler H W)) (paths : Paths)
      → Grows paths (document_methods reg full_path tags mws handlers paths)
        × AreDocumented full_path handlers (document_methods reg full_path tags mws handlers paths)
  unfolding document_methods
  document_methods-Documented full_path tags mws [] paths = (((λ k m h. h), λ h. h), tt)
  document_methods-Documented full_path tags mws ((method, handler) ∷ handlers) paths =
      let next = document_method reg full_path tags mws method handler paths in
      let done = document_methods reg full_path tags mws handlers next in
      let (grows, here) = document_method-Documented full_path tags mws method handler paths in
      let (grows', rest) = document_methods-Documented full_path tags mws handlers next in
      (
        Grows-trans paths next done grows grows',
        (IsDocumented-Grows full_path method next done grows' here, rest),
      )

mutual
  unfolding collect_paths_recursive RouteDocumented document_route

  collect-Documented :
      {H W : Type 0} (reg : Registry H W) (r : Route H W) (current : Text) (tags : List Text)
      (paths : Paths)
      → Grows paths (collect_paths_recursive reg r current tags paths)
        × RouteDocumented r current (collect_paths_recursive reg r current tags paths)
  collect-Documented reg (route i cs) current tags paths =
      let full_path = full_path_of current i.path in
      let tags' = current_tags_of tags i.path in
      let mws = infer_middleware_responses (map reg.type_name i.middlewares) in
      let next = document_methods reg full_path tags' mws i.handler paths in
      let (grows, here) = document_methods-Documented reg full_path tags' mws i.handler paths in
      let (grows', below) = collect_children-Documented reg cs full_path tags' next in
      let done = collect_children reg cs full_path tags' next in
      (
        Grows-trans paths next done grows grows',
        (AreDocumented-Grows full_path i.handler next done grows' here, below),
      )

  collect_children-Documented :
      {H W : Type 0} (reg : Registry H W) (cs : Routes H W) (current : Text) (tags : List Text)
      (paths : Paths)
      → Grows paths (collect_children reg cs current tags paths)
        × RoutesDocumented cs current (collect_children reg cs current tags paths)
  collect_children-Documented reg nil current tags paths = (((λ k m h. h), λ h. h), tt)
  collect_children-Documented reg (cons c cs) current tags paths =
      let next = collect_paths_recursive reg c current tags paths in
      let done = collect_children reg cs current tags next in
      let (grows, here) = collect-Documented reg c current tags paths in
      let (grows', rest) = collect_children-Documented reg cs current tags next in
      (
        Grows-trans paths next done grows grows',
        (RouteDocumented-Grows c current next done grows' here, rest),
      )

-- The paths that are collected for a route are distinct and begin with '/', and for every handler
-- of the route or of a route below it, whose method has a place in a path item, the item of the
-- converted full path has an operation for the method.
pub collect_openapi_paths-Documented :
    {H W : Type 0} (reg : Registry H W) (r : Route H W) (base_path : Text)
    → OnePerPath (collect_openapi_paths reg r base_path)
      × RouteDocumented r base_path (collect_openapi_paths reg r base_path)
unfolding collect_openapi_paths
collect_openapi_paths-Documented reg r base_path =
    let (grows, documented) = collect-Documented reg r base_path [] [] in (grows.1 tt, documented)
