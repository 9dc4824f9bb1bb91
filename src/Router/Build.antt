-- ===== src/Router/Build.antt =====
-- silent/src/route/route_service.rs: a route is turned into a route tree. Each node has the whole
-- chain of middlewares from the root, and the place in it where its own begin.
pub mod Index
pub mod Chain
pub mod Complete
pub mod Indexed
pub mod Refines
use silent.Prelude.{
  ℕ, suc, Bool, true, false, not, Option, none, some, List, [], ◌∷◌, ◌++◌, length, nat_Eq,
}
use silent.Text.{Text, Text_Eq}
use silent.Dict
use silent.Dict.{Dict}
use silent.Core.Next.{Handler, Middleware}
use silent.Router.Segment.{SpecialSeg, as_static_key, parse_special_seg}
use silent.Router.Tree.{Node, RouteTree, Trees, tree}
use silent.Router.Route.{RouteInfo, Route, Routes, route}

-- One round of the loop over `children.iter().enumerate()`.
abbrev pub index_child : Option Text → ℕ → Dict Text ℕ × List ℕ → Dict Text ℕ × List ℕ
index_child (some key) idx (static_children, dynamic_children) =
    (Dict.insert key idx static_children, dynamic_children)
index_child none idx (static_children, dynamic_children) =
    (static_children, dynamic_children ++ idx ∷ [])

module _ {H W : Type 0} where
  abbrev pub is_empty_map : Dict Text (Handler H W) → Bool
  is_empty_map [] = true
  is_empty_map (_ ∷ _) = false

  -- The chain that the children inherit.
  abbrev pub chain : List (Middleware H W) → List (Middleware H W) → List (Middleware H W)
  chain inherited [] = inherited
  chain inherited (mw ∷ mws) = inherited ++ (mw ∷ mws)

  abbrev pub segment_of : RouteTree H W → SpecialSeg
  segment_of (tree n _) = n.segment

  unfoldable pub index_from : ℕ → Trees H W → Dict Text ℕ × List ℕ → Dict Text ℕ × List ℕ
  index_from idx Trees.nil maps = maps
  index_from idx (Trees.cons child rest) maps =
      index_from (suc idx) rest (index_child (as_static_key (segment_of child)) idx maps)

  -- The node of a route, given the chain that it inherits and its children's trees.
  unfoldable pub node_of : RouteInfo H W → List (Middleware H W) → Trees H W → Node H W
  unfolding index_from
  node_of i inherited children =
      let (static_children, dynamic_children) = index_from 0 children ([], []) in
      record {
        handler = i.handler;
        middlewares = chain inherited i.middlewares;
        static_children = static_children;
        dynamic_children = dynamic_children;
        middleware_start = length inherited;
        state = i.state;
        segment = parse_special_seg i.path;
        has_handler = not (is_empty_map i.handler);
      }

-- `into_route_tree_with_chain`
unfoldable mutual
  pub into_tree : {H W : Type 0} → Route H W → List (Middleware H W) → RouteTree H W
  into_tree (route i cs) inherited =
      let children = into_trees cs (chain inherited i.middlewares) in
      tree (node_of i inherited children) children

  pub into_trees : {H W : Type 0} → Routes H W → List (Middleware H W) → Trees H W
  into_trees Routes.nil inherited = Trees.nil
  into_trees (Routes.cons c cs) inherited =
      Trees.cons (into_tree c inherited) (into_trees cs inherited)

-- `convert_to_route_tree`
unfoldable pub convert_to_route_tree : {H W : Type 0} → Route H W → RouteTree H W
unfolding into_tree
convert_to_route_tree r = into_tree r []
