-- ===== src/Router/Build/Indexed.antt =====
-- The tree of a route: each node has the indices of its children, and a static child's text is a
-- segment that no later child has.
use silent.Prelude.{
  ℕ, zero, suc, ◌≡◌, refl, sym, ap, ap₂, subst, ◌∙◌, ◌≢◌, inl, inr, Bool, true, false, ◌&&◌, none,
  some, List, [], ◌∷◌, Bool-cases, nat_Eq,
}
use mathlib.Core.Option.{some_inj}
use mathlib.Core.Bool.{true≢false}
use silent.Text.{Text, text, contains, starts_with, ends_with, Text_Eq}
use silent.Core.Next.{Middleware}
use silent.Router.Segment.{
  SpecialPath, seg_of_path, special_path_from, as_static_key, parse_special_seg,
}
use silent.Router.Tree.{RouteTree, Trees, tree, nil, cons}
use silent.Router.Route.{RouteInfo, Route, Routes, route, info, same_slot, bool_eq}
use silent.Router.Route.Merge.{OneToSlot, Vacant}
use silent.Router.Route.Valid.{IsSegment, IsValid, AreValid}
use silent.Router.Build.{node_of, chain, into_tree, into_trees}
use silent.Router.Build.Index.{get_tree, key_of, Fresh}
use silent.Router.Build.Complete.{Keyed}

as_static_key-seg_of_path : (s : SpecialPath) → as_static_key (seg_of_path s) ≡ none
unfolding as_static_key
as_static_key-seg_of_path (SpecialPath.string k) = refl
as_static_key-seg_of_path (SpecialPath.int k) = refl
as_static_key-seg_of_path (SpecialPath.i64 k) = refl
as_static_key-seg_of_path (SpecialPath.i32 k) = refl
as_static_key-seg_of_path (SpecialPath.u64 k) = refl
as_static_key-seg_of_path (SpecialPath.u32 k) = refl
as_static_key-seg_of_path (SpecialPath.uuid k) = refl
as_static_key-seg_of_path (SpecialPath.path k) = refl
as_static_key-seg_of_path (SpecialPath.full_path k) = refl

abbrev special : Text → Bool
special raw = starts_with (text "<") raw && ends_with b'>' raw

-- A segment that is looked up by its text is neither empty nor special, and its text is the path.
as_static_key-parse :
    (raw k : Text)
    → as_static_key (parse_special_seg raw) ≡ some k
    → (raw ≡ k) × (raw ≢ []) × (special raw ≡ false)
unfolding parse_special_seg as_static_key
as_static_key-parse [] k e = cc
as_static_key-parse (c ∷ raw) k e = elim (Bool-cases (special (c ∷ raw))) [
  | inl marked ↦
      let none_key : as_static_key (parse_special_seg (c ∷ raw)) ≡ none =
        rw marked (as_static_key-seg_of_path (special_path_from (c ∷ raw))) in
      cc
  | inr unmarked ↦
      let key : as_static_key (parse_special_seg (c ∷ raw)) ≡ some (c ∷ raw) = rw unmarked refl in
      (some_inj.0 (sym key ∙ e), (λ x. cc), unmarked)
]

module _ {H W : Type 0} where
  key_of-into_tree :
      (r : Route H W) (inherited : List (Middleware H W))
      → key_of (into_tree r inherited) ≡ as_static_key (parse_special_seg (info r).path)
  unfolding into_tree node_of
  key_of-into_tree (route i cs) inherited = refl

  -- Two static routes with the same text are in the same slot.
  same_slot-static :
      (c d : RouteInfo H W) (k : Text)
      → IsSegment c
      → IsSegment d
      → as_static_key (parse_special_seg c.path) ≡ some k
      → as_static_key (parse_special_seg d.path) ≡ some k
      → same_slot d c ≡ true
  same_slot-static c d k (mark_c, _) (mark_d, _) key_c key_d =
      let (pc, _, plain_c) = as_static_key-parse c.path k key_c in
      let (pd, _, plain_d) = as_static_key-parse d.path k key_d in
      ap₂ ◌&&◌ ((Text_Eq.beq_iff d.path c.path).1 (pd ∙ sym pc))
        (ap₂ bool_eq (mark_d ∙ plain_d) (mark_c ∙ plain_c))

  IsSegment-of : (r : Route H W) → IsValid r → IsSegment (info r)
  unfolding IsValid
  IsSegment-of (route i cs) v = v.0

  Fresh-into_trees :
      (c : RouteInfo H W) (cs : Routes H W) (inherited : List (Middleware H W)) (k : Text)
      → IsSegment c
      → as_static_key (parse_special_seg c.path) ≡ some k
      → Vacant c cs
      → AreValid cs
      → Fresh k (into_trees cs inherited)
  unfolding into_tree IsValid
  Fresh-into_trees c Routes.nil inherited k seg key v valid = tt
  Fresh-into_trees c (Routes.cons d ds) inherited k seg key (apart, v) (vd, valid) = (
    (λ e. true≢false (
        sym (
          same_slot-static c (info d) k seg (IsSegment-of d vd) key
            (sym (key_of-into_tree d inherited) ∙ e))
        ∙ apart)),
    Fresh-into_trees c ds inherited k seg key v valid,
  )

  into_trees-Keyed :
      (cs : Routes H W) (inherited : List (Middleware H W)) (i : ℕ) (t : RouteTree H W)
      → OneToSlot cs
      → AreValid cs
      → get_tree (into_trees cs inherited) i ≡ some t
      → Keyed (into_trees cs inherited) i t
  unfolding into_tree IsValid
  into_trees-Keyed Routes.nil inherited i t slots valid at = cc
  into_trees-Keyed (Routes.cons c cs) inherited zero t (v, slots) (vc, valid) at = λ k key.
      let seg = IsSegment-of c vc in
      let found : as_static_key (parse_special_seg (info c).path) ≡ some k =
        sym (key_of-into_tree c inherited) ∙ ap key_of (some_inj.0 at) ∙ key in
      let (same, ne, plain) = as_static_key-parse (info c).path k found in
      (
        (λ e. ne (same ∙ e)),
        subst (λ x. contains b'/' x ≡ false) same seg.1,
        Fresh-into_trees (info c) cs inherited k seg found v valid,
      )
  into_trees-Keyed (Routes.cons c cs) inherited (suc i) t (v, slots) (vc, valid) at =
      into_trees-Keyed cs inherited i t slots valid at

unfoldable mutual
  pub Indexed : {H W : Type 0} → RouteTree H W → Type 0
  Indexed {H} {W} (tree n ts) =
      ((i : RouteInfo H W) × (inherited : List (Middleware H W)) × (n ≡ node_of i inherited ts))
      × (((i : ℕ) (t : RouteTree H W) → get_tree ts i ≡ some t → Keyed ts i t) × AllIndexed ts)

  pub AllIndexed : {H W : Type 0} → Trees H W → Type 0
  AllIndexed nil = Unit
  AllIndexed (cons t ts) = Indexed t × AllIndexed ts

mutual
  unfolding into_tree IsValid Indexed

  pub into_tree-Indexed :
      {H W : Type 0} (r : Route H W) (inherited : List (Middleware H W))
      → IsValid r
      → Indexed (into_tree r inherited)
  into_tree-Indexed (route i cs) inherited (seg, (slots, valid)) = (
    (i, inherited, refl),
    (
      (λ k t at. into_trees-Keyed cs (chain inherited i.middlewares) k t slots valid at),
      into_trees-AllIndexed cs (chain inherited i.middlewares) valid,
    ),
  )

  into_trees-AllIndexed :
      {H W : Type 0} (cs : Routes H W) (inherited : List (Middleware H W))
      → AreValid cs
      → AllIndexed (into_trees cs inherited)
  into_trees-AllIndexed Routes.nil inherited valid = tt
  into_trees-AllIndexed (Routes.cons c cs) inherited (v, valid) =
      (into_tree-Indexed c inherited v, into_trees-AllIndexed cs inherited valid)
