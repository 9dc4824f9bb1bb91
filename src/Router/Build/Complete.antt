-- ===== src/Router/Build/Complete.antt =====
-- The search of the children by their index misses none that a search of all of them would find.
use silent.Prelude.{
  ℕ, zero, suc, ◌≡◌, refl, sym, ap, subst, ◌∙◌, ◌≢◌, inl, inr, Bool, true, false, Option, some,
  List, [], ◌∷◌, arith, Bool-cases, Option-cases, get_elem?, nat_Eq,
}
use mathlib.Core.Option.{some_inj}
use silent.Text.{Text, Text_Eq, contains, is_empty}
use silent.Text.Laws.{splitn_of_clean, splitn-append}
use silent.Dict
use silent.Core.Next.{Middleware}
use silent.Router.Slice.{
  Str, Platform, advance, remain_offset, strip_one_segment, match_static_segment,
}
use silent.Router.Slice.Laws.{trim_slash, cut, strip_one_segment_bytes}
use silent.Router.Slice.Static.{Behind, match_static_segment_sound}
use silent.Router.Segment.{SpecialSeg, as_static_key}
use silent.Router.Tree.{PathMatch, Node, RouteTree, Trees, tree, nil, cons, call_path_only}
use silent.Router.Route.{RouteInfo}
use silent.Router.Dispatch.{
  candidates, listed, attempt, attempt_match, path_can_resolve, resolvers, matches_of,
}
use silent.Router.Build.{node_of, index_from}
use silent.Router.Build.Index.{
  Member, Member-append_right, any-Member, get_tree, key_of, Fresh, behind, index_from_static,
  index_from_dynamic,
}

cut-Behind : (k path rest : Text) → contains b'/' k ≡ false → Behind k path rest → (cut path).0 ≡ k
cut-Behind k path rest clean (inl (same, none_left)) =
    rw same (ap (λ (x : Text × Option Text). x.0) (splitn_of_clean b'/' k clean))
cut-Behind k path rest clean (inr more) =
    rw more (ap (λ (x : Text × Option Text). x.0) (splitn-append b'/' k rest clean))

filled_Behind :
    (k path rest : Text) → k ≢ [] → Behind k (trim_slash path) rest → is_empty path ≡ false
filled_Behind k [] rest ne (inl (same, none_left)) = absurd (ne (sym same))
filled_Behind [] [] rest ne (inr more) = cc
filled_Behind (c ∷ k) [] rest ne (inr more) = cc
filled_Behind k (c ∷ path) rest ne b = refl

static_match :
    ⦃p : Platform⦄ (seg : SpecialSeg) (leaf : Bool) (path whole : Str) (k : Text) {m : PathMatch}
    → as_static_key seg ≡ some k
    → call_path_only seg leaf path whole ≡ some m
    → match_static_segment k path ≡ some m.remain
unfolding as_static_key call_path_only
static_match (SpecialSeg.static value) leaf path whole k {m} key e =
    elim (Option-cases (match_static_segment value path)) [
      | inl missed ↦ ground arith
      | inr (rem, found) ↦
          let same : rem ≡ m.remain = ground arith in
          subst (λ x. match_static_segment x path ≡ some m.remain) (some_inj.0 key)
            (found ∙ ap some same)
    ]
static_match _ leaf path whole k key e = cc

module _ {H W : Type 0} where
  -- What the builder relies on of a static child's text: it is not empty, has no '/', and no later
  -- child has the same.
  abbrev pub Keyed : Trees H W → ℕ → RouteTree H W → Type 0
  Keyed ts i t =
      (k : Text) → key_of t ≡ some k → (k ≢ []) × (contains b'/' k ≡ false) × Fresh k (behind ts i)

module _ {H W : Type 0} ⦃p : Platform⦄ where
  resolvers_get :
      (ts : Trees H W) (i : ℕ) (t : RouteTree H W)
      → get_tree ts i ≡ some t
      → get_elem? (resolvers ts) i ≡ some (matches_of t, path_can_resolve t)
  unfolding path_can_resolve
  resolvers_get nil i t e = cc
  resolvers_get (cons s ts) zero t e =
      ap (λ x. some (matches_of x, path_can_resolve x)) (some_inj.0 e)
  resolvers_get (cons s ts) (suc i) t e = resolvers_get ts i t e

  candidates_dynamic :
      (n : Node H W) (remain : Str) (x : ℕ)
      → Member x n.dynamic_children
      → Member x (candidates n remain)
  unfolding candidates
  candidates_dynamic n remain x h = elim (Bool-cases (is_empty remain.bytes)) [
    | inl e ↦ rw e (Member-append_right x (p.hash_order n.static_children) n.dynamic_children h)
    | inr e ↦ rw e (
        Member-append_right x
          (listed (Dict.lookup (strip_one_segment remain).0.bytes n.static_children))
          n.dynamic_children h)
  ]

  candidates_static :
      (n : Node H W) (remain : Str) (x : ℕ) (k : Text)
      → is_empty remain.bytes ≡ false
      → (strip_one_segment remain).0.bytes ≡ k
      → Dict.lookup k n.static_children ≡ some x
      → Member x (candidates n remain)
  unfolding candidates
  candidates_static n remain x k filled first found = rw (filled, first, found) (inl refl)

  candidates_complete :
      (r : RouteInfo H W) (inherited : List (Middleware H W)) (ts : Trees H W) (i : ℕ)
      (t : RouteTree H W) (remain whole : Str) {m : PathMatch}
      → get_tree ts i ≡ some t
      → Keyed ts i t
      → matches_of t remain whole ≡ some m
      → Member i (candidates (node_of r inherited ts) remain)
  unfolding node_of matches_of
  candidates_complete r inherited ts i (tree n cs) remain whole {m} at keyed matched =
      elim (Option-cases (as_static_key n.segment)) [
        | inl none_key ↦ candidates_dynamic (node_of r inherited ts) remain i (
            subst (λ x. Member x (index_from 0 ts ([], [])).1) (omega arith)
              (index_from_dynamic ts i 0 ([], []) (tree n cs) at none_key))
        | inr (k, key) ↦
            let (ne, clean, fresh) = keyed k key in
            let found =
              match_static_segment_sound k remain ne
                (static_match n.segment _ remain whole k key matched) in
            candidates_static (node_of r inherited ts) remain i k
              (filled_Behind k remain.bytes m.remain.bytes ne found)
              (ap (λ (x : Text × Text). x.0) (strip_one_segment_bytes remain)
                ∙ cut-Behind k (trim_slash remain.bytes) m.remain.bytes clean found)
              (index_from_static k ts i 0 ([], []) (tree n cs) at key fresh ∙ ap some (omega arith))
      ]

  -- If some child of a node made by `node_of` matches the path at an offset and can resolve what
  -- remains of it, the node can resolve the path. The child's static text, if it has one, is not
  -- empty, has no '/', and is not that of a later child. So the lookup of one static child by the
  -- first segment loses no child that matches.
  pub path_can_resolve_complete :
      (r : RouteInfo H W) (inherited : List (Middleware H W)) (ts : Trees H W) (i : ℕ)
      (t : RouteTree H W) (full : Str) (o : ℕ) {m : PathMatch}
      → get_tree ts i ≡ some t
      → Keyed ts i t
      → matches_of t (advance o full) full ≡ some m
      → path_can_resolve t full (remain_offset full m.remain) ≡ true
      → path_can_resolve (tree (node_of r inherited ts) ts) full o ≡ true
  unfolding path_can_resolve
  path_can_resolve_complete r inherited ts i t full o {m} at keyed matched can =
      let remain = advance o full in
      let tried : attempt full remain (get_elem? (resolvers ts) i) ≡ true =
        ap (attempt full remain) (resolvers_get ts i t at)
        ∙ ap (attempt_match full (path_can_resolve t)) matched
        ∙ can in
      rw
        (any-Member (λ j. attempt full remain (get_elem? (resolvers ts) j)) i
          (candidates (node_of r inherited ts) remain)
          (candidates_complete r inherited ts i t remain full at keyed matched) tried)
        refl
