-- ===== src/Router/Build/Refines.antt =====
-- The search of a route tree, `path_can_resolve` of silent/src/route/route_tree.rs, against what it
-- is to decide: whether some descent through the children uses the path up.
use silent.Prelude.{
  ℕ, zero, suc, ◌≡◌, refl, sym, ap, subst, ◌∙◌, ◌↔◌, ◌⊎◌, inl, inr, Bool, true, false, ◌||◌, Option,
  none, some, List, [], ◌∷◌, Bool-cases, get_elem?, drop, any, nat_Eq,
}
use mathlib.Core.Bool.{true≢false}
use silent.Text.{Text, is_empty, Text_Eq}
use silent.Router.Slice.{Str, Platform, advance, remain_offset}
use silent.Router.Segment.{is_full_path}
use silent.Router.Tree.{PathMatch, Node, RouteTree, Trees, tree, nil, cons}
use silent.Router.Dispatch.{
  attempt, attempt_match, candidates, path_can_resolve, resolvers, matches_of,
}
use silent.Router.Dispatch.Ends.{Among, first, later, Ends}
use silent.Router.Route.{Route}
use silent.Router.Route.Valid.{IsValid}
use silent.Router.Build.{convert_to_route_tree}
use silent.Router.Build.Index.{get_tree}
use silent.Router.Build.Complete.{path_can_resolve_complete}
use silent.Router.Build.Indexed.{Indexed, AllIndexed, into_tree-Indexed}

-- A descent from a tree and an offset to a node and an offset: each step takes any child that
-- matches, whatever the indices say.
pub data Descends {H W : Type 0} ⦃p : Platform⦄ (full : Str)
    : RouteTree H W → ℕ → Node H W → ℕ → Type 0 where
  arrived : {n : Node H W} {cs : Trees H W} {o : ℕ} → Descends full (tree n cs) o n o
  down :
      {k n : Node H W} {cs : Trees H W} {t : RouteTree H W} {o o' : ℕ} {m : PathMatch}
      → Among t cs
      → matches_of t (advance o full) full ≡ some m
      → Descends full t (remain_offset full m.remain) n o'
      → Descends full (tree k cs) o n o'

any-some : (f : ℕ → Bool) (xs : List ℕ) → any f xs ≡ true → (x : ℕ) × (f x ≡ true)
any-some f [] e = absurd (true≢false (sym e))
any-some f (x ∷ xs) e = elim (Bool-cases (f x)) [
  | inl hit ↦ (x, hit)
  | inr missed ↦ any-some f xs (sym (rw missed refl) ∙ e)
]

or-cases : (a b : Bool) → (a || b) ≡ true → (a ≡ true) ⊎ (b ≡ true)
or-cases true b e = inl refl
or-cases false b e = inr e

is_empty_nil : (t : Text) → is_empty t ≡ true → t ≡ []
is_empty_nil [] e = refl
is_empty_nil (c ∷ t) e = cc

or-true : (a : Bool) → (a || true) ≡ true
or-true true = refl
or-true false = refl

-- Some descent comes to a node where the path ends.
abbrev pub Resolvable : {H W : Type 0} ⦃p : Platform⦄ → RouteTree H W → Str → ℕ → Type 0
Resolvable {H} {W} t full o = (n : Node H W) × (o' : ℕ) × Descends full t o n o' × Ends full n o'

module _ {H W : Type 0} ⦃p : Platform⦄ where
  -- The step that a search takes.
  abbrev Step : Trees H W → Str → ℕ → Type 0
  Step cs full o =
      (t : RouteTree H W) × (m : PathMatch) × Among t cs
      × (matches_of t (advance o full) full ≡ some m)
      × Resolvable t full (remain_offset full m.remain)

  Resolvable-Step :
      (k : Node H W) (cs : Trees H W) (full : Str) (o : ℕ)
      → Step cs full o
      → Resolvable (tree k cs) full o
  Resolvable-Step k cs full o (t, m, among, matched, (n, o', descent, ends)) =
      (n, o', down among matched descent, ends)

  Step-later :
      (t : RouteTree H W) (ts : Trees H W) (full : Str) (o : ℕ)
      → Step ts full o
      → Step (cons t ts) full o
  Step-later t ts full o (s, m, among, matched, rest) = (s, m, later among, matched, rest)

  Step-first :
      (t : RouteTree H W) (ts : Trees H W) (full : Str) (o : ℕ) (r : Option PathMatch)
      → matches_of t (advance o full) full ≡ r
      → attempt_match full (path_can_resolve t) r ≡ true
      → ((x : ℕ) → path_can_resolve t full x ≡ true → Resolvable t full x)
      → Step (cons t ts) full o
  Step-first t ts full o none matched e sound = absurd (true≢false (sym e))
  Step-first t ts full o (some m) matched e sound =
      (t, m, first, matched, sound (remain_offset full m.remain) e)

  or-Ends :
      (n : Node H W) (full : Str) (o : ℕ)
      → (is_empty (advance o full).bytes || is_full_path n.segment) ≡ true
      → Ends full n o
  or-Ends n full o e = elim (or-cases (is_empty (drop o full.bytes)) (is_full_path n.segment) e) [
    | inl used ↦ inl (is_empty_nil (drop o full.bytes) used)
    | inr any_rest ↦ inr any_rest
  ]

mutual
  unfolding path_can_resolve

  sound :
      {H W : Type 0} ⦃p : Platform⦄ (t : RouteTree H W) (full : Str) (o : ℕ)
      → path_can_resolve t full o ≡ true
      → Resolvable t full o
  sound (tree n cs) full o e =
      elim (or-cases
        (any (λ i. attempt full (advance o full) (get_elem? (resolvers cs) i))
          (candidates n (advance o full)))
        _ e) [
          | inl some_child ↦
              let (i, hit) =
                any-some (λ i. attempt full (advance o full) (get_elem? (resolvers cs) i))
                  (candidates n (advance o full)) some_child in
              Resolvable-Step n cs full o (step_sound cs full o i hit)
          | inr here ↦ (n, o, arrived, or-Ends n full o here)
        ]

  step_sound :
      {H W : Type 0} ⦃p : Platform⦄ (cs : Trees H W) (full : Str) (o i : ℕ)
      → attempt full (advance o full) (get_elem? (resolvers cs) i) ≡ true
      → Step cs full o
  step_sound nil full o i e = absurd (true≢false (sym e))
  step_sound (cons t ts) full o zero e =
      Step-first t ts full o (matches_of t (advance o full) full) refl e (λ x h. sound t full x h)
  step_sound (cons t ts) full o (suc i) e = Step-later t ts full o (step_sound ts full o i e)

module _ {H W : Type 0} ⦃p : Platform⦄ where
  Among-get_tree :
      {t : RouteTree H W} {cs : Trees H W} → Among t cs → (i : ℕ) × (get_tree cs i ≡ some t)
  Among-get_tree first = (zero, refl)
  Among-get_tree (later among) = let (i, e) = Among-get_tree among in (suc i, e)

  Indexed-Among : {t : RouteTree H W} {cs : Trees H W} → Among t cs → AllIndexed cs → Indexed t
  unfolding Indexed
  Indexed-Among first (ix, all) = ix
  Indexed-Among (later among) (ix, all) = Indexed-Among among all

  path_can_resolve-Ends :
      (n : Node H W) (cs : Trees H W) (full : Str) (o : ℕ)
      → Ends full n o
      → path_can_resolve (tree n cs) full o ≡ true
  unfolding path_can_resolve
  path_can_resolve-Ends n cs full o ends =
      let found =
        any (λ i. attempt full (advance o full) (get_elem? (resolvers cs) i))
          (candidates n (advance o full)) in
      elim ends [
        | inl used ↦ ap (λ t. found || (is_empty t || is_full_path n.segment)) used ∙ or-true found
        | inr any_rest ↦
            ap (λ b. found || (is_empty (drop o full.bytes) || b)) any_rest
            ∙ ap (λ b. found || b) (or-true (is_empty (drop o full.bytes)))
            ∙ or-true found
      ]

  complete :
      (full : Str) (t : RouteTree H W) (o : ℕ) {o' : ℕ} {n : Node H W}
      → Descends full t o n o'
      → Indexed t
      → Ends full n o'
      → path_can_resolve t full o ≡ true
  unfolding Indexed
  complete full (tree n cs) o arrived ix ends = path_can_resolve-Ends n cs full o ends
  complete full (tree k cs) o (down {t = t} {m = m} among matched descent)
        ((i, inherited, same), (keyed, all)) ends =
      let (x, at) = Among-get_tree among in
      subst (λ q. path_can_resolve (tree q cs) full o ≡ true) (sym same)
        (path_can_resolve_complete i inherited cs x t full o at (keyed x t at) matched
          (complete full t (remain_offset full m.remain) descent (Indexed-Among among all) ends))

  -- Of the tree that a valid route is turned into, the search by the indices of the children says
  -- yes exactly when some descent through the children, each step to any child that matches, comes
  -- to a node where the path is used up or that takes any rest. So no route is lost by the indices,
  -- and none is made up.
  pub path_can_resolve_refines :
      (r : Route H W) (full : Str) (o : ℕ)
      → IsValid r
      → (path_can_resolve (convert_to_route_tree r) full o ≡ true)
        ↔ Resolvable (convert_to_route_tree r) full o
  unfolding convert_to_route_tree
  path_can_resolve_refines r full o valid = (
    sound (convert_to_route_tree r) full o,
    λ (n, o', descent, ends).
        complete full (convert_to_route_tree r) o descent (into_tree-Indexed r [] valid) ends,
  )
