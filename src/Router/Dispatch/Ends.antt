-- ===== src/Router/Dispatch/Ends.antt =====
-- Where a dispatch ends: the tree is entered only as far as the search has found a way. The search
-- does not ask whether the node that it leads to has a handler.
use silent.Prelude.{
  ℕ, zero, suc, ◌≡◌, refl, sym, ap, subst, ◌∙◌, ◌⊎◌, inl, inr, Bool, true, false, ◌||◌,
  if◌then◌else◌, Option, none, some, [], ◌∷◌, get_elem?, drop, any, nat_Eq,
}
use mathlib.Core.Option.{some_inj}
use silent.Text.{Text, is_empty, Text_Eq}
use silent.Core.Http.{Request, HeaderApi}
use silent.Core.Error.{err, not_found}
use silent.Core.Next.{Action}
use silent.Router.Slice.{Str, Platform, remain_offset, advance}
use silent.Router.Segment.{is_full_path}
use silent.Router.Tree.{PathMatch, Node, RouteTree, Trees, tree, nil, cons, is_leaf}
use silent.Router.Dispatch.Select.{select-some, select-none, resolvers-view, any_ext}
use silent.Router.Tree.Params.{bind_params_total}
use silent.Router.Dispatch.{
  Child, candidates, attempt, path_can_resolve, resolvers, matches_of, select, with_state,
  call_with_path, call_here, call_handlers, proceed, call_children, children, enter_with,
}

-- Nodes with no middleware of their own, all the way down.
mutual
  pub data Plain {H W : Type 0} : RouteTree H W → Type 0 where
    plain :
        {n : Node H W} {cs : Trees H W}
        → drop n.middleware_start n.middlewares ≡ []
        → AllPlain cs
        → Plain (tree n cs)

  pub data AllPlain {H W : Type 0} : Trees H W → Type 0 where
    none_left : AllPlain nil
    one_more : {t : RouteTree H W} {ts : Trees H W} → Plain t → AllPlain ts → AllPlain (cons t ts)

pub data Among {H W : Type 0} (t : RouteTree H W) : Trees H W → Type 0 where
  first : {ts : Trees H W} → Among t (cons t ts)
  later : {s : RouteTree H W} {ts : Trees H W} → Among t ts → Among t (cons s ts)

-- A node of the tree.
pub data NodeOf {H W : Type 0} (n : Node H W) : RouteTree H W → Type 0 where
  itself : {cs : Trees H W} → NodeOf n (tree n cs)
  below :
      {m : Node H W} {t : RouteTree H W} {cs : Trees H W}
      → Among t cs
      → NodeOf n t
      → NodeOf n (tree m cs)

-- The path ends at the node, or the node takes whatever is left.
abbrev pub Ends : {H W : Type 0} → Str → Node H W → ℕ → Type 0
Ends full n o = (drop o full.bytes ≡ []) ⊎ (is_full_path n.segment ≡ true)

module _ {H W : Type 0} ⦃api : HeaderApi H⦄ ⦃p : Platform⦄ where
  -- With no child selected, a path that can be resolved ends here.
  here_Ends :
      (n : Node H W) (cs : Trees H W) (full : Str) (o : ℕ)
      → select (children cs) full (advance o full) (candidates n (advance o full)) ≡ none
      → path_can_resolve (tree n cs) full o ≡ true
      → Ends full n o
  unfolding path_can_resolve
  here_Ends n cs full o e can =
      let dead : any (λ i. attempt full (advance o full) (get_elem? (resolvers cs) i))
            (candidates n (advance o full))
          ≡ false =
        any_ext _ _ _ (λ i. ap (attempt full (advance o full)) (resolvers-view cs i))
        ∙ select-none (children cs) full (advance o full) _ e in
      ends_of (drop o full.bytes) (is_full_path n.segment) (rw dead at can)
    where
      ends_of : (t : Text) (b : Bool) → (is_empty t || b) ≡ true → (t ≡ []) ⊎ (b ≡ true)
      ends_of [] b h = inl refl
      ends_of (c ∷ t) b h = inr h

  -- The call comes down to a node of the tree, where the path ends if the tree could resolve it.
  abbrev Answers : RouteTree H W → Str → ℕ → Request H → Type 0
  Answers t full o req =
      (n : Node H W) × (r : Request H) × (o' : ℕ) × NodeOf n t
      × (call_children t full req o ≡ call_here n (advance o' full) r)
      × (path_can_resolve t full o ≡ true → Ends full n o')

  abbrev Enters : Trees H W → Action H W → Str → Type 0
  Enters cs action full =
      (t : RouteTree H W) × (n : Node H W) × (r : Request H) × (o' : ℕ) × Among t cs
      × NodeOf n t
      × (action ≡ call_here n (advance o' full) r)
      × Ends full n o'

  call_with_path_plain :
      (n : Node H W) (k : Request H → ℕ → Action H W) (req : Request H) (o : ℕ)
      → drop n.middleware_start n.middlewares ≡ []
      → call_with_path n k req o ≡ k (with_state n req) o
  unfolding call_with_path
  call_with_path_plain n k req o e = rw (e, call_with_path) refl

  enter_plain :
      (n : Node H W) (cs : Trees H W) (full remain : Str) (req : Request H) (m : PathMatch)
      → drop n.middleware_start n.middlewares ≡ []
      → matches_of (tree n cs) remain full ≡ some m
      → (r : Request H) × (enter_with (tree n cs) (call_children (tree n cs)) full req m
          ≡ call_children (tree n cs) full r (remain_offset full m.remain))
  unfolding enter_with matches_of
  enter_plain n cs full remain req m e matched =
      let (bound, bind) =
        bind_params_total n.segment (is_leaf cs) remain full full.bytes req matched in
      (
        with_state n bound,
        rw (bind, enter_with) (call_with_path_plain n (call_children (tree n cs) full) bound _ e),
      )

  enter_first :
      (t : RouteTree H W) (ts : Trees H W)
      → Plain t
      → ((full : Str) (o : ℕ) (req : Request H) → Answers t full o req)
      → (full remain : Str) (req : Request H) (m : PathMatch) → matches_of t remain full ≡ some m
      → path_can_resolve t full (remain_offset full m.remain) ≡ true
      → Enters (cons t ts) (enter_with t (call_children t) full req m) full
  enter_first (tree n cs) ts (plain e ps) ih full remain req m matched can =
      let (r, entered) = enter_plain n cs full remain req m e matched in
      let (n', r', o', of, same, ends) = ih full (remain_offset full m.remain) r in
      (tree n cs, n', r', o', first, of, entered ∙ same, ends can)

  enter_later :
      (s : RouteTree H W) (ts : Trees H W) (action : Action H W) (full : Str)
      → Enters ts action full
      → Enters (cons s ts) action full
  enter_later s ts action full (t, n, r, o', among, of, same, ends) =
      (t, n, r, o', later among, of, same, ends)

  Answers-at :
      (n : Node H W) (cs : Trees H W) (full : Str) (o : ℕ) (req : Request H)
      → ((i : ℕ) (c : Child H W) (remain : Str) (m : PathMatch)
          → get_elem? (children cs) i ≡ some c
          → c.matches remain full ≡ some m
          → c.resolves full (remain_offset full m.remain) ≡ true
          → Enters cs (c.enter full req m) full)
      → Answers (tree n cs) full o req
  unfolding call_children
  Answers-at n cs full o req enters =
      at_select (select (children cs) full (advance o full) (candidates n (advance o full))) refl
    where
      at_select :
          (s : Option (Child H W × PathMatch))
          → select (children cs) full (advance o full) (candidates n (advance o full)) ≡ s
          → Answers (tree n cs) full o req
      at_select none e =
          (n, req, o, itself, ap (proceed n full (advance o full) req) e, here_Ends n cs full o e)
      at_select (some (c, m)) e =
          let (i, at, matched, can) = select-some (children cs) full (advance o full) _ e in
          let (t, n', r, o', among, of, same, ends) =
            enters i c (advance o full) m at matched can in
          (n', r, o', below among of, ap (proceed n full (advance o full) req) e ∙ same, λ _. ends)

mutual
  unfolding call_children path_can_resolve

  answers :
      {H W : Type 0} ⦃api : HeaderApi H⦄ ⦃p : Platform⦄ {t : RouteTree H W}
      → Plain t
      → (full : Str) (o : ℕ) (req : Request H) → Answers t full o req
  answers (plain {n} {cs} e ps) full o req =
      Answers-at n cs full o req (λ i c remain m. enter_answers ps i c full remain req m)

  enter_answers :
      {H W : Type 0} ⦃api : HeaderApi H⦄ ⦃p : Platform⦄ {cs : Trees H W}
      → AllPlain cs
      → (i : ℕ) (c : Child H W) (full remain : Str) (req : Request H) (m : PathMatch)
      → get_elem? (children cs) i ≡ some c
      → c.matches remain full ≡ some m
      → c.resolves full (remain_offset full m.remain) ≡ true
      → Enters cs (c.enter full req m) full
  enter_answers none_left i c full remain req m e matched can = cc
  enter_answers (one_more {t} {ts} pt ps) zero c full remain req m e matched can =
      subst (λ x. Enters (cons t ts) (x.enter full req m) full) (some_inj.0 e)
        (enter_first t ts pt (answers pt) full remain req m
          (subst (λ x. x.matches remain full ≡ some m) (sym (some_inj.0 e)) matched)
          (subst (λ x. x.resolves full (remain_offset full m.remain) ≡ true) (sym (some_inj.0 e))
            can))
  enter_answers (one_more {t} {ts} pt ps) (suc i) c full remain req m e matched can =
      enter_later t ts (c.enter full req m) full
        (enter_answers ps i c full remain req m e matched can)

-- The answer of a node's own handlers.
abbrev pub answer_of : {H W : Type 0} ⦃api : HeaderApi H⦄ → Node H W → Request H → Action H W
answer_of n req w = if n.has_handler then call_handlers n.handler req w else (err not_found, w)

-- Where a call of a node's children comes to.
abbrev pub CameTo :
    {H W : Type 0} ⦃api : HeaderApi H⦄ ⦃p : Platform⦄ → RouteTree H W → Str → ℕ → Request H → Type 0
CameTo {H} {W} t full o req =
    (n : Node H W) × (r : Request H) × (o' : ℕ) × NodeOf n t
    × (call_children t full req o ≡ call_here n (advance o' full) r)
    × ((path_can_resolve t full o ≡ false)
        ⊎ (Ends full n o' × (call_children t full req o ≡ answer_of n r)))
