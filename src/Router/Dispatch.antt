-- ===== src/Router/Dispatch.antt =====
-- The dispatch of a request in silent/src/route/route_tree.rs, and the handler map of
-- silent/src/handler/handler_trait.rs. A tree is searched once to see whether a child can resolve
-- the path (`path_can_resolve`), and then entered without a way back.
pub mod Select
pub mod Ends
pub mod Methods
use silent.Prelude.{
  ℕ, Bool, true, false, ◌&&◌, ◌||◌, Option, none, some, List, [], ◌∷◌, ◌++◌, if◌then◌else◌,
  get_elem?, drop, any, ◌=?◌, nat_Eq,
}
use silent.Text.{Text, text, is_empty, Text_Eq}
use silent.Dict
use silent.Dict.{Dict}
use silent.Core.Error.{Result, ok, err, not_found, business_error}
use silent.Core.State.{State, extend_from}
use silent.Core.Http.{
  Request, Response, HeaderApi, no_body, empty_response, copy_from_response, set_body,
  set_path_source,
}
use silent.Core.Next
use silent.Core.Next.{Action, Handler, Middleware, build}
use silent.Router.Slice.{Str, Platform, strip_one_segment, remain_offset, advance}
use silent.Router.Segment.{is_full_path}
use silent.Router.Tree.{
  PathMatch, Node, RouteTree, Trees, tree, nil, cons, is_leaf, call_path_only, bind_params,
}

module _ {H W : Type 0} ⦃api : HeaderApi H⦄ where
  -- `pre_res.copy_from_response(handler.call(req).await?)`, where `pre_res` has the request's state.
  abbrev pub finish :
      State → (Response H → Response H) → Result (Response H) × W → Result (Response H) × W
  finish state after (ok res, w) =
      (ok (after (copy_from_response (record empty_response { state = state }) res)), w)
  finish state after (err e, w) = (err e, w)

  -- The handler of the method, or else that of GET, without its body, for HEAD.
  abbrev pub answer_by :
      Request H → W → Option (Handler H W) → Option (Handler H W) → Result (Response H) × W
  answer_by req w (some handler) fallback = finish req.state (λ res. res) (handler req w)
  answer_by req w none (some get_handler) = finish req.state (set_body no_body) (get_handler req w)
  answer_by req w none none = (err (business_error 405 (text "method not allowed")), w)

  -- `Handler::call` of a `HashMap<Method, Arc<dyn Handler>>`.
  unfoldable pub call_handlers : Dict Text (Handler H W) → Handler H W
  call_handlers handlers req w =
      answer_by req w (Dict.lookup req.method handlers)
        (if req.method =? text "HEAD" then Dict.lookup (text "GET") handlers else none)

-- What a parent sees of a child: its match of the path, whether it can resolve what remains, and
-- the call that binds the parameters and enters it.
pub record Child (H W : Type 0) : Type 0 where
  pub matches : Str → Str → Option PathMatch
  pub resolves : Str → ℕ → Bool
  pub enter : Str → Request H → PathMatch → Action H W

-- `static_children.get(segment)`, as a list of candidates
abbrev pub listed : Option ℕ → List ℕ
listed none = []
listed (some idx) = idx ∷ []

-- One round of the loop of `path_can_resolve`.
abbrev pub attempt_match : Str → (Str → ℕ → Bool) → Option PathMatch → Bool
attempt_match full resolves none = false
attempt_match full resolves (some candidate) = resolves full (remain_offset full candidate.remain)

abbrev pub attempt : Str → Str → Option ((Str → Str → Option PathMatch) × (Str → ℕ → Bool)) → Bool
attempt full remain none = false
attempt full remain (some (matches, resolves)) = attempt_match full resolves (matches remain full)

module _ {H W : Type 0} ⦃p : Platform⦄ where
  -- `candidate_indices`
  unfoldable pub candidates : Node H W → Str → List ℕ
  candidates n remain =
      if is_empty remain.bytes
      then p.hash_order n.static_children ++ n.dynamic_children
      else listed (Dict.lookup (strip_one_segment remain).0.bytes n.static_children)
        ++ n.dynamic_children

  unfoldable pub matches_of : RouteTree H W → Str → Str → Option PathMatch
  matches_of (tree n cs) = call_path_only n.segment (is_leaf cs)

unfoldable mutual
  pub path_can_resolve : {H W : Type 0} ⦃p : Platform⦄ → RouteTree H W → Str → ℕ → Bool
  path_can_resolve (tree n cs) full offset =
      let remain = advance offset full in
      any (λ idx. attempt full remain (get_elem? (resolvers cs) idx)) (candidates n remain)
      || (is_empty remain.bytes || is_full_path n.segment)

  pub resolvers :
      {H W : Type 0} ⦃p : Platform⦄
      → Trees H W
      → List ((Str → Str → Option PathMatch) × (Str → ℕ → Bool))
  resolvers nil = []
  resolvers (cons t ts) = (matches_of t, path_can_resolve t) ∷ resolvers ts

abbrev pub first_of {ℓ} : {A : Type ℓ} → Option A → Option A → Option A
first_of none o = o
first_of (some a) o = some a

-- The first candidate that matches and can resolve what remains, with its match.
module _ {H W : Type 0} where
  abbrev pub take_if : Child H W → PathMatch → Bool → Option (Child H W × PathMatch)
  take_if c candidate false = none
  take_if c candidate true = some (c, candidate)

  abbrev pub accept_match : Str → Child H W → Option PathMatch → Option (Child H W × PathMatch)
  accept_match full c none = none
  accept_match full c (some candidate) =
      take_if c candidate (c.resolves full (remain_offset full candidate.remain))

  abbrev pub accept : Str → Str → Option (Child H W) → Option (Child H W × PathMatch)
  accept full remain none = none
  accept full remain (some c) = accept_match full c (c.matches remain full)

  abbrev pub select : List (Child H W) → Str → Str → List ℕ → Option (Child H W × PathMatch)
  select cs full remain [] = none
  select cs full remain (idx ∷ rest) =
      first_of (accept full remain (get_elem? cs idx)) (select cs full remain rest)

  -- `call_with_path` of a node, over the call of its children: first the state, then the node's own
  -- middlewares, if there are any.
  unfoldable pub with_state : Node H W → Request H → Request H
  with_state n req = elim n.state [
    | none ↦ req
    | some state ↦ record req { state = extend_from req.state state }
  ]

  unfoldable pub call_with_path :
      Node H W → (Request H → ℕ → Action H W) → Request H → ℕ → Action H W
  unfolding with_state
  call_with_path n call_children req offset =
      let req' = with_state n req in
      elim (drop n.middleware_start n.middlewares) [
        | [] ↦ call_children req' offset
        | mw ∷ mws ↦ Next.call (build (λ r. call_children r offset) (mw ∷ mws)) req'
      ]

  -- The end of `call_children`, when no child takes the path.
  unfoldable pub call_here : ⦃api : HeaderApi H⦄ → Node H W → Str → Handler H W
  call_here n remain req w =
      if is_empty remain.bytes
      then if n.has_handler then call_handlers n.handler req w else (err not_found, w)
      else if is_full_path n.segment && n.has_handler
      then call_handlers n.handler req w
      else (err not_found, w)

  -- Binding the parameters of a match, then `call_with_path`.
  unfoldable pub enter_with :
      RouteTree H W → (Str → Request H → ℕ → Action H W) → Str → Request H → PathMatch → Action H W
  unfolding call_with_path
  enter_with (tree n cs) call_children full req candidate =
      elim (bind_params n.segment req candidate full.bytes) [
        | none ↦ λ w. (err not_found, w)
        | some bound ↦
            call_with_path n (call_children full) bound (remain_offset full candidate.remain)
      ]

-- The selected child is entered; with none, the node itself answers.
abbrev pub proceed :
    {H W : Type 0} ⦃api : HeaderApi H⦄
    → Node H W
    → Str
    → Str
    → Request H
    → Option (Child H W × PathMatch)
    → Action H W
proceed n full remain req none = call_here n remain req
proceed n full remain req (some (child, candidate)) = child.enter full req candidate

unfoldable mutual
  pub call_children :
      {H W : Type 0} ⦃api : HeaderApi H⦄ ⦃p : Platform⦄
      → RouteTree H W
      → Str
      → Request H
      → ℕ
      → Action H W
  call_children (tree n cs) full req offset =
      let remain = advance offset full in
      proceed n full remain req (select (children cs) full remain (candidates n remain))

  pub children : {H W : Type 0} ⦃api : HeaderApi H⦄ ⦃p : Platform⦄ → Trees H W → List (Child H W)
  children nil = []
  children (cons t ts) =
      record {
        matches = matches_of t;
        resolves = path_can_resolve t;
        enter = enter_with t (call_children t);
      }
      ∷ children ts

abbrev pub replace_state : {H : Type 0} → Option State → Request H → Request H
replace_state none req = req
replace_state (some state) req = record req { state = state }

module _ {H W : Type 0} ⦃api : HeaderApi H⦄ ⦃p : Platform⦄ where
  -- `Handler::call` of a `RouteTree`, the entry point.
  unfoldable pub call : RouteTree H W → Handler H W
  unfolding call_with_path
  call (tree n cs) req w =
      let full : Str = record { addr = p.buffer_addr; bytes = req.uri_path } in
      let req' = set_path_source req.uri_path (replace_state n.state req) in
      elim (matches_of (tree n cs) full full) [
        | none ↦ (err not_found, w)
        | some candidate ↦ enter_with (tree n cs) (call_children (tree n cs)) full req' candidate w
      ]
