-- ===== src/Router/Route.antt =====
-- silent/src/route/mod.rs and the handler map of handler_append.rs: a route and how routes are put
-- together. `unwrap` on a child that is not there is `none`, the panic.
pub mod New
pub mod Merge
pub mod Valid
pub mod Kept
use silent.Prelude.{
  ℕ, zero, suc, Bool, true, false, not, ◌&&◌, ◌||◌, Option, none, some, List, [], ◌∷◌, ◌++◌,
  if◌then◌else◌, length, ◌=?◌, nat_Eq,
}
use silent.Text.{
  Text, text, is_empty, contains, starts_with, ends_with, splitn, trim_start_matches, Text_Eq,
}
use silent.Dict
use silent.Dict.{Dict}
use silent.Core.State
use silent.Core.State.{State, extend_from}
use silent.Core.Next.{Handler, Middleware}

-- The fields of a `Route` but its children.
pub record RouteInfo (H W : Type 0) : Type 0 where
  pub path : Text
  pub handler : Dict Text (Handler H W)
  pub middlewares : List (Middleware H W)
  pub special_match : Bool
  pub create_path : Text
  pub state : Option State
  pub session_set : Bool

mutual
  pub data Route (H W : Type 0) : Type 0 where
    route : RouteInfo H W → Routes H W → Route H W

  pub data Routes (H W : Type 0) : Type 0 where
    nil : Routes H W
    cons : Route H W → Routes H W → Routes H W

abbrev pub merge_state : Option State → Option State → Option State
merge_state mine none = mine
merge_state none (some other) = some other
merge_state (some state) (some other) = some (extend_from state other)

abbrev pub bool_eq : Bool → Bool → Bool
bool_eq true b = b
bool_eq false b = not b

module _ {H W : Type 0} where
  abbrev pub info : Route H W → RouteInfo H W
  info (route i _) = i

  abbrev pub children_of : Route H W → Routes H W
  children_of (route _ cs) = cs

  unfoldable pub new_root : Route H W
  new_root =
      route
        (record {
          path = [];
          handler = [];
          middlewares = [];
          special_match = false;
          create_path = [];
          state = some State.new;
          session_set = false;
        })
        nil

  -- The loop of `for (method, handler) in other.handler.drain()`.
  abbrev pub or_insert_all :
      Dict Text (Handler H W) → Dict Text (Handler H W) → Dict Text (Handler H W)
  or_insert_all m [] = m
  or_insert_all m ((method, handler) ∷ other) =
      or_insert_all (Dict.or_insert method handler m) other

  -- `merge_from`, but for the children.
  unfoldable pub merge_info : RouteInfo H W → RouteInfo H W → RouteInfo H W
  merge_info self other = record self {
    handler = or_insert_all self.handler other.handler;
    middlewares = self.middlewares ++ other.middlewares;
    state = merge_state self.state other.state;
    special_match = self.special_match || other.special_match;
    session_set = self.session_set || other.session_set;
  }

  -- `child.path == route.path && child.special_match == route.special_match`
  abbrev pub same_slot : RouteInfo H W → RouteInfo H W → Bool
  same_slot child other =
      child.path =? other.path && bool_eq child.special_match other.special_match

  -- The first child in the slot of `other` is merged by `merge`; with none, `added` is pushed.
  unfoldable pub place :
      RouteInfo H W → (Route H W → Route H W) → Route H W → Routes H W → Routes H W
  place other merge added nil = cons added nil
  place other merge added (cons c cs) =
      if same_slot (info c) other then cons (merge c) cs else cons c (place other merge added cs)

-- The rest of a split, empty if there is none.
abbrev pub or_empty : Option Text → Text
or_empty none = []
or_empty (some t) = t

-- `merge_into other self` is `self.merge_from(other)`, and `merge_all` its loop over the children
-- of `other`, each by `merge_child`.
unfoldable mutual
  pub merge_into : {H W : Type 0} → Route H W → Route H W → Route H W
  merge_into (route other others) (route self selves) =
      route (merge_info self other) (merge_all others selves)

  pub merge_all : {H W : Type 0} → Routes H W → Routes H W → Routes H W
  merge_all nil selves = selves
  merge_all (cons c cs) selves = merge_all cs (place (info c) (merge_into c) c selves)

module _ {H W : Type 0} where
  unfoldable pub merge_child : Routes H W → Route H W → Routes H W
  unfolding place merge_into
  merge_child children r = place (info r) (merge_into r) r children

  -- The route that `new` makes of the first part of a path, before the rest is appended.
  unfoldable pub leaf : Text → Text → RouteInfo H W
  leaf first path = record {
    path = first;
    handler = [];
    middlewares = [];
    special_match = starts_with (text "<") first && ends_with b'>' first;
    create_path = path;
    state = none;
    session_set = false;
  }

  -- `append_route` of a new route, which has no children yet.
  abbrev pub nest : RouteInfo H W → Option (Route H W) → Option (Route H W)
  nest i none = none
  nest i (some r) = some (route i (merge_child nil r))

  -- `new` calls itself on what follows the first '/', so the length of the path is fuel enough.
  new_from : ℕ → Text → Option (Route H W)
  unfolding leaf merge_child
  new_from zero path = none
  new_from (suc fuel) given =
      let path = trim_start_matches b'/' given in
      let (first, last) = splitn b'/' path in
      let rest = new_from fuel (or_empty last) in
      if is_empty (or_empty last)
      then some (route (leaf first path) nil)
      else nest (leaf first path) rest

  unfoldable pub new : Text → Option (Route H W)
  unfolding new_from
  new path = new_from (suc (length path)) path

module _ {H W : Type 0} where
  -- A change below a route, and in a list of children.
  abbrev pub in_children : RouteInfo H W → Option (Routes H W) → Option (Route H W)
  in_children i none = none
  in_children i (some cs) = some (route i cs)

  abbrev pub with_head : Routes H W → Option (Route H W) → Option (Routes H W)
  with_head cs none = none
  with_head cs (some c) = some (cons c cs)

  abbrev pub with_tail : Route H W → Option (Routes H W) → Option (Routes H W)
  with_tail c none = none
  with_tail c (some cs) = some (cons c cs)

-- `get_append_real_route`: the route of the last part of `create_path`, whose children `change`
-- then alters.
unfoldable mutual
  pub at_real_route :
      {H W : Type 0} → Route H W → Text → (Routes H W → Routes H W) → Option (Route H W)
  at_real_route (route i cs) create_path change = elim (contains b'/' create_path) [
    | false ↦ some (route i (change cs))
    | true ↦ in_children i (at_child cs (or_empty (splitn b'/' create_path).1) change)
  ]

  pub at_child :
      {H W : Type 0} → Routes H W → Text → (Routes H W → Routes H W) → Option (Routes H W)
  at_child nil last change = none
  at_child (cons c cs) last change = elim ((info c).create_path =? last) [
    | true ↦ with_head cs (at_real_route c last change)
    | false ↦ with_tail c (at_child cs last change)
  ]

-- `get_handler_mut`: the handler map of the route of the last part of `create_path`.
unfoldable mutual
  pub at_handler :
      {H W : Type 0}
      → Route H W
      → (Dict Text (Handler H W) → Dict Text (Handler H W))
      → Option (Route H W)
  at_handler (route i cs) change = elim (i.path =? i.create_path) [
    | true ↦ some (route (record i { handler = change i.handler }) cs)
    | false ↦ in_children i (at_handler_child cs (or_empty (splitn b'/' i.create_path).1) change)
  ]

  pub at_handler_child :
      {H W : Type 0}
      → Routes H W
      → Text
      → (Dict Text (Handler H W) → Dict Text (Handler H W))
      → Option (Routes H W)
  at_handler_child nil last change = none
  at_handler_child (cons c cs) last change = elim ((info c).create_path =? last) [
    | true ↦ with_head cs (at_handler c change)
    | false ↦ with_tail c (at_handler_child cs last change)
  ]

module _ {H W : Type 0} where
  unfoldable pub append : Route H W → Route H W → Option (Route H W)
  append self r = at_real_route self (info self).create_path (λ cs. merge_child cs r)

  -- `extend`: all of them go below the same route.
  unfoldable pub extend : Route H W → Routes H W → Option (Route H W)
  extend self rs = at_real_route self (info self).create_path (merge_all rs)

  -- `HandlerGetter::handler`, which `get`, `post` and the others call.
  unfoldable pub handler : Text → Handler H W → Route H W → Option (Route H W)
  handler method h self = at_handler self (Dict.insert method h)

  unfoldable pub insert_handler : Text → Handler H W → Route H W → Route H W
  insert_handler method h (route i cs) =
      route (record i { handler = Dict.insert method h i.handler }) cs

  unfoldable pub hook : Middleware H W → Route H W → Route H W
  hook mw (route i cs) = route (record i { middlewares = i.middlewares ++ mw ∷ [] }) cs

  unfoldable pub hook_first : Middleware H W → Route H W → Route H W
  hook_first mw (route i cs) = route (record i { middlewares = mw ∷ i.middlewares }) cs
