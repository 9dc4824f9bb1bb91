-- ===== src/Router/Tree.antt =====
-- silent/src/route/route_tree.rs: the route tree, the match of one segment against the path, and
-- the parameters that a match binds. `self_arc`, a copy of the node made by `freeze` so that a
-- request need not copy it, has the node's own behaviour and is left out.
pub mod Laws
pub mod Params
use silent.Prelude.{
  ℕ, zero, suc, ◌+◌, ◌-◌, ◌*◌, ◌/◌, ◌%◌, ◌^◌, ◌≤◌, ◌<◌, min, max, String, ◌≡◌, refl, sym, ap, ap₂,
  subst, ◌∙◌, fun_ext, ◌≡⟨◌⟩◌, ◌∎, ◌≢◌, ◌↔◌, ◌⊎◌, inl, inr, Bool, true, false, not, ◌&&◌, ◌||◌,
  Option, none, some, List, [], ◌∷◌, ◌++◌, map, foldr, append-nil, append_assoc, arith, ltb, leb,
  ◌==◌, if◌then◌else◌, ltb→lt, lt→ltb, leb→le, ==_iff, tests, Bool-cases, Option-cases, length,
  get_elem?, take, drop, any, find, retain, length-append, drop-length-append, take-length-append,
  length-drop, length-retain-le, All, All-append, All-get, Eq, ◌=?◌, nat_Eq,
}
use silent.Prelude.Int.{ℤ}
use silent.Text.{Text, text, is_empty, Text_Eq}
use silent.Dict.{Dict}
use silent.Core.State.{State}
use silent.Core.PathParam
use silent.Core.PathParam.{PathParam, borrowed_str, borrowed_path}
use silent.Core.Http.{Request, set_path_params}
use silent.Core.Next.{Handler, Middleware}
use silent.Router.Slice.{
  Str, Platform, strip_leading_slash, strip_one_segment, match_static_segment, slice_range,
}
use silent.Router.Number.{parse_signed, parse_unsigned}
use silent.Router.Segment.{SpecialSeg}

-- The range of a captured part of the path.
pub record CapturedStr : Type 0 where
  pub start : ℕ
  pub end : ℕ

pub data PathMatchCapture : Type 0 where
  str path full : CapturedStr → PathMatchCapture
  i32 i64 : ℤ → PathMatchCapture
  u64 u32 uuid : ℕ → PathMatchCapture

pub record PathMatch : Type 0 where
  pub remain : Str
  pub capture : Option PathMatchCapture

-- The fields of a `RouteTree` but its children.
pub record Node (H W : Type 0) : Type 0 where
  pub handler : Dict Text (Handler H W)
  pub middlewares : List (Middleware H W)
  pub static_children : Dict Text ℕ
  pub dynamic_children : List ℕ
  pub middleware_start : ℕ
  pub state : Option State
  pub segment : SpecialSeg
  pub has_handler : Bool

mutual
  pub data RouteTree (H W : Type 0) : Type 0 where
    tree : Node H W → Trees H W → RouteTree H W

  pub data Trees (H W : Type 0) : Type 0 where
    nil : Trees H W
    cons : RouteTree H W → Trees H W → Trees H W

module _ {H W : Type 0} where
  abbrev pub is_leaf : Trees H W → Bool
  is_leaf nil = true
  is_leaf (cons _ _) = false

abbrev pub captured : Str → Str → CapturedStr
captured value whole =
    let (start, end) = slice_range whole value in record { start = start; end = end }

abbrev pub i32_half : ℕ
i32_half = 2 ^ 31

abbrev pub i64_half : ℕ
i64_half = 2 ^ 63

abbrev pub u32_limit : ℕ
u32_limit = 2 ^ 32

abbrev pub u64_limit : ℕ
u64_limit = 2 ^ 64

-- A match that captures a parsed value, if there is one.
abbrev pub with_value {ℓ} :
    {A : Type ℓ} → Str → (A → PathMatchCapture) → Option A → Option PathMatch
with_value remain capture none = none
with_value remain capture (some v) = some (record { remain = remain; capture = some (capture v) })

module _ ⦃p : Platform⦄ where
  -- An empty segment matches no typed parameter.
  abbrev pub typed {ℓ} :
      {A : Type ℓ} → Str → (Text → Option A) → (A → PathMatchCapture) → Option PathMatch
  typed url parse capture =
      let (segment, remain) = strip_one_segment url in
      if is_empty segment.bytes then none else with_value remain capture (parse segment.bytes)

  -- `call_path_only`, of a node with this segment; `leaf` says that it has no children.
  unfoldable pub call_path_only : SpecialSeg → Bool → Str → Str → Option PathMatch
  call_path_only SpecialSeg.root leaf url whole =
      let normalized : Str =
        if url.bytes =? text "/" then record { addr = p.empty_addr; bytes = [] } else url in
      if not (is_empty normalized.bytes) && leaf
      then none
      else some (record { remain = normalized; capture = none })
  call_path_only (SpecialSeg.static value) leaf url whole = elim (match_static_segment value url) [
    | none ↦ none
    | some remain ↦ some (record { remain = remain; capture = none })
  ]
  call_path_only (SpecialSeg.string key) leaf url whole =
      let (segment, remain) = strip_one_segment url in
      if is_empty segment.bytes
      then none
      else some (record {
        remain = remain;
        capture = some (PathMatchCapture.str (captured segment whole));
      })
  call_path_only (SpecialSeg.int key) leaf url whole =
      typed url (parse_signed i32_half) PathMatchCapture.i32
  call_path_only (SpecialSeg.i32 key) leaf url whole =
      typed url (parse_signed i32_half) PathMatchCapture.i32
  call_path_only (SpecialSeg.i64 key) leaf url whole =
      typed url (parse_signed i64_half) PathMatchCapture.i64
  call_path_only (SpecialSeg.u64 key) leaf url whole =
      typed url (parse_unsigned u64_limit) PathMatchCapture.u64
  call_path_only (SpecialSeg.u32 key) leaf url whole =
      typed url (parse_unsigned u32_limit) PathMatchCapture.u32
  call_path_only (SpecialSeg.uuid key) leaf url whole = typed url p.parse_uuid PathMatchCapture.uuid
  call_path_only (SpecialSeg.path key) leaf url whole =
      let (segment, remain) = strip_one_segment url in
      some (record {
        remain = remain;
        capture = some (PathMatchCapture.path (captured segment whole));
      })
  call_path_only (SpecialSeg.full_path key) leaf url whole =
      let trimmed = strip_leading_slash url in
      some (record {
        remain = (strip_one_segment url).1;
        capture = some (PathMatchCapture.full (captured trimmed whole));
      })

-- The value that a segment binds to its key for a capture; `none` if the two do not fit, and
-- nothing to bind for a segment with no parameter.
unfoldable pub binding :
    SpecialSeg → Option PathMatchCapture → Text → Option (Option (Text × PathParam))
binding SpecialSeg.root capture source = some none
binding (SpecialSeg.static _) capture source = some none
binding (SpecialSeg.string key) (some (PathMatchCapture.str c)) source =
    some (some (key, borrowed_str source c.start c.end))
binding (SpecialSeg.int key) (some (PathMatchCapture.i32 v)) source =
    some (some (key, PathParam.int v))
binding (SpecialSeg.i32 key) (some (PathMatchCapture.i32 v)) source =
    some (some (key, PathParam.int v))
binding (SpecialSeg.i64 key) (some (PathMatchCapture.i64 v)) source =
    some (some (key, PathParam.int64 v))
binding (SpecialSeg.u64 key) (some (PathMatchCapture.u64 v)) source =
    some (some (key, PathParam.uint64 v))
binding (SpecialSeg.u32 key) (some (PathMatchCapture.u32 v)) source =
    some (some (key, PathParam.uint32 v))
binding (SpecialSeg.uuid key) (some (PathMatchCapture.uuid v)) source =
    some (some (key, PathParam.uuid v))
binding (SpecialSeg.path key) (some (PathMatchCapture.path c)) source =
    some (some (key, borrowed_path source c.start c.end))
binding (SpecialSeg.full_path key) (some (PathMatchCapture.full c)) source =
    some (some (key, borrowed_path source c.start c.end))
binding _ _ _ = none

module _ {H : Type 0} where
  abbrev pub set_binding : Request H → Option (Text × PathParam) → Request H
  set_binding req none = req
  set_binding req (some (key, value)) = set_path_params key value req

  -- `bind_params`: `none` is its `false`.
  unfoldable pub bind_params : SpecialSeg → Request H → PathMatch → Text → Option (Request H)
  unfolding binding
  bind_params segment req matched source = elim (binding segment matched.capture source) [
    | none ↦ none
    | some bound ↦ some (set_binding req bound)
  ]
