-- ===== src/Tests/Search.antt =====
-- The theorems on whole trees of routes at the route of "/users/<id>".
use silent.Prelude.{ℕ, ◌≡◌, refl, ◌↔◌, true, [], ◌∷◌, nat_Eq}
use silent.Text.{Text, text, Text_Eq}
use silent.Router.Dispatch.{
  path_can_resolve, call, matches_of, enter_with, call_children, candidates, call_here,
  call_handlers,
}
use silent.Router.Tree.{call_path_only, bind_params}
use silent.Router.Segment.{parse_special_seg, as_static_key}
use silent.Router.Slice.{
  remain_offset, strip_one_segment, strip_leading_slash, memchr, match_static_segment, slice_range,
}
use silent.Core.Error.{err, not_found}
use silent.Core.Http.{set_path_params, set_path_source}
use silent.Router.Route.{Route, Routes, route, leaf, handler}
use silent.Router.Route.Valid.{IsValid}
use silent.Router.Build.{convert_to_route_tree, node_of}
use silent.Router.Build.Refines.{Resolvable, path_can_resolve_refines}
use silent.Tests.Samples.{Headers, platform, headers_api, request, answer, url}

abbrev id_route : Route Headers ℕ
unfolding leaf
id_route = route (leaf (text "<id>") (text "<id>")) Routes.nil

abbrev users_route : Route Headers ℕ
unfolding leaf
users_route = route (leaf (text "users") (text "users")) (Routes.cons id_route Routes.nil)

abbrev root_route : Route Headers ℕ
unfolding leaf
root_route = route (leaf [] []) (Routes.cons users_route Routes.nil)

root_route-IsValid : IsValid root_route
unfolding IsValid id_route users_route root_route
root_route-IsValid =
    ((refl, refl), ((tt, tt), (((refl, refl), ((tt, tt), (((refl, refl), (tt, tt)), tt))), tt)))

path_can_resolve_refines_example :
    (path_can_resolve (convert_to_route_tree root_route) url 0 ≡ true)
    ↔ Resolvable (convert_to_route_tree root_route) url 0
path_can_resolve_refines_example = path_can_resolve_refines root_route url 0 root_route-IsValid

abbrev answering : Text → Routes Headers ℕ → Route Headers ℕ
unfolding leaf
answering path children =
    route (record (leaf path path) { handler = (text "GET", answer) ∷ [] }) children

-- "/foo/bar" and "/<id>" are handled, and "/foo" is the only way to the first.
abbrev shadowing : Route Headers ℕ
unfolding leaf answering
shadowing = route (leaf [] []) (
    Routes.cons
      (route (leaf (text "foo") (text "foo"))
        (Routes.cons (answering (text "bar") Routes.nil) Routes.nil))
      (Routes.cons (answering (text "<id>") Routes.nil) Routes.nil))

-- A request for "/foo" enters "foo", which has no handler, and is not answered by "<id>".
foo_not_found :
    call
      (convert_to_route_tree shadowing)
      (record request { uri_path = text "/foo"; method = text "GET" })
      0
    ≡ (err not_found, 0)
unfolding shadowing answering leaf call convert_to_route_tree matches_of call_path_only node_of
    parse_special_seg enter_with bind_params call_children candidates remain_offset as_static_key
    strip_one_segment strip_leading_slash memchr match_static_segment path_can_resolve call_here
foo_not_found = refl

-- Any other name is answered by "<id>".
fox_found :
    (call
      (convert_to_route_tree shadowing)
      (record request { uri_path = text "/fox"; method = text "GET" })
      0).1
    ≡ 1
unfolding shadowing answering leaf call convert_to_route_tree matches_of call_path_only node_of
    parse_special_seg enter_with bind_params call_children candidates remain_offset as_static_key
    strip_one_segment strip_leading_slash memchr match_static_segment path_can_resolve call_here
    call_handlers slice_range set_path_params set_path_source
fox_found = refl
