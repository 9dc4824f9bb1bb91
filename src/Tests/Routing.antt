-- ===== src/Tests/Routing.antt =====
-- The theorems on the router at the path "/users/7".
use silent.Prelude.{
  ℕ, ◌+◌, ◌≤◌, ◌<◌, ◌≡◌, refl, ◌≢◌, ◌↔◌, true, false, none, some, [], ◌∷◌, arith, length, nat_Eq,
}
use silent.Text.{Text, text, contains, Text_Eq}
use silent.Core.PathParam.{PathParam, to_string}
use silent.Core.Next.{Handler, onion}
use silent.Router.Slice.{
  advance, strip_one_segment, strip_leading_slash, cut_trimmed, memchr, slice_range,
}
use silent.Router.Slice.Offsets.{Suffix}
use silent.Router.Segment.{SpecialSeg}
use silent.Router.Tree.{PathMatch, PathMatchCapture, Trees, call_path_only, binding, bind_params}
use silent.Router.Tree.Laws.{call_path_only-Suffix}
use silent.Router.Tree.Params.{bind_params_total, string_reads, full_path_reads, path_reads_end}
use silent.Router.Dispatch.{call_with_path, with_state}
use silent.Dict
use silent.Dict.{Dict}
use silent.Dict.Laws.{or_else}
use silent.Core.Error.{ok}
use silent.Core.Http.{Request, Response, no_body}
use silent.Router.Dispatch.{call_handlers}
use silent.Router.Dispatch.Methods.{call_handlers_head}
use silent.Router.Route.{merge_into, info}
use silent.Router.Route.Merge.{merge_into_keeps}
use silent.Router.Route.{RouteInfo, Routes, route, leaf, new, append, handler}
use silent.Router.Route.New.{IsPart, nested, append-new, trailing_slash}
use silent.Router.Build.{node_of}
use silent.Router.Build.Chain.{call_with_path-node_of}
use silent.Tests.Samples.{Headers, headers_api, platform, request, answer, pass, url, response}

abbrev root_info : RouteInfo Headers ℕ
unfolding leaf
root_info = leaf [] []

call_with_path-node_of_example :
    call_with_path
      (node_of (record root_info { middlewares = pass ∷ [] }) (pass ∷ []) Trees.nil)
      (λ r o. answer r)
      request
      3
    ≡ onion (pass ∷ []) answer (
        with_state
          (node_of (record root_info { middlewares = pass ∷ [] }) (pass ∷ []) Trees.nil)
          request)
call_with_path-node_of_example =
    call_with_path-node_of (record root_info { middlewares = pass ∷ [] }) (pass ∷ []) Trees.nil
      (λ r o. answer r) request 3

abbrev at_user : PathMatch
at_user = record {
  remain = record { addr = 10; bytes = [] };
  capture = some (PathMatchCapture.str (record { start = 7; end = 8 }));
}

user_matches :
    call_path_only (SpecialSeg.string (text "id")) true (advance 7 url) url ≡ some at_user
unfolding call_path_only strip_one_segment strip_leading_slash cut_trimmed memchr slice_range
user_matches = refl

call_path_only-Suffix_example : Suffix url 7 (record { addr = 10; bytes = [] })
call_path_only-Suffix_example =
    call_path_only-Suffix url 7 (omega arith) (SpecialSeg.string (text "id")) true {m = at_user}
      user_matches

bind_params_total_example :
    (bound : Request Headers) × (bind_params
        (SpecialSeg.string (text "id"))
        request
        at_user
        url.bytes
      ≡ some bound)
bind_params_total_example =
    bind_params_total (SpecialSeg.string (text "id")) true (advance 7 url) url url.bytes request
      {m = at_user} user_matches

string_reads_example :
    (value : PathParam) × (binding (SpecialSeg.string (text "id")) at_user.capture url.bytes
      ≡ some (some (text "id", value)))
    × (to_string value ≡ ok (some (text "7")))
    × (text "7" ≢ [])
    × (contains b'/' (text "7") ≡ false)
string_reads_example = string_reads url 7 (omega arith) (text "id") true {m = at_user} user_matches

abbrev at_rest : PathMatch
at_rest = record {
  remain = record { addr = 1007; bytes = text "7" };
  capture = some (PathMatchCapture.full (record { start = 1; end = 8 }));
}

rest_matches :
    call_path_only (SpecialSeg.full_path (text "rest")) true (advance 0 url) url ≡ some at_rest
unfolding call_path_only strip_one_segment strip_leading_slash cut_trimmed memchr slice_range
rest_matches = refl

full_path_reads_example :
    (value : PathParam) × (binding (SpecialSeg.full_path (text "rest")) at_rest.capture url.bytes
      ≡ some (some (text "rest", value)))
    × (to_string value ≡ ok (some (text "users/7")))
full_path_reads_example =
    full_path_reads url 0 (omega arith) (text "rest") true {m = at_rest} rest_matches

abbrev at_end : PathMatch
at_end = record {
  remain = record { addr = 10; bytes = [] };
  capture = some (PathMatchCapture.path (record { start = 0; end = 0 }));
}

end_matches : call_path_only (SpecialSeg.path (text "rest")) true (advance 8 url) url ≡ some at_end
unfolding call_path_only strip_one_segment strip_leading_slash cut_trimmed memchr slice_range
end_matches = refl

path_reads_end_example :
    (value : PathParam) × (binding (SpecialSeg.path (text "rest")) at_end.capture url.bytes
      ≡ some (some (text "rest", value)))
    × ((to_string value ≡ ok none) ↔ (url.addr + length url.bytes < platform.empty_addr))
    × ((to_string value ≡ ok (some [])) ↔ (platform.empty_addr ≤ url.addr + length url.bytes))
path_reads_end_example =
    path_reads_end url 8 (omega arith) (text "rest") true {m = at_end} refl end_matches

api_IsPart : IsPart (text "api")
api_IsPart = ((λ n. cc), refl)

append-new_example :
    (new {H = Headers} {W = ℕ} (text "api/v1")
      ≡ some (nested (text "api") (text "v1" ∷ []) Routes.nil))
    × (append (nested (text "api") (text "v1" ∷ []) Routes.nil) (route root_info Routes.nil)
        ≡ some (
            nested
              (text "api")
              (text "v1" ∷ [])
              (Routes.cons (route root_info Routes.nil) Routes.nil)))
append-new_example =
    append-new (text "api") (text "v1" ∷ []) (route root_info Routes.nil) api_IsPart
      (((λ n. cc), refl), tt)

trailing_slash_example :
    (new {H = Headers} {W = ℕ} (text "api/")
      ≡ some (route (leaf (text "api") (text "api/")) Routes.nil))
    × ((append (route (leaf (text "api") (text "api/")) Routes.nil) (route root_info Routes.nil)
          ≡ none)
        × (handler (text "GET") answer (route (leaf (text "api") (text "api/")) Routes.nil) ≡ none))
trailing_slash_example =
    trailing_slash (text "api") (route root_info Routes.nil) (text "GET") answer api_IsPart

abbrev only_get : Dict Text (Handler Headers ℕ)
only_get = (text "GET", answer) ∷ []

abbrev head_request : Request Headers
head_request = record request { method = text "HEAD" }

call_handlers_head_example :
    (out : Response Headers) × (call_handlers only_get head_request 0 ≡ (ok out, 1))
    × (out.status ≡ 200)
    × (out.body ≡ no_body)
    × (out.state ≡ head_request.state)
call_handlers_head_example =
    call_handlers_head only_get head_request 0 answer response refl refl refl refl

abbrev with_get : RouteInfo Headers ℕ
with_get = record {
  path = text "a";
  handler = only_get;
  middlewares = pass ∷ [];
  special_match = false;
  create_path = text "a";
  state = none;
  session_set = false;
}

merge_into_keeps_example :
    (Dict.lookup
        (text "GET")
        (info (merge_into (route with_get Routes.nil) (route with_get Routes.nil))).handler
      ≡ or_else (Dict.lookup (text "GET") only_get) (Dict.lookup (text "GET") only_get))
    × ((info (merge_into (route with_get Routes.nil) (route with_get Routes.nil))).middlewares
        ≡ pass ∷ pass ∷ [])
merge_into_keeps_example =
    merge_into_keeps (route with_get Routes.nil) (route with_get Routes.nil) (text "GET")
