-- ===== src/Tests/Samples.antt =====
-- Sample values for the tests: a header map, a platform, requests, responses and trees.
use silent.Prelude.{ℕ, ◌+◌, refl, true, Option, none, some, List, [], ◌∷◌, map, if◌then◌else◌, ◌=?◌}
use silent.Text.{Text, text, Text_Eq}
use silent.Core.State
use silent.Core.Http.{HeaderApi, Request, Response, once}
use silent.Core.Error.{ok}
use silent.Core.Next.{Handler, Middleware}
use silent.Dict.Laws.{or_else}
use silent.Dict.{Dict}
use silent.Router.Slice.{Str, Platform}
use silent.Router.Segment.{SpecialSeg}
use silent.Router.Tree.{Node, RouteTree, Trees, tree}

-- A header map as the function that `get` is.
abbrev pub Headers : Type 0
Headers = Text → Option Text

instance abbrev pub headers_api : HeaderApi Headers
headers_api = record {
  empty = λ k. none;
  get = λ k m. m k;
  insert = λ j v m k. if j =? k then some v else m k;
  remove = λ j m k. if j =? k then none else m k;
  extend = λ m n k. or_else (n k) (m k);
  get-empty = λ k. refl;
  get-insert = λ k j v m. refl;
  get-remove = λ k j m. refl;
  get-extend = λ k m n. refl;
}

instance abbrev pub platform : Platform
platform = record {
  buffer_addr = 1000;
  empty_addr = 10;
  parse_uuid = λ t. none;
  hash_order = map (λ (entry : Text × ℕ). entry.1);
}

abbrev pub request_with : Headers → Request Headers
request_with headers = record {
  method = text "GET";
  uri_path = text "/users/7";
  headers = headers;
  path_params = [];
  path_source = none;
  state = State.new;
}

abbrev pub request : Request Headers
request = request_with (λ k. none)

abbrev pub response : Response Headers
response = record {
  status = 200;
  headers = λ k. if k =? text "content-type" then some (text "text/plain") else none;
  body = once (text "hello");
  state = State.new;
}

abbrev pub answer : Handler Headers ℕ
answer req w = (ok response, w + 1)

abbrev pub pass : Middleware Headers ℕ
pass req next w = next req (w + 10)

abbrev pub node : SpecialSeg → Dict Text ℕ → List ℕ → Node Headers ℕ
node segment static dynamic = record {
  handler = (text "GET", answer) ∷ [];
  middlewares = [];
  static_children = static;
  dynamic_children = dynamic;
  middleware_start = 0;
  state = none;
  segment = segment;
  has_handler = true;
}

-- The tree of "/users/<id>".
abbrev pub user : RouteTree Headers ℕ
user = tree (node (SpecialSeg.string (text "id")) [] []) Trees.nil

abbrev pub users : RouteTree Headers ℕ
users = tree (node (SpecialSeg.static (text "users")) [] (0 ∷ [])) (Trees.cons user Trees.nil)

abbrev pub sample : RouteTree Headers ℕ
sample = tree (node SpecialSeg.root ((text "users", 0) ∷ []) []) (Trees.cons users Trees.nil)

abbrev pub url : Str
url = record { addr = 1000; bytes = text "/users/7" }
