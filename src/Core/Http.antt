-- ===== src/Core/Http.antt =====
-- silent/src/core/request.rs and response.rs: the fields that routing and the middlewares use. A
-- method is its token. The header map is the http crate's: `HeaderApi` is what is relied on.
use silent.Prelude.{Bool, ℕ, ◌≡◌, Option, none, some, List, if◌then◌else◌, ◌=?◌}
use silent.Text.{text, Text, Text_Eq}
use silent.Dict
use silent.Dict.{Dict}
use silent.Dict.Laws.{or_else}
use silent.Core.Error
use silent.Core.Error.{SilentError, Result, err, params_not_found}
use silent.Core.State
use silent.Core.State.{State}
use silent.Core.PathParam.{PathParam}

-- `http::HeaderMap`, with one value to a name.
pub record HeaderApi (H : Type 0) : Type 0 where
  pub empty : H
  pub get : Text → H → Option Text
  pub insert : Text → Text → H → H
  pub remove : Text → H → H
  pub extend : H → H → H
  pub get-empty : (k : Text) → get k empty ≡ none
  pub get-insert :
      (k j v : Text) (m : H) → get k (insert j v m) ≡ (if j =? k then some v else get k m)
  pub get-remove : (k j : Text) (m : H) → get k (remove j m) ≡ (if j =? k then none else get k m)
  pub get-extend : (k : Text) (m n : H) → get k (extend m n) ≡ or_else (get k n) (get k m)

pub record Request (H : Type 0) : Type 0 where
  pub method : Text
  pub uri_path : Text
  pub headers : H
  pub path_params : Dict Text PathParam
  pub path_source : Option Text
  pub state : State

-- A body of another crate, hyper's `Incoming` or a boxed `Body`, known by its source, with the
-- upper bound that its own `size_hint` gives.
pub record ForeignBody : Type 0 where
  pub source : ℕ
  pub size_upper : Option ℕ

-- A stream is known by its source.
pub data ResBody : Type 0 where
  no_body : ResBody
  once : Text → ResBody
  chunks : List Text → ResBody
  incoming : ForeignBody → ResBody
  stream : ℕ → ResBody
  boxed : ForeignBody → ResBody

pub record Response (H : Type 0) : Type 0 where
  pub status : ℕ
  pub headers : H
  pub body : ResBody
  pub state : State

module _ {H : Type 0} where
  unfoldable pub set_path_params : Text → PathParam → Request H → Request H
  set_path_params key value req = record req { path_params = Dict.insert key value req.path_params }

  unfoldable pub set_path_source : Text → Request H → Request H
  set_path_source source req = record req { path_source = some source }

  -- `get_path_params::<T>`, with the conversion of `T`
  pub get_path_params : {T : Type 0} → (PathParam → Result T) → Text → Request H → Result T
  get_path_params convert key req = elim (Dict.lookup key req.path_params) [
    | some value ↦ convert value
    | none ↦ err params_not_found
  ]

  abbrev pub set_body : ResBody → Response H → Response H
  set_body b res = record res { body = b }

module _ {H : Type 0} ⦃api : HeaderApi H⦄ where
  unfoldable pub empty_response : Response H
  empty_response = record { status = 200; headers = api.empty; body = no_body; state = State.new }

  -- `dst.copy_from_response(src)`: the state of `dst` stays.
  unfoldable pub copy_from_response : Response H → Response H → Response H
  copy_from_response dst src = record dst {
    headers = api.extend dst.headers src.headers;
    status = src.status;
    body = src.body;
  }

  -- `From<SilentError> for Response`. `is_json` is serde_json's verdict on the message.
  unfoldable pub error_response : (Text → Bool) → SilentError → Response H
  unfolding empty_response
  error_response is_json e =
      let res : Response H = record empty_response { status = Error.status e } in
      let typed : Response H =
        if is_json (Error.message e)
        then record res {
          headers = api.insert (text "content-type") (text "application/json") res.headers;
        }
        else res in
      record typed { body = once (Error.message e) }
