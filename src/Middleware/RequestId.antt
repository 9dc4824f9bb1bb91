-- ===== src/Middleware/RequestId.antt =====
-- silent/src/middleware/middlewares/request_id.rs. `Ids` is what is not the repository's: which
-- texts are header values, and a new id from scru128.
use silent.Prelude.{◌≡◌, refl, ap, ◌∙◌, Bool, true, Option, none, some, if◌then◌else◌, nat_Eq}
use silent.Text.{Text, text, Text_Eq}
use silent.Dict.Laws.{eq_refl}
use silent.Core.Error.{Result, ok, err}
use silent.Core.Http.{HeaderApi, Request, Response}
use silent.Core.Next.{Handler, Middleware}

pub record Values : Type 0 where
  pub readable : Text → Bool
  pub parses : Text → Bool

unfoldable pub default_header : Text
default_header = text "x-request-id"

module _ ⦃values : Values⦄ where
  -- The id of a request, if it came with one that can be read.
  abbrev pub given_id : Option Text → Option Text
  given_id none = none
  given_id (some v) = if values.readable v then some v else none

abbrev pub or_new : {W : Type 0} → (W → Text × W) → Option Text → W → Text × W
or_new new_string none w = new_string w
or_new new_string (some request_id) w = (request_id, w)

module _ {H : Type 0} ⦃api : HeaderApi H⦄ ⦃values : Values⦄ where
  abbrev pub id_of : {W : Type 0} → (W → Text × W) → Text → Request H → W → Text × W
  id_of new_string name req w = or_new new_string (given_id (api.get name req.headers)) w

  -- A header that is set if its value parses.
  abbrev pub set_header : Text → Text → H → H
  set_header name value headers =
      if values.parses value then api.insert name value headers else headers

  abbrev pub stamp_request : Text → Text → Request H → Request H
  stamp_request name value req = record req { headers = set_header name value req.headers }

  abbrev pub stamp_response : Text → Text → Response H → Response H
  stamp_response name value res = record res { headers = set_header name value res.headers }

  abbrev pub stamp : {W : Type 0} → Text → Text → Result (Response H) × W → Result (Response H) × W
  stamp name value (err e, w) = (err e, w)
  stamp name value (ok res, w) = (ok (stamp_response name value res), w)

  abbrev pub handle_with :
      {W : Type 0} → Text → Request H → Handler H W → Text × W → Result (Response H) × W
  handle_with name req next (request_id, w) =
      stamp name request_id (next (stamp_request name request_id req) w)

  -- `handle`, with the header `name`
  unfoldable pub handle : {W : Type 0} → (W → Text × W) → Text → Middleware H W
  handle new_string name req next w = handle_with name req next (id_of new_string name req w)

  set_header-found :
      (name value : Text) (h : H)
      → values.parses value ≡ true
      → api.get name (set_header name value h) ≡ some value
  set_header-found name value h parses =
      let e : set_header name value h ≡ api.insert name value h = rw parses refl in
      let same = eq_refl name in
      ap (api.get name) e ∙ api.get-insert name name value h ∙ rw same refl

module _ {H W : Type 0} ⦃api : HeaderApi H⦄ ⦃values : Values⦄ where
  -- If the request's id, given or new, is a header value, the chain is called on the request with
  -- that id in its header, an error that it answers is passed on, and a response that it answers
  -- gets the same id.
  handle_same_id :
      (new_string : W → Text × W) (name : Text) (req : Request H) (next : Handler H W) (w : W)
      (res : Response H)
      → values.parses (id_of new_string name req w).0 ≡ true
      → let request_id = (id_of new_string name req w).0 in
        let seen = stamp_request name request_id req in
        (api.get name seen.headers ≡ some request_id)
        × ((handle new_string name req next w
              ≡ stamp name request_id (next seen (id_of new_string name req w).1))
            × (api.get name (stamp_response name request_id res).headers ≡ some request_id))
  unfolding handle
  handle_same_id new_string name req next w res parses =
      let request_id = (id_of new_string name req w).0 in
      (
        set_header-found name request_id req.headers parses,
        (refl, set_header-found name request_id res.headers parses),
      )
