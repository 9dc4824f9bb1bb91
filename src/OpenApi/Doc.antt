-- ===== src/OpenApi/Doc.antt =====
-- silent-openapi/src/doc.rs: what is registered for handlers, each known by the address of its data.
-- The four global maps are one record that the operations are given; schemas that are registered
-- for whole types are utoipa's and are left out.
use silent.Prelude.{
  ℕ, Bool, false, Option, none, some, List, [], ◌∷◌, ◌++◌, if◌then◌else◌, any, ◌=?◌, nat_Eq,
}
use silent.Text.{Text, Text_Eq}
use silent.Dict
use silent.Dict.{Dict}
use silent.Core.Next.{Handler}
use silent.Router.Route
use silent.Router.Route.{Route, route, info}

pub record DocMeta : Type 0 where
  pub summary : Option Text
  pub description : Option Text
  pub deprecated : Bool
  pub tags : List Text

pub data ResponseMeta : Type 0 where
  text_plain : ResponseMeta
  json : Text → ResponseMeta

pub data RequestMeta : Type 0 where
  json_body form_body query_params : Text → RequestMeta

pub record ExtraResponse : Type 0 where
  pub status : ℕ
  pub description : Text

pub record Docs : Type 0 where
  pub docs : Dict ℕ DocMeta
  pub responses : Dict ℕ ResponseMeta
  pub extra_responses : Dict ℕ (List ExtraResponse)
  pub requests : Dict ℕ (List RequestMeta)

unfoldable pub no_docs : Docs
no_docs = record { docs = []; responses = []; extra_responses = []; requests = [] }

unfoldable pub register_doc_by_ptr_ext :
    ℕ → Option Text → Option Text → Bool → List Text → Docs → Docs
register_doc_by_ptr_ext ptr summary description deprecated tags d = record d {
  docs =
      Dict.insert ptr
        (record {
          summary = summary;
          description = description;
          deprecated = deprecated;
          tags = tags;
        })
        d.docs;
}

unfoldable pub register_doc_by_ptr : ℕ → Option Text → Option Text → Docs → Docs
register_doc_by_ptr ptr summary description d = record d {
  docs =
      Dict.insert ptr
        (record { summary = summary; description = description; deprecated = false; tags = [] })
        d.docs;
}

abbrev pub lookup_doc_by_handler_ptr : ℕ → Docs → Option DocMeta
lookup_doc_by_handler_ptr ptr d = Dict.lookup ptr d.docs

unfoldable pub register_response_by_ptr : ℕ → ResponseMeta → Docs → Docs
register_response_by_ptr ptr meta d = record d { responses = Dict.insert ptr meta d.responses }

abbrev pub lookup_response_by_handler_ptr : ℕ → Docs → Option ResponseMeta
lookup_response_by_handler_ptr ptr d = Dict.lookup ptr d.responses

-- The names of the JSON types, each once, in the order of the map.
abbrev pub add_name : ResponseMeta → List Text → List Text
add_name text_plain out = out
add_name (json type_name) out = if any (λ t. t =? type_name) out then out else out ++ type_name ∷ []

abbrev pub names_from : Dict ℕ ResponseMeta → List Text → List Text
names_from [] out = out
names_from ((ptr, meta) ∷ m) out = names_from m (add_name meta out)

unfoldable pub list_registered_json_types : Docs → List Text
list_registered_json_types d = names_from d.responses []

-- `entry(ptr).or_default().push(x)`
abbrev pub or_nil {ℓ} : {A : Type ℓ} → Option (List A) → List A
or_nil none = []
or_nil (some xs) = xs

abbrev pub push_at {ℓ} : {A : Type ℓ} → ℕ → A → Dict ℕ (List A) → Dict ℕ (List A)
push_at ptr x m = Dict.insert ptr (or_nil (Dict.lookup ptr m) ++ x ∷ []) m

unfoldable pub register_extra_response_by_ptr : ℕ → ℕ → Text → Docs → Docs
register_extra_response_by_ptr ptr status description d = record d {
  extra_responses =
      push_at ptr (record { status = status; description = description }) d.extra_responses;
}

abbrev pub lookup_extra_responses_by_handler_ptr : ℕ → Docs → Option (List ExtraResponse)
lookup_extra_responses_by_handler_ptr ptr d = Dict.lookup ptr d.extra_responses

unfoldable pub register_request_by_ptr : ℕ → RequestMeta → Docs → Docs
register_request_by_ptr ptr meta d = record d { requests = push_at ptr meta d.requests }

abbrev pub lookup_request_by_handler_ptr : ℕ → Docs → Option (List RequestMeta)
lookup_request_by_handler_ptr ptr d = Dict.lookup ptr d.requests

module _ {H W : Type 0} (ptr_of : Handler H W → ℕ) where
  abbrev pub doc_of : Option (Handler H W) → Text → Text → Docs → Docs
  doc_of none summary description d = d
  doc_of (some handler) summary description d =
      register_doc_by_ptr (ptr_of handler) (some summary) (some description) d

  -- `doc`, of a method that the route has a handler for
  unfoldable pub doc : Route H W → Text → Text → Text → Docs → Docs
  unfolding register_doc_by_ptr
  doc r method summary description d =
      doc_of (Dict.lookup method (info r).handler) summary description d

  -- `get_with_doc` and the others, each with its method: the handler is registered and then added.
  unfoldable pub with_doc :
      Text → Handler H W → Text → Text → Route H W → Docs → Option (Route H W) × Docs
  unfolding register_doc_by_ptr
  with_doc method handler summary description r d = (
    Route.handler method handler r,
    register_doc_by_ptr (ptr_of handler) (some summary) (some description) d,
  )
