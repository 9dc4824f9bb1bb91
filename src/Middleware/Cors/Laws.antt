-- ===== src/Middleware/Cors/Laws.antt =====
-- What the cors middleware lets through and what it answers itself.
use silent.Prelude.{
  ◌≡◌, refl, ap, ◌∙◌, Bool, true, false, some, List, [], ◌∷◌, arith, if◌then◌else◌, any, find, ◌=?◌,
  nat_Eq,
}
use mathlib.Core.Bool.{false≢true}
use silent.Text.{Text, text, is_empty, Text_Eq, text_eq_iff}
use silent.Dict.Laws.{or_else}
use silent.Core.Error.{ok, err}
use silent.Core.Http.{HeaderApi, Request, Response, empty_response, copy_from_response}
use silent.Core.Next.{Handler}
use silent.Middleware.Cors.{
  HeaderValues, CorsOriginType, any_origin, some_origins, Cors, origin_value, origin_of,
  not_allowed, get_cached_headers, allow, with_origin, answer, go_on, handle, found_or_empty,
}

abbrev pub allow_origin : Text
allow_origin = text "access-control-allow-origin"

-- An origin is allowed by the setting if it is any, or one of the list.
abbrev pub Allows : CorsOriginType → Text → Type 0
Allows any_origin origin = Unit
Allows (some_origins value) origin = any (λ v. v =? origin) value ≡ true

found_listed :
    (origin : Text) (value : List Text)
    → any (λ v. v =? origin) value ≡ true
    → found_or_empty (find (λ v. v =? origin) value) ≡ origin
found_listed origin [] h = absurd (false≢true h)
found_listed origin (v ∷ value) h = ground (arith, found_listed origin value, text_eq_iff v origin)

origin_value-Allows :
    (o : CorsOriginType) (origin : Text) → Allows o origin → origin_value origin o ≡ origin
origin_value-Allows any_origin origin h = refl
origin_value-Allows (some_origins value) origin h = found_listed origin value h

unlisted :
    (origin : Text) (value : List Text)
    → any (λ v. v =? origin) value ≡ false
    → found_or_empty (find (λ v. v =? origin) value) ≡ []
unlisted origin [] h = refl
unlisted origin (v ∷ value) h = ground (arith, unlisted origin value)

module _ {H : Type 0} ⦃api : HeaderApi H⦄ ⦃values : HeaderValues⦄ where
  -- The response that the headers of the middleware start.
  base : Cors H → Response H
  unfolding empty_response
  base self = record empty_response { headers = api.extend api.empty (get_cached_headers self).0 }

  -- With the header of the allowed origin.
  pub granted : Cors H → Text → Response H
  unfolding base
  granted self origin = record (base self) {
    headers = api.insert allow_origin origin (base self).headers;
  }

  with_origin-unlisted :
      (origin : Text) (value : List Text) (res : Response H)
      → any (λ v. v =? origin) value ≡ false
      → with_origin origin (some (some_origins value)) res ≡ err (not_allowed origin)
  with_origin-unlisted origin value res unknown =
      ap (λ v. allow origin v res) (unlisted origin value unknown)

  with_origin-Allows :
      (o : CorsOriginType) (origin : Text) (res : Response H)
      → is_empty origin ≡ false
      → values.parses origin ≡ true
      → Allows o origin
      → with_origin origin (some o) res
        ≡ ok (record res { headers = api.insert allow_origin origin res.headers })
  with_origin-Allows o origin res filled parses allowed =
      ap (λ v. allow origin v res) (origin_value-Allows o origin allowed) ∙ rw (filled, parses) refl

module _ {H W : Type 0} ⦃api : HeaderApi H⦄ ⦃values : HeaderValues⦄ where
  -- A request without an origin goes to the rest of the chain untouched.
  pub handle_same_origin :
      (is_json : Text → Bool) (self : Cors H) (req : Request H) (next : Handler H W) (w : W)
      → origin_of req ≡ []
      → handle is_json self req next w ≡ next req w
  unfolding handle
  handle_same_origin is_json self req next w e = rw e refl

  handle_opens :
      (is_json : Text → Bool) (self : Cors H) (req : Request H) (next : Handler H W) (w : W)
      → is_empty (origin_of req) ≡ false
      → handle is_json self req next w
        ≡ go_on is_json req next (with_origin (origin_of req) self.origin (base self)) w
  unfolding handle base
  handle_opens is_json self req next w filled = rw filled refl

  -- A request with an origin that is not in the list of the middleware is answered by the error
  -- 403, and the rest of the chain is not called.
  pub handle_forbidden :
      (is_json : Text → Bool) (self : Cors H) (req : Request H) (next : Handler H W) (w : W)
      (value : List Text)
      → is_empty (origin_of req) ≡ false
      → self.origin ≡ some (some_origins value)
      → any (λ v. v =? origin_of req) value ≡ false
      → handle is_json self req next w ≡ (err (not_allowed (origin_of req)), w)
  handle_forbidden is_json self req next w value filled set unknown =
      handle_opens is_json self req next w filled
      ∙ ap (λ r. go_on is_json req next r w)
          (ap (λ o. with_origin (origin_of req) o (base self)) set
            ∙ with_origin-unlisted (origin_of req) value (base self) unknown)

  -- For a request with an origin that is allowed and is a header value, a preflight is answered
  -- without calling the rest of the chain and otherwise the answer of the chain is copied; the
  -- response of the middleware grants the origin, and so does the copy of any answer that sets no
  -- grant of its own.
  pub handle_allowed :
      (is_json : Text → Bool) (self : Cors H) (req : Request H) (next : Handler H W) (w : W)
      (o : CorsOriginType) (r : Response H)
      → is_empty (origin_of req) ≡ false
      → values.parses (origin_of req) ≡ true
      → self.origin ≡ some o
      → Allows o (origin_of req)
      → let res = granted self (origin_of req) in
        (handle is_json self req next w
          ≡ (if req.method =? text "OPTIONS" then (ok res, w) else answer is_json res (next req w)))
        × ((api.get allow_origin res.headers ≡ some (origin_of req))
            × (api.get allow_origin (copy_from_response res r).headers
                ≡ or_else (api.get allow_origin r.headers) (some (origin_of req))))
  unfolding granted copy_from_response
  handle_allowed is_json self req next w o r filled parses set allowed =
      let origin = origin_of req in
      let res = granted self origin in
      let got : api.get allow_origin res.headers ≡ some origin =
        api.get-insert allow_origin allow_origin origin (base self).headers in
      (
        handle_opens is_json self req next w filled
            ∙ ap (λ r. go_on is_json req next r w)
                (ap (λ s. with_origin origin s (base self)) set
                  ∙ with_origin-Allows o origin (base self) filled parses allowed),
        (
          got,
          api.get-extend allow_origin res.headers r.headers
              ∙ ap (or_else (api.get allow_origin r.headers)) got,
        ),
      )
