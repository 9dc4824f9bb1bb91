-- ===== src/Router/Dispatch/Methods.antt =====
-- What the handler map answers for HEAD.
use silent.Prelude.{◌≡◌, refl, ap, ap₂, ◌∙◌, Option, none, some, if◌then◌else◌, ◌=?◌, nat_Eq}
use silent.Text.{Text, text, Text_Eq}
use silent.Dict
use silent.Dict.{Dict}
use silent.Core.Error.{ok}
use silent.Core.Http.{
  HeaderApi, Request, Response, no_body, empty_response, copy_from_response, set_body,
}
use silent.Core.Next.{Handler}
use silent.Router.Dispatch.{call_handlers, answer_by, finish}

abbrev fallback_of : {H W : Type 0} → Text → Dict Text (Handler H W) → Option (Handler H W)
fallback_of method handlers =
    if method =? text "HEAD" then Dict.lookup (text "GET") handlers else none

module _ {H W : Type 0} ⦃api : HeaderApi H⦄ where
  -- A HEAD request to a map with no handler for HEAD, whose handler for GET answers with a
  -- response, is answered by that response's status with no body and with the request's state, and
  -- the handler is called once.
  pub call_handlers_head :
      (handlers : Dict Text (Handler H W)) (req : Request H) (w : W) (get_handler : Handler H W)
      (res : Response H)
      → req.method ≡ text "HEAD"
      → Dict.lookup (text "HEAD") handlers ≡ none
      → Dict.lookup (text "GET") handlers ≡ some get_handler
      → (get_handler req w).0 ≡ ok res
      → (out : Response H) × (call_handlers handlers req w ≡ (ok out, (get_handler req w).1))
        × (out.status ≡ res.status)
        × (out.body ≡ no_body)
        × (out.state ≡ req.state)
  unfolding call_handlers copy_from_response empty_response
  call_handlers_head handlers req w get_handler res head missing found answered =
      let started : Response H = record empty_response { state = req.state } in
      let out : Response H = set_body no_body (copy_from_response started res) in
      let second : fallback_of req.method handlers ≡ some get_handler =
        ap (λ m. fallback_of m handlers) head ∙ found in
      (
        out,
        ap₂ (answer_by req w) (ap (λ m. Dict.lookup m handlers) head ∙ missing) second
            ∙ ap (λ r. finish req.state (set_body no_body) (r, (get_handler req w).1)) answered,
        refl,
        refl,
        refl,
      )
