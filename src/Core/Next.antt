-- ===== src/Core/Next.antt =====
-- silent/src/core/next.rs: the chain of middlewares in front of an endpoint, and the handlers and
-- middlewares themselves. They are the application's: functions that act on a world `W`.
use silent.Prelude.{◌≡◌, refl, List, [], ◌∷◌, ap}
use silent.Core.Error.{Result}
use silent.Core.Http.{Request, Response}

module _ (H W : Type 0) where
  abbrev pub Action : Type 0
  Action = W → Result (Response H) × W

  abbrev pub Handler : Type 0
  Handler = Request H → Action

  -- `handle(req, next)`: all that a middleware can do with `next` is to call it.
  abbrev pub Middleware : Type 0
  Middleware = Request H → Handler → Action

  pub data Next : Type 0 where
    endpoint : Handler → Next
    middleware : Middleware → Next → Next

module _ {H W : Type 0} where
  -- `for mw in middlewares.iter().rev()`: the last is wrapped first.
  wrap : Next H W → List (Middleware H W) → Next H W
  wrap next [] = next
  wrap next (mw ∷ mws) = middleware mw (wrap next mws)

  unfoldable pub build : Handler H W → List (Middleware H W) → Next H W
  unfolding wrap
  build ep mws = wrap (endpoint ep) mws

  unfoldable pub call : Next H W → Handler H W
  call (endpoint ep) req = ep req
  call (middleware mw next) req = mw req (call next)

  -- The middlewares around an endpoint, the first outermost.
  abbrev pub onion : List (Middleware H W) → Handler H W → Handler H W
  onion [] ep = ep
  onion (mw ∷ mws) ep = λ req. mw req (onion mws ep)

  -- Calling the chain that `build` wraps from the last middleware to the first calls the first
  -- middleware, with the rest of the chain as what it may call, and so on to the endpoint.
  pub call-build :
      (ep : Handler H W) (mws : List (Middleware H W)) → call (build ep mws) ≡ onion mws ep
  unfolding build call
  call-build ep [] = refl
  call-build ep (mw ∷ mws) = ap (λ next req. mw req next) (call-build ep mws)
