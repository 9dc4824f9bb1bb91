-- ===== src/Router/Build/Chain.antt =====
-- The chain of middlewares of a node.
use silent.Prelude.{ℕ, ◌≡◌, refl, ap, List, [], ◌∷◌, length, drop, drop-length-append, nat_Eq}
use silent.Core.Http.{Request}
use silent.Core.Next.{Action, Middleware, call-build, onion}
use silent.Router.Tree.{Node, Trees}
use silent.Router.Route.{RouteInfo}
use silent.Router.Dispatch.{call_with_path, with_state}
use silent.Router.Build.{chain, node_of}

module _ {H W : Type 0} where
  drop-chain :
      (inherited own : List (Middleware H W)) → drop (length inherited) (chain inherited own) ≡ own
  drop-chain inherited [] = drop_all inherited
    where
      drop_all : (xs : List (Middleware H W)) → drop (length xs) xs ≡ []
      drop_all [] = refl
      drop_all (x ∷ xs) = drop_all xs
  drop-chain inherited (mw ∷ mws) = drop-length-append inherited (mw ∷ mws)

  run_own :
      (n : Node H W) (k : Request H → ℕ → Action H W) (req : Request H) (o : ℕ)
      (own : List (Middleware H W))
      → drop n.middleware_start n.middlewares ≡ own
      → call_with_path n k req o ≡ onion own (λ r. k r o) (with_state n req)
  unfolding call_with_path
  run_own n k req o [] e = rw (e, call_with_path) refl
  run_own n k req o (mw ∷ mws) e =
      rw (e, call_with_path) (ap (λ f. f (with_state n req)) (call-build (λ r. k r o) (mw ∷ mws)))

  -- A node made by `node_of` runs exactly the middlewares of its route, the first outermost, around
  -- the call of its children and on the request with its state, whatever chain it inherits: no
  -- middleware of the chain is run a second time.
  pub call_with_path-node_of :
      (i : RouteInfo H W) (inherited : List (Middleware H W)) (ts : Trees H W)
      (k : Request H → ℕ → Action H W) (req : Request H) (o : ℕ)
      → call_with_path (node_of i inherited ts) k req o
        ≡ onion i.middlewares (λ r. k r o) (with_state (node_of i inherited ts) req)
  unfolding node_of
  call_with_path-node_of i inherited ts k req o =
      run_own (node_of i inherited ts) k req o i.middlewares (drop-chain inherited i.middlewares)
