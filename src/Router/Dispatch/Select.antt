-- ===== src/Router/Dispatch/Select.antt =====
-- The loops over the candidates: what a selected child is, and what it means that there is none.
use silent.Prelude.{
  ℕ, zero, suc, ◌≡◌, refl, ap, subst, ◌∙◌, fun_ext, Bool, true, false, Option, none, some, List, [],
  ◌∷◌, get_elem?, any, nat_Eq,
}
use mathlib.Core.Option.{some_inj}
use silent.Text.{Text_Eq}
use silent.Core.Http.{HeaderApi}
use silent.Router.Slice.{Str, Platform, remain_offset}
use silent.Router.Tree.{PathMatch, Trees, nil, cons}
use silent.Router.Dispatch.{
  Child, attempt, attempt_match, path_can_resolve, resolvers, take_if, accept_match, accept,
  first_of, select, call_children, children,
}

first_of-none {ℓ} : {A : Type ℓ} (o q : Option A) → first_of o q ≡ none → (o ≡ none) × (q ≡ none)
first_of-none none q e = (refl, e)
first_of-none (some a) q e = cc

pub any_ext : (f g : ℕ → Bool) (is : List ℕ) → ((i : ℕ) → f i ≡ g i) → any f is ≡ any g is
any_ext f g is h = ap (λ k. any k is) (fun_ext h)

module _ {H W : Type 0} where
  take_if-some :
      (d : Child H W) (k : PathMatch) (b : Bool) {c : Child H W} {m : PathMatch}
      → take_if d k b ≡ some (c, m)
      → (b ≡ true) × (d ≡ c) × (k ≡ m)
  take_if-some d k false e = cc
  take_if-some d k true e = (refl, ap (λ x. x.0) (some_inj.0 e), ap (λ x. x.1) (some_inj.0 e))

  accept_match-some :
      (full : Str) (d : Child H W) (o : Option PathMatch) {c : Child H W} {m : PathMatch}
      → accept_match full d o ≡ some (c, m)
      → (d ≡ c) × (o ≡ some m) × (d.resolves full (remain_offset full m.remain) ≡ true)
  accept_match-some full d none e = cc
  accept_match-some full d (some k) e =
      let (good, same, taken) =
        take_if-some d k (d.resolves full (remain_offset full k.remain)) e in
      (
        same,
        ap some taken,
        subst (λ x. d.resolves full (remain_offset full x.remain) ≡ true) taken good,
      )

  -- The child that a loop selects is one of them, matches, and can resolve what remains.
  abbrev pub Chosen : List (Child H W) → Str → Str → Child H W → PathMatch → Type 0
  Chosen cs full remain c m =
      (i : ℕ) × (get_elem? cs i ≡ some c)
      × (c.matches remain full ≡ some m)
      × (c.resolves full (remain_offset full m.remain) ≡ true)

  accept-some :
      (cs : List (Child H W)) (full remain : Str) (i : ℕ) (o : Option (Child H W)) {c : Child H W}
      {m : PathMatch}
      → get_elem? cs i ≡ o
      → accept full remain o ≡ some (c, m)
      → Chosen cs full remain c m
  accept-some cs full remain i none at e = cc
  accept-some cs full remain i (some d) {c} {m} at e =
      let (same, matched, good) = accept_match-some full d (d.matches remain full) e in
      (
        i,
        at ∙ ap some same,
        subst (λ x. x.matches remain full ≡ some m) same matched,
        subst (λ x. x.resolves full (remain_offset full m.remain) ≡ true) same good,
      )

  pub select-some :
      (cs : List (Child H W)) (full remain : Str) (is : List ℕ) {c : Child H W} {m : PathMatch}
      → select cs full remain is ≡ some (c, m)
      → Chosen cs full remain c m
  select-some cs full remain [] e = cc
  select-some cs full remain (i ∷ is) e =
      by_first (accept full remain (get_elem? cs i)) refl e (select-some cs full remain is)
    where
      by_first :
          {c : Child H W} {m : PathMatch} (o : Option (Child H W × PathMatch))
          → accept full remain (get_elem? cs i) ≡ o
          → first_of o (select cs full remain is) ≡ some (c, m)
          → (select cs full remain is ≡ some (c, m) → Chosen cs full remain c m)
          → Chosen cs full remain c m
      by_first none a q rest = rest q
      by_first (some x) a q rest = accept-some cs full remain i (get_elem? cs i) refl (a ∙ q)

  -- What `path_can_resolve` sees of a child.
  abbrev pub view : Option (Child H W) → Option ((Str → Str → Option PathMatch) × (Str → ℕ → Bool))
  view none = none
  view (some c) = some (c.matches, c.resolves)

  take_if-none : (c : Child H W) (k : PathMatch) (b : Bool) → take_if c k b ≡ none → b ≡ false
  take_if-none c k false e = refl
  take_if-none c k true e = cc

  accept_match-none :
      (full : Str) (c : Child H W) (o : Option PathMatch)
      → accept_match full c o ≡ none
      → attempt_match full c.resolves o ≡ false
  accept_match-none full c none e = refl
  accept_match-none full c (some k) e =
      take_if-none c k (c.resolves full (remain_offset full k.remain)) e

  accept-none :
      (full remain : Str) (o : Option (Child H W))
      → accept full remain o ≡ none
      → attempt full remain (view o) ≡ false
  accept-none full remain none e = refl
  accept-none full remain (some c) e = accept_match-none full c (c.matches remain full) e

  pub select-none :
      (cs : List (Child H W)) (full remain : Str) (is : List ℕ)
      → select cs full remain is ≡ none
      → any (λ i. attempt full remain (view (get_elem? cs i))) is ≡ false
  select-none cs full remain [] e = refl
  select-none cs full remain (i ∷ is) e =
      let (here, after) =
        first_of-none (accept full remain (get_elem? cs i)) (select cs full remain is) e in
      rw (accept-none full remain (get_elem? cs i) here) (select-none cs full remain is after)

module _ {H W : Type 0} ⦃api : HeaderApi H⦄ ⦃p : Platform⦄ where
  pub resolvers-view :
      (cs : Trees H W) (i : ℕ) → get_elem? (resolvers cs) i ≡ view (get_elem? (children cs) i)
  unfolding path_can_resolve call_children
  resolvers-view nil i = refl
  resolvers-view (cons t ts) zero = refl
  resolvers-view (cons t ts) (suc i) = resolvers-view ts i
