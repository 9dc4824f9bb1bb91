-- ===== src/Router/Route/New.antt =====
-- A route made from a path of several parts, and what is appended to it.
use silent.Prelude.{
  ℕ, zero, suc, ◌≤◌, ◌<◌, ◌≡◌, refl, sym, ap, subst, ◌∙◌, ◌≢◌, true, false, none, some, List, [],
  ◌∷◌, ◌++◌, arith, length, length-append, All, ◌=?◌, nat_Eq, Bool-cases, inl, inr,
}
use mathlib.Core.Bool.{true≢false}
use silent.Text.{Text, text, is_empty, contains, join, splitn, trim_start_matches, Text_Eq}
use silent.Text.Laws.{trim_start_matches_le, splitn_of_clean, splitn-append}
use silent.Dict.Laws.{eq_refl}
use silent.Core.Next.{Handler}
use silent.Router.Route.{
  RouteInfo, Route, Routes, route, nil, cons, info, leaf, new, new_from, merge_child, place,
  or_empty, at_real_route, in_children, with_head, append, at_handler, handler,
}

-- A part of a path: not empty, and with no '/'.
abbrev pub IsPart : Text → Type 0
IsPart s = (s ≢ []) × (contains b'/' s ≡ false)

abbrev pub path_of : Text → List Text → Text
path_of s ss = join (text "/") (s ∷ ss)

module _ {H W : Type 0} where
  -- One route for each part, each the only child of the one before; `cs` are the children of the
  -- last.
  abbrev pub nested : Text → List Text → Routes H W → Route H W
  nested s [] cs = route (leaf s s) cs
  nested s (next ∷ ss) cs = route (leaf s (path_of s (next ∷ ss))) (cons (nested next ss cs) nil)

trim_part : (s rest : Text) → IsPart s → trim_start_matches b'/' (s ++ rest) ≡ s ++ rest
trim_part [] rest (ne, clean) = absurd (ne refl)
trim_part (c ∷ s) rest (ne, clean) = ground arith

blank_part : (s rest : Text) → IsPart s → is_empty (s ++ rest) ≡ false
blank_part [] rest (ne, clean) = absurd (ne refl)
blank_part (c ∷ s) rest part = refl

path_of_filled : (s : Text) (ss : List Text) → IsPart s → is_empty (path_of s ss) ≡ false
path_of_filled [] ss (ne, clean) = absurd (ne refl)
path_of_filled (c ∷ s) [] part = refl
path_of_filled (c ∷ s) (next ∷ ss) part = refl

trim_self : (s : Text) → IsPart s → trim_start_matches b'/' s ≡ s
trim_self [] (ne, clean) = absurd (ne refl)
trim_self (c ∷ s) (ne, clean) = ground arith

trim_path :
    (s : Text) (ss : List Text) → IsPart s → trim_start_matches b'/' (path_of s ss) ≡ path_of s ss
trim_path s [] part = trim_self s part
trim_path s (next ∷ ss) part = trim_part s (b'/' ∷ path_of next ss) part

contains-append : (c : ℕ) (s rest : Text) → contains c (s ++ (c ∷ rest)) ≡ true
contains-append c [] rest = ground arith
contains-append c (d ∷ s) rest = ground (arith, contains-append c s rest)

shorter_rest :
    (c : ℕ) (s : Text)
    → is_empty (or_empty (splitn c s).1) ≡ false
    → length (or_empty (splitn c s).1) < length s
shorter_rest c [] h = absurd (true≢false h)
shorter_rest c (d ∷ s) h = ground (arith, shorter_rest c s)

longer : (c : ℕ) (s : Text) → (s =? (s ++ (c ∷ []))) ≡ false
longer c [] = refl
longer c (d ∷ s) = ground (arith, longer c s)

length-path_of : (s : Text) (ss : List Text) → length ss ≤ length (path_of s ss)
length-path_of s [] = omega arith
length-path_of s (next ∷ ss) =
    let more = length-path_of next ss in
    subst (λ n. suc (length ss) ≤ n) (sym (length-append s (b'/' ∷ path_of next ss))) (omega arith)

module _ {H W : Type 0} where
  new_from-path_of :
      (fuel : ℕ) (s : Text) (ss : List Text)
      → length ss < fuel
      → IsPart s
      → All IsPart ss
      → new_from {H = H} {W = W} fuel (path_of s ss) ≡ some (nested s ss nil)
  unfolding new_from merge_child place
  new_from-path_of zero s ss lt part parts = elim lt [ ]
  new_from-path_of (suc fuel) s [] lt part parts =
      rw (trim_self s part, splitn_of_clean b'/' s part.1) refl
  new_from-path_of (suc fuel) s (next ∷ ss) lt part (p, ps) =
      rw
        (
          trim_path s (next ∷ ss) part,
          splitn-append b'/' s (path_of next ss) part.1,
          path_of_filled next ss p,
          new_from-path_of fuel next ss (omega arith) p ps,
        )
        refl

  nested_create_path :
      (s : Text) (ss : List Text) (cs : Routes H W)
      → (info (nested s ss cs)).create_path ≡ path_of s ss
  unfolding leaf
  nested_create_path s [] cs = refl
  nested_create_path s (n ∷ ss) cs = refl

  here :
      (i : RouteInfo H W) (cs : Routes H W) (p : Text) (change : Routes H W → Routes H W)
      → contains b'/' p ≡ false
      → at_real_route (route i cs) p change ≡ some (route i (change cs))
  unfolding at_real_route
  here i cs p change e = ground arith

  below :
      (i : RouteInfo H W) (c : Route H W) (p : Text) (change : Routes H W → Routes H W)
      → contains b'/' p ≡ true
      → (info c).create_path ≡ or_empty (splitn b'/' p).1
      → at_real_route (route i (cons c nil)) p change
        ≡ in_children i (with_head nil (at_real_route c (or_empty (splitn b'/' p).1) change))
  unfolding at_real_route
  below i c p change e same =
      let hit : ((info c).create_path =? or_empty (splitn b'/' p).1) ≡ true =
        subst (λ q. (q =? or_empty (splitn b'/' p).1) ≡ true) (sym same)
          (eq_refl (or_empty (splitn b'/' p).1)) in
      ground arith

  at_real_route-nested :
      (s : Text) (ss : List Text) (change : Routes H W → Routes H W)
      → IsPart s
      → All IsPart ss
      → at_real_route (nested s ss nil) (path_of s ss) change ≡ some (nested s ss (change nil))
  at_real_route-nested s [] change part parts = here (leaf s s) nil s change part.1
  at_real_route-nested s (next ∷ ss) change part (p, ps) =
      let rest : or_empty (splitn b'/' (path_of s (next ∷ ss))).1 ≡ path_of next ss =
        ap (λ q. or_empty q.1) (splitn-append b'/' s (path_of next ss) part.1) in
      below (leaf s (path_of s (next ∷ ss))) (nested next ss nil) (path_of s (next ∷ ss)) change
        (contains-append b'/' s (path_of next ss)) (nested_create_path next ss nil ∙ sym rest)
      ∙ ap
          (λ t.
            in_children (leaf s (path_of s (next ∷ ss)))
              (with_head nil (at_real_route (nested next ss nil) t change)))
          rest
      ∙ ap (λ o. in_children (leaf s (path_of s (next ∷ ss))) (with_head nil o))
          (at_real_route-nested next ss change p ps)

  -- `new` of parts joined by '/', each of them not empty and without '/', gives one route for each
  -- part, each the only child of the one before; and what is appended to that route becomes the
  -- only child of the last one.
  pub append-new :
      (s : Text) (ss : List Text) (r : Route H W)
      → IsPart s
      → All IsPart ss
      → (new {H = H} {W = W} (path_of s ss) ≡ some (nested s ss nil))
        × (append (nested s ss nil) r ≡ some (nested s ss (cons r nil)))
  unfolding new append merge_child place
  append-new s ss r part parts =
      let at : append (nested s ss nil) r ≡ some (nested s ss (cons r nil)) =
        ap (λ p. at_real_route (nested s ss nil) p (λ cs. merge_child cs r))
          (nested_create_path s ss nil)
        ∙ at_real_route-nested s ss (λ cs. merge_child cs r) part parts in
      let enough : length ss ≤ length (path_of s ss) = length-path_of s ss in
      (new_from-path_of (suc (length (path_of s ss))) s ss (omega arith) part parts, at)

  -- `new` of a part, not empty and without '/', with one '/' behind it gives a route, but `append`
  -- of any route to it and `handler` of any handler on it are panics.
  pub trailing_slash :
      (s : Text) (r : Route H W) (method : Text) (h : Handler H W)
      → IsPart s
      → let i : RouteInfo H W = leaf s (s ++ text "/") in
        (new {H = H} {W = W} (s ++ text "/") ≡ some (route i nil))
        × ((append (route i nil) r ≡ none) × (handler method h (route i nil) ≡ none))
  unfolding new new_from append at_real_route handler at_handler leaf
  trailing_slash s r method h part =
      let i : RouteInfo H W = leaf s (s ++ text "/") in
      let slash : contains b'/' (s ++ text "/") ≡ true = contains-append b'/' s [] in
      let other : (i.path =? i.create_path) ≡ false = longer b'/' s in
      (
        rw (trim_part s (text "/") part, splitn-append b'/' s [] part.1) refl,
        (ground arith, ground arith),
      )

  new_from_total :
      (fuel : ℕ) (path : Text)
      → length path < fuel
      → (r : Route H W) × (new_from fuel path ≡ some r)
  unfolding new_from
  new_from_total zero path lt = elim lt [ ]
  new_from_total (suc fuel) path lt =
      let trimmed = trim_start_matches b'/' path in
      let rest = or_empty (splitn b'/' trimmed).1 in
      let i : RouteInfo H W = leaf (splitn b'/' trimmed).0 trimmed in
      elim (Bool-cases (is_empty rest)) [
        | inl last ↦ (route i nil, rw last refl)
        | inr more ↦
            let le = trim_start_matches_le b'/' path in
            let less = shorter_rest b'/' trimmed more in
            let (r, e) = new_from_total fuel rest (omega arith) in
            (route i (merge_child nil r), rw (more, e) refl)
      ]

  -- `new` gives a route for every path: the fuel is always enough.
  new_total : (path : Text) → (r : Route H W) × (new path ≡ some r)
  unfolding new
  new_total path = new_from_total (suc (length path)) path (omega arith)
