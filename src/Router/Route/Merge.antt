-- ===== src/Router/Route/Merge.antt =====
-- What a merge of two routes leaves: whose handlers and middlewares, and how many children a slot
-- has.
use silent.Prelude.{
  ◌≡◌, refl, ap, ap₂, ◌∙◌, inl, inr, Bool, true, false, ◌&&◌, ◌||◌, Option, none, some, [], ◌∷◌,
  ◌++◌, arith, if◌then◌else◌, Bool-cases, ◌=?◌, nat_Eq,
}
use silent.Text.{Text, Text_Eq, text_eq_iff}
use silent.Dict
use silent.Dict.{Dict}
use silent.Dict.Laws.{or_else, lookup-or_insert}
use silent.Core.Next.{Handler}
use silent.Router.Route.{
  RouteInfo, Route, Routes, route, nil, cons, info, or_insert_all, merge_info, merge_into,
  merge_all, place, same_slot, bool_eq,
}

or_else-none {ℓ} : {A : Type ℓ} (o : Option A) → o ≡ or_else o none
or_else-none none = refl
or_else-none (some a) = refl

or_else-if {ℓ} :
    {A : Type ℓ} (b : Bool) (mine later : Option A) (h : A)
    → or_else (if b then or_else mine (some h) else mine) later
      ≡ or_else mine (if b then some h else later)
or_else-if true none later h = refl
or_else-if true (some m) later h = refl
or_else-if false mine later h = refl

-- The first handler for a method stays.
lookup-or_insert_all :
    {H W : Type 0} (method : Text) (mine other : Dict Text (Handler H W))
    → Dict.lookup method (or_insert_all mine other)
      ≡ or_else (Dict.lookup method mine) (Dict.lookup method other)
lookup-or_insert_all method mine [] = or_else-none (Dict.lookup method mine)
lookup-or_insert_all method mine ((m, h) ∷ other) =
    lookup-or_insert_all method (Dict.or_insert m h mine) other
    ∙ ap (λ o. or_else o (Dict.lookup method other)) (lookup-or_insert method m h mine)
    ∙ or_else-if (m =? method) (Dict.lookup method mine) (Dict.lookup method other) h

pub bool_or_same : (a b : Bool) → bool_eq a b ≡ true → (a || b) ≡ a
bool_or_same true b e = refl
bool_or_same false b e = ground arith

module _ {H W : Type 0} where
  -- After one route is merged into another, a method has the handler that it had before and else
  -- that of the merged route, and the middlewares of the merged route come behind its own.
  pub merge_into_keeps :
      (self other : Route H W) (method : Text)
      → (Dict.lookup method (info (merge_into other self)).handler
          ≡ or_else
              (Dict.lookup method (info self).handler)
              (Dict.lookup method (info other).handler))
        × ((info (merge_into other self)).middlewares
            ≡ (info self).middlewares ++ (info other).middlewares)
  unfolding merge_into merge_info
  merge_into_keeps (route i cs) (route j ds) method =
      (lookup-or_insert_all method i.handler j.handler, refl)

  -- No child is in the slot.
  abbrev pub Vacant : RouteInfo H W → Routes H W → Type 0
  Vacant i nil = Unit
  Vacant i (cons c cs) = (same_slot (info c) i ≡ false) × Vacant i cs

  -- No two children are in the same slot.
  abbrev pub OneToSlot : Routes H W → Type 0
  OneToSlot nil = Unit
  OneToSlot (cons c cs) = Vacant (info c) cs × OneToSlot cs

  same_slot-merge_into :
      (other c : Route H W) (i : RouteInfo H W)
      → same_slot (info c) (info other) ≡ true
      → same_slot (info (merge_into other c)) i ≡ same_slot (info c) i
  unfolding merge_into merge_info
  same_slot-merge_into (route o os) (route j js) i same =
      let flags : bool_eq j.special_match o.special_match ≡ true = ground arith in
      ap (λ b. j.path =? i.path && bool_eq b i.special_match)
        (bool_or_same j.special_match o.special_match flags)

  Vacant-place :
      (i : RouteInfo H W) (other : Route H W) (cs : Routes H W)
      → Vacant i cs
      → same_slot (info other) i ≡ false
      → Vacant i (place (info other) (merge_into other) other cs)
  unfolding place
  Vacant-place i other nil v apart = (apart, tt)
  Vacant-place i other (cons c cs) (here, v) apart =
      elim (Bool-cases (same_slot (info c) (info other))) [
        | inl same ↦ rw same (same_slot-merge_into other c i same ∙ here, v)
        | inr differs ↦ rw differs (here, Vacant-place i other cs v apart)
      ]

  -- The merged child takes the slot that the child had.
  Vacant-merge_into :
      (other c : Route H W) (cs : Routes H W)
      → same_slot (info c) (info other) ≡ true
      → Vacant (info c) cs
      → Vacant (info (merge_into other c)) cs
  unfolding merge_into merge_info
  Vacant-merge_into (route o os) (route j js) nil same v = tt
  Vacant-merge_into (route o os) (route j js) (cons d ds) same (here, v) =
      let flags : bool_eq j.special_match o.special_match ≡ true = ground arith in
      (
        ap (λ b. (info d).path =? j.path && bool_eq (info d).special_match b)
              (bool_or_same j.special_match o.special_match flags)
            ∙ here,
        Vacant-merge_into (route o os) (route j js) ds same v,
      )

  same_slot_sym : (i j : RouteInfo H W) → same_slot i j ≡ same_slot j i
  same_slot_sym i j =
      ap₂ ◌&&◌ (ground (arith, text_eq_iff i.path j.path, text_eq_iff j.path i.path))
        (flip i.special_match j.special_match)
    where
      flip : (a b : Bool) → bool_eq a b ≡ bool_eq b a
      flip true true = refl
      flip true false = refl
      flip false true = refl
      flip false false = refl

  pub place-OneToSlot :
      (other : Route H W) (cs : Routes H W)
      → OneToSlot cs
      → OneToSlot (place (info other) (merge_into other) other cs)
  unfolding place
  place-OneToSlot other nil slots = (tt, tt)
  place-OneToSlot other (cons c cs) (v, slots) =
      elim (Bool-cases (same_slot (info c) (info other))) [
        | inl same ↦ rw same (Vacant-merge_into other c cs same v, slots)
        | inr differs ↦ rw differs (
          Vacant-place (info c) other cs v (same_slot_sym (info other) (info c) ∙ differs),
          place-OneToSlot other cs slots,
        )
      ]

  -- If no two children of a route have the same path and the same kind, no two have after any other
  -- routes are merged into them, as `append` and `extend` do.
  pub merge_all-OneToSlot :
      (others selves : Routes H W) → OneToSlot selves → OneToSlot (merge_all others selves)
  unfolding merge_into
  merge_all-OneToSlot nil selves slots = slots
  merge_all-OneToSlot (cons c cs) selves slots =
      merge_all-OneToSlot cs (place (info c) (merge_into c) c selves)
        (place-OneToSlot c selves slots)
