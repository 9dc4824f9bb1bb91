-- ===== src/Router/Route/Valid.antt =====
-- The shape that routes keep: each is one segment, marked if it is special, and no two children of
-- a route are in the same slot. Everything that builds routes keeps it.
use silent.Prelude.{
  ℕ, zero, suc, ◌≡◌, refl, subst, ◌∙◌, inl, inr, true, false, ◌&&◌, Option, none, some, arith,
  Bool-cases, length, nat_Eq,
}
use silent.Text.{
  Text, text, contains, starts_with, ends_with, splitn, is_empty, trim_start_matches, Text_Eq,
}
use silent.Text.Laws.{splitn_first}
use silent.Router.Route.{
  RouteInfo, Route, Routes, route, nil, cons, info, leaf, new, new_from, new_root, nest, or_empty,
  merge_child, merge_into, merge_all, merge_info, place, same_slot, bool_eq,
}
use silent.Router.Route.Merge.{OneToSlot, place-OneToSlot, bool_or_same}

-- One segment of a path, with the mark that `new` gives it.
abbrev pub IsSegment : {H W : Type 0} → RouteInfo H W → Type 0
IsSegment i =
    (i.special_match ≡ (starts_with (text "<") i.path && ends_with b'>' i.path))
    × (contains b'/' i.path ≡ false)

unfoldable mutual
  pub IsValid : {H W : Type 0} → Route H W → Type 0
  IsValid (route i cs) = IsSegment i × (OneToSlot cs × AreValid cs)

  pub AreValid : {H W : Type 0} → Routes H W → Type 0
  AreValid nil = Unit
  AreValid (cons c cs) = IsValid c × AreValid cs

module _ {H W : Type 0} where
  abbrev pub Children : Routes H W → Type 0
  Children cs = OneToSlot cs × AreValid cs

  merge_info-IsSegment :
      (s o : RouteInfo H W) → same_slot s o ≡ true → IsSegment s → IsSegment (merge_info s o)
  unfolding merge_info
  merge_info-IsSegment s o same (mark, clean) =
      let flags : bool_eq s.special_match o.special_match ≡ true = ground arith in
      (bool_or_same s.special_match o.special_match flags ∙ mark, clean)

  place-AreValid :
      (other : RouteInfo H W) (merge : Route H W → Route H W) (added : Route H W) (cs : Routes H W)
      → ((c : Route H W) → IsValid c → same_slot (info c) other ≡ true → IsValid (merge c))
      → IsValid added
      → AreValid cs
      → AreValid (place other merge added cs)
  unfolding place IsValid
  place-AreValid other merge added nil step new_one valid = (new_one, tt)
  place-AreValid other merge added (cons c cs) step new_one (v, valid) =
      elim (Bool-cases (same_slot (info c) other)) [
        | inl same ↦ rw same (step c v same, valid)
        | inr differs ↦ rw differs (v, place-AreValid other merge added cs step new_one valid)
      ]

mutual
  unfolding merge_into IsValid

  merge_into-IsValid :
      {H W : Type 0} (o s : Route H W)
      → IsValid o
      → IsValid s
      → same_slot (info s) (info o) ≡ true
      → IsValid (merge_into o s)
  merge_into-IsValid (route o os) (route s ss) (seg_o, (slots_o, valid_o))
        (seg_s, (slots_s, valid_s)) same =
      (merge_info-IsSegment s o same seg_s, merge_all-Children os ss valid_o slots_s valid_s)

  pub merge_all-Children :
      {H W : Type 0} (others selves : Routes H W)
      → AreValid others
      → OneToSlot selves
      → AreValid selves
      → OneToSlot (merge_all others selves) × AreValid (merge_all others selves)
  merge_all-Children nil selves valid_o slots valid = (slots, valid)
  merge_all-Children (cons c cs) selves (v, valid_o) slots valid =
      merge_all-Children cs (place (info c) (merge_into c) c selves) valid_o
        (place-OneToSlot c selves slots)
        (place-AreValid (info c) (merge_into c) c selves
          (λ s vs same. merge_into-IsValid c s v vs same) v valid)

module _ {H W : Type 0} where
  pub merge_child-Children :
      (cs : Routes H W) (r : Route H W) → IsValid r → Children cs → Children (merge_child cs r)
  unfolding merge_child
  merge_child-Children cs r v (slots, valid) = (
    place-OneToSlot r cs slots,
    place-AreValid (info r) (merge_into r) r cs (λ s vs same. merge_into-IsValid r s v vs same) v
        valid,
  )

  abbrev IsValidOrNone : Option (Route H W) → Type 0
  IsValidOrNone none = Unit
  IsValidOrNone (some r) = IsValid r

  nest-IsValid :
      (i : RouteInfo H W) (o : Option (Route H W))
      → IsSegment i
      → IsValidOrNone o
      → IsValidOrNone (nest i o)
  unfolding IsValid
  nest-IsValid i none seg v = tt
  nest-IsValid i (some r) seg v = (seg, merge_child-Children nil r v (tt, tt))

new_from-IsValid :
    (H W : Type 0) (fuel : ℕ) (path : Text) → IsValidOrNone (new_from {H = H} {W = W} fuel path)
unfolding new_from leaf IsValid
new_from-IsValid H W zero path = tt
new_from-IsValid H W (suc fuel) path =
    let trimmed = trim_start_matches b'/' path in
    let rest = or_empty (splitn b'/' trimmed).1 in
    let i : RouteInfo H W = leaf (splitn b'/' trimmed).0 trimmed in
    let seg : IsSegment i = (refl, splitn_first b'/' trimmed) in
    elim (Bool-cases (is_empty rest)) [
      | inl last ↦ rw last (seg, (tt, tt))
      | inr more ↦
          rw more (nest-IsValid i (new_from fuel rest) seg (new_from-IsValid H W fuel rest))
    ]

pub new_root-IsValid : (H W : Type 0) → IsValid (new_root {H = H} {W = W})
unfolding new_root IsValid
new_root-IsValid H W = ((refl, refl), (tt, tt))

module _ {H W : Type 0} where
  -- What `new` makes is valid.
  pub new-IsValid : (path : Text) {r : Route H W} → new path ≡ some r → IsValid r
  unfolding new
  new-IsValid path e = subst IsValidOrNone e (new_from-IsValid H W (suc (length path)) path)
