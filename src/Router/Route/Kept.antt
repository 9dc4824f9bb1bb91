-- ===== src/Router/Route/Kept.antt =====
-- What changes a route in place keeps the slots that its children are in, and its shape: `append`
-- and `extend`, and the handlers and middlewares that are added.
use silent.Prelude.{
  ◌≡◌, refl, sym, ap₂, subst, ◌∙◌, inl, inr, ◌&&◌, Option, none, some, arith, if◌then◌else◌,
  Bool-cases, ◌=?◌, nat_Eq,
}
use silent.Text.{Text, contains, splitn, Text_Eq}
use silent.Core.Next.{Handler}
use silent.Router.Route.Valid.{IsSegment, IsValid, AreValid, Children}
use silent.Dict
use silent.Dict.{Dict}
use silent.Router.Route.{
  at_handler, at_handler_child, handler, RouteInfo, Route, Routes, route, nil, cons, info, or_empty,
  same_slot, bool_eq, at_real_route, at_child, in_children, with_head, with_tail,
}
use silent.Router.Route.Merge.{OneToSlot, Vacant}

module _ {H W : Type 0} where
  -- A change that keeps the slot of a route, and those of a list of routes.
  abbrev SameSlot : RouteInfo H W → RouteInfo H W → Type 0
  SameSlot i j = (i.path ≡ j.path) × (i.special_match ≡ j.special_match)

  abbrev SameSlots : Routes H W → Routes H W → Type 0
  SameSlots nil nil = Unit
  SameSlots nil (cons _ _) = ⊥
  SameSlots (cons _ _) nil = ⊥
  SameSlots (cons c cs) (cons d ds) = SameSlot (info c) (info d) × SameSlots cs ds

  SameSlots-refl : (cs : Routes H W) → SameSlots cs cs
  SameSlots-refl nil = tt
  SameSlots-refl (cons c cs) = ((refl, refl), SameSlots-refl cs)

  same_slot_as :
      (i j k l : RouteInfo H W) → SameSlot i k → SameSlot j l → same_slot i j ≡ same_slot k l
  same_slot_as i j k l (p, m) (q, n) = ap₂ ◌&&◌ (ap₂ (λ a b. a =? b) p q) (ap₂ bool_eq m n)

  Vacant-SameSlots :
      (i j : RouteInfo H W) (cs ds : Routes H W)
      → SameSlot i j
      → SameSlots cs ds
      → Vacant i cs
      → Vacant j ds
  Vacant-SameSlots i j nil nil s ss v = tt
  Vacant-SameSlots i j nil (cons _ _) s ss v = absurd ss
  Vacant-SameSlots i j (cons _ _) nil s ss v = absurd ss
  Vacant-SameSlots i j (cons c cs) (cons d ds) s (same, ss) (apart, v) =
      (sym (same_slot_as (info c) i (info d) j same s) ∙ apart, Vacant-SameSlots i j cs ds s ss v)

  OneToSlot-SameSlots : (cs ds : Routes H W) → SameSlots cs ds → OneToSlot cs → OneToSlot ds
  OneToSlot-SameSlots nil nil ss o = tt
  OneToSlot-SameSlots nil (cons _ _) ss o = absurd ss
  OneToSlot-SameSlots (cons _ _) nil ss o = absurd ss
  OneToSlot-SameSlots (cons c cs) (cons d ds) (same, ss) (v, o) =
      (Vacant-SameSlots (info c) (info d) cs ds same ss v, OneToSlot-SameSlots cs ds ss o)

  abbrev pub KeptRoute : Route H W → Option (Route H W) → Type 0
  KeptRoute r none = Unit
  KeptRoute r (some s) = SameSlot (info r) (info s) × IsValid s

  abbrev KeptRoutes : Routes H W → Option (Routes H W) → Type 0
  KeptRoutes cs none = Unit
  KeptRoutes cs (some ds) = SameSlots cs ds × AreValid ds

  in_children-KeptRoute :
      (i : RouteInfo H W) (cs : Routes H W) (o : Option (Routes H W))
      → IsSegment i
      → OneToSlot cs
      → KeptRoutes cs o
      → KeptRoute (route i cs) (in_children i o)
  unfolding IsValid
  in_children-KeptRoute i cs none seg slots k = tt
  in_children-KeptRoute i cs (some ds) seg slots (ss, valid) =
      ((refl, refl), (seg, (OneToSlot-SameSlots cs ds ss slots, valid)))

  with_head-KeptRoutes :
      (c : Route H W) (cs : Routes H W) (o : Option (Route H W))
      → AreValid cs
      → KeptRoute c o
      → KeptRoutes (cons c cs) (with_head cs o)
  unfolding IsValid
  with_head-KeptRoutes c cs none valid k = tt
  with_head-KeptRoutes c cs (some d) valid (same, v) = ((same, SameSlots-refl cs), (v, valid))

  with_tail-KeptRoutes :
      (c : Route H W) (cs : Routes H W) (o : Option (Routes H W))
      → IsValid c
      → KeptRoutes cs o
      → KeptRoutes (cons c cs) (with_tail c o)
  unfolding IsValid
  with_tail-KeptRoutes c cs none v k = tt
  with_tail-KeptRoutes c cs (some ds) v (ss, valid) = (((refl, refl), ss), (v, valid))

  at_real_route-step :
      (i : RouteInfo H W) (cs : Routes H W) (p : Text) (change : Routes H W → Routes H W)
      → at_real_route (route i cs) p change ≡ (
          if contains b'/' p
          then in_children i (at_child cs (or_empty (splitn b'/' p).1) change)
          else some (route i (change cs)))
  unfolding at_real_route
  at_real_route-step i cs p change = ground arith

  at_child-nil : (last : Text) (change : Routes H W → Routes H W) → at_child nil last change ≡ none
  unfolding at_real_route
  at_child-nil last change = refl

  at_child-step :
      (c : Route H W) (cs : Routes H W) (last : Text) (change : Routes H W → Routes H W)
      → at_child (cons c cs) last change ≡ (
          if (info c).create_path =? last
          then with_head cs (at_real_route c last change)
          else with_tail c (at_child cs last change))
  unfolding at_real_route
  at_child-step c cs last change = ground arith

  at_handler-step :
      (i : RouteInfo H W) (cs : Routes H W)
      (change : Dict Text (Handler H W) → Dict Text (Handler H W))
      → at_handler (route i cs) change ≡ (
          if i.path =? i.create_path
          then some (route (record i { handler = change i.handler }) cs)
          else in_children i (at_handler_child cs (or_empty (splitn b'/' i.create_path).1) change))
  unfolding at_handler
  at_handler-step i cs change = ground arith

  at_handler_child-nil :
      (last : Text) (change : Dict Text (Handler H W) → Dict Text (Handler H W))
      → at_handler_child nil last change ≡ none
  unfolding at_handler
  at_handler_child-nil last change = refl

  at_handler_child-step :
      (c : Route H W) (cs : Routes H W) (last : Text)
      (change : Dict Text (Handler H W) → Dict Text (Handler H W))
      → at_handler_child (cons c cs) last change ≡ (
          if (info c).create_path =? last
          then with_head cs (at_handler c change)
          else with_tail c (at_handler_child cs last change))
  unfolding at_handler
  at_handler_child-step c cs last change = ground arith

  abbrev Keeps : (Routes H W → Routes H W) → Type 0
  Keeps change = (cs : Routes H W) → Children cs → Children (change cs)

mutual
  unfolding IsValid

  at_real_route-KeptRoute :
      {H W : Type 0} (r : Route H W) (p : Text) (change : Routes H W → Routes H W)
      → Keeps change
      → IsValid r
      → KeptRoute r (at_real_route r p change)
  at_real_route-KeptRoute (route i cs) p change keeps (seg, (slots, valid)) =
      subst (KeptRoute (route i cs)) (sym (at_real_route-step i cs p change))
        (elim (Bool-cases (contains b'/' p)) [
          | inl more ↦ rw more (
              in_children-KeptRoute i cs (at_child cs (or_empty (splitn b'/' p).1) change) seg slots
                (at_child-KeptRoutes cs (or_empty (splitn b'/' p).1) change keeps valid))
          | inr last ↦ rw last ((refl, refl), (seg, keeps cs (slots, valid)))
        ])

  at_child-KeptRoutes :
      {H W : Type 0} (cs : Routes H W) (last : Text) (change : Routes H W → Routes H W)
      → Keeps change
      → AreValid cs
      → KeptRoutes cs (at_child cs last change)
  at_child-KeptRoutes nil last change keeps valid =
      subst (KeptRoutes nil) (sym (at_child-nil last change)) tt
  at_child-KeptRoutes (cons c cs) last change keeps (v, valid) =
      subst (KeptRoutes (cons c cs)) (sym (at_child-step c cs last change))
        (elim (Bool-cases ((info c).create_path =? last)) [
          | inl hit ↦ rw hit (
              with_head-KeptRoutes c cs (at_real_route c last change) valid
                (at_real_route-KeptRoute c last change keeps v))
          | inr missed ↦ rw missed (
              with_tail-KeptRoutes c cs (at_child cs last change) v
                (at_child-KeptRoutes cs last change keeps valid))
        ])

mutual
  unfolding IsValid

  at_handler-KeptRoute :
      {H W : Type 0} (r : Route H W) (change : Dict Text (Handler H W) → Dict Text (Handler H W))
      → IsValid r
      → KeptRoute r (at_handler r change)
  at_handler-KeptRoute (route i cs) change (seg, (slots, valid)) =
      subst (KeptRoute (route i cs)) (sym (at_handler-step i cs change))
        (elim (Bool-cases (i.path =? i.create_path)) [
          | inl here ↦ rw here ((refl, refl), (seg, (slots, valid)))
          | inr more ↦ rw more (
              in_children-KeptRoute i cs
                (at_handler_child cs (or_empty (splitn b'/' i.create_path).1) change) seg slots
                (at_handler_child-KeptRoutes cs (or_empty (splitn b'/' i.create_path).1) change
                  valid))
        ])

  at_handler_child-KeptRoutes :
      {H W : Type 0} (cs : Routes H W) (last : Text)
      (change : Dict Text (Handler H W) → Dict Text (Handler H W))
      → AreValid cs
      → KeptRoutes cs (at_handler_child cs last change)
  at_handler_child-KeptRoutes nil last change valid =
      subst (KeptRoutes nil) (sym (at_handler_child-nil last change)) tt
  at_handler_child-KeptRoutes (cons c cs) last change (v, valid) =
      subst (KeptRoutes (cons c cs)) (sym (at_handler_child-step c cs last change))
        (elim (Bool-cases ((info c).create_path =? last)) [
          | inl hit ↦ rw hit (
              with_head-KeptRoutes c cs (at_handler c change) valid
                (at_handler-KeptRoute c change v))
          | inr missed ↦ rw missed (
              with_tail-KeptRoutes c cs (at_handler_child cs last change) v
                (at_handler_child-KeptRoutes cs last change valid))
        ])
