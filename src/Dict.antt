-- ===== src/Dict.antt =====
-- A hash map as an association list with distinct keys kept by `insert`: the operations of
-- `std::collections::HashMap` that the program calls. Iteration order is not read from it.
pub mod Laws
use silent.Prelude.{
  ◌≡◌, Bool, true, Option, none, some, List, [], ◌∷◌, if◌then◌else◌, Eq, ◌=?◌, true, false,
}

abbrev pub Dict {ℓ κ} : Type ℓ → Type κ → Type (ℓ ⊔ κ)
Dict K V = List (K × V)

module _ {ℓ κ} {K : Type ℓ} {V : Type κ} ⦃e : Eq K⦄ where
  abbrev pub lookup : K → Dict K V → Option V
  lookup k [] = none
  lookup k ((j, v) ∷ m) = if j =? k then some v else lookup k m

  abbrev pub insert : K → V → Dict K V → Dict K V
  insert k v [] = (k, v) ∷ []
  insert k v ((j, w) ∷ m) = if j =? k then (k, v) ∷ m else (j, w) ∷ insert k v m

  -- `entry(k).or_insert(v)`
  abbrev pub or_insert : K → V → Dict K V → Dict K V
  or_insert k v [] = (k, v) ∷ []
  or_insert k v ((j, w) ∷ m) = if j =? k then (j, w) ∷ m else (j, w) ∷ or_insert k v m

  abbrev pub remove : K → Dict K V → Dict K V
  remove k [] = []
  remove k ((j, w) ∷ m) = if j =? k then remove k m else (j, w) ∷ remove k m

  -- `extend`: the other map's entries are inserted one by one.
  abbrev pub extend : Dict K V → Dict K V → Dict K V
  extend m [] = m
  extend m ((k, v) ∷ other) = extend (insert k v m) other
