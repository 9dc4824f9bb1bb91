-- ===== src/Dict/Laws.antt =====
-- Laws of the maps, in the form that says what a later `lookup` finds.
use silent.Prelude.{◌≡◌, refl, true, Option, none, some, [], ◌∷◌, arith, if◌then◌else◌, Eq, ◌=?◌}
use silent.Dict.{Dict, lookup, insert, or_insert, remove, extend}

-- The first of two answers that is one.
abbrev pub or_else {ℓ} : {A : Type ℓ} → Option A → Option A → Option A
or_else none o = o
or_else (some a) o = some a

pub eq_refl {ℓ} : {K : Type ℓ} ⦃e : Eq K⦄ (k : K) → (k =? k) ≡ true
eq_refl ⦃e⦄ k = (e.beq_iff k k).1 refl

module _ {ℓ κ} {K : Type ℓ} {V : Type κ} ⦃e : Eq K⦄ where
  pub lookup-insert :
      (j k : K) (v : V) (m : Dict K V)
      → lookup j (insert k v m) ≡ (if k =? j then some v else lookup j m)
  lookup-insert j k v [] = refl
  lookup-insert j k v ((i, w) ∷ m) =
      ground (arith, lookup-insert j k v m, e.beq_iff i k, e.beq_iff k j, e.beq_iff i j)

  pub lookup-or_insert :
      (j k : K) (v : V) (m : Dict K V)
      → lookup j (or_insert k v m) ≡ (if k =? j then or_else (lookup j m) (some v) else lookup j m)
  lookup-or_insert j k v [] = refl
  lookup-or_insert j k v ((i, w) ∷ m) =
      ground (arith, lookup-or_insert j k v m, e.beq_iff i k, e.beq_iff k j, e.beq_iff i j)

  pub lookup-remove :
      (j k : K) (m : Dict K V) → lookup j (remove k m) ≡ (if k =? j then none else lookup j m)
  lookup-remove j k [] = ground arith
  lookup-remove j k ((i, w) ∷ m) =
      ground (arith, lookup-remove j k m, e.beq_iff i k, e.beq_iff k j, e.beq_iff i j)

  -- The last entry for a key, which is the one that `extend` leaves.
  abbrev pub lookup_last : K → Dict K V → Option V
  lookup_last k [] = none
  lookup_last k ((j, v) ∷ m) = or_else (lookup_last k m) (if j =? k then some v else none)

  pub lookup-extend :
      (j : K) (m other : Dict K V)
      → lookup j (extend m other) ≡ or_else (lookup_last j other) (lookup j m)
  lookup-extend j m [] = refl
  lookup-extend j m ((k, v) ∷ other) =
      ground (arith, lookup-extend j (insert k v m) other, lookup-insert j k v m)
