-- ===== src/Core/State.antt =====
-- silent/src/configs/mod.rs: `State`, a map from a type's id to a shared value. A type is its id,
-- and a value is the address of its `Arc`, so an insertion of the same type replaces the value.
use silent.Prelude.{
  ℕ, ◌≡◌, Bool, true, false, Option, none, some, [], ◌∷◌, length, arith, if◌then◌else◌, nat_Eq,
  ◌==◌,
}
use silent.Dict
use silent.Dict.{Dict}
use silent.Dict.Laws.{or_else, lookup_last, lookup-insert, lookup-remove, lookup-extend}

abbrev pub TypeId : Type 0
TypeId = ℕ

abbrev pub Any : Type 0
Any = ℕ

abbrev pub AnyMap : Type 0
AnyMap = Dict TypeId Any

pub record State : Type 0 where
  pub map : Option AnyMap

abbrev pub new : State
new = record { map = none }

-- `get_or_insert_with(Box::default)`
abbrev pub or_default : Option AnyMap → AnyMap
or_default none = []
or_default (some m) = m

pub insert : TypeId → Any → State → State × Option Any
insert t v s =
    let m = or_default s.map in (record { map = some (Dict.insert t v m) }, Dict.lookup t m)

pub get : TypeId → State → Option Any
get t s = Dict.lookup t (or_default s.map)

abbrev remove_from : TypeId → Option AnyMap → State × Option Any
remove_from t none = (record { map = none }, none)
remove_from t (some m) = (record { map = some (Dict.remove t m) }, Dict.lookup t m)

pub remove : TypeId → State → State × Option Any
remove t s = remove_from t s.map

abbrev clear_map : Option AnyMap → Option AnyMap
clear_map none = none
clear_map (some m) = some []

pub clear : State → State
clear s = record { map = clear_map s.map }

pub len : State → ℕ
len s = length (or_default s.map)

pub is_empty : State → Bool
is_empty s = elim (or_default s.map) [ [] ↦ true | _ ∷ _ ↦ false ]

abbrev extend_map : Option AnyMap → Option AnyMap → Option AnyMap
extend_map m none = m
extend_map m (some other) = some (Dict.extend (or_default m) other)

-- `dst.extend_from(src)`: every entry of `src` is inserted into `dst`.
unfoldable pub extend_from : State → State → State
extend_from dst src = record { map = extend_map dst.map src.map }

pub get-insert :
    (t u : TypeId) (v : Any) (s : State)
    → get t (insert u v s).0 ≡ (if u == t then some v else get t s)
unfolding get insert
get-insert t u v s = lookup-insert t u v (or_default s.map)

pub get-remove :
    (t u : TypeId) (s : State) → get t (remove u s).0 ≡ (if u == t then none else get t s)
unfolding get remove
get-remove t u s = ground (arith, lookup-remove t u (or_default s.map))

pub get-clear : (t : TypeId) (s : State) → get t (clear s) ≡ none
unfolding get clear
get-clear t s = ground arith

-- After `extend_from` a type has the value of the other state if that has one, and else the value
-- that it had.
pub get-extend_from :
    (t : TypeId) (dst src : State)
    → get t (extend_from dst src) ≡ or_else (lookup_last t (or_default src.map)) (get t dst)
unfolding get extend_from
get-extend_from t dst src =
    ground (arith, lookup-extend t (or_default dst.map) (or_default src.map))
