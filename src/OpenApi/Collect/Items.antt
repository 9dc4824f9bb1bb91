-- ===== src/OpenApi/Collect/Items.antt =====
-- The path items that are collected: one for each path, and an operation for each handler.
use silent.Prelude.{
  ◌≡◌, refl, sym, ap, subst, ◌∙◌, inl, inr, Bool, true, false, Option, none, some, [], ◌∷◌, arith,
  if◌then◌else◌, Bool-cases, any, ◌=?◌, nat_Eq,
}
use silent.Text.{text_eq_iff, Text, text, Text_Eq}
use silent.Dict
use silent.Dict.{Dict}
use silent.OpenApi.Convert.Ends.{Rooted}
use silent.OpenApi.Operation.{Operation}
use silent.OpenApi.Collect.{
  PathItem, create_or_update_path_item, or_op, merge_path_items, Paths, add_path,
}

-- The operation of a method.
unfoldable pub operation_of : Text → PathItem → Option Operation
operation_of method item =
    if method =? text "GET"
    then item.get
    else if method =? text "POST"
    then item.post
    else if method =? text "PUT"
    then item.put
    else if method =? text "DELETE"
    then item.delete
    else if method =? text "PATCH"
    then item.patch
    else if method =? text "HEAD"
    then item.head
    else if method =? text "OPTIONS"
    then item.options
    else if method =? text "TRACE"
    then item.trace
    else none

operation_of-merge_path_items :
    (method : Text) (a b : PathItem)
    → operation_of method (merge_path_items a b)
      ≡ or_op (operation_of method a) (operation_of method b)
unfolding operation_of merge_path_items
operation_of-merge_path_items method a b = ground arith

abbrev pub lookup_path : Text → Paths → Option PathItem
lookup_path key paths = Dict.lookup key paths

-- No two items have one path, and every path begins with '/'.
abbrev pub Absent : Text → Paths → Type 0
Absent key [] = Unit
Absent key ((k, item) ∷ paths) = ((k =? key) ≡ false) × Absent key paths

abbrev pub OnePerPath : Paths → Type 0
OnePerPath [] = Unit
OnePerPath ((k, item) ∷ paths) = Rooted k × (Absent k paths × OnePerPath paths)

Absent-add_path :
    (k key : Text) (item : PathItem) (paths : Paths)
    → (key =? k) ≡ false
    → Absent k paths
    → Absent k (add_path key item paths)
unfolding add_path
Absent-add_path k key item [] apart h = (apart, tt)
Absent-add_path k key item ((j, existing) ∷ paths) apart (here, h) = elim (Bool-cases (j =? key)) [
  | inl hit ↦ rw hit (here, h)
  | inr missed ↦ rw missed (here, Absent-add_path k key item paths apart h)
]

pub eq_flip : (s t : Text) → (s =? t) ≡ false → (t =? s) ≡ false
eq_flip s t h = ground (arith, text_eq_iff s t, text_eq_iff t s)

pub OnePerPath-add_path :
    (key : Text) (item : PathItem) (paths : Paths)
    → Rooted key
    → OnePerPath paths
    → OnePerPath (add_path key item paths)
unfolding add_path
OnePerPath-add_path key item [] root h = (root, (tt, tt))
OnePerPath-add_path key item ((j, existing) ∷ paths) root (r, (apart, h)) =
    elim (Bool-cases (j =? key)) [
      | inl hit ↦ rw hit (r, (apart, h))
      | inr missed ↦ rw missed (
        r,
        (
          Absent-add_path j key item paths (eq_flip j key missed) apart,
          OnePerPath-add_path key item paths root h,
        ),
      )
    ]

-- An item for the path has an operation for the method.
abbrev pub Has : Text → Text → Paths → Type 0
Has key method paths =
    (item : PathItem) × (lookup_path key paths ≡ some item)
    × ((op : Operation) × (operation_of method item ≡ some op))

abbrev merged : Option PathItem → PathItem → PathItem
merged none item = item
merged (some existing) item = merge_path_items existing item

lookup_path-add_path :
    (key : Text) (item : PathItem) (paths : Paths)
    → lookup_path key (add_path key item paths) ≡ some (merged (lookup_path key paths) item)
unfolding add_path
lookup_path-add_path key item [] = rw ((Text_Eq.beq_iff key key).1 refl) refl
lookup_path-add_path key item ((j, existing) ∷ paths) = elim (Bool-cases (j =? key)) [
  | inl hit ↦ rw (hit, hit) refl
  | inr missed ↦ rw (missed, missed) (lookup_path-add_path key item paths)
]

lookup_path_other :
    (k key : Text) (item : PathItem) (paths : Paths)
    → (key =? k) ≡ false
    → lookup_path k (add_path key item paths) ≡ lookup_path k paths
unfolding add_path
lookup_path_other k key item [] apart = rw apart refl
lookup_path_other k key item ((j, existing) ∷ paths) apart = elim (Bool-cases (j =? key)) [
  | inl hit ↦
      let off : (j =? k) ≡ false =
        subst (λ x. (x =? k) ≡ false) (sym ((Text_Eq.beq_iff j key).0 hit)) apart in
      rw (hit, off) refl
  | inr missed ↦
      rw missed
        (ap (λ o. if j =? k then some existing else o) (lookup_path_other k key item paths apart))
]

or_op_left :
    (a b : Option Operation) {op : Operation} → a ≡ some op → (o : Operation) × (or_op a b ≡ some o)
or_op_left none b e = cc
or_op_left (some a) b e = (a, refl)

or_op_right :
    (a b : Option Operation) {op : Operation} → b ≡ some op → (o : Operation) × (or_op a b ≡ some o)
or_op_right none b {op} e = (op, e)
or_op_right (some a) b e = (a, refl)

-- An operation for a method is added, and those that there are stay.
pub Has-new :
    (key method : Text) (item : PathItem) (paths : Paths) (op : Operation)
    → operation_of method item ≡ some op
    → Has key method (add_path key item paths)
Has-new key method item paths op e = (
  merged (lookup_path key paths) item,
  lookup_path-add_path key item paths,
  of_merged (lookup_path key paths),
)
  where
    of_merged :
        (o : Option PathItem) → (x : Operation) × (operation_of method (merged o item) ≡ some x)
    of_merged none = (op, e)
    of_merged (some existing) =
        let (x, found) = or_op_right (operation_of method existing) (operation_of method item) e in
        (x, operation_of-merge_path_items method existing item ∙ found)

pub Has-kept :
    (k method key : Text) (item : PathItem) (paths : Paths)
    → Has k method paths
    → Has k method (add_path key item paths)
Has-kept k method key item paths (existing, at, (op, e)) = elim (Bool-cases (key =? k)) [
  | inl same ↦
      let key_is : key ≡ k = (Text_Eq.beq_iff key k).0 same in
      let (x, found) = or_op_left (operation_of method existing) (operation_of method item) e in
      subst (λ j. Has k method (add_path j item paths)) (sym key_is)
        (
          merge_path_items existing item,
          lookup_path-add_path k item paths ∙ ap (λ o. some (merged o item)) at,
          (x, operation_of-merge_path_items method existing item ∙ found),
        )
  | inr apart ↦ (existing, lookup_path_other k key item paths apart ∙ at, (op, e))
]

abbrev pub is_standard : Text → Bool
is_standard method =
    any (λ m. method =? m)
      (text "GET"
        ∷ text "POST"
        ∷ text "PUT"
        ∷ text "DELETE"
        ∷ text "PATCH"
        ∷ text "HEAD"
        ∷ text "OPTIONS"
        ∷ text "TRACE"
        ∷ [])

pub operation_of-create :
    (method : Text) (op : Operation)
    → is_standard method ≡ true
    → operation_of method (create_or_update_path_item method op) ≡ some op
unfolding operation_of create_or_update_path_item
operation_of-create method op h = ground arith
