-- ===== src/OpenApi/Agree.antt =====
-- The converted path and the documented parameters of a path agree.
use silent.Prelude.{
  ℕ, zero, suc, ◌≤◌, ◌<◌, ◌≡◌, refl, ap, subst, ◌∙◌, inl, inr, Option, none, some, List, [], ◌∷◌,
  ◌++◌, arith, Option-cases, length, length-append, All, nat_Eq,
}
use mathlib.Core.Option.{some_inj}
use silent.Text.{Text, splitn, Text_Eq}
use silent.Text.Laws.{splitn-append}
use silent.OpenApi.Convert.{
  replace, at_colon, at_close, at_open, round, continue_with, convert_loop, rooted,
  convert_path_format,
}
use silent.OpenApi.Operation.{Parameter, path_parameters}
use silent.OpenApi.Operation.Parameters.{
  Piece, plain, typed, IsPiece, render, parameters_in, splitn-plain, path_parameters-render,
}
use silent.OpenApi.Marks.{
  inner_of, pattern_of, braced, IsFlat, render_open, mark, replace-render, mark-kept, typed_count,
  typed_count-mark,
}

abbrev first_typed : List Piece → Option (Text × Text)
first_typed [] = none
first_typed (plain s ∷ ps) = first_typed ps
first_typed (typed n ty ∷ ps) = some (n, ty)

-- A round of a text that goes on with these pieces replaces this parameter.
abbrev Opened : Text → List Piece → Text × Text → Type 0
Opened t ps (n, ty) =
    (at_open t (splitn b'<' (render ps)) ≡ some (replace (pattern_of (inner_of n ty)) (braced n) t))
    × (IsPiece (typed n ty) × (typed_count (mark (inner_of n ty) ps) < typed_count ps))

open_second : (t a b : Text) (r : Option Text) → at_open t (a, r) ≡ at_open t (b, r)
open_second t a b none = refl
open_second t a b (some u) = refl

open-render :
    (t : Text) (ps : List Piece) (x : Text × Text)
    → All IsPiece ps
    → first_typed ps ≡ some x
    → Opened t ps x
open-render t [] x pieces e = cc
open-render t (plain s ∷ ps) (n, ty) (clean, pieces) e =
    let (done, kept) = open-render t ps (n, ty) pieces e in
    (
      ap (at_open t) (splitn-plain b'<' s (render ps) clean)
          ∙ open_second t (s ++ (splitn b'<' (render ps)).0) (splitn b'<' (render ps)).0
              (splitn b'<' (render ps)).1
          ∙ done,
      kept,
    )
open-render t (typed m tz ∷ ps) x ((ne, cm, closed), pieces) e =
    let inner : Text = inner_of m tz in
    let less = typed_count-mark inner ps in
    subst (Opened t (typed m tz ∷ ps)) (some_inj.0 e) (
      ap (at_close t) (splitn-append b'>' inner (render ps) closed)
          ∙ ap (at_colon t inner) (splitn-append b':' m tz cm),
      ((ne, cm, closed), rw ((Text_Eq.beq_iff inner inner).1 refl) (omega arith)),
    )

none_typed :
    (t : Text) (ps : List Piece)
    → All IsPiece ps
    → first_typed ps ≡ none
    → (at_open t (splitn b'<' (render ps)) ≡ none) × (render ps ≡ render_open ps)
none_typed t [] pieces e = (refl, refl)
none_typed t (plain s ∷ ps) (clean, pieces) e =
    let (done, same) = none_typed t ps pieces e in
    (
      ap (at_open t) (splitn-plain b'<' s (render ps) clean)
          ∙ open_second t (s ++ (splitn b'<' (render ps)).0) (splitn b'<' (render ps)).0
              (splitn b'<' (render ps)).1
          ∙ done,
      ap (λ u. s ++ u) same,
    )
none_typed t (typed m tz ∷ ps) pieces e = cc

convert_loop-render :
    (fuel : ℕ) (ps : List Piece)
    → typed_count ps < fuel
    → All IsPiece ps
    → All IsFlat ps
    → convert_loop fuel (render ps) ≡ some (render_open ps)
unfolding convert_loop round replace
convert_loop-render zero ps lt pieces flat = absurd (omega arith)
convert_loop-render (suc fuel) ps lt pieces flat =
    let again = λ (o : Option Text). continue_with (render ps) o (convert_loop fuel) in
    elim (Option-cases (first_typed ps)) [
      | inl done ↦
          let (stop, same) = none_typed (render ps) ps pieces done in ap again stop ∙ ap some same
      | inr ((n, ty), found) ↦
          let (go, (here, less)) = open-render (render ps) ps (n, ty) pieces found in
          let inner : Text = inner_of n ty in
          let ((kept, kept_flat), same) = mark-kept inner ps pieces flat in
          ap again go
          ∙ ap (convert_loop fuel) (replace-render n ty ps here pieces flat)
          ∙ convert_loop-render fuel (mark inner ps) (omega arith) kept kept_flat
          ∙ ap some same
    ]

typed_count-length : (ps : List Piece) → typed_count ps ≤ length (render ps)
typed_count-length [] = omega arith
typed_count-length (plain s ∷ ps) =
    omega (arith, typed_count-length ps, length-append s (render ps))
typed_count-length (typed n ty ∷ ps) =
    omega (arith, typed_count-length ps, length-append (inner_of n ty) (b'>' ∷ render ps))

-- Of a path that begins with '/' and is made of texts without '<' and of at least one
-- `<name:type>`, whose name is not empty and has no ':' and in which no '<' or '>' stands, the
-- conversion gives the same texts with `{name}` for each parameter, and the documented path
-- parameters are those names in order, each with the schema of its type.
pub convert_path_format-render :
    (s : Text) (ps : List Piece) {p : Parameter} {more : List Parameter}
    → All IsPiece (plain (b'/' ∷ s) ∷ ps)
    → All IsFlat ps
    → parameters_in ps ≡ p ∷ more
    → (convert_path_format (b'/' ∷ (s ++ render ps)) ≡ some (b'/' ∷ (s ++ render_open ps)))
      × (path_parameters (b'/' ∷ (s ++ render ps)) ≡ p ∷ more)
unfolding convert_path_format rooted
convert_path_format-render s ps pieces flat some_parameter =
    let whole : List Piece = plain (b'/' ∷ s) ∷ ps in
    let few = typed_count-length whole in
    (
      convert_loop-render (suc (length (render whole))) whole (omega arith) pieces (tt, flat),
      path_parameters-render whole pieces some_parameter,
    )
