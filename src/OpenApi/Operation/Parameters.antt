-- ===== src/OpenApi/Operation/Parameters.antt =====
-- The parameters that are documented for a path.
use silent.Prelude.{
  ℕ, zero, suc, ◌<◌, ◌≡◌, refl, ap, ◌∙◌, ◌≢◌, false, Option, none, some, List, [], ◌∷◌, ◌++◌, arith,
  length, length-append, All, nat_Eq,
}
use silent.Text.{Text, contains, splitn, Text_Eq}
use silent.Text.Laws.{splitn-append}
use silent.OpenApi.Operation.{
  Parameter, path_parameter, named, typed_close, typed_open, typed_parameters, path_parameters,
  or_else_list, braced_parameters,
}

-- A part of a path as it is written for the router.
pub data Piece : Type 0 where
  plain : Text → Piece
  typed : Text → Text → Piece

abbrev pub IsPiece : Piece → Type 0
IsPiece (plain s) = contains b'<' s ≡ false
IsPiece (typed n ty) =
    (n ≢ []) × (contains b':' n ≡ false) × (contains b'>' (n ++ b':' ∷ ty) ≡ false)

abbrev pub render : List Piece → Text
render [] = []
render (plain s ∷ ps) = s ++ render ps
render (typed n ty ∷ ps) = b'<' ∷ ((n ++ b':' ∷ ty) ++ b'>' ∷ render ps)

abbrev pub parameters_in : List Piece → List Parameter
parameters_in [] = []
parameters_in (plain s ∷ ps) = parameters_in ps
parameters_in (typed n ty ∷ ps) = path_parameter n ty ∷ parameters_in ps

pub splitn-plain :
    (c : ℕ) (s t : Text)
    → contains c s ≡ false
    → splitn c (s ++ t) ≡ (s ++ (splitn c t).0, (splitn c t).1)
splitn-plain c [] t clean = refl
splitn-plain c (d ∷ s) t clean = ground (arith, splitn-plain c s t)

-- What stands before a '<' does not matter.
open_second :
    (a b : Text) (r : Option Text) (k : Text → List Parameter)
    → typed_open (a, r) k ≡ typed_open (b, r) k
open_second a b none k = refl
open_second a b (some t) k = refl

named_filled :
    (n ty : Text) (more : List Parameter)
    → n ≢ []
    → named (n, some ty) more ≡ path_parameter n ty ∷ more
named_filled [] ty more ne = absurd (ne refl)
named_filled (c ∷ n) ty more ne = refl

typed_parameters-render :
    (ps : List Piece) (fuel : ℕ)
    → All IsPiece ps
    → length (render ps) < fuel
    → typed_parameters fuel (render ps) ≡ parameters_in ps
unfolding typed_parameters
typed_parameters-render ps zero pieces lt = absurd (omega arith)
typed_parameters-render [] (suc fuel) pieces lt = refl
typed_parameters-render (plain s ∷ ps) (suc fuel) (clean, pieces) lt =
    let rest = render ps in
    ap (λ x. typed_open x (typed_parameters fuel)) (splitn-plain b'<' s rest clean)
    ∙ open_second (s ++ (splitn b'<' rest).0) (splitn b'<' rest).0 (splitn b'<' rest).1
        (typed_parameters fuel)
    ∙ typed_parameters-render ps (suc fuel) pieces (omega (arith, length-append s rest))
typed_parameters-render (typed n ty ∷ ps) (suc fuel) ((filled, bare, clean), pieces) lt =
    let inner : Text = n ++ b':' ∷ ty in
    ap (λ x. typed_close x (typed_parameters fuel)) (splitn-append b'>' inner (render ps) clean)
    ∙ ap (λ x. named x (typed_parameters fuel (render ps))) (splitn-append b':' n ty bare)
    ∙ named_filled n ty (typed_parameters fuel (render ps)) filled
    ∙ ap (λ more. path_parameter n ty ∷ more)
        (typed_parameters-render ps fuel pieces
          (omega (arith, length-append inner (b'>' ∷ render ps))))

-- Of a path made of texts without '<' and of at least one `<name:type>`, whose name is not empty
-- and has no ':' and which has no '>' inside, the documented path parameters are those names in
-- order, each with the schema of its type.
pub path_parameters-render :
    (ps : List Piece) {p : Parameter} {more : List Parameter}
    → All IsPiece ps
    → parameters_in ps ≡ p ∷ more
    → path_parameters (render ps) ≡ p ∷ more
unfolding path_parameters
path_parameters-render ps {p} {more} pieces some_parameter =
    ap (λ found. or_else_list found (braced_parameters (suc (length (render ps))) (render ps)))
      (typed_parameters-render ps (suc (length (render ps))) pieces (omega arith) ∙ some_parameter)
