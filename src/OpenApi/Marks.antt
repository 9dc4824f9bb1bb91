-- ===== src/OpenApi/Marks.antt =====
-- What `replace` of one parameter makes of a path that is made of pieces.
use silent.Prelude.{
  ℕ, suc, ◌≤◌, ◌≡◌, refl, sym, ap, ◌∙◌, inl, inr, Bool, false, Option, List, [], ◌∷◌, ◌++◌, map,
  append_assoc, arith, if◌then◌else◌, Bool-cases, length, All, ◌=?◌, nat_Eq,
}
use silent.Text.{Text, starts_with, contains, splitn, Text_Eq}
use silent.Text.Laws.{starts_with-append, splitn-append}
use silent.OpenApi.Convert.{replace_from}
use silent.OpenApi.Operation.Parameters.{Piece, plain, typed, IsPiece, render}

abbrev pub inner_of : Text → Text → Text
inner_of n ty = n ++ b':' ∷ ty

abbrev pub pattern_of : Text → Text
pattern_of inner = b'<' ∷ (inner ++ b'>' ∷ [])

abbrev pub braced : Text → Text
braced n = b'{' ∷ (n ++ b'}' ∷ [])

-- No '<' stands within a parameter.
abbrev pub IsFlat : Piece → Type 0
IsFlat (plain s) = Unit
IsFlat (typed n ty) = (contains b'<' (n ++ b':' ∷ ty) ≡ false) × (contains b'<' (braced n) ≡ false)

-- The path as OpenAPI writes it.
abbrev pub render_open : List Piece → Text
render_open [] = []
render_open (plain s ∷ ps) = s ++ render_open ps
render_open (typed n ty ∷ ps) = braced n ++ render_open ps

-- What a round makes of the pieces: the parameters with this text are written in braces.
abbrev pub mark_one : Text → Piece → Piece
mark_one inner (plain s) = plain s
mark_one inner (typed n ty) = if inner_of n ty =? inner then plain (braced n) else typed n ty

abbrev pub mark : Text → List Piece → List Piece
mark inner ps = map (mark_one inner) ps

replace_clean :
    (p by s t : Text)
    → contains b'<' s ≡ false
    → replace_from (b'<' ∷ p) by 0 (s ++ t) ≡ s ++ replace_from (b'<' ∷ p) by 0 t
replace_clean p by [] t clean = refl
replace_clean p by (c ∷ s) t clean = ground (arith, replace_clean p by s t)

replace_skip :
    (pattern by s t : Text)
    → replace_from pattern by (length s) (s ++ t) ≡ replace_from pattern by 0 t
replace_skip pattern by [] t = refl
replace_skip pattern by (c ∷ s) t = replace_skip pattern by s t

-- Two texts without '>' that differ do not begin one another up to '>'.
starts_with_apart :
    (a b rest : Text)
    → contains b'>' a ≡ false
    → contains b'>' b ≡ false
    → (b =? a) ≡ false
    → starts_with (a ++ b'>' ∷ []) (b ++ b'>' ∷ rest) ≡ false
starts_with_apart [] [] rest ca cb apart = ground arith
starts_with_apart [] (d ∷ b) rest ca cb apart = ground arith
starts_with_apart (c ∷ a) [] rest ca cb apart = ground arith
starts_with_apart (c ∷ a) (d ∷ b) rest ca cb apart = ground (arith, starts_with_apart a b rest)

replace_match :
    (p by t : Text)
    → replace_from (b'<' ∷ p) by 0 (b'<' ∷ (p ++ t)) ≡ by ++ replace_from (b'<' ∷ p) by 0 t
replace_match p by t = rw (starts_with-append (b'<' ∷ p) t) (
    ap (λ n. by ++ replace_from (b'<' ∷ p) by n (p ++ t)) (omega arith)
    ∙ ap (λ u. by ++ u) (replace_skip (b'<' ∷ p) by p t))

same_name :
    (n ty m tz : Text)
    → contains b':' n ≡ false
    → contains b':' m ≡ false
    → inner_of m tz ≡ inner_of n ty
    → m ≡ n
same_name n ty m tz cn cm e =
    ap (λ (x : Text × Option Text). x.0)
      (sym (splitn-append b':' m tz cm) ∙ ap (splitn b':') e ∙ splitn-append b':' n ty cn)

replace_apart :
    (inner by other rest : Text)
    → contains b'>' inner ≡ false
    → contains b'>' other ≡ false
    → contains b'<' other ≡ false
    → (other =? inner) ≡ false
    → replace_from (pattern_of inner) by 0 (b'<' ∷ (other ++ b'>' ∷ rest))
      ≡ b'<' ∷ (other ++ b'>' ∷ replace_from (pattern_of inner) by 0 rest)
replace_apart inner by other rest ci co flat apart =
    rw (starts_with_apart inner other rest ci co apart)
      (ap (◌∷◌ b'<') (replace_clean (inner ++ b'>' ∷ []) by other (b'>' ∷ rest) flat))

pub replace-render :
    (n ty : Text) (ps : List Piece)
    → IsPiece (typed n ty)
    → All IsPiece ps
    → All IsFlat ps
    → replace_from (pattern_of (inner_of n ty)) (braced n) 0 (render ps)
      ≡ render (mark (inner_of n ty) ps)
replace-render n ty [] here pieces flat = refl
replace-render n ty (plain s ∷ ps) here (clean, pieces) (_, flat) =
    replace_clean (inner_of n ty ++ b'>' ∷ []) (braced n) s (render ps) clean
    ∙ ap (λ u. s ++ u) (replace-render n ty ps here pieces flat)
replace-render n ty (typed m tz ∷ ps) (ne, cn, closed) ((ne', cm, closed'), pieces)
      ((flat_m, _), flat) =
    let rest = replace-render n ty ps (ne, cn, closed) pieces flat in
    let inner : Text = inner_of n ty in
    let marked : List Piece = mark inner ps in
    let as_marked : Bool → Text =
      λ b. render ((if b then plain (braced m) else typed m tz) ∷ marked) in
    elim (Bool-cases (inner_of m tz =? inner)) [
      | inl hit ↦
          let same = (Text_Eq.beq_iff (inner_of m tz) inner).0 hit in
          let name = same_name n ty m tz cn cm same in
          ap (λ i. replace_from (pattern_of inner) (braced n) 0 (b'<' ∷ (i ++ b'>' ∷ render ps)))
            same
          ∙ ap (λ u. replace_from (pattern_of inner) (braced n) 0 (b'<' ∷ u))
              (sym (append_assoc inner (b'>' ∷ []) (render ps)))
          ∙ replace_match (inner ++ b'>' ∷ []) (braced n) (render ps)
          ∙ ap (λ u. braced n ++ u) rest
          ∙ ap (λ k. braced k ++ render marked) (sym name)
          ∙ sym (ap as_marked hit)
      | inr missed ↦
          replace_apart inner (braced n) (inner_of m tz) (render ps) closed closed' flat_m missed
          ∙ ap (λ u. b'<' ∷ (inner_of m tz ++ b'>' ∷ u)) rest
          ∙ sym (ap as_marked missed)
    ]

-- What a mark keeps: the pieces stay well formed, and OpenAPI writes them the same.
pub mark-kept :
    (inner : Text) (ps : List Piece)
    → All IsPiece ps
    → All IsFlat ps
    → (All IsPiece (mark inner ps) × All IsFlat (mark inner ps))
      × (render_open (mark inner ps) ≡ render_open ps)
mark-kept inner [] pieces flat = ((tt, tt), refl)
mark-kept inner (plain s ∷ ps) (here, pieces) (f, flat) =
    let ((kept, kept_flat), same) = mark-kept inner ps pieces flat in
    (((here, kept), (f, kept_flat)), ap (λ u. s ++ u) same)
mark-kept inner (typed m tz ∷ ps) (here, pieces) ((f, g), flat) =
    let ((kept, kept_flat), same) = mark-kept inner ps pieces flat in
    elim (Bool-cases (inner_of m tz =? inner)) [
      | inl hit ↦ rw hit (((g, kept), (tt, kept_flat)), ap (λ u. braced m ++ u) same)
      | inr missed ↦ rw missed (((here, kept), ((f, g), kept_flat)), ap (λ u. braced m ++ u) same)
    ]

abbrev pub typed_count : List Piece → ℕ
typed_count [] = 0
typed_count (plain _ ∷ ps) = typed_count ps
typed_count (typed _ _ ∷ ps) = suc (typed_count ps)

pub typed_count-mark :
    (inner : Text) (ps : List Piece) → typed_count (mark inner ps) ≤ typed_count ps
typed_count-mark inner [] = omega arith
typed_count-mark inner (plain s ∷ ps) = typed_count-mark inner ps
typed_count-mark inner (typed m tz ∷ ps) =
    let rest = typed_count-mark inner ps in
    elim (Bool-cases (inner_of m tz =? inner)) [
      | inl hit ↦ rw hit (omega arith)
      | inr missed ↦ rw missed (omega arith)
    ]
