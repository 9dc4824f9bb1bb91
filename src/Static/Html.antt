-- ===== src/Static/Html.antt =====
-- silent/src/handler/static/directory.rs: `escape_html`. A character that is escaped is one byte.
use silent.Prelude.{ℕ, ◌≡◌, refl, ◌⊎◌, false, [], ◌∷◌, ◌++◌, arith, ◌==◌, if◌then◌else◌, nat_Eq}
use silent.Text.{Text, text, contains}
use silent.Text.Laws.{contains-either}

abbrev pub entity : ℕ → Text
entity c =
    if c == b'&'
    then text "&amp;"
    else if c == b'<'
    then text "&lt;"
    else if c == b'>'
    then text "&gt;"
    else if c == b'"'
    then text "&quot;"
    else if c == 39
    then text "&#39;"
    else c ∷ []

unfoldable pub escape_html : Text → Text
escape_html [] = []
escape_html (c ∷ input) = entity c ++ escape_html input

-- The characters that open or close a tag or an attribute.
abbrev pub IsMarkup : ℕ → Type 0
IsMarkup c = (c ≡ b'<') ⊎ ((c ≡ b'>') ⊎ ((c ≡ b'"') ⊎ (c ≡ 39)))

contains-entity : (m c : ℕ) → IsMarkup m → contains m (entity c) ≡ false
contains-entity m c h = ground arith

-- An escaped text has none of the four characters '<', '>' and the two quotes.
pub contains-escape_html :
    (m : ℕ) (input : Text) → IsMarkup m → contains m (escape_html input) ≡ false
unfolding escape_html
contains-escape_html m [] h = refl
contains-escape_html m (c ∷ input) h =
    contains-either m (entity c) (escape_html input) (contains-entity m c h)
      (contains-escape_html m input h)
