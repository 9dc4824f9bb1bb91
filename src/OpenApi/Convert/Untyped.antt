-- ===== src/OpenApi/Convert/Untyped.antt =====
-- Parameters with no type, which the router takes as text.
use silent.Prelude.{
  ℕ, ◌≡◌, refl, ap, subst, ◌∙◌, true, false, none, some, [], ◌∷◌, ◌++◌, append_assoc, arith, length,
  take, length-append, take-length-append, nat_Eq,
}
use silent.Text.{Text, ends_with, contains, splitn, Text_Eq}
use silent.Text.Laws.{splitn_of_clean, splitn-append}
use silent.Router.Segment.{SpecialSeg, parse_special_seg, unbracket}
use silent.OpenApi.Convert.{
  at_colon, at_close, at_open, round, continue_with, convert_loop, convert_path_format,
}

take_all : (s rest : Text) → take (length s) (s ++ rest) ≡ s
take_all s rest = take-length-append s rest

ends_with-append : (c : ℕ) (s : Text) → ends_with c (s ++ c ∷ []) ≡ true
ends_with-append c [] = ground arith
ends_with-append c (d ∷ []) = ground arith
ends_with-append c (d ∷ e ∷ s) = ground (arith, ends_with-append c (e ∷ s))

-- The segment `<name>`.
abbrev pub untyped : Text → Text
untyped name = b'<' ∷ (name ++ b'>' ∷ [])

unbracket-untyped : (name : Text) → unbracket (untyped name) ≡ name
unbracket-untyped name =
    subst (λ n. take n (name ++ b'>' ∷ []) ≡ name) (omega (arith, length-append name (b'>' ∷ [])))
      (take_all name (b'>' ∷ []))

round-untyped :
    (before name after : Text)
    → contains b'<' before ≡ false
    → contains b'>' name ≡ false
    → contains b':' name ≡ false
    → round (b'/' ∷ (before ++ (untyped name ++ after))) ≡ none
unfolding round
round-untyped before name after plain closed bare =
    let t : Text = b'/' ∷ (before ++ (untyped name ++ after)) in
    ap (at_open t) (splitn-append b'<' (b'/' ∷ before) ((name ++ b'>' ∷ []) ++ after) plain)
    ∙ ap (λ r. at_close t (splitn b'>' r)) (append_assoc name (b'>' ∷ []) after)
    ∙ ap (at_close t) (splitn-append b'>' name after closed)
    ∙ ap (at_colon t name) (splitn_of_clean b':' name bare)

parse-untyped :
    (name : Text)
    → contains b':' name ≡ false
    → parse_special_seg (untyped name) ≡ SpecialSeg.string name
unfolding parse_special_seg
parse-untyped name bare =
    rw (ends_with-append b'>' (b'<' ∷ name), unbracket-untyped name, splitn_of_clean b':' name bare)
      refl

-- A path that begins with '/' and whose first parameter is `<name>`, where the name has no '>' and
-- no ':', is left as it is by the conversion, with all that follows, although the router takes the
-- parameter as text.
pub convert_path_format-untyped :
    (before name after : Text)
    → contains b'<' before ≡ false
    → contains b'>' name ≡ false
    → contains b':' name ≡ false
    → (convert_path_format (b'/' ∷ (before ++ (untyped name ++ after)))
        ≡ some (b'/' ∷ (before ++ (untyped name ++ after))))
      × (parse_special_seg (untyped name) ≡ SpecialSeg.string name)
unfolding convert_path_format
convert_path_format-untyped before name after plain closed bare =
    let t : Text = b'/' ∷ (before ++ (untyped name ++ after)) in
    (
      ap (λ o. continue_with t o (convert_loop (length t)))
          (round-untyped before name after plain closed bare),
      parse-untyped name bare,
    )
