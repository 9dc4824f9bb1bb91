-- ===== src/OpenApi/Convert.antt =====
-- silent-openapi/src/route.rs: the path of a route in the form of OpenAPI, `<name:type>` being
-- written `{name}`.
pub mod Ends
pub mod Untyped
use silent.Prelude.{
  ℕ, zero, suc, ◌+◌, ◌-◌, ◌*◌, ◌/◌, ◌%◌, ◌^◌, ◌≤◌, ◌<◌, min, max, String, ◌≡◌, refl, sym, ap, ap₂,
  subst, ◌∙◌, fun_ext, ◌≡⟨◌⟩◌, ◌∎, ◌≢◌, ◌↔◌, ◌⊎◌, inl, inr, Bool, true, false, not, ◌&&◌, ◌||◌,
  Option, none, some, List, [], ◌∷◌, ◌++◌, map, foldr, append-nil, append_assoc, arith, ltb, leb,
  ◌==◌, if◌then◌else◌, ltb→lt, lt→ltb, leb→le, ==_iff, tests, Bool-cases, Option-cases, length,
  get_elem?, take, drop, any, find, retain, length-append, drop-length-append, take-length-append,
  length-drop, length-retain-le, All, All-append, All-get, Eq, ◌=?◌, nat_Eq,
}
use silent.Text.{Text, text, is_empty, starts_with, contains, splitn, Text_Eq}

-- `str::replace` of a pattern that is not empty, where `skip` more characters are those of a match.
abbrev pub replace_from : Text → Text → ℕ → Text → Text
replace_from pattern by skip [] = []
replace_from pattern by (suc skip) (c ∷ t) = replace_from pattern by skip t
replace_from pattern by zero (c ∷ t) =
    if starts_with pattern (c ∷ t)
    then by ++ replace_from pattern by (length pattern - 1) t
    else c ∷ replace_from pattern by 0 t

unfoldable pub replace : Text → Text → Text → Text
replace pattern by t = replace_from pattern by 0 t

-- One round of the loop, which is left on `none`: what stands between '<' and '>' is cut at ':'.
abbrev pub at_colon : Text → Text → Text × Option Text → Option Text
at_colon t inner (name, none) = none
at_colon t inner (name, some _) =
    some (replace (b'<' ∷ (inner ++ b'>' ∷ [])) (b'{' ∷ (name ++ b'}' ∷ [])) t)

abbrev pub at_close : Text → Text × Option Text → Option Text
at_close t (inner, none) = none
at_close t (inner, some _) = at_colon t inner (splitn b':' inner)

abbrev pub at_open : Text → Text × Option Text → Option Text
at_open t (before, none) = none
at_open t (before, some rest) = at_close t (splitn b'>' rest)

unfoldable pub round : Text → Option Text
unfolding replace
round t = at_open t (splitn b'<' t)

abbrev pub continue_with : Text → Option Text → (Text → Option Text) → Option Text
continue_with t none again = some t
continue_with t (some t') again = again t'

-- The loop, on fuel.
unfoldable pub convert_loop : ℕ → Text → Option Text
unfolding round
convert_loop zero t = none
convert_loop (suc fuel) t = continue_with t (round t) (convert_loop fuel)

-- An empty path is "/", and every other begins with it.
unfoldable pub rooted : Text → Text
rooted path =
    if is_empty path
    then text "/"
    else if starts_with (text "/") path
    then path
    else text "/" ++ path

-- Each round makes the path shorter, so its length is fuel enough.
unfoldable pub convert_path_format : Text → Option Text
unfolding convert_loop rooted
convert_path_format path = convert_loop (suc (length (rooted path))) (rooted path)

convert_path_format_runs :
    convert_path_format (text "users/<id:i64>/posts/<post_id:String>")
    ≡ some (text "/users/{id}/posts/{post_id}")
unfolding convert_path_format
convert_path_format_runs = refl
