-- ===== src/Static/Paths.antt =====
-- silent/src/handler/static/handler.rs: the path below the root that a request names. A relative
-- `PathBuf` is the list of its components; `components` is the one of Unix.
use silent.Prelude.{
  ◌≡◌, refl, sym, ap, subst, ◌∙◌, ◌≢◌, inl, inr, Bool, true, false, Option, none, some, List, [],
  ◌∷◌, ◌++◌, arith, ◌==◌, if◌then◌else◌, Bool-cases, any, All, ◌=?◌, nat_Eq,
}
use mathlib.Core.Bool.{false≢true}
use silent.Text.{Text, text, is_empty, contains, split, join, Text_Eq, text_eq_iff}
use silent.Text.Laws.{split_clean}

pub data Component : Type 0 where
  normal : Text → Component
  cur_dir parent_dir root_dir : Component

-- The component of a part between separators; only the first `.` of a relative path is one.
abbrev pub component_of : Bool → Text → Option Component
component_of at_start part =
    if is_empty part
    then none
    else if part =? text "."
    then (if at_start then some cur_dir else none)
    else if part =? text ".."
    then some parent_dir
    else some (normal part)

abbrev pub add_component : Option Component → List Component → List Component
add_component none cs = cs
add_component (some c) cs = c ∷ cs

abbrev pub components_of : Bool → List Text → List Component
components_of at_start [] = []
components_of at_start (part ∷ parts) =
    add_component (component_of at_start part) (components_of false parts)

abbrev pub is_rooted : Text → Bool
is_rooted [] = false
is_rooted (c ∷ s) = c == b'/'

-- `Path::components`
unfoldable pub components : Text → List Component
components path =
    if is_rooted path
    then root_dir ∷ components_of false (split b'/' path)
    else components_of true (split b'/' path)

abbrev pub push_first : Text → Option (List Text) → Option (List Text)
push_first seg none = none
push_first seg (some sanitized) = some (seg ∷ sanitized)

-- The loop of `sanitize_path_param`.
abbrev pub sanitize : List Component → Option (List Text)
sanitize [] = some []
sanitize (normal seg ∷ cs) = push_first seg (sanitize cs)
sanitize (cur_dir ∷ cs) = sanitize cs
sanitize (parent_dir ∷ cs) = none
sanitize (root_dir ∷ cs) = none

unfoldable pub sanitize_path_param : Text → Option (List Text)
unfolding components
sanitize_path_param trimmed = sanitize (components trimmed)

-- `normalized_request_path`
unfoldable pub normalized_request_path : List Text → Bool → Text
normalized_request_path [] ends_with_slash = []
normalized_request_path (part ∷ parts) ends_with_slash =
    join (text "/") (part ∷ parts) ++ (if ends_with_slash then text "/" else [])

-- A name that stays in its folder.
abbrev pub IsName : Text → Type 0
IsName s = (s ≢ []) × (s ≢ text ".") × (s ≢ text "..") × (contains b'/' s ≡ false)

differs : (s t : Text) → (s =? t) ≡ false → s ≢ t
differs s t h e = false≢true (sym h ∙ (text_eq_iff s t).1 e)

filled : (s : Text) → is_empty s ≡ false → s ≢ []
filled [] h = cc
filled (c ∷ s) h = λ e. cc

abbrev Named : Option (List Text) → Type 0
Named none = Unit
Named (some segs) = All IsName segs

push_first-Named :
    (seg : Text) (o : Option (List Text)) → IsName seg → Named o → Named (push_first seg o)
push_first-Named seg none name h = tt
push_first-Named seg (some segs) name h = (name, h)

sanitize-Named :
    (at_start : Bool) (parts : List Text)
    → All (λ p. contains b'/' p ≡ false) parts
    → Named (sanitize (components_of at_start parts))
sanitize-Named at_start [] h = tt
sanitize-Named at_start (part ∷ parts) (clean, h) =
    let rest = sanitize-Named false parts h in
    elim (Bool-cases (is_empty part)) [
      | inl blank ↦ rw blank rest
      | inr here ↦ elim (Bool-cases (part =? text ".")) [
        | inl dot ↦ rw (here, dot) (current at_start (components_of false parts) rest)
        | inr no_dot ↦ elim (Bool-cases (part =? text "..")) [
          | inl up ↦ rw (here, no_dot, up) tt
          | inr no_up ↦
              rw (here, no_dot, no_up)
                (push_first-Named part (sanitize (components_of false parts))
                  (
                    filled part here,
                    differs part (text ".") no_dot,
                    differs part (text "..") no_up,
                    clean,
                  )
                  rest)
        ]
      ]
    ]
  where
    current :
        (b : Bool) (cs : List Component)
        → Named (sanitize cs)
        → Named (sanitize (add_component (if b then some cur_dir else none) cs))
    current true cs n = n
    current false cs n = n

-- Every component of a sanitised path is a name: not empty, neither '.' nor '..', and without '/'.
-- So the path stays below the root that it is joined to.
pub sanitize_path_param-IsName :
    (trimmed : Text) (segs : List Text) → sanitize_path_param trimmed ≡ some segs → All IsName segs
unfolding sanitize_path_param
sanitize_path_param-IsName trimmed segs e = subst Named e (by_root (is_rooted trimmed))
  where
    by_root :
        (b : Bool)
        → Named (
            sanitize (
              if b
              then root_dir ∷ components_of false (split b'/' trimmed)
              else components_of true (split b'/' trimmed)))
    by_root true = tt
    by_root false = sanitize-Named true (split b'/' trimmed) (split_clean b'/' trimmed)

add_component_refused :
    (o : Option Component) (cs : List Component)
    → sanitize cs ≡ none
    → sanitize (add_component o cs) ≡ none
add_component_refused none cs e = e
add_component_refused (some (normal seg)) cs e = ap (push_first seg) e
add_component_refused (some cur_dir) cs e = e
add_component_refused (some parent_dir) cs e = refl
add_component_refused (some root_dir) cs e = refl

sanitize_refuses :
    (at_start : Bool) (parts : List Text)
    → any (λ p. p =? text "..") parts ≡ true
    → sanitize (components_of at_start parts) ≡ none
sanitize_refuses at_start [] h = absurd (false≢true h)
sanitize_refuses at_start (part ∷ parts) h = elim (Bool-cases (part =? text "..")) [
  | inl up ↦
      subst
        (λ p. sanitize (add_component (component_of at_start p) (components_of false parts)) ≡ none)
        (sym ((text_eq_iff part (text "..")).0 up)) refl
  | inr other ↦
      let later : any (λ p. p =? text "..") parts ≡ true = ground arith in
      add_component_refused (component_of at_start part) (components_of false parts)
        (sanitize_refuses false parts later)
]

-- A path of which some part between '/' is '..' is refused.
sanitize_path_param_refuses :
    (trimmed : Text)
    → any (λ p. p =? text "..") (split b'/' trimmed) ≡ true
    → sanitize_path_param trimmed ≡ none
unfolding sanitize_path_param
sanitize_path_param_refuses trimmed h = by_root (is_rooted trimmed)
  where
    by_root :
        (b : Bool)
        → sanitize (
            if b
            then root_dir ∷ components_of false (split b'/' trimmed)
            else components_of true (split b'/' trimmed))
          ≡ none
    by_root true = refl
    by_root false = sanitize_refuses true (split b'/' trimmed) h
