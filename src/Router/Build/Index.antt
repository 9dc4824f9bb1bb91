-- ===== src/Router/Build/Index.antt =====
-- The two indices of a node's children: a static child is found by its text, and every other child
-- is a candidate.
use silent.Prelude.{
  ℕ, zero, suc, ◌+◌, ◌≡◌, refl, sym, ap, subst, ◌∙◌, ◌≢◌, ◌⊎◌, inl, inr, Bool, true, Option, none,
  some, List, [], ◌∷◌, ◌++◌, arith, any, nat_Eq,
}
use mathlib.Core.Option.{some_inj}
use silent.Text.{Text, Text_Eq}
use silent.Dict
use silent.Dict.{Dict}
use silent.Dict.Laws.{lookup-insert}
use silent.Router.Segment.{as_static_key}
use silent.Router.Tree.{RouteTree, Trees, nil, cons}
use silent.Router.Build.{index_child, index_from, segment_of}

abbrev pub Member : ℕ → List ℕ → Type 0
Member x [] = ⊥
Member x (y ∷ ys) = (x ≡ y) ⊎ Member x ys

pub Member-append_left : (x : ℕ) (xs ys : List ℕ) → Member x xs → Member x (xs ++ ys)
Member-append_left x [] ys h = absurd h
Member-append_left x (y ∷ xs) ys (inl e) = inl e
Member-append_left x (y ∷ xs) ys (inr h) = inr (Member-append_left x xs ys h)

pub Member-append_right : (x : ℕ) (xs ys : List ℕ) → Member x ys → Member x (xs ++ ys)
Member-append_right x [] ys h = h
Member-append_right x (y ∷ xs) ys h = inr (Member-append_right x xs ys h)

pub any-Member : (f : ℕ → Bool) (x : ℕ) (xs : List ℕ) → Member x xs → f x ≡ true → any f xs ≡ true
any-Member f x [] h e = absurd h
any-Member f x (y ∷ xs) (inl same) e = rw (ap f (sym same) ∙ e) refl
any-Member f x (y ∷ xs) (inr h) e = ground (arith, any-Member f x xs h e)

index_child_other :
    (k : Text) (key : Option Text) (idx : ℕ) (maps : Dict Text ℕ × List ℕ)
    → key ≢ some k
    → Dict.lookup k (index_child key idx maps).0 ≡ Dict.lookup k maps.0
index_child_other k none idx maps ne = refl
index_child_other k (some j) idx (st, dyn) ne =
    ground (arith, lookup-insert k j idx st, Text_Eq.beq_iff j k, λ (e : j ≡ k). ne (ap some e))

index_child_hit :
    (k : Text) (key : Option Text) (idx : ℕ) (maps : Dict Text ℕ × List ℕ)
    → key ≡ some k
    → Dict.lookup k (index_child key idx maps).0 ≡ some idx
index_child_hit k none idx maps e = cc
index_child_hit k (some j) idx (st, dyn) e =
    ground (arith, lookup-insert k j idx st, Text_Eq.beq_iff j k)

index_child_keeps :
    (x : ℕ) (key : Option Text) (idx : ℕ) (maps : Dict Text ℕ × List ℕ)
    → Member x maps.1
    → Member x (index_child key idx maps).1
index_child_keeps x none idx (st, dyn) h = Member-append_left x dyn (idx ∷ []) h
index_child_keeps x (some k) idx (st, dyn) h = h

index_child_new :
    (key : Option Text) (idx : ℕ) (maps : Dict Text ℕ × List ℕ)
    → key ≡ none
    → Member idx (index_child key idx maps).1
index_child_new none idx (st, dyn) e = Member-append_right idx dyn (idx ∷ []) (inl refl)
index_child_new (some k) idx maps e = cc

module _ {H W : Type 0} where
  abbrev pub get_tree : Trees H W → ℕ → Option (RouteTree H W)
  get_tree nil i = none
  get_tree (cons t ts) zero = some t
  get_tree (cons t ts) (suc i) = get_tree ts i

  abbrev pub key_of : RouteTree H W → Option Text
  key_of t = as_static_key (segment_of t)

  -- No tree of the list is static with this text.
  abbrev pub Fresh : Text → Trees H W → Type 0
  Fresh k nil = Unit
  Fresh k (cons t ts) = (key_of t ≢ some k) × Fresh k ts

  -- The trees behind a position.
  abbrev pub behind : Trees H W → ℕ → Trees H W
  behind nil i = nil
  behind (cons t ts) zero = ts
  behind (cons t ts) (suc i) = behind ts i

  index_from-Fresh :
      (k : Text) (ts : Trees H W) (idx : ℕ) (maps : Dict Text ℕ × List ℕ)
      → Fresh k ts
      → Dict.lookup k (index_from idx ts maps).0 ≡ Dict.lookup k maps.0
  unfolding index_from
  index_from-Fresh k nil idx maps h = refl
  index_from-Fresh k (cons t ts) idx maps (ne, h) =
      index_from-Fresh k ts (suc idx) (index_child (key_of t) idx maps) h
      ∙ index_child_other k (key_of t) idx maps ne

  -- The last static child with a text is the one that the map finds.
  pub index_from_static :
      (k : Text) (ts : Trees H W) (i idx : ℕ) (maps : Dict Text ℕ × List ℕ) (t : RouteTree H W)
      → get_tree ts i ≡ some t
      → key_of t ≡ some k
      → Fresh k (behind ts i)
      → Dict.lookup k (index_from idx ts maps).0 ≡ some (i + idx)
  unfolding index_from
  index_from_static k nil i idx maps t e key h = cc
  index_from_static k (cons s ts) zero idx maps t e key h =
      index_from-Fresh k ts (suc idx) (index_child (key_of s) idx maps) h
      ∙ index_child_hit k (key_of s) idx maps (ap key_of (some_inj.0 e) ∙ key)
      ∙ ap some (omega arith)
  index_from_static k (cons s ts) (suc i) idx maps t e key h =
      index_from_static k ts i (suc idx) (index_child (key_of s) idx maps) t e key h
      ∙ ap some (omega arith)

  index_from_keeps :
      (x : ℕ) (ts : Trees H W) (idx : ℕ) (maps : Dict Text ℕ × List ℕ)
      → Member x maps.1
      → Member x (index_from idx ts maps).1
  unfolding index_from
  index_from_keeps x nil idx maps h = h
  index_from_keeps x (cons t ts) idx maps h =
      index_from_keeps x ts (suc idx) _ (index_child_keeps x (key_of t) idx maps h)

  -- Every child that is not static is a dynamic child.
  pub index_from_dynamic :
      (ts : Trees H W) (i idx : ℕ) (maps : Dict Text ℕ × List ℕ) (t : RouteTree H W)
      → get_tree ts i ≡ some t
      → key_of t ≡ none
      → Member (i + idx) (index_from idx ts maps).1
  unfolding index_from
  index_from_dynamic nil i idx maps t e key = cc
  index_from_dynamic (cons s ts) zero idx maps t e key =
      index_from_keeps (0 + idx) ts (suc idx) (index_child (key_of s) idx maps) (
        subst (λ x. Member x (index_child (key_of s) idx maps).1) (omega arith)
          (index_child_new (key_of s) idx maps (ap key_of (some_inj.0 e) ∙ key)))
  index_from_dynamic (cons s ts) (suc i) idx maps t e key =
      subst (λ x. Member x (index_from (suc idx) ts (index_child (key_of s) idx maps)).1)
        (omega arith) (index_from_dynamic ts i (suc idx) (index_child (key_of s) idx maps) t e key)
