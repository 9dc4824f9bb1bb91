-- ===== src/Router/Tree/Laws.antt =====
-- What a match of one segment leaves of the path, and the parameter that it binds.
use silent.Prelude.{
  ℕ, ◌≤◌, ◌≡◌, refl, ap, subst, inl, inr, Bool, true, false, Option, none, some, [], arith,
  if◌then◌else◌, Option-cases, length, drop, nat_Eq,
}
use mathlib.Core.Option.{some_inj}
use silent.Text.{Text, text, is_empty, Text_Eq, text_eq}
use silent.Router.Slice.{Str, Platform, strip_one_segment, match_static_segment, advance}
use silent.Router.Slice.Offsets.{Suffix, Cut-Suffix, strip_one_segment-Cut, end-Suffix, self-Suffix}
use silent.Router.Slice.Static.{match_static_segment-Suffix}
use silent.Router.Number.{parse_signed, parse_unsigned}
use silent.Router.Segment.{SpecialSeg}
use silent.Router.Tree.{
  PathMatch, PathMatchCapture, call_path_only, typed, with_value, i32_half, i64_half, u32_limit,
  u64_limit,
}

pub unless_some {ℓ} :
    {A : Type ℓ} (b : Bool) (o : Option A) {a : A}
    → (if b then none else o) ≡ some a
    → (b ≡ false) × (o ≡ some a)
unless_some true o e = cc
unless_some false o e = (refl, e)

remain_of : {m n : PathMatch} → some m ≡ some n → m.remain ≡ n.remain
remain_of e = ap (λ x. x.remain) (some_inj.0 e)

with_value_remain {ℓ} :
    {A : Type ℓ} (remain : Str) (capture : A → PathMatchCapture) (v : Option A) {m : PathMatch}
    → with_value remain capture v ≡ some m
    → remain ≡ m.remain
with_value_remain remain capture none e = cc
with_value_remain remain capture (some v) e = ground arith

module _ ⦃p : Platform⦄ where
  typed_remain {ℓ} :
      {A : Type ℓ} (path : Str) (parse : Text → Option A) (capture : A → PathMatchCapture)
      {m : PathMatch}
      → typed path parse capture ≡ some m
      → (strip_one_segment path).1 ≡ m.remain
  typed_remain path parse capture e =
      let (segment, remain) = strip_one_segment path in
      with_value_remain remain capture (parse segment.bytes)
        (unless_some (is_empty segment.bytes) _ e).1

  module _ (full : Str) (o : ℕ) (h : o ≤ length full.bytes) where
    segment-Suffix : Suffix full o (strip_one_segment (advance o full)).1
    segment-Suffix = Cut-Suffix full o _ _ (strip_one_segment-Cut full o h)

    typed-Suffix {ℓ} :
        {A : Type ℓ} (parse : Text → Option A) (capture : A → PathMatchCapture) {m : PathMatch}
        → typed (advance o full) parse capture ≡ some m
        → Suffix full o m.remain
    typed-Suffix parse capture e =
        subst (Suffix full o) (typed_remain (advance o full) parse capture e) segment-Suffix

    normalized-Suffix :
        (slash : Bool)
        → Suffix full o
            (if slash then record { addr = p.empty_addr; bytes = [] } else advance o full)
    normalized-Suffix true = end-Suffix full o p.empty_addr h
    normalized-Suffix false = self-Suffix full o h

    -- What remains after a segment of any kind has matched the path at an offset inside it is a
    -- suffix of the path, and its offset is no less than the one before and lies in the path.
    pub call_path_only-Suffix :
        (seg : SpecialSeg) (leaf : Bool) {m : PathMatch}
        → call_path_only seg leaf (advance o full) full ≡ some m
        → Suffix full o m.remain
    unfolding call_path_only
    call_path_only-Suffix SpecialSeg.root leaf e =
        subst (Suffix full o) (remain_of (unless_some _ _ e).1)
          (normalized-Suffix (text_eq (drop o full.bytes) (text "/")))
    call_path_only-Suffix (SpecialSeg.static value) leaf {m} e =
        elim (Option-cases (match_static_segment value (advance o full))) [
          | inl missed ↦ ground arith
          | inr (rem, found) ↦
              let same : rem ≡ m.remain = ground arith in
              subst (Suffix full o) same (match_static_segment-Suffix value full o h found)
        ]
    call_path_only-Suffix (SpecialSeg.string key) leaf e =
        let (segment, remain) = strip_one_segment (advance o full) in
        subst (Suffix full o) (remain_of (unless_some (is_empty segment.bytes) _ e).1)
          segment-Suffix
    call_path_only-Suffix (SpecialSeg.int key) leaf e =
        typed-Suffix (parse_signed i32_half) PathMatchCapture.i32 e
    call_path_only-Suffix (SpecialSeg.i32 key) leaf e =
        typed-Suffix (parse_signed i32_half) PathMatchCapture.i32 e
    call_path_only-Suffix (SpecialSeg.i64 key) leaf e =
        typed-Suffix (parse_signed i64_half) PathMatchCapture.i64 e
    call_path_only-Suffix (SpecialSeg.u64 key) leaf e =
        typed-Suffix (parse_unsigned u64_limit) PathMatchCapture.u64 e
    call_path_only-Suffix (SpecialSeg.u32 key) leaf e =
        typed-Suffix (parse_unsigned u32_limit) PathMatchCapture.u32 e
    call_path_only-Suffix (SpecialSeg.uuid key) leaf e =
        typed-Suffix p.parse_uuid PathMatchCapture.uuid e
    call_path_only-Suffix (SpecialSeg.path key) leaf e =
        subst (Suffix full o) (remain_of e) segment-Suffix
    call_path_only-Suffix (SpecialSeg.full_path key) leaf e =
        subst (Suffix full o) (remain_of e) segment-Suffix
