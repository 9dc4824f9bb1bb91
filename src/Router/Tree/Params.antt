-- ===== src/Router/Tree/Params.antt =====
-- The parameters that a match binds, and what they read.
use silent.Prelude.{
  ℕ, ◌+◌, ◌≤◌, ◌<◌, ◌≡◌, refl, ap, ◌≢◌, ◌↔◌, inl, inr, Bool, false, Option, none, some, [], ◌∷◌,
  arith, Option-cases, length, drop, nat_Eq,
}
use mathlib.Core.Option.{some_inj}
use silent.Text.{Text, is_empty, contains, Text_Eq}
use silent.Text.Laws.{splitn_first}
use silent.Core.Error.{ok}
use silent.Core.Http.{Request}
use silent.Core.PathParam.{PathParam, to_string, as_str, borrowed_str, borrowed_path}
use silent.Router.Slice.{
  Str, Platform, strip_leading_slash, strip_one_segment, slice_range, advance, empty_str,
}
use silent.Router.Slice.Laws.{
  strip_one_segment_bytes, trim_slash, cut, slice-advance, strip_leading_slash-advance,
  bytes-strip_leading_slash,
}
use silent.Router.Slice.Offsets.{strip_one_segment-Cut, strip_one_segment_end}
use silent.Router.Number.{parse_signed, parse_unsigned}
use silent.Router.Segment.{SpecialSeg}
use silent.Router.Tree.{
  PathMatch, PathMatchCapture, call_path_only, typed, with_value, binding, bind_params, set_binding,
  i32_half, i64_half, u32_limit, u64_limit,
}
use silent.Router.Tree.Laws.{unless_some}

capture_of : {m n : PathMatch} → some m ≡ some n → m.capture ≡ n.capture
capture_of e = ap (λ x. x.capture) (some_inj.0 e)

-- A match of a segment always carries the capture that the segment binds: `bind_params` never
-- fails behind `call_path_only`.
module _ ⦃p : Platform⦄ where
  with_value_binding {ℓ} :
      {A : Type ℓ} (remain : Str) (capture : A → PathMatchCapture) (v : Option A) {m : PathMatch}
      → with_value remain capture v ≡ some m
      → (a : A) × (m.capture ≡ some (capture a)) × (v ≡ some a)
  with_value_binding remain capture none e = cc
  with_value_binding remain capture (some v) e = (v, ground arith, refl)

  typed_capture {ℓ} :
      {A : Type ℓ} (path : Str) (parse : Text → Option A) (capture : A → PathMatchCapture)
      {m : PathMatch}
      → typed path parse capture ≡ some m
      → (a : A) × (m.capture ≡ some (capture a)) × (parse (strip_one_segment path).0.bytes ≡ some a)
  typed_capture path parse capture e =
      let (segment, remain) = strip_one_segment path in
      with_value_binding remain capture (parse segment.bytes)
        (unless_some (is_empty segment.bytes) _ e).1

  -- A match always carries the capture that its segment binds.
  binding_total :
      (seg : SpecialSeg) (leaf : Bool) (path whole : Str) (source : Text) {m : PathMatch}
      → call_path_only seg leaf path whole ≡ some m
      → binding seg m.capture source ≢ none
  unfolding call_path_only binding
  binding_total SpecialSeg.root leaf path whole source e = λ n. cc
  binding_total (SpecialSeg.static value) leaf path whole source e = λ n. cc
  binding_total (SpecialSeg.string key) leaf path whole source e =
      rw (← capture_of (unless_some (is_empty (strip_one_segment path).0.bytes) _ e).1) (λ n. cc)
  binding_total (SpecialSeg.path key) leaf path whole source e = rw (← capture_of e) (λ n. cc)
  binding_total (SpecialSeg.full_path key) leaf path whole source e = rw (← capture_of e) (λ n. cc)
  binding_total (SpecialSeg.int key) leaf path whole source e =
      let (a, c, q) = typed_capture path (parse_signed i32_half) PathMatchCapture.i32 e in
      rw c (λ n. cc)
  binding_total (SpecialSeg.i32 key) leaf path whole source e =
      let (a, c, q) = typed_capture path (parse_signed i32_half) PathMatchCapture.i32 e in
      rw c (λ n. cc)
  binding_total (SpecialSeg.i64 key) leaf path whole source e =
      let (a, c, q) = typed_capture path (parse_signed i64_half) PathMatchCapture.i64 e in
      rw c (λ n. cc)
  binding_total (SpecialSeg.u64 key) leaf path whole source e =
      let (a, c, q) = typed_capture path (parse_unsigned u64_limit) PathMatchCapture.u64 e in
      rw c (λ n. cc)
  binding_total (SpecialSeg.u32 key) leaf path whole source e =
      let (a, c, q) = typed_capture path (parse_unsigned u32_limit) PathMatchCapture.u32 e in
      rw c (λ n. cc)
  binding_total (SpecialSeg.uuid key) leaf path whole source e =
      let (a, c, q) = typed_capture path p.parse_uuid PathMatchCapture.uuid e in rw c (λ n. cc)

  -- `bind_params` never fails on a match that `call_path_only` made for the same segment.
  pub bind_params_total :
      {H : Type 0} (seg : SpecialSeg) (leaf : Bool) (path whole : Str) (source : Text)
      (req : Request H) {m : PathMatch}
      → call_path_only seg leaf path whole ≡ some m
      → (bound : Request H) × (bind_params seg req m source ≡ some bound)
  unfolding bind_params
  bind_params_total seg leaf path whole source req {m} e =
      elim (Option-cases (binding seg m.capture source)) [
        | inl failed ↦ absurd (binding_total seg leaf path whole source e failed)
        | inr (b, bound) ↦ (set_binding req b, rw (bound, bind_params) refl)
      ]

ne_blank : (t : Text) → is_empty t ≡ false → t ≢ []
ne_blank [] e = cc
ne_blank (c ∷ t) e = λ n. cc

module _ ⦃p : Platform⦄ (full : Str) (o : ℕ) (h : o ≤ length full.bytes) where
  -- When a `<key>` or `<key:str>` segment matches the path at an offset inside it, the parameter
  -- that it binds reads as the next segment of the path, which is not empty and has no '/'.
  pub string_reads :
      (key : Text) (leaf : Bool) {m : PathMatch}
      → call_path_only (SpecialSeg.string key) leaf (advance o full) full ≡ some m
      → let segment = (cut (trim_slash (drop o full.bytes))).0 in
        (value : PathParam) × (binding (SpecialSeg.string key) m.capture full.bytes
          ≡ some (some (key, value)))
        × (to_string value ≡ ok (some segment))
        × (segment ≢ [])
        × (contains b'/' segment ≡ false)
  unfolding call_path_only binding to_string as_str
  string_reads key leaf {m} e =
      let (segment, remain) = strip_one_segment (advance o full) in
      let (filled, matched) = unless_some (is_empty segment.bytes) _ e in
      let same : segment.bytes ≡ (cut (trim_slash (drop o full.bytes))).0 =
        ap (λ (x : Text × Text). x.0) (strip_one_segment_bytes (advance o full)) in
      let there : segment.bytes ≢ [] = λ blank. absurd (ne_blank segment.bytes filled blank) in
      (
        borrowed_str full.bytes (slice_range full segment).0 (slice_range full segment).1,
        rw (← capture_of matched) refl,
        rw (← same) (ap ok ((strip_one_segment-Cut full o h).reads there)),
        rw (← same) there,
        splitn_first b'/' (trim_slash (drop o full.bytes)),
      )

  -- When a `<key:**>` segment matches the path at an offset inside it, the parameter that it binds
  -- reads as the whole rest of the path behind one leading '/'.
  pub full_path_reads :
      (key : Text) (leaf : Bool) {m : PathMatch}
      → call_path_only (SpecialSeg.full_path key) leaf (advance o full) full ≡ some m
      → (value : PathParam) × (binding (SpecialSeg.full_path key) m.capture full.bytes
          ≡ some (some (key, value)))
        × (to_string value ≡ ok (some (trim_slash (drop o full.bytes))))
  unfolding call_path_only binding to_string as_str
  full_path_reads key leaf {m} e =
      let trimmed = strip_leading_slash (advance o full) in
      let (o', at, lo, hi) = strip_leading_slash-advance full o h in
      (
        borrowed_path full.bytes (slice_range full trimmed).0 (slice_range full trimmed).1,
        rw (← capture_of e) refl,
        rw (← bytes-strip_leading_slash (advance o full))
            (rw at (ap ok (slice-advance full o' hi))),
      )

  -- When a `<key:*>` segment matches at the end of the path, reading its parameter is a panic
  -- exactly if the literal `""` lies behind the end of the path's buffer, and gives the empty text
  -- exactly if it does not.
  pub path_reads_end :
      (key : Text) (leaf : Bool) {m : PathMatch}
      → drop o full.bytes ≡ []
      → call_path_only (SpecialSeg.path key) leaf (advance o full) full ≡ some m
      → (value : PathParam) × (binding (SpecialSeg.path key) m.capture full.bytes
          ≡ some (some (key, value)))
        × ((to_string value ≡ ok none) ↔ (full.addr + length full.bytes < p.empty_addr))
        × ((to_string value ≡ ok (some [])) ↔ (p.empty_addr ≤ full.addr + length full.bytes))
  unfolding call_path_only binding to_string as_str slice_range
  path_reads_end key leaf {m} none_left e =
      let (start, end) = slice_range full empty_str in
      let cut_end = strip_one_segment_end (advance o full) none_left in
      (
        borrowed_path full.bytes start end,
        rw (← capture_of e) (rw cut_end refl),
        ground arith,
        ground arith,
      )
