-- ===== src/Core/PathParam.antt =====
-- silent/src/core/path_param.rs: a path parameter, and its conversions. A `Uuid` is its 128 bits.
use silent.Prelude.{ℕ, ◌-◌, ◌&&◌, Option, none, some, length, take, drop, leb, if◌then◌else◌}
use silent.Prelude.Int.{ℤ}
use silent.Text.{Text}
use silent.Core.Error.{Result, ok, err, params_not_found}

-- `start..end` of a shared text
pub record PathSlice : Type 0 where
  pub source : Text
  pub start : ℕ
  pub end : ℕ

-- `&source[start..end]`: `none` is the panic of a range that leaves the text.
abbrev pub str_slice : Text → ℕ → ℕ → Option Text
str_slice s a b = if leb a b && leb b (length s) then some (take (b - a) (drop a s)) else none

pub data PathString : Type 0 where
  borrowed : PathSlice → PathString
  owned : Text → PathString

unfoldable pub as_str : PathString → Option Text
as_str (borrowed s) = str_slice s.source s.start s.end
as_str (owned value) = some value

pub data PathParam : Type 0 where
  str : PathString → PathParam
  int int64 int32 : ℤ → PathParam
  uint64 uint32 : ℕ → PathParam
  uuid : ℕ → PathParam
  path : PathString → PathParam

abbrev pub borrowed_str : Text → ℕ → ℕ → PathParam
borrowed_str source start end =
    str (borrowed (record { source = source; start = start; end = end }))

abbrev pub borrowed_path : Text → ℕ → ℕ → PathParam
borrowed_path source start end =
    path (borrowed (record { source = source; start = start; end = end }))

-- `TryFrom<&PathParam>` for each type of handler argument.
unfoldable pub to_i32 : PathParam → Result ℤ
to_i32 (int v) = ok v
to_i32 (int32 v) = ok v
to_i32 _ = err params_not_found

unfoldable pub to_i64 : PathParam → Result ℤ
to_i64 (int64 v) = ok v
to_i64 (int v) = ok v
to_i64 (int32 v) = ok v
to_i64 _ = err params_not_found

unfoldable pub to_u64 : PathParam → Result ℕ
to_u64 (uint64 v) = ok v
to_u64 _ = err params_not_found

unfoldable pub to_u32 : PathParam → Result ℕ
to_u32 (uint32 v) = ok v
to_u32 _ = err params_not_found

-- The inner `Option` is `none` where `as_str` panics.
unfoldable pub to_string : PathParam → Result (Option Text)
to_string (str v) = ok (as_str v)
to_string (path v) = ok (as_str v)
to_string _ = err params_not_found

unfoldable pub to_uuid : PathParam → Result ℕ
to_uuid (uuid v) = ok v
to_uuid _ = err params_not_found
