-- ===== src/Router/Segment.antt =====
-- silent/src/route/handler_match.rs and `SpecialSeg` of route_tree.rs: the segments of a route.
use silent.Prelude.{
  ◌-◌, ◌≡◌, refl, Bool, true, false, ◌&&◌, Option, none, some, [], if◌then◌else◌, length, take,
  drop, ◌=?◌,
}
use silent.Text.{Text, text, splitn, starts_with, ends_with, is_empty, Text_Eq}

pub data SpecialPath : Type 0 where
  string int i64 i32 u64 u32 uuid path full_path : Text → SpecialPath

pub data SpecialSeg : Type 0 where
  root : SpecialSeg
  static string int i64 i32 u64 u32 uuid path full_path : Text → SpecialSeg

unfoldable pub is_full_path : SpecialSeg → Bool
is_full_path (SpecialSeg.full_path _) = true
is_full_path _ = false

unfoldable pub as_static_key : SpecialSeg → Option Text
as_static_key (SpecialSeg.static value) = some value
as_static_key _ = none

-- `&value[1..value.len() - 1]`
abbrev pub unbracket : Text → Text
unbracket value = take (length value - 1 - 1) (drop 1 value)

abbrev pub or_empty : Option Text → Text
or_empty none = []
or_empty (some t) = t

-- The `match` on the type name.
abbrev pub path_of_type : Text → Text → SpecialPath
path_of_type key path_type =
    if path_type =? text "**"
    then SpecialPath.full_path key
    else if path_type =? text "*"
    then SpecialPath.path key
    else if path_type =? text "full_path"
    then SpecialPath.full_path key
    else if path_type =? text "path"
    then SpecialPath.path key
    else if path_type =? text "str"
    then SpecialPath.string key
    else if path_type =? text "int"
    then SpecialPath.int key
    else if path_type =? text "i64"
    then SpecialPath.i64 key
    else if path_type =? text "i32"
    then SpecialPath.i32 key
    else if path_type =? text "u64"
    then SpecialPath.u64 key
    else if path_type =? text "u32"
    then SpecialPath.u32 key
    else if path_type =? text "uuid"
    then SpecialPath.uuid key
    else SpecialPath.string key

-- `SpecialPath::from`
unfoldable pub special_path_from : Text → SpecialPath
special_path_from value =
    let (key, path_type) = splitn b':' (unbracket value) in path_of_type key (or_empty path_type)

abbrev pub seg_of_path : SpecialPath → SpecialSeg
seg_of_path (SpecialPath.string key) = SpecialSeg.string key
seg_of_path (SpecialPath.int key) = SpecialSeg.int key
seg_of_path (SpecialPath.i64 key) = SpecialSeg.i64 key
seg_of_path (SpecialPath.i32 key) = SpecialSeg.i32 key
seg_of_path (SpecialPath.u64 key) = SpecialSeg.u64 key
seg_of_path (SpecialPath.u32 key) = SpecialSeg.u32 key
seg_of_path (SpecialPath.uuid key) = SpecialSeg.uuid key
seg_of_path (SpecialPath.path key) = SpecialSeg.path key
seg_of_path (SpecialPath.full_path key) = SpecialSeg.full_path key

unfoldable pub parse_special_seg : Text → SpecialSeg
unfolding special_path_from
parse_special_seg raw =
    if is_empty raw
    then SpecialSeg.root
    else if starts_with (text "<") raw && ends_with b'>' raw
    then seg_of_path (special_path_from raw)
    else SpecialSeg.static raw

parse_special_seg_runs : parse_special_seg (text "<id:i64>") ≡ SpecialSeg.i64 (text "id")
unfolding parse_special_seg
parse_special_seg_runs = refl
