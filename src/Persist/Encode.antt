-- ===== src/Persist/Encode.antt =====
-- The half of src/persist/format.rs that writes. The debug assertion at the end of `encode` is left
-- out.
use evsieve.Base.{
  ℕ, ◌+◌, ltb, leb, ◌==◌, Bool, Option, none, some, List, [], ◌∷◌, ◌++◌, any, retain, length, ltb_ℤ,
  if◌then◌else◌, Result, ok, err, ◌>>=◌,
}
use evsieve.Event.{EventType, EventCode, ev_abs, ev_rep}
use evsieve.Capability.{AbsInfo}
use evsieve.Capability.Codes.{CodeSet, CodeMap, code_le, get}
use evsieve.Capability.Device.{Capabilities, RepeatInfo, kernel_default, ev_types}
use evsieve.Persist.Bytes.{u16_bytes, u32_bytes, i32_bytes}

-- The messages, as values.
pub data InternalError : Type 0 where
  file_too_large : InternalError
  length_differs : InternalError
  too_many_types : InternalError
  too_many_codes : EventType → InternalError
  no_axis_data : EventCode → InternalError
  axis_reversed : EventCode → InternalError

abbrev pub magic_number : List ℕ
magic_number = 0x45 ∷ 0x56 ∷ 0x53 ∷ 0x56 ∷ 0x41 ∷ 0xe7 ∷ 0x75 ∷ 0x00 ∷ []

abbrev pub ev_abs_block_number : ℕ
ev_abs_block_number = 1

abbrev pub ev_rep_block_number : ℕ
ev_rep_block_number = 2

abbrev pub final_block_number : ℕ
final_block_number = 0xffff

-- `sort_by_key` of the types, and `sort` of the codes.
unfoldable pub insert_type : EventType → List EventType → List EventType
insert_type t [] = t ∷ []
insert_type t (u ∷ types) =
    let later = insert_type t types in if leb t u then t ∷ u ∷ types else u ∷ later

unfoldable pub sort_types : List EventType → List EventType
unfolding insert_type
sort_types [] = []
sort_types (t ∷ types) = insert_type t (sort_types types)

unfoldable pub insert_code : EventCode → CodeSet → CodeSet
insert_code c [] = c ∷ []
insert_code c (d ∷ codes) =
    let later = insert_code c codes in if code_le c d then c ∷ d ∷ codes else d ∷ later

unfoldable pub sort_codes : CodeSet → CodeSet
unfolding insert_code
sort_codes [] = []
sort_codes (c ∷ codes) = insert_code c (sort_codes codes)

unfoldable pub sorted_event_codes_for_type : Capabilities → EventType → CodeSet
unfolding sort_codes
sorted_event_codes_for_type caps ev_type =
    sort_codes (retain (λ code. code.ev_type == ev_type) caps.codes)

-- `try_into` to a `u16`.
abbrev pub u16_of : InternalError → ℕ → Result InternalError (List ℕ)
u16_of e n = if ltb n 65536 then ok (u16_bytes n) else err e

unfoldable pub code_bytes : CodeSet → List ℕ
code_bytes [] = []
code_bytes (c ∷ codes) = u16_bytes c.code ++ code_bytes codes

unfoldable pub encode_event_block : Capabilities → EventType → Result InternalError (List ℕ)
unfolding code_bytes sorted_event_codes_for_type
encode_event_block caps ev_type =
    let event_codes = sorted_event_codes_for_type caps ev_type in
    u16_of (too_many_codes ev_type) (length event_codes) >>= λ num_event_codes.
    ok (u16_bytes ev_type ++ num_event_codes ++ code_bytes event_codes)

unfoldable pub encode_event_blocks : Capabilities → List EventType → Result InternalError (List ℕ)
unfolding encode_event_block
encode_event_blocks caps [] = ok []
encode_event_blocks caps (ev_type ∷ event_types) = do
  block ← encode_event_block caps ev_type
  blocks ← encode_event_blocks caps event_types
  ok (block ++ blocks)

unfoldable pub axis_bytes : AbsInfo → List ℕ
axis_bytes abs_info =
    i32_bytes abs_info.min_value
    ++ i32_bytes abs_info.max_value
    ++ i32_bytes abs_info.meta.flat
    ++ i32_bytes abs_info.meta.fuzz
    ++ i32_bytes abs_info.meta.resolution

unfoldable pub encode_axis : EventCode → Option AbsInfo → Result InternalError (List ℕ)
unfolding axis_bytes
encode_axis abs_code none = err (no_axis_data abs_code)
encode_axis abs_code (some abs_info) =
    if ltb_ℤ abs_info.max_value abs_info.min_value
    then err (axis_reversed abs_code)
    else ok (axis_bytes abs_info)

unfoldable pub encode_axes : CodeMap AbsInfo → CodeSet → Result InternalError (List ℕ)
unfolding encode_axis
encode_axes abs_info [] = ok []
encode_axes abs_info (abs_code ∷ abs_codes) = do
  axis ← encode_axis abs_code (get abs_info abs_code)
  axes ← encode_axes abs_info abs_codes
  ok (axis ++ axes)

unfoldable pub encode_special_abs_block : Capabilities → Result InternalError (List ℕ)
unfolding encode_axes sorted_event_codes_for_type
encode_special_abs_block caps =
    encode_axes caps.abs_info (sorted_event_codes_for_type caps ev_abs) >>= λ axes.
    ok (u16_bytes ev_abs_block_number ++ axes)

abbrev pub unwrap_or_default : Option RepeatInfo → RepeatInfo
unwrap_or_default none = kernel_default
unwrap_or_default (some rep_info) = rep_info

unfoldable pub encode_special_rep_block : Capabilities → List ℕ
encode_special_rep_block caps =
    let rep_info = unwrap_or_default caps.rep_info in
    u16_bytes ev_rep_block_number ++ i32_bytes rep_info.delay ++ i32_bytes rep_info.period

abbrev pub contains : List EventType → EventType → Bool
contains types t = any (λ u. u == t) types

unfoldable pub encode_body : Capabilities → Result InternalError (List ℕ)
unfolding sort_types encode_event_blocks encode_special_abs_block encode_special_rep_block
encode_body caps =
    let event_types = sort_types (ev_types caps.codes) in
    do
      num_types ← u16_of too_many_types (length event_types)
      blocks ← encode_event_blocks caps event_types
      abs_block ← if contains event_types ev_abs then encode_special_abs_block caps else ok []
      ok (
          num_types
          ++ blocks
          ++ abs_block
          ++ (if contains event_types ev_rep then encode_special_rep_block caps else [])
          ++ u16_bytes final_block_number)

-- The header before a body.
unfoldable pub file : List ℕ → Result InternalError (List ℕ)
file body = do
  let file_length = length magic_number + 4 + length body
  length_bytes ←
      if ltb file_length 4294967296 then ok (u32_bytes file_length) else err file_too_large
  let result = magic_number ++ length_bytes ++ body
  if length result == file_length then ok result else err length_differs

unfoldable pub encode : Capabilities → Result InternalError (List ℕ)
unfolding encode_body file
encode caps = encode_body caps >>= file
