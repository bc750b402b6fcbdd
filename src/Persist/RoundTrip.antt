-- ===== src/Persist/RoundTrip.antt =====
-- What `encode` writes, `decode` reads back: each block by itself.
pub mod Axes
pub mod Sorting
pub mod Blocks
pub mod Collected
pub mod Whole
pub mod Compatible
use evsieve.Base.{
  ℕ, zero, suc, ◌+◌, ltb, leb, ◌==◌, Bool, true, false, Option, none, some, List, [], ◌∷◌, ◌++◌,
  length, All, ℤ, IsI32, ltb_ℤ, ◌≤ℤ◌, ◌≤◌, Result, ok, err, ◌>>=◌, ◌≡◌, refl, ap, ◌∙◌, sym, arith,
  if◌then◌else◌, Bool-cases, inl, inr,
}
use mathlib.Core.List.{append_assoc}
use evsieve.Event.{EventType, EventCode, ev_abs, ev_rep}
use evsieve.Capability.{AbsInfo}
use evsieve.Capability.Codes.{CodeSet, CodeMap, get, insert}
use evsieve.Capability.Device.{Capabilities, RepeatInfo, kernel_default, ev_types, abs_equivalent}
use evsieve.Persist.Bytes.{
  Read, InvalidFormatError, invalid_format, u16_bytes, u32_bytes, i32_bytes, read_u16, read_i32,
  expect_u16, IsU16, read_u16-u16_bytes, read_i32-i32_bytes, expect_u16-u16_bytes,
}
use evsieve.Persist.Encode.{code_bytes, axis_bytes, encode_axes}
use evsieve.Persist.Decode.{axis_of, decode_codes, decode_axis, decode_axes}

-- The codes of a block, which all have its type.
abbrev pub InBlock : EventType → ℕ → EventCode → Type 0
InBlock t max_code c = (c.ev_type ≡ t) × (c.code ≤ max_code) × IsU16 c.code

abbrev read_one_code : EventType → ℕ → ℕ → Read ℕ → Read CodeSet
read_one_code t max_code n r = do
  (event_code_u16, source) ← r
  (event_codes, source) ←
      if ltb max_code event_code_u16 then err invalid_format else decode_codes n t max_code source
  ok (record { ev_type = t; code = event_code_u16 } ∷ event_codes, source)

pub decode_codes-code_bytes :
    (t : EventType) (max_code : ℕ) (codes : CodeSet) (rest : List ℕ)
    → All (InBlock t max_code) codes
    → decode_codes (length codes) t max_code (code_bytes codes ++ rest) ≡ ok (codes, rest)
unfolding decode_codes code_bytes
decode_codes-code_bytes t max_code [] rest h = refl
decode_codes-code_bytes t max_code (c ∷ codes) rest ((same, small, fits), h) =
    let fine : ltb max_code c.code ≡ false = ground (arith, small) in
    ap (λ l. decode_codes (suc (length codes)) t max_code l)
      (append_assoc (u16_bytes c.code) (code_bytes codes) rest)
    ∙ ap (read_one_code t max_code (length codes))
        (read_u16-u16_bytes c.code (code_bytes codes ++ rest) fits)
    ∙ rw (fine, decode_codes-code_bytes t max_code codes rest h, same) refl

-- The five numbers of an axis, each an `i32`, and its range.
abbrev pub IsStorableAxis : AbsInfo → Type 0
IsStorableAxis info =
    IsI32 info.min_value
    × IsI32 info.max_value
    × IsI32 info.meta.flat
    × IsI32 info.meta.fuzz
    × IsI32 info.meta.resolution

-- All but the current value.
abbrev pub restored : AbsInfo → AbsInfo
restored info =
    axis_of info.min_value info.max_value info.meta.flat info.meta.fuzz info.meta.resolution

pub decode_axis-axis_bytes :
    (info : AbsInfo) (rest : List ℕ)
    → IsStorableAxis info
    → ltb_ℤ info.max_value info.min_value ≡ false
    → decode_axis (axis_bytes info ++ rest) ≡ ok (restored info, rest)
unfolding decode_axis axis_bytes
decode_axis-axis_bytes info rest (a, b, c, d, e) ordered = simp (
  append_assoc,
  read_i32-i32_bytes info.min_value _ a,
  read_i32-i32_bytes info.max_value _ b,
  read_i32-i32_bytes info.meta.flat _ c,
  read_i32-i32_bytes info.meta.fuzz _ d,
  read_i32-i32_bytes info.meta.resolution rest e,
  ordered,
)
