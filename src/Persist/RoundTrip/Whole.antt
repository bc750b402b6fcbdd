-- ===== src/Persist/RoundTrip/Whole.antt =====
-- A whole file.
use mathlib.Core.List.{append_assoc, append-nil}
use evsieve.Base.{
  ℕ, ◌+◌, ltb, ◌==◌, ◌<◌, true, false, ◌&&◌, Option, none, some, List, [], ◌∷◌, ◌++◌, any, length,
  All, All-map, ◌≡◌, refl, sym, ap, ◌∙◌, arith, if◌then◌else◌, Bool-cases, inl, inr, Result, ok,
  ◌>>=◌, >>=-ok, IsI32,
}
use evsieve.Event.{EventType, EventCode, ev_abs, ev_rep, is_abs}
use evsieve.Capability.{AbsInfo}
use evsieve.Capability.Codes
use evsieve.Capability.Codes.{CodeSet, CodeMap, has}
use evsieve.Capability.Device.{Capabilities, RepeatInfo}
use evsieve.Persist.Bytes.{
  u16_bytes, u32_bytes, read_u16-u16_bytes, read_u32-u32_bytes, read_i32-i32_bytes,
  expect_u16-u16_bytes, IsU16,
}
use evsieve.Persist.Encode.{
  magic_number, final_block_number, ev_abs_block_number, ev_rep_block_number,
  sorted_event_codes_for_type, contains, encode_event_blocks, encode_special_abs_block,
  encode_special_rep_block, encode_body, encode, file, too_many_types, u16_of, InternalError,
  unwrap_or_default, encode_axes,
}
use evsieve.Persist.Decode.{
  maybe_axes, maybe_rep, find_codes, collect_codes, decode_special_abs_block,
  decode_special_rep_block, decode_body, decode,
}
use evsieve.Persist.RoundTrip.Axes.{
  AreStorable, restored_axes, decode_axes-encode_axes, or_restored, get-restored_axes,
}
use evsieve.Persist.RoundTrip.Sorting.{
  types_of, types_of-AreDistinct, contains-types_of, All-types_of, has-sorted,
}
use evsieve.Persist.RoundTrip.Blocks.{
  IsStorableCode, extended, IsFresh, decode_event_blocks-encode, find-extended, u16_of_lem,
}
use evsieve.Persist.RoundTrip.Collected.{has-collected, has_no_code}

abbrev pub IsStorableRepeat : RepeatInfo → Type 0
IsStorableRepeat r = IsI32 r.delay × IsI32 r.period

-- What the type of `Capabilities` and the kernel say of a device: each code is one that the reader
-- accepts, and the numbers of the axes and of the repeating are of type `i32`.
pub record IsStorable (event_type_get_max : EventType → Option ℕ) (caps : Capabilities)
    : Type 0 where
  pub codes : All (IsStorableCode event_type_get_max) caps.codes
  pub axes : AreStorable caps.abs_info
  pub repeat : IsStorableRepeat (unwrap_or_default caps.rep_info)

abbrev pub file_length : List ℕ → ℕ
file_length body = length magic_number + 4 + length body

abbrev pub file_of : List ℕ → List ℕ
file_of body = magic_number ++ u32_bytes (file_length body) ++ body

-- The length and the body behind the magic number.
sized :
    (body bytes : List ℕ)
    → file body ≡ ok bytes
    → (file_length body < 4294967296) × (file_of body ≡ bytes)
unfolding file
sized body bytes h = elim (Bool-cases (ltb (file_length body) 4294967296)) [
  | inr large ↦ let f = rw large at h in cc
  | inl small ↦ elim (Bool-cases (length (file_of body) == file_length body)) [
    | inr differs ↦ let f = rw (small, differs) at h in cc
    | inl same ↦ let f = rw (small, same) at h in (ground (arith, small), cc)
  ]
]

pub length-u32_bytes : (n : ℕ) (rest : List ℕ) → length (u32_bytes n ++ rest) ≡ 4 + length rest
unfolding u32_bytes
length-u32_bytes n rest = omega arith

-- The header of a file that is written, and its body.
pub file_parts :
    (caps : Capabilities) (bytes : List ℕ)
    → encode caps ≡ ok bytes
    → (body : List ℕ) × (encode_body caps ≡ ok body)
      × (file_length body < 4294967296)
      × (file_of body ≡ bytes)
unfolding encode
file_parts caps bytes h =
    let (body, e, h1) = >>=-ok (encode_body caps) file bytes h in
    let (small, whole) = sized body bytes h1 in (body, e, small, whole)

module _ (event_type_get_max : EventType → Option ℕ) (caps : Capabilities)
    (s : IsStorable event_type_get_max caps) where
  abbrev types : List EventType
  types = types_of caps.codes

  abbrev found : List (EventType × CodeSet)
  found = extended event_type_get_max caps s.codes [] types

  abbrev axes_back : CodeMap AbsInfo
  axes_back =
      if contains types ev_abs
      then restored_axes caps.abs_info (sorted_event_codes_for_type caps ev_abs) []
      else []

  abbrev rep_back : Option RepeatInfo
  rep_back = if contains types ev_rep then some (unwrap_or_default caps.rep_info) else none

  types-IsFresh : (ts : List EventType) → IsFresh event_type_get_max caps s.codes [] ts
  unfolding IsFresh find_codes
  types-IsFresh [] = tt
  types-IsFresh (t ∷ ts) = (refl, types-IsFresh ts)

  maybe_axes-block :
      (bytes rest : List ℕ)
      → (if contains types ev_abs then encode_special_abs_block caps else ok []) ≡ ok bytes
      → maybe_axes event_type_get_max (find_codes found ev_abs) (bytes ++ rest)
        ≡ ok (axes_back, rest)
  unfolding encode_special_abs_block decode_special_abs_block find_codes
  maybe_axes-block bytes rest h = elim (Bool-cases (contains types ev_abs)) [
    | inr off ↦
        let e : [] ≡ bytes = let f = rw off at h in cc in
        rw (find-extended event_type_get_max caps s.codes [] types ev_abs, off, sym e) refl
    | inl on ↦
        let h' : encode_special_abs_block caps ≡ ok bytes = rw on at h in
        let (axes, e, e') =
          >>=-ok (encode_axes caps.abs_info (sorted_event_codes_for_type caps ev_abs))
            (λ x. ok (u16_bytes ev_abs_block_number ++ x)) bytes h' in
        let whole : u16_bytes ev_abs_block_number ++ axes ≡ bytes = cc in
        rw
          (
            find-extended event_type_get_max caps s.codes [] types ev_abs,
            on,
            sym whole,
            append_assoc,
            expect_u16-u16_bytes ev_abs_block_number (axes ++ rest) (omega arith),
          )
          (decode_axes-encode_axes caps.abs_info _ [] axes rest s.axes e)
  ]

  maybe_rep-block :
      (rest : List ℕ)
      → maybe_rep event_type_get_max
          (find_codes found ev_rep)
          ((if contains types ev_rep then encode_special_rep_block caps else []) ++ rest)
        ≡ ok (rep_back, rest)
  unfolding encode_special_rep_block decode_special_rep_block find_codes
  maybe_rep-block rest = elim (Bool-cases (contains types ev_rep)) [
    | inr off ↦ rw (find-extended event_type_get_max caps s.codes [] types ev_rep, off) refl
    | inl on ↦
        rw (find-extended event_type_get_max caps s.codes [] types ev_rep, on)
          (simp (
            append_assoc,
            expect_u16-u16_bytes ev_rep_block_number _ (omega arith),
            read_i32-i32_bytes (unwrap_or_default caps.rep_info).delay _ (s.repeat.0),
            read_i32-i32_bytes (unwrap_or_default caps.rep_info).period rest (s.repeat.1),
          ))
  ]

  abbrev axes_block : Result InternalError (List ℕ)
  axes_block = if contains types ev_abs then encode_special_abs_block caps else ok []

  abbrev rep_block : List ℕ
  rep_block = if contains types ev_rep then encode_special_rep_block caps else []

  abbrev body_of : List ℕ → List ℕ → List ℕ → List ℕ
  body_of num_types blocks abs_block =
      num_types ++ blocks ++ abs_block ++ rep_block ++ u16_bytes final_block_number

  -- The parts of the body.
  body_parts :
      (body : List ℕ)
      → encode_body caps ≡ ok body
      → (blocks : List ℕ) × (abs_block : List ℕ) × IsU16 (length types)
        × (encode_event_blocks caps types ≡ ok blocks)
        × (axes_block ≡ ok abs_block)
        × (body_of (u16_bytes (length types)) blocks abs_block ≡ body)
  unfolding encode_body
  body_parts body h =
      let (num, e, h1) =
        >>=-ok (u16_of too_many_types (length types))
          (λ num. encode_event_blocks caps types >>= λ blocks.
            axes_block >>= λ abs_block. ok (body_of num blocks abs_block))
          body h in
      let (blocks, f, h2) =
        >>=-ok (encode_event_blocks caps types)
          (λ blocks. axes_block >>= λ abs_block. ok (body_of num blocks abs_block)) body h1 in
      let (abs_block, g, h3) =
        >>=-ok axes_block (λ abs_block. ok (body_of num blocks abs_block)) body h2 in
      let (small, written) = u16_of_lem too_many_types (length types) num e in
      (blocks, abs_block, small, f, g, ap (λ l. body_of l blocks abs_block) written ∙ cc)

  decode_body-body_of :
      (blocks abs_block rest : List ℕ)
      → IsU16 (length types)
      → encode_event_blocks caps types ≡ ok blocks
      → axes_block ≡ ok abs_block
      → decode_body event_type_get_max (body_of (u16_bytes (length types)) blocks abs_block ++ rest)
        ≡ ok (record { codes = collect_codes found; abs_info = axes_back; rep_info = rep_back })
  unfolding decode_body
  decode_body-body_of blocks abs_block rest small e f = simp (
    append_assoc,
    read_u16-u16_bytes (length types) _ small,
    decode_event_blocks-encode event_type_get_max caps s.codes [] types blocks _
        (types_of-AreDistinct caps.codes) (types-IsFresh types)
        (All-types_of _ caps.codes (All-map _ (λ c h. h.0) s.codes)) e,
    maybe_axes-block abs_block _ f,
    maybe_rep-block _,
    expect_u16-u16_bytes final_block_number rest (omega arith),
  )

  abbrev back : Capabilities
  back = record { codes = collect_codes found; abs_info = axes_back; rep_info = rep_back }

  body_back :
      (body : List ℕ) → encode_body caps ≡ ok body → decode_body event_type_get_max body ≡ ok back
  body_back body h =
      let (blocks, abs_block, small, e, f, whole) = body_parts body h in
      rw (sym (append-nil body), sym whole) (decode_body-body_of blocks abs_block [] small e f)

  get-axes_back :
      (c : EventCode)
      → Codes.get axes_back c ≡ (
          if has caps.codes c && is_abs c.ev_type
          then or_restored none (Codes.get caps.abs_info c)
          else none)
  unfolding Codes.get
  get-axes_back c = elim (Bool-cases (contains types ev_abs)) [
    | inl on ↦
        rw
          (
            on,
            get-restored_axes caps.abs_info (sorted_event_codes_for_type caps ev_abs) [] c,
            has-sorted caps ev_abs c,
          )
          refl
    | inr off ↦
        let none_there : (has caps.codes c && is_abs c.ev_type) ≡ false =
          has_no_code caps.codes c ev_abs (sym (contains-types_of caps.codes ev_abs) ∙ off) in
        rw (off, none_there) refl
  ]

  decode-file_of :
      (body : List ℕ)
      → encode_body caps ≡ ok body
      → file_length body < 4294967296
      → decode event_type_get_max (file_of body) ≡ some (ok back)
  unfolding decode
  decode-file_of body e small =
      let counted = length-u32_bytes (file_length body) body in
      let long : ltb (length (file_of body)) 8 ≡ false = ground arith in
      let same : (file_length body == length (file_of body)) ≡ true = ground (arith, counted) in
      rw (long, read_u32-u32_bytes (file_length body) body small, same, body_back body e) refl

  -- The repeating is stored if a code is of its type, and is then the kernel's default if the device has
  -- none.
  abbrev pub repeat_back : Option RepeatInfo
  repeat_back =
      if any (λ c. c.ev_type == ev_rep) caps.codes
      then some (unwrap_or_default caps.rep_info)
      else none

  -- What `encode` writes for a storable device, `decode` reads back as a device with the same codes, each
  -- absolute code with its axis but for the current value, and the repeating that was stored.
  pub decode-encode :
      (bytes : List ℕ)
      → encode caps ≡ ok bytes
      → (caps' : Capabilities) × (decode event_type_get_max bytes ≡ some (ok caps'))
        × ((c : EventCode) → has caps'.codes c ≡ has caps.codes c)
        × ((c : EventCode)
            → Codes.get caps'.abs_info c ≡ (
                if has caps.codes c && is_abs c.ev_type
                then or_restored none (Codes.get caps.abs_info c)
                else none))
        × (caps'.rep_info ≡ repeat_back)
  decode-encode bytes h =
      let (body, e, small, whole) = file_parts caps bytes h in
      (
        back,
        rw (sym whole) (decode-file_of body e small),
        has-collected event_type_get_max caps s.codes,
        get-axes_back,
        ap (λ b. if b then some (unwrap_or_default caps.rep_info) else none)
            (contains-types_of caps.codes ev_rep),
      )
