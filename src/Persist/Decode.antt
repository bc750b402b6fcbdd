-- ===== src/Persist/Decode.antt =====
-- The half of src/persist/format.rs that reads. A panic is `none`.
use evsieve.Base.{
  ℕ, zero, suc, ◌/◌, ltb, ◌==◌, Bool, true, false, not, Option, none, some, List, [], ◌∷◌, length,
  drop, text_eq, ℤ, pos, negsuc, ltb_ℤ, ◌+ℤ◌, ◌-ℤ◌, if◌then◌else◌, Result, ok, err, ◌>>=◌,
}
use evsieve.Event.{EventType, ev_abs, ev_rep}
use evsieve.Capability.{AbsInfo}
use evsieve.Capability.Codes.{CodeSet, CodeMap, insert, insert_code}
use evsieve.Capability.Device.{Capabilities, RepeatInfo}
use evsieve.Persist.Bytes.{
  InvalidFormatError, invalid_format, Read, read_u16, read_u32, read_i32, expect_u16,
}
use evsieve.Persist.Encode.{
  magic_number, ev_abs_block_number, ev_rep_block_number, final_block_number,
}

abbrev pub take : ℕ → List ℕ → List ℕ
take zero source = []
take (suc n) [] = []
take (suc n) (b ∷ source) = b ∷ take n source

abbrev is_some : Option CodeSet → Bool
is_some none = false
is_some (some _) = true

-- `HashMap<EventType, Vec<EventCode>>`.
abbrev pub TypeCodes : Type 0
TypeCodes = List (EventType × CodeSet)

unfoldable pub find_codes : TypeCodes → EventType → Option CodeSet
find_codes [] t = none
find_codes ((u, codes) ∷ m) t = if u == t then some codes else find_codes m t

abbrev pub ev_max : ℕ
ev_max = 31

-- `i32 / 2`, to zero.
abbrev half : ℤ → ℤ
half (pos n) = pos (n / 2)
half (negsuc n) = pos 0 -ℤ pos (suc n / 2)

unfoldable pub insert_codes : CodeSet → CodeSet → CodeSet
insert_codes [] set = set
insert_codes (c ∷ codes) set = insert_code (insert_codes codes set) c

-- The `flat_map` into a set.
unfoldable pub collect_codes : TypeCodes → CodeSet
unfolding insert_codes
collect_codes [] = []
collect_codes ((t, codes) ∷ m) = insert_codes codes (collect_codes m)

abbrev pub axis_of : ℤ → ℤ → ℤ → ℤ → ℤ → AbsInfo
axis_of min_value max_value flat fuzz resolution = record {
  min_value = min_value;
  max_value = max_value;
  meta = record {
    fuzz = fuzz;
    flat = flat;
    resolution = resolution;
    value = half (min_value +ℤ max_value);
  };
}

-- One round of the loop in `decode_special_abs_block`.
unfoldable pub decode_axis : List ℕ → Read AbsInfo
decode_axis source = do
  (min_value, source) ← read_i32 source
  (max_value, source) ← read_i32 source
  (flat, source) ← read_i32 source
  (fuzz, source) ← read_i32 source
  (resolution, source) ← read_i32 source
  if ltb_ℤ max_value min_value
      then err invalid_format
      else ok (axis_of min_value max_value flat fuzz resolution, source)

unfoldable pub decode_axes : List ℕ → CodeSet → CodeMap AbsInfo → Read (CodeMap AbsInfo)
unfolding decode_axis
decode_axes source [] abs_info = ok (abs_info, source)
decode_axes source (abs_code ∷ abs_codes) abs_info = do
  (info, source) ← decode_axis source
  decode_axes source abs_codes (insert abs_info abs_code info)

unfoldable pub decode_special_abs_block : List ℕ → CodeSet → Read (CodeMap AbsInfo)
unfolding decode_axes
decode_special_abs_block source abs_codes = do
  source ← expect_u16 source ev_abs_block_number
  decode_axes source abs_codes []

unfoldable pub decode_special_rep_block : List ℕ → Read RepeatInfo
decode_special_rep_block source = do
  source ← expect_u16 source ev_rep_block_number
  (delay, source) ← read_i32 source
  (period, source) ← read_i32 source
  ok (record { delay = delay; period = period }, source)

-- The loop over the codes of a block.
unfoldable pub decode_codes : ℕ → EventType → ℕ → List ℕ → Read CodeSet
decode_codes zero ev_type max_code source = ok ([], source)
decode_codes (suc n) ev_type max_code source = do
  (event_code_u16, source) ← read_u16 source
  (event_codes, source) ←
      if ltb max_code event_code_u16
      then err invalid_format
      else decode_codes n ev_type max_code source
  ok (record { ev_type = ev_type; code = event_code_u16 } ∷ event_codes, source)

-- The parameter stands for `libevdev_event_type_get_max`, as `ecodes::event_type_get_max` reads it.
module _ (event_type_get_max : EventType → Option ℕ) where
  abbrev pub max_code_of : EventType → ℕ
  max_code_of ev_type = elim (event_type_get_max ev_type) [ none ↦ 65535 | some max ↦ max ]

  unfoldable pub decode_event_block : List ℕ → Read (EventType × CodeSet)
  unfolding decode_codes
  decode_event_block source = do
    (ev_type_u16, source) ← read_u16 source
    (num_event_codes, source) ←
        if ltb ev_max ev_type_u16 then err invalid_format else read_u16 source
    (event_codes, source) ←
        decode_codes num_event_codes ev_type_u16 (max_code_of ev_type_u16) source
    ok ((ev_type_u16, event_codes), source)

  -- The loop over the blocks, with the map so far.
  unfoldable pub decode_event_blocks : ℕ → List ℕ → TypeCodes → Read TypeCodes
  unfolding decode_event_block find_codes
  decode_event_blocks zero source type_codes_map = ok (type_codes_map, source)
  decode_event_blocks (suc n) source type_codes_map = do
    ((ev_type, codes), source) ← decode_event_block source
    if is_some (find_codes type_codes_map ev_type)
        then err invalid_format
        else decode_event_blocks n source ((ev_type, codes) ∷ type_codes_map)

  -- The special blocks, if their types are there.
  abbrev pub maybe_axes : Option CodeSet → List ℕ → Read (CodeMap AbsInfo)
  maybe_axes none source = ok ([], source)
  maybe_axes (some abs_codes) source = decode_special_abs_block source abs_codes

  abbrev pub maybe_rep : Option CodeSet → List ℕ → Read (Option RepeatInfo)
  maybe_rep none source = ok (none, source)
  maybe_rep (some rep_codes) source =
      decode_special_rep_block source >>= λ (rep_info, source). ok (some rep_info, source)

  unfoldable pub decode_body : List ℕ → Result InvalidFormatError Capabilities
  unfolding decode_event_blocks decode_special_abs_block decode_special_rep_block collect_codes
  decode_body source = do
    (num_types, source) ← read_u16 source
    (type_codes_map, source) ← decode_event_blocks num_types source []
    (abs_info, source) ← maybe_axes (find_codes type_codes_map ev_abs) source
    (rep_info, source) ← maybe_rep (find_codes type_codes_map ev_rep) source
    _ ← expect_u16 source final_block_number
    ok (record { codes = collect_codes type_codes_map; abs_info = abs_info; rep_info = rep_info })

  -- The slice of the first eight bytes panics if there are fewer.
  unfoldable pub decode : List ℕ → Option (Result InvalidFormatError Capabilities)
  unfolding decode_body
  decode source =
      if ltb (length source) 8
      then none
      else if not (text_eq (take 8 source) magic_number)
      then some (err invalid_format)
      else some (do
        (declared_length, rest) ← read_u32 (drop 8 source)
        if declared_length == length source then decode_body rest else err invalid_format)
