-- ===== src/Examples/Files.antt =====
-- Instances of the laws on the files of cached capabilities.
use evsieve.Base.{
  ◌≡◌, refl, ℕ, ◌&&◌, true, false, Option, none, some, List, [], ◌∷◌, ◌++◌, err, ◌+ℤ◌, ◌⊎◌, subst,
  Bool, pos, negsuc, arith, ok, if◌then◌else◌,
}
use evsieve.Event.{EventType, EventCode, ev_abs, is_abs, code_eq}
use evsieve.Capability.{AbsInfo}
use evsieve.Capability.Codes
use evsieve.Capability.Codes.{has}
use evsieve.Capability.Device.{Capabilities, is_compatible_with, ev_types}
use evsieve.Capability.Device.Axes.{IsDevice}
use evsieve.Persist.Bytes.{
  invalid_format, u16_bytes, i32_bytes, read_u32, read_u16, expect_u16, read_i32,
}
use evsieve.Persist.Encode.{encode, InternalError}
use evsieve.Persist.Decode.{decode}
use evsieve.Persist.RoundTrip.Axes.{or_restored}
use evsieve.Persist.RoundTrip.{IsStorableAxis}
use evsieve.Persist.RoundTrip.Whole.{IsStorable, decode-encode}
use evsieve.Persist.RoundTrip.Compatible.{is_compatible_with-decode}
use evsieve.Persist.Errors.{IsSizeError, encode_outcome}
use evsieve.Persist.Truncated.{decode-truncated}
use evsieve.Examples.{key_a}

abbrev wheel : EventCode
wheel = record { ev_type = ev_abs; code = 8 }

abbrev wheel_info : AbsInfo
wheel_info = record {
  min_value = negsuc 0;
  max_value = pos 255;
  meta = record { fuzz = pos 0; flat = pos 1; resolution = pos 0; value = pos 7 };
}

abbrev pub device : Capabilities
device = record { codes = key_a ∷ wheel ∷ []; abs_info = (wheel, wheel_info) ∷ []; rep_info = none }

-- No type has a largest code, so that all of `u16` are allowed.
abbrev no_max : EventType → Option ℕ
no_max t = none

wheel_axis :
    (b : Bool) (info : AbsInfo)
    → (if b then some wheel_info else none) ≡ some info
    → IsStorableAxis info
wheel_axis true info h = let e : wheel_info ≡ info = cc in subst IsStorableAxis e (ground arith)
wheel_axis false info h = cc

device-IsStorable : IsStorable no_max device
unfolding Codes.get
device-IsStorable = record {
  codes = ((omega arith, omega arith, omega arith), ((omega arith, omega arith, omega arith), tt));
  axes = λ c. wheel_axis (code_eq wheel c);
  repeat = ground arith;
}

-- The file of the device without its last bytes, and those.
abbrev start_of_file : List ℕ
start_of_file = 69 ∷ 86 ∷ 83 ∷ 86 ∷ 65 ∷ 231 ∷ 117 ∷ 0 ∷ 50 ∷ 0 ∷ 0 ∷ 0 ∷ 2 ∷ 0 ∷ []

abbrev end_of_file : List ℕ
end_of_file =
    0 ∷ 1 ∷ 0 ∷ 30 ∷ 0 ∷ 3 ∷ 0 ∷ 1 ∷ 0 ∷ 8 ∷ 0 ∷ 1 ∷ 0 ∷ 255 ∷ 255 ∷ 255 ∷ 255 ∷ 255 ∷ 0 ∷ 0 ∷ 0 ∷ 1
    ∷ 0 ∷ 0 ∷ 0 ∷ 0 ∷ 0 ∷ 0 ∷ 0 ∷ 0 ∷ 0 ∷ 0 ∷ 0 ∷ 255 ∷ 255 ∷ []

abbrev file : List ℕ
file = start_of_file ++ 1 ∷ end_of_file

device_file : encode device ≡ ok file
unfolding encode ev_types Codes.get u16_bytes i32_bytes
device_file = refl

decode-encode_example :
    (caps' : Capabilities) × (decode no_max file ≡ some (ok caps'))
    × ((c : EventCode) → has caps'.codes c ≡ has device.codes c)
    × ((c : EventCode)
        → Codes.get caps'.abs_info c ≡ (
            if has device.codes c && is_abs c.ev_type
            then or_restored none (Codes.get device.abs_info c)
            else none))
    × (caps'.rep_info ≡ none)
decode-encode_example = decode-encode no_max device device-IsStorable file device_file

decode-truncated_example : decode no_max start_of_file ≡ some (err invalid_format)
decode-truncated_example = decode-truncated no_max device start_of_file end_of_file 1 device_file

abbrev back : Capabilities
back = record {
  codes = wheel ∷ key_a ∷ [];
  abs_info =
      (
        wheel,
        record wheel_info {
          meta = record { fuzz = pos 0; flat = pos 1; resolution = pos 0; value = pos 127 };
        },
      )
      ∷ [];
  rep_info = none;
}

is_compatible_with-decode_example : is_compatible_with device back ≡ true
unfolding decode Codes.get read_u32 read_u16 expect_u16 read_i32 Codes.insert_code Codes.insert ◌+ℤ◌
is_compatible_with-decode_example =
    is_compatible_with-decode no_max device back file device-IsStorable ((refl, refl), tt)
      device_file refl

device-IsDevice : IsDevice device
unfolding IsDevice Codes.get
device-IsDevice code there abs =
    let e : code_eq wheel code ≡ true = ground (arith, there, abs) in
    (wheel_info, rw e refl, ground arith)

encode_outcome_example :
    ((bytes : List ℕ) × (encode device ≡ ok bytes))
    ⊎ ((e : InternalError) × (encode device ≡ err e) × IsSizeError e)
encode_outcome_example = encode_outcome device device-IsDevice
