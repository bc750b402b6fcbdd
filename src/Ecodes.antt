-- ===== src/Ecodes.antt =====
-- src/ecodes.rs: event types and codes by name or by number. `Names` has the tables that the source
-- reads from libevdev when it starts, EVENT_TYPES and EVENT_CODES, and the largest codes. A hash map is an
-- association list; warnings are not seen.
use evsieve.Base.{
  ℕ, ◌==◌, leb, ◌&&◌, Option, none, some, List, [], ◌∷◌, any, if◌then◌else◌, Text, text_eq,
  strip_prefix, parse_u16, Result, ok, err, ◌>>=◌,
}
use evsieve.Event.{EventType, EventCode}

pub record Names : Type 0 where
  pub event_types : List (Text × EventType)
  pub event_codes : List ((Text × Text) × EventCode)
  pub event_type_get_max : EventType → Option ℕ

-- The messages, as values.
pub data NameError : Type 0 where
  unknown_type : NameError
  no_number : NameError
  no_such_type : NameError
  type_too_large : NameError
  unknown_code : NameError
  no_codes : NameError
  code_too_large : NameError

abbrev pub ev_max : ℕ
ev_max = 31

abbrev pub find_type : List (Text × EventType) → Text → Option EventType
find_type [] name = none
find_type ((other, ev_type) ∷ rest) name =
    if text_eq other name then some ev_type else find_type rest name

abbrev pub find_code : List ((Text × Text) × EventCode) → Text → Text → Option EventCode
find_code [] type_name code_name = none
find_code (((type_name', code_name'), code) ∷ rest) type_name code_name =
    if text_eq type_name' type_name && text_eq code_name' code_name
    then some code
    else find_code rest type_name code_name

abbrev ok_or {ℓ} : {A : Type ℓ} → NameError → Option A → Result NameError A
ok_or e none = err e
ok_or e (some a) = ok a

-- A type by its number.
abbrev type_of_number : Names → ℕ → Result NameError EventType
type_of_number names type_u16 =
    if leb type_u16 ev_max
    then if any (λ t. t.1 == type_u16) names.event_types then ok type_u16 else err no_such_type
    else err type_too_large

unfoldable pub event_type : Names → Text → Result NameError EventType
event_type names name = elim (find_type names.event_types name) [
  | some ev_type ↦ ok ev_type
  | none ↦ do
    name_numstr ← ok_or unknown_type (strip_prefix b'%' name)
    type_u16 ← ok_or no_number (parse_u16 name_numstr)
    type_of_number names type_u16
]

unfoldable pub event_code : Names → Text → Text → Result NameError EventCode
unfolding event_type
event_code names type_name code_name = elim (find_code names.event_codes type_name code_name) [
  | some code ↦ ok code
  | none ↦ do
    code_name_numstr ← ok_or unknown_code (strip_prefix b'%' code_name)
    ev_type ← event_type names type_name
    ev_type_max ← ok_or no_codes (names.event_type_get_max ev_type)
    code_u16 ← ok_or no_number (parse_u16 code_name_numstr)
    if leb code_u16 ev_type_max
        then ok (record { ev_type = ev_type; code = code_u16 })
        else err code_too_large
]
