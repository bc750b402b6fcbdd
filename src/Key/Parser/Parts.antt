-- ===== src/Key/Parser/Parts.antt =====
-- Splitting the text of a key, and the values in it.
use evsieve.Base.{
  ◌&&◌, not, Option, none, some, List, [], ◌∷◌, if◌then◌else◌, Text, split_once, split,
  contains_char, ends_with, parse_i32, ℤ, ltb_ℤ, Result, ok, err, ◌>>=◌,
}
use evsieve.Range.Interval
use evsieve.Range.Interval.{Interval}
use evsieve.Key.Parser.Options.{
  ArgumentError, ends_on_colon, too_many_colons, ranges_not_allowed, no_integer, reversed_range,
  KeyParser,
}

pub record KeyParts : Type 0 where
  pub ev_type : Option Text
  pub code : Option Text
  pub value : Option Text
  pub domain : Option Text

-- The next part, if it is not empty, and the parts after it.
abbrev pub next_part : List Text → Option Text × List Text
next_part [] = (none, [])
next_part ([] ∷ parts) = (none, parts)
next_part ((c ∷ cs) ∷ parts) = (some (c ∷ cs), parts)

abbrev pub parts_of : Text → Option Text → List Text → Result ArgumentError KeyParts
parts_of key_str domain parts =
    let (ev_type, parts_1) = next_part parts in
    let (code, parts_2) = next_part parts_1 in
    let (value, parts_3) = next_part parts_2 in
    if ends_with b':' key_str then err ends_on_colon else elim parts_3 [
      | [] ↦ ok (record { ev_type = ev_type; code = code; value = value; domain = domain })
      | _ ∷ _ ↦ err too_many_colons
    ]

unfoldable pub key_str_to_parts : Text → Result ArgumentError KeyParts
key_str_to_parts s =
    let (key_str, domain) = split_once b'@' s in parts_of key_str domain (split b':' key_str)

-- `""` is a wildcard.
abbrev pub parse_int_or_wildcard : Text → Result ArgumentError (Option ℤ)
parse_int_or_wildcard [] = ok none
parse_int_or_wildcard (c ∷ cs) = elim (parse_i32 (c ∷ cs)) [
  | none ↦ err no_integer
  | some v ↦ ok (some v)
]

abbrev pub range_of : Option ℤ → Option ℤ → Result ArgumentError Interval
range_of (some min) (some max) =
    if ltb_ℤ max min then err reversed_range else ok (Interval.new (some min) (some max))
range_of min max = ok (Interval.new min max)

abbrev pub unwrap_or : Option Text → Text → Text
unwrap_or none s = s
unwrap_or (some s) _ = s

unfoldable pub interpret_event_value : Text → KeyParser → Result ArgumentError Interval
interpret_event_value value_str parser =
    if not parser.allow_ranges && contains_char b'~' value_str
    then err ranges_not_allowed
    else let (min_value_str, max_value_str_opt) = split_once b'~' value_str in
      parse_int_or_wildcard min_value_str >>= λ min.
      parse_int_or_wildcard (unwrap_or max_value_str_opt min_value_str) >>= λ max. range_of min max
