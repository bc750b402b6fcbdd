-- ===== src/Key/Parser.antt =====
-- `KeyParser` of src/key.rs: keys like `key:a:0..1@keyboard`. The parameters are the tables of names and
-- `parse::<f64>`; the tracker of domains is the state that is passed on. Warnings are not seen.
mod Options
mod Parts
mod Ranges
pub mod Allowed
pub mod Permitted
pub mod Both
unfoldable pub use Options.*
unfoldable pub use Parts.*
use evsieve.Base.{
  ℕ, ◌==◌, leb, Bool, true, false, ◌&&◌, ◌||◌, not, Option, none, some, List, [], ◌∷◌, ◌++◌, any,
  if◌then◌else◌, Text, text_eq, split_once, split_dots, split, contains_char, ends_with, parse_i32,
  ℤ, ltb_ℤ, Result, ok, err, ◌>>=◌,
}
use evsieve.Platform.{Platform}
use evsieve.Range.Interval
use evsieve.Range.Interval.{Interval}
use evsieve.Event.{EventType, Namespace, user, VirtualEventType, is_syn}
use evsieve.Domain
use evsieve.Domain.{DomainTracker, DomainError, DomainResult}
use evsieve.Ecodes
use evsieve.Ecodes.{Names, NameError}
use evsieve.Affine
use evsieve.Affine.{AffineFactor}
use evsieve.Affine.Parser.{parse_affine_factor}
use evsieve.Key.{
  Key, KeyProperty, of_code, of_domain, of_namespace, of_value, of_previous_value, of_type,
  of_virtual_type, affine_factor, add_property,
}
use evsieve.Key

abbrev from_names {ℓ} : {A : Type ℓ} → Result NameError A → Result ArgumentError A
from_names (ok a) = ok a
from_names (err e) = err (bad_name e)

abbrev pub is_listed : Option (List EventType) → EventType → Bool
is_listed none t = true
is_listed (some whitelist) t = any (λ u. u == t) whitelist

abbrev key_name : Text
key_name = b'k' ∷ b'e' ∷ b'y' ∷ []

abbrev btn_name : Text
btn_name = b'b' ∷ b't' ∷ b'n' ∷ []

module _ ⦃p : Platform⦄ (names : Names) (parse_f64 : Text → Option p.F64) where
  pub data AffineParseResult : Type 0 where
    is_affine : KeyProperty p → AffineParseResult
    is_constant : KeyProperty p → AffineParseResult
    unparsable : AffineParseResult

  abbrev constant_or_affine : AffineFactor p → Option p.F64 → AffineParseResult
  constant_or_affine factor none = is_affine (affine_factor factor)
  constant_or_affine factor (some value) =
      if not (p.eq (p.trunc value) value)
      then unparsable
      else let value_as_i32 = p.to_i32 (p.trunc value) in
        is_constant (of_value (Interval.new (some value_as_i32) (some value_as_i32)))

  unfoldable pub interpret_relative_value : Text → AffineParseResult
  interpret_relative_value value_str = elim (parse_affine_factor parse_f64 value_str) [
    | none ↦ unparsable
    | some factor ↦ constant_or_affine factor (Affine.as_constant factor)
  ]

  -- A key with a type only.
  abbrev type_property : Text → EventType → KeyProperty p
  type_property name event_type =
      if text_eq name key_name
      then of_virtual_type VirtualEventType.key
      else if text_eq name btn_name
      then of_virtual_type VirtualEventType.button
      else of_type event_type

  abbrev code_property :
      KeyParser → Text → EventType → Option Text → Result ArgumentError (KeyProperty p)
  code_property parser name event_type none =
      if parser.allow_types then ok (type_property name event_type) else err no_code
  code_property parser name event_type (some code_name) =
      from_names (Ecodes.event_code names name code_name) >>= λ c. ok (of_code c)

  abbrev with_type :
      KeyParser → Text → Option Text → EventType → Result ArgumentError (KeyProperty p)
  with_type parser name code event_type =
      if is_syn event_type
      then err syn_type
      else if not (is_listed parser.type_whitelist event_type)
      then err type_not_allowed
      else code_property parser name event_type code

  abbrev typed : KeyParser → Text → Option Text → Result ArgumentError (KeyProperty p)
  typed parser name code = from_names (Ecodes.event_type names name) >>= with_type parser name code

  -- The namespace, and the type or the code.
  unfoldable pub interpret_type : KeyParts → KeyParser → Result ArgumentError (Key p)
  interpret_type parts parser =
      let key = add_property Key.new (of_namespace parser.namespace) in
      elim parts.ev_type [
        | none ↦ elim parts.code [ none ↦ ok key | some _ ↦ err code_without_type ]
        | some name ↦ typed parser name parts.code >>= λ q. ok (add_property key q)
      ]

  -- The value before, in front of two dots.
  abbrev with_previous : Key p → Text → KeyParser → Interval → Result ArgumentError (Key p)
  with_previous key val_1 parser current =
      if not parser.allow_transitions
      then err transitions_not_allowed
      else interpret_event_value val_1 parser >>= λ previous.
          ok (add_property (add_property key (of_value current)) (of_previous_value previous))

  abbrev absolute_of : Key p → KeyParser → Text → Option Text → Result ArgumentError (Key p)
  absolute_of key parser val_1 none =
      interpret_event_value val_1 parser >>= λ current. ok (add_property key (of_value current))
  absolute_of key parser val_1 (some val) =
      interpret_event_value val parser >>= with_previous key val_1 parser

  unfoldable pub interpret_absolute_value : Key p → Text → KeyParser → Result ArgumentError (Key p)
  interpret_absolute_value key event_value_str parser =
      let (val_1, val_2) = split_dots event_value_str in absolute_of key parser val_1 val_2

  abbrev relative_or_absolute :
      Key p → Text → KeyParser → AffineParseResult → Result ArgumentError (Key p)
  relative_or_absolute key s parser (is_affine q) =
      if parser.allow_relative_values
      then ok (add_property key q)
      else err relative_values_not_allowed
  relative_or_absolute key s parser (is_constant q) =
      if parser.allow_relative_values
      then ok (add_property key q)
      else interpret_absolute_value key s parser
  relative_or_absolute key s parser unparsable = interpret_absolute_value key s parser

  abbrev interpret_text : Key p → Text → KeyParser → Result ArgumentError (Key p)
  interpret_text key s parser = relative_or_absolute key s parser (interpret_relative_value s)

  abbrev interpret_default : Key p → KeyParser → Text → Result ArgumentError (Key p)
  interpret_default key parser [] = ok key
  interpret_default key parser (c ∷ cs) = interpret_text key (c ∷ cs) parser

  -- The value that is written, or else the default.
  unfoldable pub interpret_value : Key p → Option Text → KeyParser → Result ArgumentError (Key p)
  interpret_value key (some value) parser =
      if parser.allow_values then interpret_text key value parser else err values_not_allowed
  interpret_value key none parser = interpret_default key parser parser.default_value

  unfoldable pub interpret_key : KeyParts → KeyParser → Result ArgumentError (Key p)
  unfolding interpret_type interpret_value
  interpret_key parts parser =
      interpret_type parts parser >>= λ key. interpret_value key parts.value parser

  abbrev with_resolved :
      Key p → DomainResult × DomainTracker → Result ArgumentError (Key p × DomainTracker)
  with_resolved key (DomainResult.ok domain, tracker) =
      ok (add_property key (of_domain domain), tracker)
  with_resolved key (DomainResult.err e, tracker) = err (bad_domain e)

  abbrev with_domain :
      Key p → Option Text → KeyParser → DomainTracker → Result ArgumentError (Key p × DomainTracker)
  with_domain key none parser tracker = ok (key, tracker)
  with_domain key (some domain_str) parser tracker =
      if not parser.allow_domains
      then err domains_not_allowed
      else with_resolved key (Domain.resolve tracker domain_str)

  -- `KeyParser::parse`, which is `interpret_key_with_domain`.
  unfoldable pub parse :
      KeyParser → Text → DomainTracker → Result ArgumentError (Key p × DomainTracker)
  unfolding key_str_to_parts interpret_key
  parse parser key_str tracker = do
    parts ← key_str_to_parts key_str
    key ← interpret_key parts parser
    with_domain key parts.domain parser tracker

  unfoldable pub parse_all :
      KeyParser → List Text → DomainTracker → Result ArgumentError (List (Key p) × DomainTracker)
  unfolding parse
  parse_all parser [] tracker = ok ([], tracker)
  parse_all parser (key_str ∷ key_strs) tracker = do
    (key, tracker) ← parse parser key_str tracker
    (keys, tracker) ← parse_all parser key_strs tracker
    ok (key ∷ keys, tracker)

  abbrev contains_key_char : Text → Bool
  contains_key_char s = contains_char b':' s || contains_char b'@' s || contains_char b'%' s

  -- Parsing may hand out a domain.
  unfoldable pub resembles_key : Text → DomainTracker → Bool × DomainTracker
  unfolding parse
  resembles_key key_str tracker =
      if starts_with b'/' key_str then (false, tracker) else elim (parse lenient key_str tracker) [
        | ok (_, tracker') ↦ (true, tracker')
        | err _ ↦ (contains_key_char (split_once b'=' key_str).0, tracker)
      ]
