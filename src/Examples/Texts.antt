-- ===== src/Examples/Texts.antt =====
-- Instances of the laws on the lexer, on the names of domains and on the parser of keys.
use evsieve.Base.{
  ◌≡◌, refl, ℕ, ℤ, pos, true, Option, ok, split_once, split, split_dots, parse_i32, none, some, [],
  ◌∷◌, Text,
}
use evsieve.Shelllex
use evsieve.Shelllex.Quoting.{lex-quote_all, quote_all}
use evsieve.Domain
use evsieve.Domain.{DomainTracker, resolve, try_reverse_resolve, get_unique_domain, find_name}
use evsieve.Event.{user}
use evsieve.Key.{Key, add_property, of_code, of_namespace, of_value}
use evsieve.Key.Parser
use evsieve.Key.Parser.Both.{is_listed-and_filter}
use evsieve.Key.Parser.Permitted.{parse-ArePermitted}
use evsieve.Key.Parser.Allowed.{Agree, ArePermitted}
use evsieve.Ecodes
use evsieve.Ecodes.{Names}
use evsieve.Affine.Parser.{parse_affine_factor}
use evsieve.Range.Interval
use evsieve.Examples.{integers, key_a}
use evsieve.Base.{List, text_eq, ap, Bool-cases, inl, inr}
use evsieve.Domain.Names.{IsTracker, new-IsTracker, resolve_all, resolve_lem}

lex-quote_all_example :
    Shelllex.lex (quote_all ((Shelllex.double, b'a' ∷ b'"' ∷ []) ∷ (Shelllex.single, []) ∷ []))
    ≡ Shelllex.ok ((b'a' ∷ b'"' ∷ []) ∷ [] ∷ [])
lex-quote_all_example =
    lex-quote_all ((Shelllex.double, b'a' ∷ b'"' ∷ []) ∷ (Shelllex.single, []) ∷ [])

abbrev name : Text
name = b'k' ∷ b'b' ∷ []

resolve_lem_example :
    (d : ℕ) × (t' : DomainTracker) × (resolve Domain.new name ≡ (Domain.ok d, t'))
    × IsTracker t'
    × ((other : Text) (e : ℕ)
        → Domain.find_name Domain.new.name_map other ≡ some e
        → Domain.find_name t'.name_map other ≡ some e)
    × ((names : List Text)
        → (let later = resolve_all t' names in
            (resolve later name ≡ (Domain.ok d, later))
            × (try_reverse_resolve later d ≡ some name)))
resolve_lem_example = resolve_lem Domain.new name new-IsTracker refl

-- Two names, of the type and of one code.
abbrev some_names : Names
some_names = record {
  event_types = (b'k' ∷ b'e' ∷ b'y' ∷ [], 1) ∷ [];
  event_codes = ((b'k' ∷ b'e' ∷ b'y' ∷ [], b'a' ∷ []), key_a) ∷ [];
  event_type_get_max = λ t. some 767;
}

abbrev no_f64 : Text → Option ℤ
no_f64 s = none

-- `key:a:1~2`.
abbrev key_text : Text
key_text = b'k' ∷ b'e' ∷ b'y' ∷ b':' ∷ b'a' ∷ b':' ∷ b'1' ∷ b'~' ∷ b'2' ∷ []

abbrev parsed : Key integers
parsed = record {
  properties =
      of_namespace user ∷ of_code key_a ∷ of_value (record { min = pos 1; max = pos 2 }) ∷ [];
}

abbrev only : ℕ → Parser.KeyParser
only t = record Parser.default_filter { type_whitelist = some (t ∷ []) }

parse_run :
    Parser.parse ⦃p = integers⦄ some_names no_f64 (only 1) key_text Domain.new
    ≡ ok (parsed, Domain.new)
unfolding Parser.parse split_once split Ecodes.event_type Ecodes.event_code
    Parser.interpret_relative_value parse_affine_factor Parser.interpret_absolute_value split_dots
    Parser.interpret_event_value parse_i32 add_property Interval.new
parse_run = refl

some_names-Agree : Agree some_names
some_names-Agree type_name code_name code h =
    elim (Bool-cases (text_eq (b'k' ∷ b'e' ∷ b'y' ∷ []) type_name)) [
      | inr other ↦ let f = rw other at h in cc
      | inl key ↦ elim (Bool-cases (text_eq (b'a' ∷ []) code_name)) [
        | inr other ↦ let f = rw (key, other) at h in cc
        | inl a ↦
            let f = rw (key, a) at h in
            let same : key_a ≡ code = cc in rw key (ap (λ c. some c.ev_type) same)
      ]
    ]

parse-ArePermitted_example : ArePermitted ⦃p = integers⦄ some_names (only 1) parsed
parse-ArePermitted_example =
    parse-ArePermitted ⦃p = integers⦄ some_names no_f64 (only 1) key_text Domain.new Domain.new
      parsed some_names-Agree parse_run

is_listed-and_filter_example :
    Parser.is_listed (Parser.and_filter (only 1) (only 3)).type_whitelist 1 ≡ true
is_listed-and_filter_example = is_listed-and_filter (only 1) (only 3) (1 ∷ []) (3 ∷ []) 1 refl refl
