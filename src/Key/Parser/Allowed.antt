-- ===== src/Key/Parser/Allowed.antt =====
-- What a parser may put into a key, and the types and codes that it lets through.
use evsieve.Base.{List, any, ◌==◌, arith}
use evsieve.Event.{ev_syn}
use evsieve.Base.{
  ◌≡◌, ◌≢◌, strip_prefix, parse_u16, leb, ◌⊎◌, ap, sym, subst, true, false, Result, err, text_eq-eq,
  Option, none, some, [], ◌∷◌, All, All-append, Text, text_eq, ok, >>=-ok, Bool-cases, Option-cases,
  inl, inr,
}
use evsieve.Platform.{Platform}
use evsieve.Range.Interval.{Interval}
use evsieve.Range.Sets.Normal.{IsValid}
use evsieve.Ecodes
use evsieve.Ecodes.{Names, NameError}
use evsieve.Event.{EventType, EventCode, VirtualEventType, is_syn}
use evsieve.Key.{
  Key, KeyProperty, of_code, of_domain, of_namespace, of_value, of_previous_value, of_type,
  of_virtual_type, affine_factor, add_property,
}
use evsieve.Key.Parser
use evsieve.Key.Parser.Ranges.{IsSingle}

-- The names of codes agree with the names of types: a code is listed under a name of its own type.
abbrev pub Agree : Names → Type 0
Agree names =
    (type_name code_name : Text) (code : EventCode)
    → Ecodes.find_code names.event_codes type_name code_name ≡ some code
    → Ecodes.find_type names.event_types type_name ≡ some code.ev_type

from_names_ok :
    {A : Type 0} (r : Result NameError A) (a : A) → Parser.from_names r ≡ ok a → r ≡ ok a
from_names_ok (ok b) a h = let same : b ≡ a = cc in ap ok same
from_names_ok (err e) a h = cc

-- The type is in the list.
abbrev pub IsAmong : EventType → List EventType → Type 0
IsAmong t [] = ⊥
IsAmong t (u ∷ types) = (u ≡ t) ⊎ IsAmong t types

-- There is no whitelist, or the type is in it.
abbrev pub IsWhitelisted : Option (List EventType) → EventType → Type 0
IsWhitelisted none t = Unit
IsWhitelisted (some types) t = IsAmong t types

-- A type that the parser lets through: it is not "syn", and the whitelist has it if there is one.
abbrev pub IsAllowedType : Parser.KeyParser → EventType → Type 0
IsAllowedType parser t = (t ≢ ev_syn) × IsWhitelisted parser.type_whitelist t

among_of_any :
    (t : EventType) (types : List EventType) → any (λ u. u == t) types ≡ true → IsAmong t types
among_of_any t [] h = cc
among_of_any t (u ∷ types) h = elim (Bool-cases (u == t)) [
  | inl same ↦ inl (ground (arith, same))
  | inr other ↦ inr (among_of_any t types (rw other at h))
]

whitelisted_of_listed :
    (whitelist : Option (List EventType)) (t : EventType)
    → Parser.is_listed whitelist t ≡ true
    → IsWhitelisted whitelist t
whitelisted_of_listed none t h = tt
whitelisted_of_listed (some types) t h = among_of_any t types h

-- The type of this name is one that the parser lets through.
abbrev pub IsAllowedName : Names → Parser.KeyParser → Text → Type 0
IsAllowedName names parser name =
    (t : EventType) × (Ecodes.event_type names name ≡ ok t) × IsAllowedType parser t

not_syn : (t : EventType) → is_syn t ≡ false → t ≢ ev_syn
not_syn t h e = ground (arith, h, e)

-- A key may have a value: one may be written, or there is a default.
abbrev pub MayHaveValue : Parser.KeyParser → Type 0
MayHaveValue parser = (parser.allow_values ≡ true) ⊎ (parser.default_value ≢ [])

-- A range that may be in a key.
abbrev pub IsAllowedRange : Parser.KeyParser → Interval → Type 0
IsAllowedRange parser r =
    MayHaveValue parser × IsValid r × ((parser.allow_ranges ≡ true) ⊎ IsSingle r)

module _ ⦃p : Platform⦄ where
  -- A property that the parser may put into a key.
  abbrev pub IsPermitted : Names → Parser.KeyParser → KeyProperty p → Type 0
  IsPermitted names parser (of_code c) = IsAllowedType parser c.ev_type
  IsPermitted names parser (of_namespace n) = n ≡ parser.namespace
  IsPermitted names parser (of_type t) = (parser.allow_types ≡ true) × IsAllowedType parser t
  IsPermitted names parser (of_virtual_type VirtualEventType.key) =
      (parser.allow_types ≡ true) × IsAllowedName names parser Parser.key_name
  IsPermitted names parser (of_virtual_type VirtualEventType.button) =
      (parser.allow_types ≡ true) × IsAllowedName names parser Parser.btn_name
  IsPermitted names parser (of_virtual_type (VirtualEventType.other t)) = ⊥
  IsPermitted names parser (of_domain d) = parser.allow_domains ≡ true
  IsPermitted names parser (of_value r) = IsAllowedRange parser r
  IsPermitted names parser (of_previous_value r) =
      (parser.allow_transitions ≡ true) × IsAllowedRange parser r
  IsPermitted names parser (affine_factor f) =
      (parser.allow_relative_values ≡ true) × MayHaveValue parser

  abbrev pub ArePermitted : Names → Parser.KeyParser → Key p → Type 0
  ArePermitted names parser key = All (IsPermitted names parser) key.properties

  pub added :
      (names : Names) (parser : Parser.KeyParser) (key : Key p) (q : KeyProperty p)
      → ArePermitted names parser key
      → IsPermitted names parser q
      → ArePermitted names parser (add_property key q)
  unfolding add_property
  added names parser key q h k =
      All-append (IsPermitted names parser) key.properties (q ∷ []) h (k, tt)

  module _ (names : Names) (parse_f64 : Text → Option p.F64) (parser : Parser.KeyParser) where
    type_property-IsPermitted :
        (name : Text) (t : EventType)
        → parser.allow_types ≡ true
        → Ecodes.event_type names name ≡ ok t
        → IsAllowedType parser t
        → IsPermitted names parser (Parser.type_property names parse_f64 name t)
    type_property-IsPermitted name t h n a = elim (Bool-cases (text_eq name Parser.key_name)) [
      | inl e ↦
          rw e (h, subst (IsAllowedName names parser) (text_eq-eq name Parser.key_name e) (t, n, a))
      | inr e ↦ elim (Bool-cases (text_eq name Parser.btn_name)) [
        | inl f ↦
            rw (e, f)
              (h, subst (IsAllowedName names parser) (text_eq-eq name Parser.btn_name f) (t, n, a))
        | inr f ↦ rw (e, f) (h, a)
      ]
    ]

    -- The code that names of a type and a code stand for is of that type.
    event_code_type :
        (name code_name : Text) (t : EventType) (code : EventCode)
        → Agree names
        → Ecodes.event_type names name ≡ ok t
        → Ecodes.event_code names name code_name ≡ ok code
        → t ≡ code.ev_type
    unfolding Ecodes.event_type Ecodes.event_code
    event_code_type name code_name t code agree n h =
        elim (Option-cases (Ecodes.find_code names.event_codes name code_name)) [
          | inr (known, e) ↦
              let f = rw (Ecodes.event_code, e) at h in
              let g = rw (Ecodes.event_type, agree name code_name known e) at n in
              let same : known ≡ code = cc in
              let type : known.ev_type ≡ t = cc in subst (λ c. t ≡ c.ev_type) same (sym type)
          | inl e ↦ elim (Option-cases (strip_prefix b'%' code_name)) [
            | inl a ↦ let f = rw (Ecodes.event_code, e, a) at h in cc
            | inr (digits, a) ↦ elim (Option-cases (names.event_type_get_max t)) [
              | inl b ↦ let f = rw (Ecodes.event_code, e, a, n, b) at h in cc
              | inr (max, b) ↦ elim (Option-cases (parse_u16 digits)) [
                | inl d ↦ let f = rw (Ecodes.event_code, e, a, n, b, d) at h in cc
                | inr (u, d) ↦ elim (Bool-cases (leb u max)) [
                  | inl fits ↦
                      let f = rw (Ecodes.event_code, e, a, n, b, d, fits) at h in
                      let numbered : EventCode = record { ev_type = t; code = u } in
                      let same : numbered ≡ code = cc in ap (λ c. c.ev_type) same
                  | inr large ↦ let f = rw (Ecodes.event_code, e, a, n, b, d, large) at h in cc
                ]
              ]
            ]
          ]
        ]

    code_property-IsPermitted :
        (name : Text) (t : EventType) (code : Option Text) (q : KeyProperty p)
        → Agree names
        → Ecodes.event_type names name ≡ ok t
        → IsAllowedType parser t
        → Parser.code_property names parse_f64 parser name t code ≡ ok q
        → IsPermitted names parser q
    code_property-IsPermitted name t none q agree n a h = elim (Bool-cases parser.allow_types) [
      | inl allowed ↦
          let f = rw allowed at h in
          let same : Parser.type_property names parse_f64 name t ≡ q = cc in
          subst (IsPermitted names parser) same (type_property-IsPermitted name t allowed n a)
      | inr off ↦ let f = rw off at h in cc
    ]
    code_property-IsPermitted name t (some c) q agree n a h =
        let (code, e, h1) =
          >>=-ok (Parser.from_names (Ecodes.event_code names name c)) (λ c. ok (of_code c)) q h in
        let same : of_code code ≡ q = cc in
        let type =
          event_code_type name c t code agree n
            (from_names_ok (Ecodes.event_code names name c) code e) in
        subst (IsPermitted names parser) same (subst (IsAllowedType parser) type a)

    pub typed-IsPermitted :
        (name : Text) (code : Option Text) (q : KeyProperty p)
        → Agree names
        → Parser.typed names parse_f64 parser name code ≡ ok q
        → IsPermitted names parser q
    typed-IsPermitted name code q agree h =
        let (t, e, h1) =
          >>=-ok (Parser.from_names (Ecodes.event_type names name))
            (Parser.with_type names parse_f64 parser name code) q h in
        let n = from_names_ok (Ecodes.event_type names name) t e in
        elim (Bool-cases (is_syn t)) [
          | inl syn ↦ let f = rw syn at h1 in cc
          | inr other ↦ elim (Bool-cases (Parser.is_listed parser.type_whitelist t)) [
            | inr unlisted ↦ let f = rw (other, unlisted) at h1 in cc
            | inl listed ↦
                code_property-IsPermitted name t code q agree n
                  (not_syn t other, whitelisted_of_listed parser.type_whitelist t listed)
                  (rw (other, listed) at h1)
          ]
        ]
