-- ===== src/Affine/Parser.antt =====
-- `parse_affine_factor` of src/affine.rs, for texts like `2x-d+1`. Its caller asks only whether there was an
-- error, which is `none`. The parameter is `parse::<f64>` of the standard library.
use evsieve.Base.{
  ℕ, ◌==◌, leb, ◌&&◌, ◌||◌, Option, none, some, List, [], ◌∷◌, ◌++◌, ℤ, if◌then◌else◌, Text,
  parse_i32,
}
use evsieve.Platform.{Platform}
use evsieve.Affine.{AffineFactor}

pub data Variable : Type 0 where
  value : Variable
  delta : Variable
  one : Variable

pub data Sign : Type 0 where
  positive : Sign
  negative : Sign

pub data Part : Type 0 where
  sign : Sign → Part
  numeric : Text → Part
  variable : Variable → Part

-- A digit or a point goes on with the last number, if the last part is one.
abbrev push_digit : List Part → ℕ → List Part
push_digit [] c = numeric (c ∷ []) ∷ []
push_digit (numeric vector ∷ []) c = numeric (vector ++ c ∷ []) ∷ []
push_digit (sign s ∷ []) c = sign s ∷ numeric (c ∷ []) ∷ []
push_digit (variable v ∷ []) c = variable v ∷ numeric (c ∷ []) ∷ []
push_digit (part ∷ next ∷ parts) c = part ∷ push_digit (next ∷ parts) c

push_part : List Part → ℕ → Option (List Part)
push_part parts c =
    if c == b'-'
    then some (parts ++ sign negative ∷ [])
    else if c == b'+'
    then some (parts ++ sign positive ∷ [])
    else if (leb b'0' c && leb c b'9') || c == b'.'
    then some (push_digit parts c)
    else if c == b'x'
    then some (parts ++ variable value ∷ [])
    else if c == b'd'
    then some (parts ++ variable delta ∷ [])
    else none

-- The loop, with the parts so far.
lex_loop : Text → List Part → Option (List Part)
unfolding push_part
lex_loop [] parts = some parts
lex_loop (c ∷ source) parts = elim (push_part parts c) [
  | none ↦ none
  | some parts' ↦ lex_loop source parts'
]

unfoldable pub lex_to_parts : Text → Option (List Part)
unfolding lex_loop
lex_to_parts source = lex_loop source []

-- The implicit first sign.
abbrev with_first_sign : List Part → Option (List Part)
with_first_sign [] = none
with_first_sign (sign s ∷ parts) = some (sign s ∷ parts)
with_first_sign (part ∷ parts) = some (sign positive ∷ part ∷ parts)

module _ ⦃p : Platform⦄ (parse_f64 : Text → Option p.F64) where
  abbrev as_f64 : Option ℤ → Option p.F64
  as_f64 none = none
  as_f64 (some n) = some (p.of_i32 n)

  abbrev number : Text → Variable → Option p.F64
  number numeric_str one = as_f64 (parse_i32 numeric_str)
  number numeric_str _ = parse_f64 numeric_str

  abbrev signed : Sign → p.F64 → p.F64
  signed positive x = x
  signed negative x = p.neg x

  -- One component, and those after it.
  abbrev component :
      Sign → Text → Variable → Option (List (p.F64 × Variable)) → Option (List (p.F64 × Variable))
  component s numeric_str v rest = elim (number numeric_str v) [
    | none ↦ none
    | some x ↦ elim rest [ none ↦ none | some components ↦ some ((signed s x, v) ∷ components) ]
  ]

  components : List Part → Option (List (p.F64 × Variable))
  components [] = some []
  components (sign s ∷ variable v ∷ parts) = component s (b'1' ∷ []) v (components parts)
  components (sign s ∷ numeric n ∷ variable v ∷ parts) = component s n v (components parts)
  components (sign s ∷ numeric n ∷ []) = component s n one (some [])
  components (sign s ∷ numeric n ∷ sign s' ∷ parts) =
      component s n one (components (sign s' ∷ parts))
  components (sign s ∷ numeric n ∷ numeric n' ∷ parts) = component s n one none
  components (sign s ∷ sign s' ∷ parts) = none
  components (sign s ∷ []) = none
  components (numeric n ∷ parts) = none
  components (variable v ∷ parts) = none

  abbrev lex_to_components : Text → Option (List (p.F64 × Variable))
  lex_to_components source = elim (lex_to_parts source) [
    | none ↦ none
    | some parts ↦ elim (with_first_sign parts) [
      | none ↦ none
      | some signed_parts ↦ components signed_parts
    ]
  ]

  abbrev add_component : AffineFactor p → p.F64 × Variable → AffineFactor p
  add_component r (factor, value) = record r { absolute = p.add r.absolute factor }
  add_component r (factor, delta) = record r { relative = p.add r.relative factor }
  add_component r (factor, one) = record r { addition = p.add r.addition factor }

  abbrev sum : List (p.F64 × Variable) → AffineFactor p → AffineFactor p
  sum [] r = r
  sum (c ∷ cs) r = sum cs (add_component r c)

  unfoldable pub parse_affine_factor : Text → Option (AffineFactor p)
  unfolding components lex_to_parts
  parse_affine_factor source = elim (lex_to_components source) [
    | none ↦ none
    | some cs ↦ some (sum cs (record { absolute = p.zero; relative = p.zero; addition = p.zero }))
  ]
