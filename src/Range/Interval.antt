-- ===== src/Range/Interval.antt =====
-- `struct Interval` of src/range.rs and its methods. An `i32` is an integer; its range is a
-- hypothesis where a law needs it. A panic of `unwrap` is `none`.
pub mod Laws
use evsieve.Base.{
  ℕ, ◌+◌, ◌-◌, Bool, true, false, not, ◌&&◌, ◌||◌, Option, none, some, ℤ, pos, negsuc, pos_part,
  neg_part, leb, if◌then◌else◌, ltb_ℤ, leb_ℤ, eqb_ℤ, min_ℤ, max_ℤ, i32_min, i32_max, ◌+ℤ◌, ◌-ℤ◌,
}

pub record Interval : Type 0 where
  pub min : ℤ
  pub max : ℤ

-- `value.unwrap_or(default)`.
abbrev or_default : Option ℤ → ℤ → ℤ
or_default (some value) default = value
or_default none default = default

unfoldable pub new : Option ℤ → Option ℤ → Interval
new min max = record { min = or_default min i32_min; max = or_default max i32_max }

unfoldable pub spanned_between : ℤ → ℤ → Interval
spanned_between a b = record { min = min_ℤ a b; max = max_ℤ a b }

unfoldable pub contains : Interval → ℤ → Bool
contains i value = leb_ℤ i.min value && leb_ℤ value i.max

unfoldable pub bound : Interval → ℤ → ℤ
bound i value = max_ℤ i.min (min_ℤ i.max value)

-- The difference is taken in `i64`; a negative one does not convert to `u32`.
unfoldable pub span : Interval → Option ℕ
span i =
    if leb_ℤ i.min i.max
    then some (pos_part i.max + neg_part i.min - (pos_part i.min + neg_part i.max))
    else none

-- `i32::try_from(span)` fails above `i32::MAX`.
abbrev delta_of_span : ℕ → Interval
delta_of_span n =
    if leb n 2147483647
    then record { min = pos 0 -ℤ pos n; max = pos n }
    else record { min = i32_min; max = i32_max }

unfoldable pub delta_range : Interval → Option Interval
unfolding span ◌-ℤ◌
delta_range i = elim (span i) [ none ↦ none | some n ↦ some (delta_of_span n) ]

unfoldable pub intersect : Interval → Interval → Option Interval
intersect self other =
    let max = min_ℤ self.max other.max in
    let min = max_ℤ self.min other.min in
    if ltb_ℤ max min then none else some (record { min = min; max = max })

-- `Option::is_some`.
abbrev is_some {ℓ} : {A : Type ℓ} → Option A → Bool
is_some none = false
is_some (some a) = true

unfoldable pub intersects_with : Interval → Interval → Bool
unfolding intersect
intersects_with self other = is_some (intersect self other)

unfoldable pub bound_range : Interval → Interval → Interval
unfolding intersect
bound_range self other = elim (intersect self other) [
  | some intersection ↦ intersection
  | none ↦
      if ltb_ℤ other.max self.min
      then record { min = self.min; max = self.min }
      else record { min = self.max; max = self.max }
]

unfoldable pub merge : Interval → Interval → Interval
merge self other = record { min = min_ℤ self.min other.min; max = max_ℤ self.max other.max }

-- The comparison guards the addition against overflow.
unfoldable pub is_adjacent : ℤ → ℤ → Bool
unfolding ◌+ℤ◌
is_adjacent x y =
    if ltb_ℤ x y then eqb_ℤ y (x +ℤ pos 1) else if ltb_ℤ y x then eqb_ℤ x (y +ℤ pos 1) else false

unfoldable pub try_union : Interval → Interval → Option Interval
unfolding intersect
try_union self other =
    if not (is_some (intersect self other))
      && not (is_adjacent self.max other.min)
      && not (is_adjacent self.min other.max)
    then none
    else some (record { min = min_ℤ self.min other.min; max = max_ℤ self.max other.max })

-- `==` of `Interval`, derived from its fields.
unfoldable pub interval_eq : Interval → Interval → Bool
interval_eq a b = eqb_ℤ a.min b.min && eqb_ℤ a.max b.max

unfoldable pub is_subset_of : Interval → Interval → Bool
unfolding intersect interval_eq
is_subset_of self other = elim (intersect self other) [ none ↦ false | some i ↦ interval_eq i self ]

unfoldable pub is_disjoint_with : Interval → Interval → Bool
unfolding intersect
is_disjoint_with self other = not (is_some (intersect self other))
