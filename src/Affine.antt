-- ===== src/Affine.antt =====
-- `struct AffineFactor` of src/affine.rs and what it does to events and capabilities. The arithmetic
-- of `f64` is the platform's.
pub mod Parser
use evsieve.Base.{
  ◌||◌, ◌&&◌, any, Option, none, some, ℤ, List, [], ◌∷◌, if◌then◌else◌, i32_min, i32_max,
}
use evsieve.Platform.{Platform}
use evsieve.Range.Interval
use evsieve.Range.Interval.{Interval}
use evsieve.Range.Sets
use evsieve.Event.{Event}
use evsieve.Capability.{Capability, with_values}

pub record AffineFactor (p : Platform) : Type 0 where
  pub absolute : p.F64
  pub relative : p.F64
  pub addition : p.F64

module _ ⦃p : Platform⦄ where
  unfoldable pub merge : AffineFactor p → Event → Event
  merge factor event =
      let absolute_factor = p.mul factor.absolute (p.of_i32 event.value) in
      let relative_factor =
        p.sub (p.floor (p.mul (p.of_i32 event.value) factor.relative))
          (p.floor (p.mul (p.of_i32 event.previous_value) factor.relative)) in
      record event {
        value = p.to_i32 (p.add (p.trunc (p.add absolute_factor factor.addition)) relative_factor);
      }

  mul_zero : p.F64 → p.F64 → p.F64
  mul_zero x y = if p.eq x p.zero || p.eq y p.zero then p.zero else p.mul x y

  to_i32_or : Option p.F64 → ℤ → ℤ
  to_i32_or none default = default
  to_i32_or (some source) default = if p.is_nan source then default else p.to_i32 source

  -- `Iterator::reduce`.
  reduce : (p.F64 → p.F64 → p.F64) → List p.F64 → Option p.F64
  reduce f [] = none
  reduce f (x ∷ []) = some x
  reduce f (x ∷ y ∷ rest) = reduce f (f x y ∷ rest)

  merge_interval : AffineFactor p → Interval → Interval
  unfolding mul_zero to_i32_or reduce
  merge_interval factor interval =
      let lo = p.of_i32 interval.min in
      let hi = p.of_i32 interval.max in
      let bound_0 = p.trunc (p.add (mul_zero lo factor.absolute) factor.addition) in
      let bound_1 = p.trunc (p.add (mul_zero hi factor.absolute) factor.addition) in
      let relative_span = mul_zero factor.relative (p.sub hi lo) in
      let possible_boundaries =
        p.sub bound_0 relative_span
        ∷ p.add bound_0 relative_span
        ∷ p.sub bound_1 relative_span
        ∷ p.add bound_1 relative_span
        ∷ [] in
      if any p.is_nan possible_boundaries
      then Interval.new none none
      else Interval.spanned_between (to_i32_or (reduce p.min possible_boundaries) i32_min)
          (to_i32_or (reduce p.max possible_boundaries) i32_max)

  unfoldable pub merge_cap : AffineFactor p → Capability → Capability
  unfolding merge_interval
  merge_cap factor cap =
      with_values cap (Sets.map cap.values (λ interval. merge_interval factor interval ∷ []))

  -- `Some(value)` for a factor that is a constant.
  unfoldable pub as_constant : AffineFactor p → Option p.F64
  as_constant factor =
      if p.eq factor.absolute p.zero && p.eq factor.relative p.zero
      then some factor.addition
      else none
