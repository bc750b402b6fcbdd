-- ===== src/Stream/Scale.antt =====
-- src/stream/scale.rs and src/stream/absrel.rs: the entries that compute with `f64`, over the platform's
-- arithmetic.
use evsieve.Base.{not, Option, none, some, List, [], ◌∷◌, ◌++◌, any, ℤ, if◌then◌else◌}
use evsieve.Platform.{Platform}
use evsieve.Range.Interval
use evsieve.Range.Interval.{Interval}
use evsieve.Range.Sets
use evsieve.Range.Sets.{Set}
use evsieve.Event.{Event, EventType, channel, is_rel, is_abs}
use evsieve.Event.ChannelMap
use evsieve.Event.ChannelMap.{ChannelMap}
use evsieve.Capability.{Capability, Certainty, always, maybe, with_values, map_values}
use evsieve.Key
use evsieve.Key.{Key}

pub record Scale (p : Platform) : Type 0 where
  pub input_keys : List (Key p)
  pub factor : p.F64
  pub residuals : ChannelMap p.F64

pub record RelToAbs (p : Platform) : Type 0 where
  pub input_key : Key p
  pub output_key : Key p
  pub output_range : Interval
  pub speed : p.F64
  pub state : ChannelMap p.F64

module _ ⦃p : Platform⦄ where
  -- Rounds as usual, but down where the fraction is one half.
  round_abs_value : p.F64 → p.F64
  round_abs_value value =
      let res = p.round value in if p.fract_is_half value then p.sub res p.one else res

  map_abs_value : ℤ → p.F64 → ℤ
  unfolding round_abs_value
  map_abs_value value factor = p.to_i32 (round_abs_value (p.mul (p.of_i32 value) factor))

  mul_f64_round : ℤ → p.F64 → (p.F64 → p.F64) → ℤ
  mul_f64_round value factor rounding_mode =
      p.to_i32 (rounding_mode (p.mul (p.of_i32 value) factor))

  abbrev or_zero : Option p.F64 → p.F64
  or_zero none = p.zero
  or_zero (some x) = x

  scale_rel : Scale p → Event → List Event × Scale p
  scale_rel s event =
      let residual = or_zero (ChannelMap.get s.residuals (channel event)) in
      let desired_value = p.add (p.mul (p.of_i32 event.value) s.factor) residual in
      let value_f64 = p.floor desired_value in
      (
        record event { value = p.to_i32 value_f64 } ∷ [],
        record s {
          residuals = ChannelMap.insert s.residuals (channel event) (p.sub desired_value value_f64);
        },
      )

  unfoldable pub apply : Scale p → Event → List Event × Scale p
  unfolding scale_rel map_abs_value
  apply s event =
      if not (any (λ key. Key.matches key event) s.input_keys)
      then (event ∷ [], s)
      else if is_rel event.code.ev_type
      then scale_rel s event
      else if is_abs event.code.ev_type
      then (record event { value = map_abs_value event.value s.factor } ∷ [], s)
      else (event ∷ [], s)

  unfoldable pub apply_to_all : Scale p → List Event → List Event × Scale p
  unfolding apply
  apply_to_all s [] = ([], s)
  apply_to_all s (event ∷ events) =
      let (first, s') = apply s event in
      let (rest, s'') = apply_to_all s' events in (first ++ rest, s'')

  scale_interval : EventType → p.F64 → Interval → Interval
  unfolding mul_f64_round round_abs_value
  scale_interval t factor i =
      if is_abs t
      then Interval.spanned_between (mul_f64_round i.min factor round_abs_value)
          (mul_f64_round i.max factor round_abs_value)
      else if is_rel t
      then if p.lt factor p.zero
        then Interval.spanned_between (mul_f64_round i.min factor p.ceil)
            (mul_f64_round i.max factor p.floor)
        else Interval.spanned_between (mul_f64_round i.max factor p.ceil)
            (mul_f64_round i.min factor p.floor)
      else i

  -- `Scale::apply_to_cap`.
  unfoldable pub apply_to_cap : Scale p → Capability → Capability
  unfolding scale_interval
  apply_to_cap s cap =
      map_values cap (λ set. Sets.map set (λ i. scale_interval cap.code.ev_type s.factor i ∷ []))

  -- `Interval::bound_f64`.
  bound_f64 : Interval → p.F64 → p.F64
  bound_f64 i value =
      if p.lt value (p.of_i32 i.min)
      then p.of_i32 i.min
      else if p.lt (p.of_i32 i.max) value
      then p.of_i32 i.max
      else value

  -- `RelToAbs::apply`, where the input key matches.
  move_axis : RelToAbs p → Event → List Event × RelToAbs p
  unfolding bound_f64
  move_axis r event =
      let output_event = Key.merge r.output_key event in
      let old = or_zero (ChannelMap.get r.state (channel output_event)) in
      let new = bound_f64 r.output_range (p.add old (p.mul (p.of_i32 event.value) r.speed)) in
      (
        record output_event { value = p.to_i32 (p.floor new) } ∷ [],
        record r { state = ChannelMap.insert r.state (channel output_event) new },
      )

  unfoldable pub apply_rel_to_abs : RelToAbs p → Event → List Event × RelToAbs p
  unfolding move_axis
  apply_rel_to_abs r event =
      if Key.matches r.input_key event
      then move_axis r event
      else if Key.matches_channel r.output_key (channel event)
      then (
        event ∷ [],
        record r { state = ChannelMap.insert r.state (channel event) (p.of_i32 event.value) },
      )
      else (event ∷ [], r)

  unfoldable pub apply_all_rel_to_abs : RelToAbs p → List Event → List Event × RelToAbs p
  unfolding apply_rel_to_abs
  apply_all_rel_to_abs r [] = ([], r)
  apply_all_rel_to_abs r (event ∷ events) =
      let (first, r') = apply_rel_to_abs r event in
      let (rest, r'') = apply_all_rel_to_abs r' events in (first ++ rest, r'')

  abbrev unmatched : Certainty → Capability → Set → Set
  unmatched maybe cap values = cap.values
  unmatched always cap values = Sets.setminus cap.values values

  abbrev rel_to_abs_caps : RelToAbs p → Capability → Certainty × Set → List Capability
  rel_to_abs_caps r cap (certainty, matching_values) =
      let rest = with_values cap (unmatched certainty cap matching_values) in
      (if not (Sets.is_empty matching_values)
        then with_values (Key.merge_cap r.output_key cap) (Sets.from_interval r.output_range) ∷ []
        else [])
      ++ (if not (Sets.is_empty rest.values) then rest ∷ [] else [])

  -- `RelToAbs::apply_to_cap`; `none` is a panic of `Key::matches_cap`.
  unfoldable pub rel_to_abs_cap : RelToAbs p → Capability → Option (List Capability)
  rel_to_abs_cap r cap = elim (Key.matches_cap r.input_key cap) [
    | none ↦ none
    | some found ↦ some (rel_to_abs_caps r cap found)
  ]
