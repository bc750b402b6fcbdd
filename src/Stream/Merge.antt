-- ===== src/Stream/Merge.antt =====
-- `struct Merge` of src/stream/merge.rs: several presses of a key count as one. The count of presses
-- is unbounded here: a `usize` counts the received events and cannot overflow.
pub mod Balance
pub mod Passing
use evsieve.Base.{
  ◌≡◌, ℕ, zero, suc, ◌+◌, ◌-◌, ◌==◌, Bool, true, false, not, ◌&&◌, ◌||◌, Option, none, some, List,
  [], ◌∷◌, ◌++◌, any, ℤ, pos, eqb_ℤ, if◌then◌else◌,
}
use evsieve.Platform.{Platform}
use evsieve.Event.{Event, channel, is_key}
use evsieve.Event.ChannelMap
use evsieve.Event.ChannelMap.{ChannelMap}
use evsieve.Key
use evsieve.Key.{Key}

pub record Merge (p : Platform) : Type 0 where
  pub keys : List (Key p)
  pub state : ChannelMap ℕ

abbrev or_zero : Option ℕ → ℕ
or_zero none = 0
or_zero (some n) = n

module _ ⦃p : Platform⦄ where
  abbrev pub new : List (Key p) → Merge p
  new keys = record { keys = keys; state = [] }

  -- The events that the merge is about.
  unfoldable pub applies_to : Merge p → Event → Bool
  applies_to m event = is_key event.code.ev_type && any (λ key. Key.matches key event) m.keys

  unfoldable pub down_count : Merge p → Event → ℕ
  down_count m event = or_zero (ChannelMap.get m.state (channel event))

  abbrev store : Merge p → Event → ℕ → Merge p
  store m event n = record m { state = ChannelMap.insert m.state (channel event) n }

  -- After the counter's entry was made.
  count : Merge p → Event → ℕ → List Event × Merge p
  count m event last =
      if eqb_ℤ event.value (pos 1)
      then ((if last == 0 then event ∷ [] else []), store m event (last + 1))
      else if eqb_ℤ event.value (pos 0)
      then ((if last == 1 then event ∷ [] else []), store m event (last - 1))
      else (event ∷ [], store m event last)

  unfoldable pub apply : Merge p → Event → List Event × Merge p
  unfolding count
  apply m event =
      if not (applies_to m event) then (event ∷ [], m) else count m event (down_count m event)

  unfoldable pub apply_to_all : Merge p → List Event → List Event × Merge p
  unfolding apply
  apply_to_all m [] = ([], m)
  apply_to_all m (event ∷ events) =
      let (first, m') = apply m event in
      let (rest, m'') = apply_to_all m' events in (first ++ rest, m'')
