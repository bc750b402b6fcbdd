-- ===== src/Stream/Toggle.antt =====
-- `struct Toggle` of src/stream/map.rs. An index out of range panics (`none`).
pub mod Total
pub mod Consistent
pub mod Output
use evsieve.Base.{
  ◌≡◌, ℕ, zero, ◌==◌, Bool, true, false, ◌&&◌, Option, none, some, List, [], ◌∷◌, ◌++◌, get_elem?,
  length, ℤ, pos, eqb_ℤ, if◌then◌else◌,
}
use evsieve.Platform.{Platform}
use evsieve.Event.{Event, Channel, channel, is_key}
use evsieve.Event.ChannelMap
use evsieve.Event.ChannelMap.{ChannelMap}
use evsieve.Capability.{Capability}
use evsieve.Key
use evsieve.Key.{Key}
use evsieve.State
use evsieve.State.{State, ToggleState, ToggleIndex}
use evsieve.Stream.Map

pub data ToggleMode : Type 0 where
  passive : ToggleMode
  consistent : ToggleMode

pub record Toggle (p : Platform) : Type 0 where
  pub input_key : Key p
  pub output_keys : List (Key p)
  pub mode : ToggleMode
  pub state_index : ToggleIndex

abbrev is_consistent : ToggleMode → Bool
is_consistent consistent = true
is_consistent passive = false

-- The `match` of `remember` on the value of the event.
pub remembered : ToggleState → Event → ToggleState
remembered t event =
    if eqb_ℤ event.value (pos 0)
    then record t { memory = ChannelMap.remove t.memory (channel event) }
    else record t { memory = ChannelMap.or_insert t.memory (channel event) t.value }

-- The index of the active output key, for the toggle's own state.
abbrev active_index : ToggleMode → ToggleState → Event → ℕ
active_index passive t event = t.value
active_index consistent t event = elim (ChannelMap.get t.memory (channel event)) [
  | some index ↦ index
  | none ↦ t.value
]

module _ ⦃p : Platform⦄ where
  abbrev made : Key p → List (Key p) → ToggleMode → ToggleIndex → Toggle p
  made input_key output_keys mode index = record {
    input_key = input_key;
    output_keys = output_keys;
    mode = mode;
    state_index = index;
  }

  abbrev with_index :
      Key p
      → List (Key p)
      → ToggleMode
      → State
      → ToggleIndex
      → Option ToggleState
      → Option (Toggle p × State)
  with_index input_key output_keys mode state index none = none
  with_index input_key output_keys mode state index (some t) =
      if t.size == length output_keys
      then some (made input_key output_keys mode index, state)
      else none

  -- `Toggle::new`; `none` also stands for its errors.
  unfoldable pub new :
      Key p → List (Key p) → ToggleMode → State → Option ToggleIndex → Option (Toggle p × State)
  new input_key output_keys mode state (some index) =
      with_index input_key output_keys mode state index (State.at state index)
  new input_key output_keys mode state none =
      elim (State.create_toggle_with_size state (length output_keys)) [
        | none ↦ none
        | some (index, state') ↦ some (made input_key output_keys mode index, state')
      ]

  unfoldable pub active_output_key_for_event : Toggle p → Event → State → Option (Key p)
  active_output_key_for_event toggle event state = elim (State.at state toggle.state_index) [
    | none ↦ none
    | some t ↦ get_elem? toggle.output_keys (active_index toggle.mode t event)
  ]

  -- Called where the input key has matched, which the source tests once more.
  unfoldable pub remember : Toggle p → Event → State → Option State
  unfolding remembered
  remember toggle event state =
      if is_consistent toggle.mode
        && is_key event.code.ev_type
        && Key.matches toggle.input_key event
      then elim (State.at state toggle.state_index) [
        | none ↦ none
        | some t ↦ some (State.put state toggle.state_index (remembered t event))
      ]
      else some state

  abbrev emit : Event → Key p → Option State → Option (List Event × State)
  emit event active_output none = none
  emit event active_output (some state) = some (Key.merge active_output event ∷ [], state)

  unfoldable pub apply : Toggle p → Event → State → Option (List Event × State)
  unfolding active_output_key_for_event remember
  apply toggle event state =
      if Key.matches toggle.input_key event
      then elim (active_output_key_for_event toggle event state) [
        | none ↦ none
        | some active_output ↦ emit event active_output (remember toggle event state)
      ]
      else some (event ∷ [], state)

  abbrev prepend : List Event → Option (List Event × State) → Option (List Event × State)
  prepend first none = none
  prepend first (some (rest, state)) = some (first ++ rest, state)

  unfoldable pub apply_to_all : Toggle p → List Event → State → Option (List Event × State)
  apply_to_all toggle [] state = some ([], state)
  apply_to_all toggle (event ∷ events) state = elim (apply toggle event state) [
    | none ↦ none
    | some (first, state') ↦ prepend first (apply_to_all toggle events state')
  ]

  unfoldable pub apply_to_all_caps : Toggle p → List Capability → Option (List Capability)
  apply_to_all_caps toggle caps =
      Map.apply_to_all_caps
        (record { input_key = toggle.input_key; output_keys = toggle.output_keys }) caps
