-- ===== src/State.antt =====
-- src/state.rs: the states of the toggles. An index out of range panics (`none`).
use evsieve.Base.{
  ℕ, suc, ◌+◌, ◌%◌, ◌==◌, ltb, Option, none, some, List, [], ◌∷◌, ◌++◌, length, get_elem?, set, any,
  if◌then◌else◌,
}
use evsieve.Event.ChannelMap.{ChannelMap}

pub record ToggleState : Type 0 where
  pub value : ℕ
  pub size : ℕ
  pub memory : ChannelMap ℕ

pub record State : Type 0 where
  pub toggles : List ToggleState

abbrev pub ToggleIndex : Type 0
ToggleIndex = ℕ

abbrev pub new : State
new = record { toggles = [] }

-- `ToggleState::new`: an error for no states at all.
unfoldable pub new_toggle : ℕ → Option ToggleState
new_toggle size = if ltb 0 size then some (record { value = 0; size = size; memory = [] }) else none

unfoldable pub push_toggle : State → ToggleState → ToggleIndex × State
push_toggle s t = (length s.toggles, record { toggles = s.toggles ++ t ∷ [] })

unfoldable pub create_toggle_with_size : State → ℕ → Option (ToggleIndex × State)
unfolding new_toggle push_toggle
create_toggle_with_size s size = elim (new_toggle size) [
  | none ↦ none
  | some t ↦ some (push_toggle s t)
]

unfoldable pub advance : ToggleState → ToggleState
advance t = record t { value = (t.value + 1) % t.size }

unfoldable pub set_value_wrapped : ToggleState → ℕ → ToggleState
set_value_wrapped t n = record t { value = n % t.size }

-- Applies `f` to the toggles that `get_toggles_except` yields; `index` is that of the first.
update_except :
    (ToggleState → ToggleState) → List ToggleIndex → ℕ → List ToggleState → List ToggleState
update_except f excluded index [] = []
update_except f excluded index (t ∷ rest) =
    (if any (λ e. index == e) excluded then t else f t) ∷ update_except f excluded (suc index) rest

unfoldable pub map_toggles_except : (ToggleState → ToggleState) → List ToggleIndex → State → State
unfolding update_except
map_toggles_except f excluded s = record { toggles = update_except f excluded 0 s.toggles }

-- `state[index]` and `state[index] = t`.
abbrev pub at : State → ToggleIndex → Option ToggleState
at s i = get_elem? s.toggles i

abbrev pub put : State → ToggleIndex → ToggleState → State
put s i t = record { toggles = set s.toggles i t }
