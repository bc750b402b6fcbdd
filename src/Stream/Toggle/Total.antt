-- ===== src/Stream/Toggle/Total.antt =====
-- `Toggle::apply` never panics on a state that is well formed, and leaves it well formed.
use evsieve.Base.{
  ◌≡◌, refl, ap, ℕ, zero, suc, ◌<◌, some, List, [], ◌∷◌, All, arith, length, get_elem?, set,
  Option-cases, Bool-cases, inl, inr, ◌&&◌, eqb_ℤ, pos,
}
use evsieve.Platform.{Platform}
use evsieve.Event.{Event, Channel, channel, channel_eq, is_key}
use evsieve.Event.ChannelMap
use evsieve.Event.ChannelMap.{ChannelMap}
use evsieve.Key
use evsieve.Key.{Key}
use evsieve.State
use evsieve.State.{State, ToggleState}
use evsieve.Stream.Toggle.{
  Toggle, ToggleMode, passive, consistent, apply, apply_to_all, active_index, remember, remembered,
  is_consistent,
}

-- Every remembered index, and the current one, is one of the `size` states.
abbrev pub InRange : ℕ → ChannelMap ℕ → Type 0
InRange size m = All (λ e. e.1 < size) m

pub record IsToggle (t : ToggleState) (size : ℕ) : Type 0 where
  pub same_size : t.size ≡ size
  pub current : t.value < size
  pub remembered_in_range : InRange size t.memory

pub get_elem?_total {ℓ} :
    {A : Type ℓ} (xs : List A) (i : ℕ) → i < length xs → (x : A) × (get_elem? xs i ≡ some x)
get_elem?_total [] i h = elim h [ ]
get_elem?_total (x ∷ xs) zero h = (x, refl)
get_elem?_total (x ∷ xs) (suc i) h = get_elem?_total xs i (omega arith)

pub get_elem?-set {ℓ} :
    {A : Type ℓ} (xs : List A) (i : ℕ) {x y : A}
    → get_elem? xs i ≡ some x
    → get_elem? (set xs i y) i ≡ some y
get_elem?-set [] i h = cc
get_elem?-set (x ∷ xs) zero h = refl
get_elem?-set (x ∷ xs) (suc i) h = get_elem?-set xs i h

get-InRange :
    (size : ℕ) (m : ChannelMap ℕ) (c : Channel) (i : ℕ)
    → InRange size m
    → ChannelMap.get m c ≡ some i
    → i < size
unfolding ChannelMap.get
get-InRange size [] c i h e = cc
get-InRange size ((d, j) ∷ m) c i h e = ground (arith, get-InRange size m c i (h.1))

remove-InRange :
    (size : ℕ) (m : ChannelMap ℕ) (c : Channel)
    → InRange size m
    → InRange size (ChannelMap.remove m c)
unfolding ChannelMap.remove
remove-InRange size [] c h = tt
remove-InRange size ((d, j) ∷ m) c h = elim (Bool-cases (channel_eq d c)) [
  | inl e ↦ rw e (remove-InRange size m c (h.1))
  | inr n ↦ rw n (h.0, remove-InRange size m c (h.1))
]

or_insert-InRange :
    (size : ℕ) (m : ChannelMap ℕ) (c : Channel) (i : ℕ)
    → i < size
    → InRange size m
    → InRange size (ChannelMap.or_insert m c i)
unfolding ChannelMap.or_insert
or_insert-InRange size m c i hi h = elim (Option-cases (ChannelMap.get m c)) [
  | inl e ↦ rw (e, ChannelMap.or_insert) (hi, h)
  | inr (j, e) ↦ rw (e, ChannelMap.or_insert) h
]

pub remembered-IsToggle :
    (t : ToggleState) (size : ℕ) (event : Event)
    → IsToggle t size
    → IsToggle (remembered t event) size
unfolding remembered
remembered-IsToggle t size event h = elim (Bool-cases (eqb_ℤ event.value (pos 0))) [
  | inl e ↦ rw e (record {
    same_size = h.same_size;
    current = h.current;
    remembered_in_range = remove-InRange size t.memory (channel event) h.remembered_in_range;
  })
  | inr n ↦ rw n (record {
    same_size = h.same_size;
    current = h.current;
    remembered_in_range =
        or_insert-InRange size t.memory (channel event) t.value h.current h.remembered_in_range;
  })
]

pub active_index-in-range :
    (size : ℕ) (mode : ToggleMode) (t : ToggleState) (event : Event)
    → IsToggle t size
    → active_index mode t event < size
active_index-in-range size passive t event h = h.current
active_index-in-range size consistent t event h =
    elim (Option-cases (ChannelMap.get t.memory (channel event))) [
      | inl e ↦ rw (e, active_index) (h.current)
      | inr (j, e) ↦
          rw (e, active_index) (get-InRange size t.memory (channel event) j h.remembered_in_range e)
    ]

module _ ⦃p : Platform⦄ where
  -- The state has a well-formed toggle of as many states as the toggle has output keys.
  abbrev pub Fits : Toggle p → State → Type 0
  Fits toggle state =
      (t : ToggleState) × (State.at state toggle.state_index ≡ some t)
      × IsToggle t (length toggle.output_keys)

  remember-Fits :
      (toggle : Toggle p) (event : Event) (state : State)
      → Fits toggle state
      → (state' : State) × (remember toggle event state ≡ some state') × Fits toggle state'
  unfolding remember
  remember-Fits toggle event state (t, e, h) =
      elim (Bool-cases (
        is_consistent toggle.mode
        && is_key event.code.ev_type
        && Key.matches toggle.input_key event)) [
          | inl on ↦ (
            State.put state toggle.state_index (remembered t event),
            rw (on, e),
            (
              remembered t event,
              get_elem?-set state.toggles toggle.state_index e,
              remembered-IsToggle t (length toggle.output_keys) event h,
            ),
          )
          | inr off ↦ (state, rw off, (t, e, h))
        ]

  -- On a well-formed state no index is out of range: the toggle yields one event for each, and a
  -- state that is well formed again.
  pub apply_total :
      (toggle : Toggle p) (event : Event) (state : State)
      → Fits toggle state
      → (out : Event) × (state' : State) × (apply toggle event state ≡ some (out ∷ [], state'))
        × Fits toggle state'
  unfolding apply
  apply_total toggle event state (t, e, h) =
      elim (Bool-cases (Key.matches toggle.input_key event)) [
        | inl on ↦
            let i = active_index toggle.mode t event in
            let (key, found) =
              get_elem?_total toggle.output_keys i
                (active_index-in-range (length toggle.output_keys) toggle.mode t event h) in
            let (state', done, fits) = remember-Fits toggle event state (t, e, h) in
            (Key.merge key event, state', rw (on, e, found, done), fits)
        | inr off ↦ (event, state, rw off, (t, e, h))
      ]

  -- Where the state has a well-formed toggle with as many states as there are output keys, any
  -- list of events is mapped one to one, with no panic, and the state is then as well formed.
  pub apply_to_all_total :
      (toggle : Toggle p) (events : List Event) (state : State)
      → Fits toggle state
      → (out : List Event) × (state' : State) × (apply_to_all toggle events state
          ≡ some (out, state'))
        × (length out ≡ length events)
        × Fits toggle state'
  unfolding apply_to_all
  apply_to_all_total toggle [] state f = ([], state, refl, refl, f)
  apply_to_all_total toggle (event ∷ events) state f =
      let (first, state', done, f') = apply_total toggle event state f in
      let (rest, state'', later, same, f'') = apply_to_all_total toggle events state' f' in
      (first ∷ rest, state'', rw (done, apply_to_all, later), ap suc same, f'')
