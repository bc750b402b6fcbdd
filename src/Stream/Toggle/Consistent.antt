-- ===== src/Stream/Toggle/Consistent.antt =====
-- A consistent toggle sends the release of a key where it sent the press, also if the toggle was
-- advanced or set in between.
use evsieve.Base.{
  ◌≡◌, refl, sym, subst, ap, ◌∙◌, ℕ, true, false, none, some, [], ◌∷◌, arith, get_elem?,
  Option-cases, inl, inr, eqb_ℤ, pos,
}
use evsieve.Platform.{Platform}
use evsieve.Event.{Event, Channel, channel, is_key}
use evsieve.Event.Equality.{channel_eq_refl}
use evsieve.Event.ChannelMap
use evsieve.Event.ChannelMap.{ChannelMap}
use evsieve.Key
use evsieve.Key.{Key}
use evsieve.State
use evsieve.State.{State, ToggleState}
use evsieve.Stream.Toggle.Total.{get_elem?-set}
use evsieve.Stream.Toggle.{
  Toggle, consistent, apply, active_output_key_for_event, active_index, remember, remembered,
}

get-or_insert :
    (m : ChannelMap ℕ) (c : Channel) (i : ℕ)
    → ChannelMap.get (ChannelMap.or_insert m c i) c
      ≡ some (elim (ChannelMap.get m c) [ some j ↦ j | none ↦ i ])
unfolding ChannelMap.get ChannelMap.or_insert
get-or_insert m c i = elim (Option-cases (ChannelMap.get m c)) [
  | inl e ↦ ground (arith, e, channel_eq_refl c)
  | inr (j, e) ↦ ground (arith, e)
]

-- The index that a press was routed to stays that of its channel, whatever the value becomes.
index_remembered :
    (t : ToggleState) (down : Event) (up : Channel) (v : ℕ)
    → eqb_ℤ down.value (pos 0) ≡ false
    → up ≡ channel down
    → (elim (ChannelMap.get ((remembered t down).memory) up) [ some j ↦ j | none ↦ v ])
      ≡ active_index consistent t down
unfolding remembered
index_remembered t down up v nonzero same =
    subst
      (λ c.
        (elim (ChannelMap.get ((remembered t down).memory) c) [ some j ↦ j | none ↦ v ])
        ≡ active_index consistent t down)
      (sym same) (rw (remembered, nonzero, get-or_insert t.memory (channel down) t.value) refl)

module _ ⦃p : Platform⦄ where
  -- A consistent toggle sends an event to the key of its index.
  apply_routes :
      (toggle : Toggle p) (event : Event) (state : State) (t : ToggleState) (key : Key p)
      → toggle.mode ≡ consistent
      → State.at state toggle.state_index ≡ some t
      → get_elem? toggle.output_keys (active_index consistent t event) ≡ some key
      → Key.matches toggle.input_key event ≡ true
      → is_key event.code.ev_type ≡ true
      → apply toggle event state
        ≡ some (Key.merge key event ∷ [], State.put state toggle.state_index (remembered t event))
  unfolding apply active_output_key_for_event remember
  apply_routes toggle event state t key mode stored found on is_a_key =
      rw (on, stored, mode, found, remember, mode, on, is_a_key, stored)

  -- A consistent toggle on a state that has its own: where its index sends a nonzero key event to
  -- an output key, it sends that event there, and then also a matching key event on the same
  -- channel, whatever value the toggle has by then.
  pub release_follows_press :
      (toggle : Toggle p) (down up : Event) (state : State) (t : ToggleState) (key : Key p) (v : ℕ)
      → toggle.mode ≡ consistent
      → State.at state toggle.state_index ≡ some t
      → get_elem? toggle.output_keys (active_index consistent t down) ≡ some key
      → (Key.matches toggle.input_key down ≡ true) × (Key.matches toggle.input_key up ≡ true)
      → (is_key down.code.ev_type ≡ true) × (is_key up.code.ev_type ≡ true)
      → eqb_ℤ down.value (pos 0) ≡ false
      → channel up ≡ channel down
      → (t' : ToggleState) × (state' : State) × (apply toggle down state
          ≡ some (Key.merge key down ∷ [], state'))
        × (State.at state' toggle.state_index ≡ some t')
        × (after : State) × (apply toggle up
              (State.put state' toggle.state_index (record t' { value = v }))
            ≡ some (Key.merge key up ∷ [], after))
  release_follows_press toggle down up state t key v mode stored found on keys nonzero same =
      let i = toggle.state_index in
      let t' = remembered t down in
      let state' = State.put state i t' in
      let later = record t' { value = v } in
      let stored' = get_elem?-set state.toggles i stored in
      let changed = State.put state' i later in
      (
        t',
        state',
        apply_routes toggle down state t key mode stored found (on.0) (keys.0),
        stored',
        State.put changed i (remembered later up),
        apply_routes toggle up changed later key mode (get_elem?-set state'.toggles i stored')
            (ap (get_elem? toggle.output_keys) (index_remembered t down (channel up) v nonzero same)
              ∙ found)
            (on.1) (keys.1),
      )
