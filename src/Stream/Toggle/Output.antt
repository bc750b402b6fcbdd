-- ===== src/Stream/Toggle/Output.antt =====
-- What a toggle writes: the event, or what one of its output keys makes of it.
use evsieve.Base.{
  ◌≡◌, ap, ◌∙◌, ℕ, true, false, some, List, [], ◌∷◌, ◌++◌, get_elem?, Bool-cases, Option-cases, inl,
  inr, ◌⊎◌,
}
use evsieve.Platform.{Platform}
use evsieve.Event.{Event}
use evsieve.Key
use evsieve.Key.{Key}
use evsieve.State
use evsieve.State.{State}
use evsieve.Stream.Toggle.{
  Toggle, apply, active_output_key_for_event, active_index, remember, apply_to_all,
}

module _ ⦃p : Platform⦄ where
  active_lem :
      (t : Toggle p) (event : Event) (state : State) (key : Key p)
      → active_output_key_for_event t event state ≡ some key
      → (i : ℕ) × (get_elem? t.output_keys i ≡ some key)
  unfolding active_output_key_for_event
  active_lem t event state key h = elim (Option-cases (State.at state t.state_index)) [
    | inl e ↦ let f = rw (active_output_key_for_event, e) at h in cc
    | inr (own, e) ↦ (active_index t.mode own event, rw (active_output_key_for_event, e) at h)
  ]

  pub apply_lem :
      (t : Toggle p) (event : Event) (state state' : State) (events : List Event)
      → apply t event state ≡ some (events, state')
      → ((Key.matches t.input_key event ≡ false) × (event ∷ [] ≡ events))
        ⊎ ((i : ℕ) × (key : Key p) × (Key.matches t.input_key event ≡ true)
            × (get_elem? t.output_keys i ≡ some key)
            × (Key.merge key event ∷ [] ≡ events))
  unfolding apply
  apply_lem t event state state' events h = elim (Bool-cases (Key.matches t.input_key event)) [
    | inr off ↦ let f = rw off at h in inl (off, cc)
    | inl on ↦ elim (Option-cases (active_output_key_for_event t event state)) [
      | inl e ↦ let f = rw (on, e) at h in cc
      | inr (key, e) ↦
          let (i, there) = active_lem t event state key e in
          elim (Option-cases (remember t event state)) [
            | inl r ↦ let f = rw (on, e, r) at h in cc
            | inr (next, r) ↦ let f = rw (on, e, r) at h in inr (i, key, on, there, cc)
          ]
    ]
  ]

  -- The first event, and the others.
  pub apply_to_all_lem :
      (t : Toggle p) (event : Event) (events : List Event) (state state' : State) (out : List Event)
      → apply_to_all t (event ∷ events) state ≡ some (out, state')
      → (first : List Event) × (middle : State) × (rest : List Event) × (apply t event state
          ≡ some (first, middle))
        × (apply_to_all t events middle ≡ some (rest, state'))
        × (first ++ rest ≡ out)
  unfolding apply_to_all
  apply_to_all_lem t event events state state' out h = elim (Option-cases (apply t event state)) [
    | inl e ↦ let f = rw (apply_to_all, e) at h in cc
    | inr ((first, middle), e) ↦ elim (Option-cases (apply_to_all t events middle)) [
      | inl k ↦ let f = rw (apply_to_all, e, k) at h in cc
      | inr ((rest, last), k) ↦
          let f = rw (apply_to_all, e, k) at h in
          let same : last ≡ state' = cc in
          (first, middle, rest, e, k ∙ ap (λ s. some (rest, s)) same, cc)
    ]
  ]
