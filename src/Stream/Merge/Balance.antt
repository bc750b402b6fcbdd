-- ===== src/Stream/Merge/Balance.antt =====
-- `Merge`: on each channel that it is about, the presses and releases that it lets through alternate,
-- and they leave the key down exactly when the merge counts it as down.
use evsieve.Base.{
  ◌≡◌, refl, ◌∙◌, ℕ, ◌+◌, ◌-◌, ltb, pos, eqb_ℤ, Bool, true, false, not, ◌&&◌, List, [], ◌∷◌, ◌++◌,
  All, All-map, Bool-cases, inl, inr, subst, arith, if◌then◌else◌,
}
use evsieve.Platform.{Platform}
use evsieve.Event.{Event, Channel, channel, channel_eq}
use evsieve.Event.Equality.{channel_eq-eq, channel_eq_refl}
use evsieve.Event.ChannelMap
use evsieve.Event.ChannelMap.{get-insert}
use evsieve.Stream.Merge.{Merge, apply, apply_to_all, applies_to, down_count, or_zero}

abbrev pub is_press : Channel → Event → Bool
is_press c e = channel_eq (channel e) c && eqb_ℤ e.value (pos 1)

abbrev pub is_release : Channel → Event → Bool
is_release c e = channel_eq (channel e) c && eqb_ℤ e.value (pos 0)

-- Whether the key of a channel is down after the events, if it is `down` before.
abbrev pub down_after : Channel → Bool → List Event → Bool
down_after c down [] = down
down_after c down (e ∷ es) =
    down_after c (if is_press c e then true else if is_release c e then false else down) es

-- Each press comes while the key is up, each release while it is down.
abbrev pub alternates : Channel → Bool → List Event → Bool
alternates c down [] = true
alternates c down (e ∷ es) =
    (if is_press c e then not down else if is_release c e then down else true)
    && alternates c (if is_press c e then true else if is_release c e then false else down) es

module _ ⦃p : Platform⦄ where
  -- The merge counts the key of a channel as down.
  abbrev pub is_down : Merge p → Channel → Bool
  is_down m c = ltb 0 (or_zero (ChannelMap.get m.state c))

  module _ (m : Merge p) (e : Event) (rest : List Event) where
    abbrev last : ℕ
    last = down_count m e

    -- What one event does to the key of its own channel is what the events that it becomes do.
    abbrev Same : Channel → Type 0
    Same c =
        (alternates c (is_down m c) ((apply m e).0 ++ rest)
          ≡ alternates c (is_down (apply m e).1 c) rest)
        × (down_after c (is_down m c) ((apply m e).0 ++ rest)
            ≡ down_after c (is_down (apply m e).1 c) rest)

    other_channel : (c : Channel) → channel_eq (channel e) c ≡ false → Same c
    unfolding apply
    other_channel c h = ground (
      arith,
      get-insert m.state (channel e) c (last + 1),
      get-insert m.state (channel e) c (last - 1),
      get-insert m.state (channel e) c last,
    )

    own_channel : applies_to m e ≡ true → Same (channel e)
    unfolding apply down_count
    own_channel h = ground (
      arith,
      channel_eq_refl (channel e),
      get-insert m.state (channel e) (channel e) (last + 1),
      get-insert m.state (channel e) (channel e) (last - 1),
      get-insert m.state (channel e) (channel e) last,
    )

  Same-everywhere :
      (m : Merge p) (e : Event) (rest : List Event) (c : Channel)
      → (channel_eq (channel e) c ≡ true → applies_to m e ≡ true)
      → Same m e rest c
  Same-everywhere m e rest c h = elim (Bool-cases (channel_eq (channel e) c)) [
    | inl on ↦ subst (Same m e rest) (channel_eq-eq (channel e) c on) (own_channel m e rest (h on))
    | inr off ↦ other_channel m e rest c off
  ]

  keys_kept : (m : Merge p) (e f : Event) → applies_to (apply m e).1 f ≡ applies_to m f
  unfolding apply applies_to
  keys_kept m e f = ground arith

  -- The events on the channel are those that the merge is about.
  abbrev pub Applies : Merge p → Channel → List Event → Type 0
  Applies m c = All (λ e. channel_eq (channel e) c ≡ true → applies_to m e ≡ true)

  -- Where the merge is about all events of the list on a channel: the presses and releases that
  -- it lets through there alternate, from the state that it counts before, and they leave the key
  -- down exactly when the merge counts it as down afterwards.
  pub apply_to_all-alternates :
      (m : Merge p) (c : Channel) (events : List Event)
      → Applies m c events
      → (alternates c (is_down m c) (apply_to_all m events).0 ≡ true)
        × (down_after c (is_down m c) (apply_to_all m events).0
            ≡ is_down (apply_to_all m events).1 c)
  unfolding apply_to_all
  apply_to_all-alternates m c [] h = (refl, refl)
  apply_to_all-alternates m c (e ∷ events) h =
      let m' = (apply m e).1 in
      let first = Same-everywhere m e (apply_to_all m' events).0 c (h.0) in
      let later =
        apply_to_all-alternates m' c events
          (All-map events (λ f g on. keys_kept m e f ∙ g on) (h.1)) in
      (first.0 ∙ later.0, first.1 ∙ later.1)
