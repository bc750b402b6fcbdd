-- ===== src/Stream/Withhold/Entries.antt =====
-- The list of entries of a `Withhold`: at most one for a channel, with only presses of that channel, and
-- how the decision on an event keeps this.
use evsieve.Base.{
  ◌≡◌, refl, sym, ◌∙◌, ◌==◌, Bool, true, false, not, Option, none, some, List, [], ◌∷◌, ◌++◌,
  retain, All, All-append, Bool-cases, inl, inr, pos, eqb_ℤ, eqb_ℤ-eq, &&_left,
}
use evsieve.Event.{Event, channel, channel_eq}
use evsieve.Event.Equality.{channel_eq-eq}
use evsieve.Stream.Withhold.{
  WithholdChannel, withhold_channel_eq, ChannelState, withheld, residual, find_state, replace_state,
  hold_press, pass_release, decide,
}

abbrev pub States : Type 0
States = List (WithholdChannel × ChannelState)

-- No entry of the list is for the channel.
abbrev pub Differs : WithholdChannel → States → Type 0
Differs c = All (λ e. withhold_channel_eq c e.0 ≡ false)

-- No two entries are for one channel.
unfoldable pub IsUnique : States → Type 0
IsUnique [] = Unit
IsUnique (e ∷ states) = Differs (e.0) states × IsUnique states

-- What is held on a channel is a press of it.
unfoldable pub IsPress : WithholdChannel → ChannelState → Type 0
IsPress c (withheld e) = (channel e ≡ c.event_channel) × (e.value ≡ pos 1)
IsPress c residual = Unit

unfoldable pub HoldsPresses : States → Type 0
unfolding IsPress
HoldsPresses = All (λ e. IsPress e.0 e.1)

-- Both at once.
unfoldable pub IsHeld : States → Type 0
unfolding IsUnique HoldsPresses
IsHeld states = IsUnique states × HoldsPresses states

Unique-snoc :
    (states : States) (c : WithholdChannel) (s : ChannelState)
    → find_state states c ≡ none
    → IsUnique states
    → IsUnique (states ++ (c, s) ∷ [])
unfolding IsUnique
Unique-snoc [] c s missing h = (tt, tt)
Unique-snoc ((d, t) ∷ states) c s missing h = elim (Bool-cases (withhold_channel_eq d c)) [
  | inl e ↦ let f = rw e at missing in cc
  | inr n ↦
      let missing' = rw n at missing in
      (
        All-append (λ e. withhold_channel_eq d e.0 ≡ false) states ((c, s) ∷ []) (h.0) (n, tt),
        Unique-snoc states c s missing' (h.1),
      )
]

Differs-replace :
    (d : WithholdChannel) (states : States) (c : WithholdChannel) (s : ChannelState)
    → Differs d states
    → Differs d (replace_state states c s)
Differs-replace d [] c s h = tt
Differs-replace d ((e, t) ∷ states) c s h = elim (Bool-cases (withhold_channel_eq e c)) [
  | inl on ↦ rw on (h.0, h.1)
  | inr off ↦ rw off (h.0, Differs-replace d states c s (h.1))
]

Unique-replace :
    (states : States) (c : WithholdChannel) (s : ChannelState)
    → IsUnique states
    → IsUnique (replace_state states c s)
unfolding IsUnique
Unique-replace [] c s h = tt
Unique-replace ((e, t) ∷ states) c s h = elim (Bool-cases (withhold_channel_eq e c)) [
  | inl on ↦ rw on (h.0, h.1)
  | inr off ↦ rw off (Differs-replace e states c s (h.0), Unique-replace states c s (h.1))
]

pub All-retain {ℓ κ} :
    {A : Type ℓ} (P : A → Type κ) (q : A → Bool) (xs : List A) → All P xs → All P (retain q xs)
All-retain P q [] h = tt
All-retain P q (x ∷ xs) h = elim (Bool-cases (q x)) [
  | inl on ↦ rw on (h.0, All-retain P q xs (h.1))
  | inr off ↦ rw off (All-retain P q xs (h.1))
]

pub Unique-retain :
    (q : WithholdChannel × ChannelState → Bool) (states : States)
    → IsUnique states
    → IsUnique (retain q states)
unfolding IsUnique
Unique-retain q [] h = tt
Unique-retain q (e ∷ states) h = elim (Bool-cases (q e)) [
  | inl on ↦ rw on (
    All-retain (λ f. withhold_channel_eq (e.0) f.0 ≡ false) q states (h.0),
    Unique-retain q states (h.1),
  )
  | inr off ↦ rw off (Unique-retain q states (h.1))
]

Presses-replace :
    (states : States) (c : WithholdChannel) (event : Event)
    → channel event ≡ c.event_channel
    → event.value ≡ pos 1
    → HoldsPresses states
    → HoldsPresses (replace_state states c (withheld event))
unfolding HoldsPresses IsPress
Presses-replace [] c event same one h = tt
Presses-replace ((d, t) ∷ states) c event same one h = elim (Bool-cases (withhold_channel_eq d c)) [
  | inl on ↦ rw on (
    (
      same
          ∙ sym (
              channel_eq-eq d.event_channel c.event_channel (
                &&_left (channel_eq d.event_channel c.event_channel) (d.first_hook == c.first_hook)
                  on)),
      one,
    ),
    h.1,
  )
  | inr off ↦ rw off (h.0, Presses-replace states c event same one (h.1))
]

hold_press-IsHeld :
    (event : Event) (c : WithholdChannel) (states : States) (s : Option ChannelState)
    → find_state states c ≡ s
    → channel event ≡ c.event_channel
    → event.value ≡ pos 1
    → IsHeld states
    → IsHeld (hold_press event c states s)
unfolding IsHeld HoldsPresses IsPress hold_press
hold_press-IsHeld event c states none found same one h = (
  Unique-snoc states c (withheld event) found (h.0),
  All-append (λ e. IsPress e.0 e.1) states ((c, withheld event) ∷ []) (h.1) ((same, one), tt),
)
hold_press-IsHeld event c states (some residual) found same one h =
    (Unique-replace states c (withheld event) (h.0), Presses-replace states c event same one (h.1))
hold_press-IsHeld event c states (some (withheld e)) found same one h = h

pass_release-IsHeld :
    (event : Event) (c : WithholdChannel) (states : States) (s : Option ChannelState)
    → IsHeld states
    → IsHeld ((pass_release event c states s).0)
unfolding IsHeld HoldsPresses pass_release
pass_release-IsHeld event c states none h = h
pass_release-IsHeld event c states (some (withheld e)) h = h
pass_release-IsHeld event c states (some residual) h =
    let q : WithholdChannel × ChannelState → Bool = λ e. not (withhold_channel_eq e.0 c) in
    (Unique-retain q states (h.0), All-retain (λ e. IsPress e.0 e.1) q states (h.1))

pub decide-IsHeld :
    (event : Event) (c : WithholdChannel) (on : Bool) (states : States)
    → channel event ≡ c.event_channel
    → IsHeld states
    → IsHeld ((decide event c on states).0)
unfolding decide
decide-IsHeld event c true states same h = elim (Bool-cases (eqb_ℤ event.value (pos 1))) [
  | inl one ↦
      rw (decide, one)
        (hold_press-IsHeld event c states (find_state states c) refl same
          (eqb_ℤ-eq event.value (pos 1) one) h)
  | inr other ↦ rw (decide, other) h
]
decide-IsHeld event c false states same h = elim (Bool-cases (eqb_ℤ event.value (pos 0))) [
  | inl zero ↦ rw (decide, zero) (pass_release-IsHeld event c states (find_state states c) h)
  | inr other ↦ rw (decide, other) h
]
