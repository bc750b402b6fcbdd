-- ===== src/Stream/Withhold/Release.antt =====
-- What a `Withhold` releases: the events that no trigger holds any longer, and no others.
use evsieve.Base.{
  ◌≡◌, refl, subst, ℕ, zero, suc, ◌≤◌, true, false, ◌&&◌, some, List, [], ◌∷◌, any, drop, get_elem?,
  Bool-cases, inl, inr, ◌⊎◌, arith,
}
use evsieve.Platform.{Platform}
use evsieve.Event.{Event, Channel}
use evsieve.Key
use evsieve.Stream.Trigger
use evsieve.Stream.Trigger.{Trigger, Tracker, TrackerState, ExpirationTime}
use evsieve.Stream.Withhold.{
  WithholdChannel, withheld, residual, Withhold, is_still_withheld, release_states, release_events,
}
use evsieve.Stream.Withhold.Entries.{States}

module _ ⦃p : Platform⦄ where
  -- Some tracker is held down whose key has this channel.
  abbrev pub SomeHolds : List (Tracker p) → Channel → Type 0
  SomeHolds [] c = ⊥
  SomeHolds (tracker ∷ rest) c =
      (((time : ExpirationTime) × (tracker.state ≡ TrackerState.active time))
        × (Key.matches_channel tracker.key c ≡ true))
      ⊎ SomeHolds rest c

  -- A trigger from the given index on has a tracker held down on the channel.
  abbrev pub HeldFrom : ℕ → List (Trigger p) → Channel → Type 0
  HeldFrom n triggers c =
      (i : ℕ) × (trigger : Trigger p) × (n ≤ i)
      × (get_elem? triggers i ≡ some trigger)
      × SomeHolds trigger.trackers c

  -- A hook from the first that saw the event on has a tracker held down on its channel.
  abbrev pub IsHeldBack : List (Trigger p) → WithholdChannel → Type 0
  IsHeldBack triggers c = HeldFrom c.first_hook triggers c.event_channel

  -- Of these entries, in order, these events are released and these entries kept.
  abbrev pub ReleasesTo : List (Trigger p) → States → List Event → States → Type 0
  ReleasesTo triggers [] events kept = (events ≡ []) × (kept ≡ [])
  ReleasesTo triggers ((c, residual) ∷ rest) events kept =
      (kept' : States) × (kept ≡ (c, residual) ∷ kept') × ReleasesTo triggers rest events kept'
  ReleasesTo triggers ((c, withheld e) ∷ rest) events kept =
      (IsHeldBack triggers c
        × ((kept' : States) × (kept ≡ (c, withheld e) ∷ kept')
            × ReleasesTo triggers rest events kept'))
      ⊎ ((IsHeldBack triggers c → ⊥)
          × ((events' : List Event) × (events ≡ e ∷ events')
              × ReleasesTo triggers rest events' kept))

  is_active_iff :
      (tracker : Tracker p) (state : TrackerState)
      → tracker.state ≡ state
      → ((Trigger.is_active tracker ≡ true)
          × ((time : ExpirationTime) × (tracker.state ≡ TrackerState.active time)))
        ⊎ ((Trigger.is_active tracker ≡ false)
            × ((time : ExpirationTime) → tracker.state ≡ TrackerState.active time → ⊥))
  is_active_iff tracker (TrackerState.active time) e = inl (rw e, (time, e))
  is_active_iff tracker TrackerState.inactive e = inr (rw e, λ time f. cc)
  is_active_iff tracker TrackerState.invalid e = inr (rw e, λ time f. cc)

  active_trackers :
      (trackers : List (Tracker p)) (c : Channel)
      → (let found = any (λ t. Trigger.is_active t && Key.matches_channel t.key c) trackers in
          ((found ≡ true) × SomeHolds trackers c) ⊎ ((found ≡ false) × (SomeHolds trackers c → ⊥)))
  active_trackers [] c = inr (refl, λ h. h)
  active_trackers (tracker ∷ rest) c = elim (is_active_iff tracker tracker.state refl) [
    | inl (on, held) ↦ elim (Bool-cases (Key.matches_channel tracker.key c)) [
      | inl matches ↦ inl (rw (on, matches), inl (held, matches))
      | inr other ↦ elim (active_trackers rest c) [
        | inl (found, h) ↦ inl (rw (on, other) found, inr h)
        | inr (missing, free) ↦ inr (
          rw (on, other) missing,
          λ h. elim h [ inl here ↦ let f = here.1 in cc | inr there ↦ free there ],
        )
      ]
    ]
    | inr (off, idle) ↦ elim (active_trackers rest c) [
      | inl (found, h) ↦ inl (rw off found, inr h)
      | inr (missing, free) ↦ inr (
        rw off missing,
        λ h. elim h [ inl here ↦ idle (here.0.0) (here.0.1) | inr there ↦ free there ],
      )
    ]
  ]

  held_here_or_later :
      (trigger : Trigger p) (rest : List (Trigger p)) (c : Channel)
      → HeldFrom 0 (trigger ∷ rest) c
      → SomeHolds trigger.trackers c ⊎ HeldFrom 0 rest c
  held_here_or_later trigger rest c (zero, t, n, e, h) =
      let same : t ≡ trigger = cc in inl (subst (λ t. SomeHolds t.trackers c) same h)
  held_here_or_later trigger rest c (suc i, t, n, e, h) = inr (i, t, omega arith, e, h)

  held_later :
      (n : ℕ) (trigger : Trigger p) (rest : List (Trigger p)) (c : Channel)
      → HeldFrom (suc n) (trigger ∷ rest) c
      → HeldFrom n rest c
  held_later n trigger rest c (zero, t, late, e, h) = absurd (omega (arith, late))
  held_later n trigger rest c (suc i, t, late, e, h) = (i, t, omega (arith, late), e, h)

  -- What the triggers from the given index on say of a channel is whether one of them holds it.
  held_from :
      (n : ℕ) (triggers : List (Trigger p)) (c : Channel)
      → (let found = any (λ t. Trigger.has_active_tracker_matching_channel t c) (drop n triggers) in
          ((found ≡ true) × HeldFrom n triggers c)
          ⊎ ((found ≡ false) × (HeldFrom n triggers c → ⊥)))
  unfolding Trigger.has_active_tracker_matching_channel
  held_from zero [] c = inr (refl, λ (i, t, n, e, h). cc)
  held_from (suc n) [] c = inr (refl, λ (i, t, n, e, h). cc)
  held_from (suc n) (trigger ∷ rest) c = elim (held_from n rest c) [
    | inl (found, (i, t, late, e, h)) ↦ inl (found, (suc i, t, omega (arith, late), e, h))
    | inr (missing, free) ↦ inr (missing, λ held. free (held_later n trigger rest c held))
  ]
  held_from zero (trigger ∷ rest) c = elim (active_trackers trigger.trackers c) [
    | inl (found, h) ↦ inl (rw found, (0, trigger, omega arith, refl, h))
    | inr (here, idle) ↦ elim (held_from zero rest c) [
      | inl (found, (i, t, late, e, h)) ↦ inl (rw here found, (suc i, t, omega arith, e, h))
      | inr (missing, free) ↦ inr (
        rw here missing,
        λ held. elim (held_here_or_later trigger rest c held) [
          | inl now ↦ idle now
          | inr later ↦ free later
        ],
      )
    ]
  ]

  release_states-ReleasesTo :
      (triggers : List (Trigger p)) (states : States)
      → (let r = release_states triggers states in ReleasesTo triggers states (r.0) (r.1))
  unfolding release_states is_still_withheld
  release_states-ReleasesTo triggers [] = (refl, refl)
  release_states-ReleasesTo triggers ((c, residual) ∷ rest) =
      ((release_states triggers rest).1, refl, release_states-ReleasesTo triggers rest)
  release_states-ReleasesTo triggers ((c, withheld e) ∷ rest) =
      let later = release_states triggers rest in
      elim (held_from c.first_hook triggers c.event_channel) [
        | inl (on, held) ↦
            rw (release_states, is_still_withheld, on)
              (inl (held, (later.1, refl, release_states-ReleasesTo triggers rest)))
        | inr (off, free) ↦
            rw (release_states, is_still_withheld, off)
              (inr (free, (later.0, refl, release_states-ReleasesTo triggers rest)))
      ]

  -- What is released is, in order, each withheld event for whose channel no hook from the first that saw it
  -- on has a tracker held down; each other withheld event and each residual state is kept, in order, and
  -- the keys stay.
  pub release_events-ReleasesTo :
      (w : Withhold p) (triggers : List (Trigger p))
      → (let r = release_events w triggers in
          ReleasesTo triggers w.channel_state (r.0) (r.1.channel_state) × (r.1.keys ≡ w.keys))
  unfolding release_events
  release_events-ReleasesTo w triggers = (release_states-ReleasesTo triggers w.channel_state, refl)
