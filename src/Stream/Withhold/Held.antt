-- ===== src/Stream/Withhold/Held.antt =====
-- What a `Withhold` holds after an event: at most one entry for a channel, and on it only a press of that
-- channel.
use evsieve.Base.{
  ◌≡◌, refl, sym, ap, subst, ◌∙◌, Bool, true, none, some, List, [], ◌∷◌, map, any, retain,
  Bool-cases, Option-cases, inl, inr,
}
use evsieve.Platform.{Platform}
use evsieve.Event.{Event, channel}
use evsieve.Key
use evsieve.Key.{Key}
use evsieve.Stream.Trigger.{Trigger}
use evsieve.Stream.Withhold.{
  HookIdx, WithholdChannel, withhold_channel_eq, withhold_channel, ChannelState, withheld, residual,
  TriggerResponseRecord, Withhold, consume_state, is_consumed, is_still_withheld, release_states,
  release_events, apply, apply_on_channel, new, is_active_anywhere, first_status,
}
use evsieve.Stream.Withhold.Entries.{
  States, Differs, IsUnique, IsPress, HoldsPresses, IsHeld, Unique-retain, All-retain,
  decide-IsHeld,
}

module _ ⦃p : Platform⦄ where
  consume_channel :
      (activated : List HookIdx) (triggers : List (Trigger p)) (e : WithholdChannel × ChannelState)
      → (consume_state activated triggers e).0 ≡ e.0
  unfolding consume_state
  consume_channel activated triggers (c, withheld e) =
      elim (Bool-cases (is_consumed activated triggers c)) [
        | inl on ↦ rw (consume_state, on)
        | inr off ↦ rw (consume_state, off)
      ]
  consume_channel activated triggers (c, residual) = refl

  consume-IsPress :
      (activated : List HookIdx) (triggers : List (Trigger p)) (c : WithholdChannel)
      (s : ChannelState)
      → IsPress c s
      → (let r = consume_state activated triggers (c, s) in IsPress (r.0) (r.1))
  unfolding consume_state IsPress
  consume-IsPress activated triggers c (withheld e) h =
      elim (Bool-cases (is_consumed activated triggers c)) [
        | inl on ↦ rw (consume_state, on) tt
        | inr off ↦ rw (consume_state, off) h
      ]
  consume-IsPress activated triggers c residual h = tt

  Differs-consume :
      (activated : List HookIdx) (triggers : List (Trigger p)) (c : WithholdChannel)
      (states : States)
      → Differs c states
      → Differs c (map (consume_state activated triggers) states)
  Differs-consume activated triggers c [] h = tt
  Differs-consume activated triggers c (e ∷ states) h = (
    ap (withhold_channel_eq c) (consume_channel activated triggers e) ∙ h.0,
    Differs-consume activated triggers c states (h.1),
  )

  consume-IsHeld :
      (activated : List HookIdx) (triggers : List (Trigger p)) (states : States)
      → IsHeld states
      → IsHeld (map (consume_state activated triggers) states)
  unfolding IsHeld IsUnique HoldsPresses
  consume-IsHeld activated triggers [] h = (tt, tt)
  consume-IsHeld activated triggers ((c, s) ∷ states) (unique, presses) =
      let rest = consume-IsHeld activated triggers states (unique.1, presses.1) in
      let consumed = map (consume_state activated triggers) states in
      (
        (
          subst (λ d. Differs d consumed) (sym (consume_channel activated triggers (c, s)))
              (Differs-consume activated triggers c states (unique.0)),
          rest.0,
        ),
        (consume-IsPress activated triggers c s (presses.0), rest.1),
      )

  -- Whether `release_events` keeps an entry.
  is_kept : List (Trigger p) → WithholdChannel × ChannelState → Bool
  is_kept triggers (c, withheld e) = is_still_withheld triggers c
  is_kept triggers (c, residual) = true

  kept_lem :
      (triggers : List (Trigger p)) (states : States)
      → (release_states triggers states).1 ≡ retain (is_kept triggers) states
  unfolding release_states is_kept
  kept_lem triggers [] = refl
  kept_lem triggers ((c, withheld e) ∷ states) = elim (Bool-cases (is_still_withheld triggers c)) [
    | inl on ↦ rw (release_states, on) (ap (λ r. (c, withheld e) ∷ r) (kept_lem triggers states))
    | inr off ↦ rw (release_states, off) (kept_lem triggers states)
  ]
  kept_lem triggers ((c, residual) ∷ states) =
      ap (λ r. (c, residual) ∷ r) (kept_lem triggers states)

  release-IsHeld :
      (triggers : List (Trigger p)) (states : States)
      → IsHeld states
      → IsHeld ((release_states triggers states).1)
  unfolding IsHeld HoldsPresses
  release-IsHeld triggers states h =
      subst (λ kept. IsUnique kept × HoldsPresses kept) (sym (kept_lem triggers states))
        (
          Unique-retain (is_kept triggers) states (h.0),
          All-retain (λ e. IsPress e.0 e.1) (is_kept triggers) states (h.1),
        )

  -- The states of a withhold are well formed.
  pub IsWithhold : Withhold p → Type 0
  unfolding IsHeld
  IsWithhold w = IsHeld w.channel_state

  -- A withhold starts well formed.
  pub new-IsWithhold : (keys : List (Key p)) → IsWithhold (new keys)
  unfolding IsWithhold IsHeld IsUnique HoldsPresses
  new-IsWithhold keys = (tt, tt)

  channel_of_event :
      (event : Event) (r : TriggerResponseRecord) (c : WithholdChannel)
      → withhold_channel event r ≡ some c
      → channel event ≡ c.event_channel
  channel_of_event event r c h = first r.trigger_status h
    where
      first :
          (statuses : List (HookIdx × _))
          → first_status event statuses ≡ some c
          → channel event ≡ c.event_channel
      first [] h = cc
      first ((idx, status) ∷ rest) h =
          ap (λ x. elim x [ none ↦ channel event | some d ↦ d.event_channel ]) h

  on_channel-IsWithhold :
      (w : Withhold p) (event : Event) (r : TriggerResponseRecord) (c : WithholdChannel)
      (triggers : List (Trigger p))
      → channel event ≡ c.event_channel
      → IsWithhold w
      → IsWithhold ((apply_on_channel w event r c triggers).1)
  unfolding IsWithhold apply_on_channel release_events
  on_channel-IsWithhold w event r c triggers same h =
      elim (Bool-cases (any (λ key. Key.matches key event) w.keys)) [
        | inl on ↦
            rw (apply_on_channel, on)
              (release-IsHeld triggers _ (
                consume-IsHeld r.activated_triggers triggers _
                  (decide-IsHeld event c (is_active_anywhere r) w.channel_state same h)))
        | inr off ↦
            rw (apply_on_channel, off)
              (release-IsHeld triggers _
                (consume-IsHeld r.activated_triggers triggers w.channel_state h))
      ]

  -- An event leaves a withhold with no two entries for a channel, where what is held on a channel
  -- is a press of that channel, such a withhold.
  pub apply-IsWithhold :
      (w : Withhold p) (event : Event) (r : TriggerResponseRecord) (triggers : List (Trigger p))
      → IsWithhold w
      → IsWithhold ((apply w event r triggers).1)
  unfolding apply
  apply-IsWithhold w event r triggers h = elim (Bool-cases r.any_trigger_interacts) [
    | inl on ↦ elim (Option-cases (withhold_channel event r)) [
      | inl e ↦ rw (apply, on, e) h
      | inr (c, e) ↦
          rw (apply, on, e)
            (on_channel-IsWithhold w event r c triggers (channel_of_event event r c e) h)
    ]
    | inr off ↦ rw (apply, off) h
  ]
