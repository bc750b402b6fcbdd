-- ===== src/Stream/Trigger/Wakeup.antt =====
-- A wakeup of a trigger: which trackers expire, and that a hook with an expired tracker cannot activate.
use evsieve.Base.{
  ◌≡◌, ◌≢◌, refl, sym, ap, subst, ◌∙◌, &&_right, Bool, true, false, ◌&&◌, ◌==◌, List, [], ◌∷◌, map,
  any, Bool-cases, inl, inr, ◌⊎◌, if◌then◌else◌, arith, Option,
}
use evsieve.Platform.{Platform}
use evsieve.Event.{Event}
use evsieve.Key
use evsieve.Time.{Instant, Duration}
use evsieve.Loopback.{Loopback, Token}
use evsieve.Stream.Trigger.{
  Tracker, TrackerState, Trigger, TriggerState, never, until, active, inactive, invalid, activates,
  apply, wakeup, touch, activate, touch_all, activates_by, tracker_matches, invalidate_out_of_order,
  invalidate, respond, settle, break_or_ignore, expire, expires_by, is_active, all_active,
}
use evsieve.Stream.Trigger.Invariant.{
  IsTrigger, AllHeld, Holds, all_active-ordered, all_active-invalidated,
}

module _ ⦃p : Platform⦄ where
  -- The tracker is held down until this token wakes its hook.
  abbrev pub WaitsFor : Token → Tracker p → Type 0
  WaitsFor token tracker = tracker.state ≡ TrackerState.active (until token)

  -- A tracker that waits for the token becomes invalid, and any other stays as it is.
  abbrev pub ExpiresTo : Token → Tracker p → Tracker p → Type 0
  ExpiresTo token tracker tracker' =
      (WaitsFor token tracker × (tracker' ≡ record tracker { state = TrackerState.invalid }))
      ⊎ ((WaitsFor token tracker → ⊥) × (tracker' ≡ tracker))

  -- The trackers of the one list become those of the other, in order.
  abbrev pub AllExpireTo : Token → List (Tracker p) → List (Tracker p) → Type 0
  AllExpireTo token [] [] = Unit
  AllExpireTo token [] (tracker' ∷ rest') = ⊥
  AllExpireTo token (tracker ∷ rest) [] = ⊥
  AllExpireTo token (tracker ∷ rest) (tracker' ∷ rest') =
      ExpiresTo token tracker tracker' × AllExpireTo token rest rest'

  -- Some tracker waits for the token.
  abbrev pub SomeWaits : Token → List (Tracker p) → Type 0
  SomeWaits token [] = ⊥
  SomeWaits token (tracker ∷ rest) = WaitsFor token tracker ⊎ SomeWaits token rest

  -- A state expires by the token exactly when it is active until that token.
  expires_by_iff :
      (token : Token) (state : TrackerState)
      → ((expires_by token state ≡ true) × (state ≡ TrackerState.active (until token)))
        ⊎ ((expires_by token state ≡ false) × (state ≡ TrackerState.active (until token) → ⊥))
  unfolding expires_by
  expires_by_iff token (active (until other)) = elim (Bool-cases (token == other)) [
    | inl same ↦
        let equal : other ≡ token = ground (arith, same) in
        inl (same, ap (λ t. TrackerState.active (until t)) equal)
    | inr differs ↦ inr (differs, λ e. let equal : other ≡ token = cc in ground (arith, differs))
  ]
  expires_by_iff token (active never) = inr (refl, λ e. cc)
  expires_by_iff token inactive = inr (refl, λ e. cc)
  expires_by_iff token invalid = inr (refl, λ e. cc)

  expire-ExpiresTo :
      (token : Token) (tracker : Tracker p) → ExpiresTo token tracker (expire token tracker)
  unfolding expire
  expire-ExpiresTo token tracker = elim (expires_by_iff token tracker.state) [
    | inl (on, waits) ↦ rw (expire, on) (inl (waits, refl))
    | inr (off, other) ↦ rw (expire, off) (inr (other, refl))
  ]

  expire-AllExpireTo :
      (token : Token) (trackers : List (Tracker p))
      → AllExpireTo token trackers (map (expire token) trackers)
  expire-AllExpireTo token [] = tt
  expire-AllExpireTo token (tracker ∷ rest) =
      (expire-ExpiresTo token tracker, expire-AllExpireTo token rest)

  -- Whether some tracker waits for the token is what the wakeup reports.
  any_expires :
      (token : Token) (trackers : List (Tracker p))
      → (let found = any (λ tracker. expires_by token tracker.state) trackers in
          ((found ≡ true) × SomeWaits token trackers)
          ⊎ ((found ≡ false) × (SomeWaits token trackers → ⊥)))
  any_expires token [] = inr (refl, λ w. w)
  any_expires token (tracker ∷ rest) = elim (expires_by_iff token tracker.state) [
    | inl (on, waits) ↦ rw on (inl (refl, inl waits))
    | inr (off, other) ↦ elim (any_expires token rest) [
      | inl (found, waits) ↦ rw off (inl (found, inr waits))
      | inr (missing, none) ↦
          rw off (inr (missing, λ w. elim w [ inl here ↦ other here | inr there ↦ none there ]))
    ]
  ]

  -- Some tracker is invalid.
  HasInvalid : List (Tracker p) → Type 0
  HasInvalid [] = ⊥
  HasInvalid (tracker ∷ rest) = (tracker.state ≡ TrackerState.invalid) ⊎ HasInvalid rest

  expired-HasInvalid :
      (token : Token) (trackers trackers' : List (Tracker p))
      → AllExpireTo token trackers trackers'
      → SomeWaits token trackers
      → HasInvalid trackers'
  unfolding HasInvalid
  expired-HasInvalid token [] trackers' all waits = absurd waits
  expired-HasInvalid token (tracker ∷ rest) [] all waits = absurd all
  expired-HasInvalid token (tracker ∷ rest) (tracker' ∷ rest') (inl expired, all) waits =
      inl (ap (λ t. t.state) (expired.1))
  expired-HasInvalid token (tracker ∷ rest) (tracker' ∷ rest') (inr kept, all) (inl here) =
      absurd (kept.0 here)
  expired-HasInvalid token (tracker ∷ rest) (tracker' ∷ rest') (inr kept, all) (inr there) =
      inr (expired-HasInvalid token rest rest' all there)

  -- No event makes an invalid tracker active.
  touch_invalid :
      (period : Option Duration) (tracker : Tracker p) (event : Event) (now : Instant)
      (loopback : Loopback)
      → tracker.state ≡ TrackerState.invalid
      → is_active ((touch period tracker event now loopback).0) ≡ false
  unfolding touch activate
  touch_invalid period tracker event now loopback e =
      elim (Bool-cases (activates_by tracker event)) [
        | inl on ↦ rw on (
            subst (λ s. is_active ((activate period tracker now s loopback).0) ≡ false) (sym e)
              (rw e))
        | inr off ↦ rw off
      ]

  touch_all_invalid :
      (period : Option Duration) (trackers : List (Tracker p)) (event : Event) (now : Instant)
      (loopback : Loopback)
      → HasInvalid trackers
      → all_active ((touch_all period trackers event now loopback).1) ≡ false
  unfolding touch_all HasInvalid
  touch_all_invalid period [] event now loopback h = absurd h
  touch_all_invalid period (tracker ∷ rest) event now loopback (inl e) =
      elim (Bool-cases (tracker_matches tracker event)) [
        | inl on ↦ rw (on, touch_invalid period tracker event now loopback e)
        | inr off ↦ rw (off, e)
      ]
  touch_all_invalid period (tracker ∷ rest) event now loopback (inr h) =
      elim (Bool-cases (tracker_matches tracker event)) [
        | inl on ↦
            let tail =
              touch_all_invalid period rest event now ((touch period tracker event now loopback).1)
                h in
            rw on (ground (arith, tail))
        | inr off ↦
            let tail = touch_all_invalid period rest event now loopback h in
            rw off (ground (arith, tail))
      ]

  respond_inactive :
      (trigger : Trigger p) (trackers : List (Tracker p)) (state : TriggerState) (on : Bool)
      → on ≡ false
      → (respond trigger trackers state on).0 ≢ activates
  unfolding respond
  respond_inactive trigger trackers state true h = cc
  respond_inactive trigger trackers active false h = λ e. cc
  respond_inactive trigger trackers inactive false h = λ e. cc

  ordered_inactive :
      (sequential : Bool) (trackers : List (Tracker p))
      → all_active trackers ≡ false
      → all_active (if sequential then invalidate_out_of_order trackers else trackers) ≡ false
  ordered_inactive true trackers h = all_active-ordered trackers ∙ h
  ordered_inactive false trackers h = h

  settle_inactive :
      (trigger : Trigger p) (trackers : List (Tracker p))
      → all_active trackers ≡ false
      → (settle trigger trackers).0 ≢ activates
  unfolding settle
  settle_inactive trigger trackers h =
      let ordered = if trigger.sequential then invalidate_out_of_order trackers else trackers in
      respond_inactive trigger ordered trigger.state (all_active ordered)
        (ordered_inactive trigger.sequential trackers h)

  break_inactive :
      (trigger : Trigger p) (trackers : List (Tracker p)) (event : Event)
      → (break_or_ignore trigger trackers event).0 ≢ activates
  unfolding break_or_ignore
  break_inactive trigger trackers event =
      let broken = any (λ key. Key.matches key event) trigger.breaks_on in
      let some_active = any is_active trackers in
      elim (Bool-cases (broken && some_active)) [
        | inl on ↦
            rw (break_or_ignore, on)
              (settle_inactive trigger (map invalidate trackers)
                (all_active-invalidated trackers (&&_right broken some_active on)))
        | inr off ↦ rw (break_or_ignore, off) (λ e. cc)
      ]

  invalid_inactive :
      (trigger : Trigger p) (event : Event) (loopback : Loopback) (now : Instant)
      → HasInvalid trigger.trackers
      → (apply trigger event loopback now).0 ≢ activates
  unfolding apply
  invalid_inactive trigger event loopback now h =
      let touched = touch_all trigger.period trigger.trackers event now loopback in
      elim (Bool-cases (touched.0)) [
        | inl on ↦
            rw (apply, on)
              (settle_inactive trigger (touched.1)
                (touch_all_invalid trigger.period trigger.trackers event now loopback h))
        | inr off ↦ rw (apply, off) (break_inactive trigger (touched.1) event)
      ]

  none_waits :
      (token : Token) (trackers : List (Tracker p))
      → AllHeld trackers
      → SomeWaits token trackers
      → ⊥
  unfolding AllHeld
  none_waits token [] h w = w
  none_waits token (tracker ∷ rest) (held, h) (inl here) =
      let same : TrackerState.active never ≡ TrackerState.active (until token) = sym held ∙ here in
      cc
  none_waits token (tracker ∷ rest) (held, h) (inr there) = none_waits token rest h there

  inactive_of_waits :
      (token : Token) (state : TriggerState) (trackers : List (Tracker p))
      → Holds state trackers
      → SomeWaits token trackers
      → state ≡ TriggerState.inactive
  unfolding Holds
  inactive_of_waits token inactive trackers h w = refl
  inactive_of_waits token active trackers h w = absurd (none_waits token trackers h w)

  -- What a wakeup reports, and what follows where it reports that a tracker has expired.
  wakeup_reports :
      (trigger : Trigger p) (token : Token)
      → IsTrigger trigger
      → (let r = wakeup trigger token in
          ((r.0 ≡ true)
            × SomeWaits token trigger.trackers
            × (r.1.state ≡ TriggerState.inactive)
            × ((event : Event) (loopback : Loopback) (now : Instant)
                → (apply (r.1) event loopback now).0 ≢ activates))
          ⊎ ((r.0 ≡ false) × (SomeWaits token trigger.trackers → ⊥)))
  unfolding IsTrigger wakeup
  wakeup_reports trigger token h = elim (any_expires token trigger.trackers) [
    | inr missing ↦ inr missing
    | inl (found, w) ↦ inl (
      found,
      w,
      inactive_of_waits token trigger.state trigger.trackers h w,
      λ event loopback now. invalid_inactive ((wakeup trigger token).1) event loopback now (
          expired-HasInvalid token trigger.trackers (map (expire token) trigger.trackers)
            (expire-AllExpireTo token trigger.trackers) w),
    )
  ]

  -- Of a trigger that satisfies the invariant, a wakeup makes exactly the trackers invalid that are held
  -- until its token, and leaves the other trackers and the rest of the trigger as they are; it reports
  -- whether there was such a tracker, and if so, the trigger is not active, and whatever event comes next
  -- does not activate it.
  pub wakeup_lem :
      (trigger : Trigger p) (token : Token)
      → IsTrigger trigger
      → (let r = wakeup trigger token in
          AllExpireTo token trigger.trackers (r.1.trackers)
          × (r.1 ≡ record trigger { trackers = r.1.trackers })
          × (((r.0 ≡ true)
                × SomeWaits token trigger.trackers
                × (r.1.state ≡ TriggerState.inactive)
                × ((event : Event) (loopback : Loopback) (now : Instant)
                    → (apply (r.1) event loopback now).0 ≢ activates))
              ⊎ ((r.0 ≡ false) × (SomeWaits token trigger.trackers → ⊥))))
  unfolding wakeup
  wakeup_lem trigger token h =
      (expire-AllExpireTo token trigger.trackers, refl, wakeup_reports trigger token h)
