-- ===== src/Stream/Trigger/Invariant.antt =====
-- The invariant of a trigger: while it is active, all its trackers are, and none of them expires.
use evsieve.Base.{
  ◌≡◌, refl, sym, ap, subst, &&_left, &&_right, ◌∙◌, Bool, true, false, ◌&&◌, Option, List, [], ◌∷◌,
  map, any, All, Bool-cases, inl, inr, ◌⊎◌, if◌then◌else◌,
}
use evsieve.Platform.{Platform}
use evsieve.Event.{Event}
use evsieve.Key
use evsieve.Key.{Key}
use evsieve.Time.{Instant, Duration}
use evsieve.Loopback.{Loopback}
use evsieve.Stream.Trigger.{
  Tracker, TrackerState, Trigger, TriggerState, never, active, inactive, new, apply, touch,
  touch_all, activate, activates_by, tracker_matches, invalidate, invalidate_out_of_order,
  hold_forever, respond, settle, break_or_ignore, is_active, all_active,
}

module _ ⦃p : Platform⦄ where
  -- Every tracker is held down, with no time at which it expires.
  unfoldable pub AllHeld : List (Tracker p) → Type 0
  AllHeld = All (λ tracker. tracker.state ≡ TrackerState.active never)

  -- What a trigger that is in this state has for trackers.
  unfoldable pub Holds : TriggerState → List (Tracker p) → Type 0
  unfolding AllHeld
  Holds active trackers = AllHeld trackers
  Holds inactive trackers = Unit

  -- An active trigger has all its trackers held.
  unfoldable pub IsTrigger : Trigger p → Type 0
  unfolding Holds
  IsTrigger trigger = Holds trigger.state trigger.trackers

  -- A trigger starts well formed.
  pub new-IsTrigger :
      (keys breaks_on : List (Key p)) (period : Option Duration) (sequential : Bool)
      → IsTrigger (new keys breaks_on period sequential)
  unfolding IsTrigger Holds new
  new-IsTrigger keys breaks_on period sequential = tt

  held-hold_forever : (trackers : List (Tracker p)) → AllHeld (map hold_forever trackers)
  unfolding AllHeld
  held-hold_forever [] = tt
  held-hold_forever (tracker ∷ rest) = (refl, held-hold_forever rest)

  -- Each tracker is held for ever or inactive.
  HeldOrInactive : Tracker p → Type 0
  HeldOrInactive tracker =
      (tracker.state ≡ TrackerState.active never) ⊎ (tracker.state ≡ TrackerState.inactive)

  held_of_active :
      (trackers : List (Tracker p))
      → All HeldOrInactive trackers
      → all_active trackers ≡ true
      → AllHeld trackers
  unfolding AllHeld HeldOrInactive
  held_of_active [] h a = tt
  held_of_active (tracker ∷ rest) (inl held, h) a = (held, held_of_active rest h (rw held at a))
  held_of_active (tracker ∷ rest) (inr off, h) a = let f = rw off at a in cc

  activated_held :
      (period : Option Duration) (tracker : Tracker p) (now : Instant) (loopback : Loopback)
      → tracker.state ≡ TrackerState.active never
      → (activate period tracker now tracker.state loopback).0.state ≡ TrackerState.active never
  unfolding activate
  activated_held period tracker now loopback held =
      subst (λ s. (activate period tracker now s loopback).0.state ≡ TrackerState.active never)
        (sym held) held

  touch_held :
      (period : Option Duration) (tracker : Tracker p) (event : Event) (now : Instant)
      (loopback : Loopback)
      → tracker.state ≡ TrackerState.active never
      → HeldOrInactive ((touch period tracker event now loopback).0)
  unfolding touch activate HeldOrInactive
  touch_held period tracker event now loopback held =
      elim (Bool-cases (activates_by tracker event)) [
        | inl on ↦ rw on (inl (activated_held period tracker now loopback held))
        | inr off ↦ rw off (inr refl)
      ]

  touch_all_held :
      (period : Option Duration) (trackers : List (Tracker p)) (event : Event) (now : Instant)
      (loopback : Loopback)
      → AllHeld trackers
      → All HeldOrInactive ((touch_all period trackers event now loopback).1)
  unfolding touch_all AllHeld HeldOrInactive
  touch_all_held period [] event now loopback h = tt
  touch_all_held period (tracker ∷ rest) event now loopback (held, h) =
      elim (Bool-cases (tracker_matches tracker event)) [
        | inl on ↦ rw on (
          touch_held period tracker event now loopback held,
          touch_all_held period rest event now ((touch period tracker event now loopback).1) h,
        )
        | inr off ↦ rw off (inl held, touch_all_held period rest event now loopback h)
      ]

  ordered_of_active :
      (trackers : List (Tracker p))
      → all_active trackers ≡ true
      → invalidate_out_of_order trackers ≡ trackers
  unfolding invalidate_out_of_order
  ordered_of_active [] a = refl
  ordered_of_active (tracker ∷ rest) a =
      rw (invalidate_out_of_order, &&_left (is_active tracker) (all_active rest) a)
        (ap (λ r. tracker ∷ r)
          (ordered_of_active rest (&&_right (is_active tracker) (all_active rest) a)))

  respond-IsTrigger :
      (trigger : Trigger p) (trackers : List (Tracker p)) (state : TriggerState) (on : Bool)
      → (Holds state trackers ⊎ (on ≡ false))
      → trigger.state ≡ state
      → IsTrigger ((respond trigger trackers state on).1)
  unfolding respond IsTrigger Holds
  respond-IsTrigger trigger trackers inactive true h same = held-hold_forever trackers
  respond-IsTrigger trigger trackers inactive false h same = rw same tt
  respond-IsTrigger trigger trackers active false h same = tt
  respond-IsTrigger trigger trackers active true (inl h) same = rw same h
  respond-IsTrigger trigger trackers active true (inr h) same = cc

  -- What a trigger in this state may have for trackers when it settles.
  MaySettle : TriggerState → List (Tracker p) → Type 0
  unfolding AllHeld
  MaySettle active trackers = AllHeld trackers ⊎ (all_active trackers ≡ false)
  MaySettle inactive trackers = Unit

  active_of_held : (trackers : List (Tracker p)) → AllHeld trackers → all_active trackers ≡ true
  unfolding AllHeld
  active_of_held [] h = refl
  active_of_held (tracker ∷ rest) (held, h) = rw held (active_of_held rest h)

  -- Ordering neither activates a tracker nor ends that all are active.
  pub all_active-ordered :
      (trackers : List (Tracker p))
      → all_active (invalidate_out_of_order trackers) ≡ all_active trackers
  unfolding invalidate_out_of_order invalidate
  all_active-ordered [] = refl
  all_active-ordered (tracker ∷ rest) = elim (Bool-cases (is_active tracker)) [
    | inl on ↦ rw (invalidate_out_of_order, on, on) (all_active-ordered rest)
    | inr off ↦ rw (invalidate_out_of_order, off, invalidate, off)
  ]

  -- Where one tracker is active, invalidating all leaves some that is not.
  pub all_active-invalidated :
      (trackers : List (Tracker p))
      → any is_active trackers ≡ true
      → all_active (map invalidate trackers) ≡ false
  unfolding invalidate
  all_active-invalidated [] h = cc
  all_active-invalidated (tracker ∷ rest) h = elim (Bool-cases (is_active tracker)) [
    | inl on ↦ rw (invalidate, on)
    | inr off ↦ rw (invalidate, off, off)
  ]

  -- Ordering changes no list of trackers that are all active.
  order_settles :
      (sequential : Bool) (state : TriggerState) (trackers : List (Tracker p))
      → MaySettle state trackers
      → (let ordered = if sequential then invalidate_out_of_order trackers else trackers in
          Holds state ordered ⊎ (all_active ordered ≡ false))
  unfolding MaySettle Holds
  order_settles false inactive trackers h = inl tt
  order_settles true inactive trackers h = inl tt
  order_settles false active trackers h = h
  order_settles true active trackers (inl h) =
      inl (subst AllHeld (sym (ordered_of_active trackers (active_of_held trackers h))) h)
  order_settles true active trackers (inr n) = inr (all_active-ordered trackers ∙ n)

  settle-IsTrigger :
      (trigger : Trigger p) (trackers : List (Tracker p))
      → MaySettle trigger.state trackers
      → IsTrigger ((settle trigger trackers).1)
  unfolding settle
  settle-IsTrigger trigger trackers h =
      let ordered = if trigger.sequential then invalidate_out_of_order trackers else trackers in
      respond-IsTrigger trigger ordered trigger.state (all_active ordered)
        (order_settles trigger.sequential trigger.state trackers h) refl

  touched-MaySettle :
      (trigger : Trigger p) (state : TriggerState) (event : Event) (loopback : Loopback)
      (now : Instant)
      → Holds state trigger.trackers
      → MaySettle state ((touch_all trigger.period trigger.trackers event now loopback).1)
  unfolding MaySettle Holds
  touched-MaySettle trigger inactive event loopback now h = tt
  touched-MaySettle trigger active event loopback now h =
      let trackers = (touch_all trigger.period trigger.trackers event now loopback).1 in
      elim (Bool-cases (all_active trackers)) [
        | inl on ↦ inl (
            held_of_active trackers
              (touch_all_held trigger.period trigger.trackers event now loopback h) on)
        | inr off ↦ inr off
      ]

  -- Where no tracker matched, none has changed.
  untouched :
      (period : Option Duration) (trackers : List (Tracker p)) (event : Event) (now : Instant)
      (loopback : Loopback)
      → (touch_all period trackers event now loopback).0 ≡ false
      → (touch_all period trackers event now loopback).1 ≡ trackers
  unfolding touch_all
  untouched period [] event now loopback h = refl
  untouched period (tracker ∷ rest) event now loopback h =
      elim (Bool-cases (tracker_matches tracker event)) [
        | inl on ↦ let f = rw on at h in cc
        | inr off ↦
            rw off (ap (λ r. tracker ∷ r) (untouched period rest event now loopback (rw off at h)))
      ]

  broken-MaySettle :
      (state : TriggerState) (trackers : List (Tracker p))
      → any is_active trackers ≡ true
      → MaySettle state (map invalidate trackers)
  unfolding MaySettle
  broken-MaySettle inactive trackers h = tt
  broken-MaySettle active trackers h = inr (all_active-invalidated trackers h)

  break-IsTrigger :
      (trigger : Trigger p) (trackers : List (Tracker p)) (event : Event)
      → Holds trigger.state trackers
      → IsTrigger ((break_or_ignore trigger trackers event).1)
  unfolding break_or_ignore IsTrigger
  break-IsTrigger trigger trackers event h =
      let broken = any (λ key. Key.matches key event) trigger.breaks_on in
      let some_active = any is_active trackers in
      elim (Bool-cases (broken && some_active)) [
        | inl on ↦
            rw (break_or_ignore, on)
              (settle-IsTrigger trigger (map invalidate trackers)
                (broken-MaySettle trigger.state trackers (&&_right broken some_active on)))
        | inr off ↦ rw (break_or_ignore, off) h
      ]

  -- Applying an event to a trigger that satisfies the invariant (while it is active, all its
  -- trackers are active and none expires) leaves it so.
  pub apply-IsTrigger :
      (trigger : Trigger p) (event : Event) (loopback : Loopback) (now : Instant)
      → IsTrigger trigger
      → IsTrigger ((apply trigger event loopback now).1)
  unfolding apply IsTrigger
  apply-IsTrigger trigger event loopback now h =
      let touched = touch_all trigger.period trigger.trackers event now loopback in
      elim (Bool-cases (touched.0)) [
        | inl on ↦
            rw (apply, on)
              (settle-IsTrigger trigger (touched.1)
                (touched-MaySettle trigger trigger.state event loopback now h))
        | inr off ↦
            rw (apply, off)
              (break-IsTrigger trigger (touched.1) event (
                subst (Holds trigger.state)
                  (sym (untouched trigger.period trigger.trackers event now loopback off)) h))
      ]
