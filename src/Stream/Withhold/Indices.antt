-- ===== src/Stream/Withhold/Indices.antt =====
-- The indices in the records of a hook group: each is that of a hook of the group.
use evsieve.Base.{
  ◌≡◌, refl, ℕ, ◌<◌, ◌≤◌, ◌+◌, zero, suc, List, [], ◌∷◌, map, length, get_elem?, some, All,
  All-append, All-map, arith, ap,
}
use evsieve.Platform.{Platform}
use evsieve.Event.{Event}
use evsieve.Key.{Key}
use evsieve.Time.{Instant}
use evsieve.Loopback.{Loopback}
use evsieve.State.{State}
use evsieve.Stream.Trigger
use evsieve.Stream.Trigger.{Trigger, TriggerResponse, activates, releases, interacts}
use evsieve.Stream.Hook.{Hook, EventDispatcher, map_event, apply_response, or_event, sent}
use evsieve.Stream.Withhold.{
  HookIdx, TriggerResponseRecord, new_record, record_response, with_response, run_hook, run_hooks,
  fresh, trigger_of,
}

-- All hooks that a record names as activated come before the given index.
IsBelow : ℕ → TriggerResponseRecord → Type 0
IsBelow n r = All (λ i. i < n) r.activated_triggers

module _ ⦃p : Platform⦄ where
  AllBelow : ℕ → List (Event × TriggerResponseRecord) → Type 0
  unfolding IsBelow
  AllBelow n events = All (λ e. IsBelow n e.1) events

  fresh-AllBelow : (n : ℕ) (events : List Event) → AllBelow n (map fresh events)
  unfolding AllBelow IsBelow
  fresh-AllBelow n [] = tt
  fresh-AllBelow n (event ∷ events) = (tt, fresh-AllBelow n events)

  record-IsBelow :
      (n : ℕ) (response : TriggerResponse) (idx : HookIdx) (r : TriggerResponseRecord)
      → idx < n
      → IsBelow n r
      → IsBelow n (record_response response idx r)
  unfolding IsBelow record_response
  record-IsBelow n TriggerResponse.none idx r below h = h
  record-IsBelow n interacts idx r below h = h
  record-IsBelow n releases idx r below h = h
  record-IsBelow n activates idx r below h =
      All-append (λ i. i < n) r.activated_triggers (idx ∷ []) h (below, tt)

  with_response-IsBelow :
      (n : ℕ) (r : TriggerResponseRecord) (trigger : Trigger p) (idx : HookIdx) (event : Event)
      (response : TriggerResponse)
      → idx < n
      → IsBelow n r
      → IsBelow n (with_response r trigger idx event response)
  unfolding IsBelow with_response
  with_response-IsBelow n r trigger idx event response below h =
      record-IsBelow n response idx r below h

  sent-AllBelow :
      (n : ℕ) (keys : List (Key p)) (event : Event) (r : TriggerResponseRecord)
      → IsBelow n r
      → AllBelow n (sent keys event r)
  unfolding AllBelow
  sent-AllBelow n [] event r h = tt
  sent-AllBelow n (key ∷ keys) event r h = (h, sent-AllBelow n keys event r h)

  -- The records of what a hook writes are that of the event and new ones.
  map_event-AllBelow :
      (n : ℕ) (d : EventDispatcher p) (event : Event) (r : TriggerResponseRecord)
      (response : TriggerResponse)
      → IsBelow n r
      → AllBelow n ((map_event d event r new_record response).0)
  unfolding AllBelow IsBelow map_event
  map_event-AllBelow n d event r activates h = (h, sent-AllBelow n d.on_press event new_record tt)
  map_event-AllBelow n d event r releases h =
      All-append (λ e. IsBelow n e.1)
        (sent d.on_release (or_event d.activating_event event) new_record) _
        (sent-AllBelow n d.on_release (or_event d.activating_event event) new_record tt) (h, tt)
  map_event-AllBelow n d event r interacts h = (h, tt)
  map_event-AllBelow n d event r TriggerResponse.none h = (h, tt)

  run_hook-AllBelow :
      (n : ℕ) (idx : HookIdx) (h : Hook p) (events : List (Event × TriggerResponseRecord))
      (state : State) (loopback : Loopback) (now : Instant)
      → idx < n
      → AllBelow n events
      → AllBelow n ((run_hook idx h events state loopback now).0)
  unfolding AllBelow run_hook apply_response
  run_hook-AllBelow n idx h [] state loopback now below all = tt
  run_hook-AllBelow n idx h ((event, r) ∷ events) state loopback now below all =
      let reply = Trigger.apply h.trigger event loopback now in
      let r' = with_response r (reply.1) idx event (reply.0) in
      let out = apply_response h.actuator (reply.0) event r' new_record state in
      All-append (λ e. IsBelow n e.1) (out.0) _
        (map_event-AllBelow n h.actuator.event_dispatcher event r' (reply.0)
          (with_response-IsBelow n r (reply.1) idx event (reply.0) below (all.0)))
        (run_hook-AllBelow n idx (record { trigger = reply.1; actuator = out.1 }) events (out.2)
          (reply.2) now below (all.1))

  run_hooks-AllBelow :
      (n : ℕ) (idx : HookIdx) (hooks : List (Hook p))
      (events : List (Event × TriggerResponseRecord)) (state : State) (loopback : Loopback)
      (now : Instant)
      → idx + length hooks ≤ n
      → AllBelow n events
      → AllBelow n ((run_hooks idx hooks events state loopback now).0)
  unfolding run_hooks
  run_hooks-AllBelow n idx [] events state loopback now fits all = all
  run_hooks-AllBelow n idx (h ∷ hooks) events state loopback now fits all =
      let r = run_hook idx h events state loopback now in
      run_hooks-AllBelow n (suc idx) hooks (r.0) (r.2) (r.3) now (omega (arith, fits))
        (run_hook-AllBelow n idx h events state loopback now (omega (arith, fits)) all)

  length-run_hooks :
      (idx : HookIdx) (hooks : List (Hook p)) (events : List (Event × TriggerResponseRecord))
      (state : State) (loopback : Loopback) (now : Instant)
      → length (map trigger_of ((run_hooks idx hooks events state loopback now).1)) ≡ length hooks
  unfolding run_hooks
  length-run_hooks idx [] events state loopback now = refl
  length-run_hooks idx (h ∷ hooks) events state loopback now =
      let r = run_hook idx h events state loopback now in
      ap suc (length-run_hooks (suc idx) hooks (r.0) (r.2) (r.3) now)

  trigger_below :
      (triggers : List (Trigger p)) (i : ℕ)
      → i < length triggers
      → (trigger : Trigger p) × (get_elem? triggers i ≡ some trigger)
  trigger_below [] i below = absurd (omega (arith, below))
  trigger_below (trigger ∷ triggers) zero below = (trigger, refl)
  trigger_below (trigger ∷ triggers) (suc i) below = trigger_below triggers i (omega (arith, below))

  -- In what the hooks of a group write, for any events, each hook that a record names as activated has
  -- its trigger in the list that the withhold is given, so that indexing that list does not panic.
  pub activated_triggers_exist :
      (hooks : List (Hook p)) (events : List Event) (state : State) (loopback : Loopback)
      (now : Instant)
      → (let r = run_hooks 0 hooks (map fresh events) state loopback now in
          All
            (λ e.
              All
                (λ i. (trigger : Trigger p) × (get_elem? (map trigger_of (r.1)) i ≡ some trigger))
                e.1.activated_triggers)
            (r.0))
  unfolding AllBelow IsBelow
  activated_triggers_exist hooks events state loopback now =
      let r = run_hooks 0 hooks (map fresh events) state loopback now in
      let triggers = map trigger_of (r.1) in
      let size = length-run_hooks 0 hooks (map fresh events) state loopback now in
      All-map (r.0)
        (λ e h.
          All-map e.1.activated_triggers
            (λ i below. trigger_below triggers i (omega (arith, below, size))) h)
        (run_hooks-AllBelow (length hooks) 0 hooks (map fresh events) state loopback now
          (omega arith) (fresh-AllBelow (length hooks) events))
