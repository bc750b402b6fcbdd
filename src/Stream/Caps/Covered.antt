-- ===== src/Stream/Caps/Covered.antt =====
-- The capabilities that a stream announces cover the events that it writes.
use evsieve.Base.{
  ◌≡◌, subst, ◌∙◌, ℕ, leb, ◌*◌, Bool, true, false, some, List, [], ◌∷◌, length, All, All-map,
  Option-cases, inl, inr, if◌then◌else◌,
}
use evsieve.Platform.{Platform}
use evsieve.Event.{Event}
use evsieve.Capability.{Capability}
use evsieve.State.{State}
use evsieve.Time.{Instant}
use evsieve.Loopback.{Loopback}
use evsieve.Capability.Aggregate.Normalized.{
  AreNormal, aggregate_capabilities-AreNormal, offered-merged,
}
use evsieve.Capability.Aggregate.{aggregate_capabilities}
use evsieve.Stream.Map.Covered.{IsOffered}
use evsieve.Stream.Run.{StreamEntry, Outcome, Step, step_entry, run_events}
use evsieve.Stream.Caps.{entry_caps, caps_loop, run_caps}
use evsieve.Stream.Caps.Entries.{IsCovered, Covers, entry_offers}

module _ ⦃p : Platform⦄ where
  -- The first entry of a stream that runs, and the rest of it.
  run_events_lem :
      (entry : StreamEntry p) (rest : List (StreamEntry p)) (events : List Event) (state : State)
      (loopback : Loopback) (now : Instant) (o : Outcome p)
      → run_events events (entry ∷ rest) state loopback now ≡ some o
      → (step : Step) × (o' : Outcome p) × (step_entry entry events state loopback now ≡ some step)
        × (run_events (step.0) rest (step.2) (step.3) now ≡ some o')
        × (o'.events_out ≡ o.events_out)
  unfolding run_events
  run_events_lem entry rest events state loopback now o h =
      elim (Option-cases (step_entry entry events state loopback now)) [
        | inl e ↦ let f = rw (run_events, e) at h in cc
        | inr ((events', entry', state', loopback'), e) ↦
            elim (Option-cases (run_events events' rest state' loopback' now)) [
              | inl k ↦ let f = rw (run_events, e, k) at h in cc
              | inr (o', k) ↦
                  let f = rw (run_events, e, k) at h in
                  ((events', entry', state', loopback'), o', e, k, cc)
            ]
      ]

  -- The first entry of the loop, whether or not its capabilities are aggregated.
  caps_loop_lem :
      (entry : StreamEntry p) (rest : List (StreamEntry p)) (caps : List Capability) (last : ℕ)
      (out : List Capability)
      → caps_loop (entry ∷ rest) caps last ≡ some out
      → (made : List Capability) × (entry_caps entry caps ≡ some made)
        × (many : Bool) × (next : ℕ) × (caps_loop rest
              (if many then aggregate_capabilities made else made)
              next
            ≡ some out)
  unfolding caps_loop
  caps_loop_lem entry rest caps last out h = elim (Option-cases (entry_caps entry caps)) [
    | inl e ↦ let f = rw (caps_loop, e) at h in cc
    | inr (made, e) ↦
        let many = leb (2 * last) (length made) in
        (
          made,
          e,
          many,
          (if many then length (aggregate_capabilities made) else last),
          rw (caps_loop, e) at h,
        )
  ]

  aggregated :
      (many : Bool) (caps : List Capability) (events : List Event)
      → AreNormal caps
      → All (IsOffered caps) events
      → AreNormal (if many then aggregate_capabilities caps else caps)
        × All (IsOffered (if many then aggregate_capabilities caps else caps)) events
  aggregated false caps events n h = (n, h)
  aggregated true caps events n h = (
    aggregate_capabilities-AreNormal caps n,
    All-map events (λ e (k, f). (offered-merged e caps n ∙ k, f)) h,
  )

  loop_covers :
      (stream : List (StreamEntry p)) (events : List Event) (state : State) (loopback : Loopback)
      (now : Instant) (caps out : List Capability) (last : ℕ) (o : Outcome p)
      → All IsCovered stream
      → AreNormal caps
      → All (IsOffered caps) events
      → run_events events stream state loopback now ≡ some o
      → caps_loop stream caps last ≡ some out
      → All (IsOffered out) o.events_out
  unfolding run_events caps_loop
  loop_covers [] events state loopback now caps out last o ok n h ran made =
      let whole : events ≡ o.events_out = cc in
      let same : aggregate_capabilities caps ≡ out = cc in
      subst (λ c. All (IsOffered c) o.events_out) same
        (subst (All (IsOffered (aggregate_capabilities caps))) whole
          ((aggregated true caps events n h).1))
  loop_covers (entry ∷ stream) events state loopback now caps out last o (ok, oks) n h ran made =
      let (step, o', stepped, ran', same) =
        run_events_lem entry stream events state loopback now o ran in
      let (caps', e, many, next, made') = caps_loop_lem entry stream caps last out made in
      let (n', covers) = entry_offers entry events state loopback now caps caps' ok n h e in
      let (n'', h') = aggregated many caps' (step.0) n' (subst (Covers caps') stepped covers) in
      subst (All (IsOffered out)) same
        (loop_covers stream (step.0) (step.2) (step.3) now _ out next o' oks n'' h' ran' made')

  -- For a stream of maps and toggles with plain keys, merges, delays and prints: if the events that enter
  -- are among the capabilities that enter, whose sets are normalized, and have `i32` values, then
  -- the events that `run_events` writes are among the capabilities that `run_caps` returns, and have `i32`
  -- values.
  pub run_caps-covers :
      (stream : List (StreamEntry p)) (events : List Event) (state : State) (loopback : Loopback)
      (now : Instant) (caps out : List Capability) (o : Outcome p)
      → All IsCovered stream
      → AreNormal caps
      → All (IsOffered caps) events
      → run_events events stream state loopback now ≡ some o
      → run_caps stream caps ≡ some out
      → All (IsOffered out) o.events_out
  unfolding run_caps
  run_caps-covers stream events state loopback now caps out o ok n h ran made =
      loop_covers stream events state loopback now caps out (length caps) o ok n h ran made
