-- ===== src/Stream/Run/Laws.antt =====
-- What the staging of `struct Setup` keeps: each event that the stream writes, and their order.
use evsieve.Base.{◌≡◌, refl, sym, ap, ◌∙◌, false, some, List, [], ◌∷◌, ◌++◌}
use mathlib.Core.List.{append_assoc, append-nil}
use evsieve.Platform.{Platform}
use evsieve.Event.{Event, is_syn}
use evsieve.Time.{Instant}
use evsieve.Stream.Run.{
  OutputCall, route_events, synchronize, update_caps, Outcome, Setup, run_events, syn, stage,
  stage_each, resume, run,
}

-- The events that the output devices got, in order.
routed : List OutputCall → List Event
routed [] = []
routed (route_events events ∷ calls) = events ++ routed calls
routed (synchronize ∷ calls) = routed calls
routed (update_caps caps ∷ calls) = routed calls

routed-append : (xs ys : List OutputCall) → routed (xs ++ ys) ≡ routed xs ++ routed ys
unfolding routed
routed-append [] ys = refl
routed-append (route_events events ∷ xs) ys =
    ap (λ r. events ++ r) (routed-append xs ys) ∙ sym (append_assoc events (routed xs) (routed ys))
routed-append (synchronize ∷ xs) ys = routed-append xs ys
routed-append (update_caps caps ∷ xs) ys = routed-append xs ys

module _ ⦃p : Platform⦄ where
  -- What was sent, and what is staged to be.
  unfoldable pub sent : Setup p → List Event
  unfolding routed
  sent s = routed s.output ++ s.staged_events

  sent-syn : (s : Setup p) → sent (syn s) ≡ sent s
  unfolding sent syn routed
  sent-syn s =
      append-nil _
      ∙ routed-append s.output (route_events s.staged_events ∷ synchronize ∷ [])
      ∙ ap (λ r. routed s.output ++ r) (append-nil s.staged_events)

  sent-push :
      (s : Setup p) (events : List Event)
      → sent (record s { staged_events = s.staged_events ++ events }) ≡ sent s ++ events
  unfolding sent
  sent-push s events = sym (append_assoc (routed s.output) s.staged_events events)

  sent-stage_each :
      (s : Setup p) (events : List Event) → sent (stage_each s events) ≡ sent s ++ events
  unfolding stage_each
  sent-stage_each s [] = sym (append-nil (sent s))
  sent-stage_each s (event ∷ events) =
      let s' = record s { staged_events = s.staged_events ++ event ∷ [] } in
      sent-stage_each (syn s') events
      ∙ ap (λ r. r ++ events) (sent-syn s' ∙ sent-push s (event ∷ []))
      ∙ append_assoc (sent s) (event ∷ []) events

  -- Staging keeps each event once and in order.
  pub sent-stage : (s : Setup p) (events : List Event) → sent (stage s events) ≡ sent s ++ events
  unfolding stage
  sent-stage s [] = sym (append-nil (sent s))
  sent-stage s (event ∷ []) = sent-push s (event ∷ [])
  sent-stage s (event ∷ event' ∷ events) = sent-stage_each s (event ∷ event' ∷ events)

  -- Running an event that is no SYN through the setup, without the auto-scan feature, where the
  -- stream does not panic: the setup does not panic, and it adds to what is sent the events that
  -- the stream writes, in their order, each once.
  pub sent-run :
      (s : Setup p) (time : Instant) (event : Event) (o : Outcome p)
      → is_syn event.code.ev_type ≡ false
      → run_events (event ∷ []) s.stream s.state s.loopback time ≡ some o
      → (s' : Setup p) × (run false s time event ≡ some s') × (sent s' ≡ sent s ++ o.events_out)
  unfolding run sent
  sent-run s time event o not_syn done = (
    stage (resume s o) o.events_out,
    rw (not_syn, done) refl,
    sent-stage (resume s o) o.events_out,
  )
