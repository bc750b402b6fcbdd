-- ===== src/Stream/Caps/Entries.antt =====
-- What each entry writes lies in what it announces, for the entries that the theorem on streams is about.
use evsieve.Base.{
  ◌≡◌, refl, subst, ℕ, zero, suc, Bool, not, Option, none, some, List, [], ◌∷◌, map, retain,
  get_elem?, All, All-append, Bool-cases, inl, inr,
}
use mathlib.Core.List.{flat_map}
use evsieve.Platform.{Platform}
use evsieve.Event.{Event}
use evsieve.Capability.{Capability}
use evsieve.Key
use evsieve.Key.{Key}
use evsieve.State.{State}
use evsieve.Time.{Instant}
use evsieve.Loopback.{Loopback}
use evsieve.Stream.Map
use evsieve.Stream.Map.{Map}
use evsieve.Capability.Aggregate.Normalized.{AreNormal}
use evsieve.Stream.Merge.Passing.{apply_to_all_keeps}
use evsieve.Stream.Toggle.Output
use evsieve.Stream.Map.Covered.{IsOffered, IsCoveredMap}
use evsieve.Stream.Map.Covered.AllCaps.{apply_to_all_caps-AreNormal, apply_to_all_caps-offers}
use evsieve.Stream.Toggle
use evsieve.Stream.Toggle.{Toggle}
use evsieve.Stream.Merge
use evsieve.Stream.Merge.{Merge}
use evsieve.Stream.Delay
use evsieve.Stream.Run.{
  StreamEntry, hook, hook_group, toggle, print, merge, scale, rel_to_abs, delay,
  capability_override, Step, step_entry, toggled,
}
use evsieve.Stream.Caps.{entry_caps}

All-flat_map :
    (P Q : Event → Type 0) (f : Event → List Event) (events : List Event)
    → ((e : Event) → P e → All Q (f e))
    → All P events
    → All Q (flat_map f events)
unfolding flat_map
All-flat_map P Q f [] g h = tt
All-flat_map P Q f (e ∷ events) g (h, hs) =
    All-append Q (f e) (flat_map f events) (g e h) (All-flat_map P Q f events g hs)

All-retain :
    (P : Event → Type 0) (q : Event → Bool) (events : List Event)
    → All P events
    → All P (retain q events)
All-retain P q [] h = tt
All-retain P q (e ∷ events) (h, hs) = elim (Bool-cases (q e)) [
  | inl there ↦ rw there (h, All-retain P q events hs)
  | inr gone ↦ rw gone (All-retain P q events hs)
]

module _ ⦃p : Platform⦄ where
  All-get_elem? :
      (P : Key p → Type 0) (keys : List (Key p)) (i : ℕ) (key : Key p)
      → All P keys
      → get_elem? keys i ≡ some key
      → P key
  All-get_elem? P [] i key h e = cc
  All-get_elem? P (k ∷ keys) zero key (h, hs) e = let same : k ≡ key = cc in subst P same h
  All-get_elem? P (k ∷ keys) (suc i) key (h, hs) e = All-get_elem? P keys i key hs e

  All-merged :
      (P : Event → Type 0) (event : Event) (keys : List (Key p))
      → All (λ k. P (Key.merge k event)) keys
      → All P (map (λ k. Key.merge k event) keys)
  All-merged P event [] h = tt
  All-merged P event (k ∷ keys) (h, hs) = (h, All-merged P event keys hs)

  map_offers :
      (m : Map p) (caps out : List Capability) (events : List Event)
      → IsCoveredMap m
      → AreNormal caps
      → Map.apply_to_all_caps m caps ≡ some out
      → All (IsOffered caps) events
      → All (IsOffered out) (Map.apply_to_all m events)
  unfolding Map.apply_to_all Map.apply
  map_offers m caps out events ok n made h =
      All-flat_map (IsOffered caps) (IsOffered out) (Map.apply m) events
        (λ e k.
          let (off, on) = apply_to_all_caps-offers m e caps out ok n k made in
          elim (Bool-cases (Key.matches m.input_key e)) [
            | inl on_it ↦ rw on_it (All-merged (IsOffered out) e m.output_keys (on on_it))
            | inr off_it ↦ rw off_it (off off_it, tt)
          ])
        h

  -- The map that a toggle's capabilities are those of.
  abbrev as_map : Toggle p → Map p
  as_map t = record { input_key = t.input_key; output_keys = t.output_keys }

  toggle_one :
      (t : Toggle p) (caps out : List Capability) (event : Event) (state state' : State)
      (events : List Event)
      → IsCoveredMap (as_map t)
      → AreNormal caps
      → Map.apply_to_all_caps (as_map t) caps ≡ some out
      → IsOffered caps event
      → Toggle.apply t event state ≡ some (events, state')
      → All (IsOffered out) events
  toggle_one t caps out event state state' events ok n made h e =
      let (off, on) = apply_to_all_caps-offers (as_map t) event caps out ok n h made in
      elim (Output.apply_lem t event state state' events e) [
        | inl (no_match, same) ↦ subst (All (IsOffered out)) same (off no_match, tt)
        | inr (i, key, matched, there, same) ↦ subst (All (IsOffered out)) same (
          All-get_elem? (λ k. IsOffered out (Key.merge k event)) t.output_keys i key (on matched)
              there,
          tt,
        )
      ]

  toggle_offers :
      (t : Toggle p) (caps out : List Capability) (events written : List Event)
      (state state' : State)
      → IsCoveredMap (as_map t)
      → AreNormal caps
      → Map.apply_to_all_caps (as_map t) caps ≡ some out
      → All (IsOffered caps) events
      → Toggle.apply_to_all t events state ≡ some (written, state')
      → All (IsOffered out) written
  unfolding Toggle.apply_to_all
  toggle_offers t caps out [] written state state' ok n made h e =
      let none_written : [] ≡ written = cc in subst (All (IsOffered out)) none_written tt
  toggle_offers t caps out (event ∷ events) written state state' ok n made (h, hs) e =
      let (first, middle, rest, e1, e2, whole) =
        Output.apply_to_all_lem t event events state state' written e in
      subst (All (IsOffered out)) whole (
        All-append (IsOffered out) first rest
          (toggle_one t caps out event state middle first ok n made h e1)
          (toggle_offers t caps out events rest middle state' ok n made hs e2))

  -- Maps and toggles with plain keys, and the entries that change no capabilities.
  unfoldable pub IsCovered : StreamEntry p → Type 0
  IsCovered (StreamEntry.map m) = IsCoveredMap m
  IsCovered (toggle t) = IsCoveredMap (as_map t)
  IsCovered (merge m) = Unit
  IsCovered (delay d) = Unit
  IsCovered print = Unit
  IsCovered _ = ⊥

  abbrev pub Covers : List Capability → Option (Step) → Type 0
  Covers out none = Unit
  Covers out (some (events, entry, state, loopback)) = All (IsOffered out) events

  toggled-Covers :
      (t : Toggle p) (out : List Capability) (loopback : Loopback) (r : Option (List Event × State))
      → ((events : List Event) (state : State)
          → r ≡ some (events, state)
          → All (IsOffered out) events)
      → Covers out (toggled t loopback r)
  toggled-Covers t out loopback none h = tt
  toggled-Covers t out loopback (some (events, state)) h = h events state refl

  pub entry_offers :
      (entry : StreamEntry p) (events : List Event) (state : State) (loopback : Loopback)
      (now : Instant) (caps out : List Capability)
      → IsCovered entry
      → AreNormal caps
      → All (IsOffered caps) events
      → entry_caps entry caps ≡ some out
      → AreNormal out × Covers out (step_entry entry events state loopback now)
  unfolding IsCovered entry_caps step_entry Toggle.apply_to_all_caps Delay.apply_to_all
  entry_offers (StreamEntry.map m) events state loopback now caps out ok n h e =
      (apply_to_all_caps-AreNormal m caps out ok n e, map_offers m caps out events ok n e h)
  entry_offers (toggle t) events state loopback now caps out ok n h e = (
    apply_to_all_caps-AreNormal (as_map t) caps out ok n e,
    toggled-Covers t out loopback (Toggle.apply_to_all t events state)
        (λ written state' made. toggle_offers t caps out events written state state' ok n e h made),
  )
  entry_offers (merge m) events state loopback now caps out ok n h e =
      let same : caps ≡ out = cc in
      (
        subst AreNormal same n,
        subst (λ c. All (IsOffered c) ((Merge.apply_to_all m events).0)) same
            (apply_to_all_keeps (IsOffered caps) m events h),
      )
  entry_offers (delay d) events state loopback now caps out ok n h e =
      let same : caps ≡ out = cc in
      (
        subst AreNormal same n,
        subst (λ c. All (IsOffered c) ((Delay.apply_to_all d events loopback now).0)) same
            (All-retain (IsOffered caps) (λ event. not (Delay.is_delayed d event)) events h),
      )
  entry_offers print events state loopback now caps out ok n h e =
      let same : caps ≡ out = cc in
      (subst AreNormal same n, subst (λ c. All (IsOffered c) events) same h)
  entry_offers (hook x) events state loopback now caps out ok n h e = absurd ok
  entry_offers (hook_group x) events state loopback now caps out ok n h e = absurd ok
  entry_offers (scale x) events state loopback now caps out ok n h e = absurd ok
  entry_offers (rel_to_abs x) events state loopback now caps out ok n h e = absurd ok
  entry_offers (capability_override x) events state loopback now caps out ok n h e = absurd ok
