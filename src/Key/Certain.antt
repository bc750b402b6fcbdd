-- ===== src/Key/Certain.antt =====
-- The certainty of `Key::matches_cap`: where it is `Always`, a key matches every event that the
-- capability allows and whose value is among the values that are returned.
use evsieve.Base.{
  ◌≡◌, refl, sym, subst, ◌∙◌, Bool, true, false, ◌&&◌, &&_left, &&_right, &&_intro, Option, none,
  some, List, [], ◌∷◌, all, All, Option-cases, inl, inr, arith,
}
use evsieve.Platform.{Platform}
use evsieve.Range.Sets
use evsieve.Range.Sets.{Set}
use evsieve.Range.Sets.Normal.{member, IsNormal, IsCanonical-IsNormal}
use evsieve.Range.Sets.Pairs.{member-intersect}
use evsieve.Event.{Event}
use evsieve.Capability.{Capability, Certainty, always, min_certainty}
use evsieve.Key.{
  Key, KeyProperty, of_code, of_domain, of_namespace, of_value, of_previous_value, of_type,
  of_virtual_type, affine_factor, property_matches, property_matches_cap, all_or_nothing, matches,
  matches_cap, matches_cap_loop, narrow,
}
use evsieve.Key.Caps.{Allows, IsRanged}

module _ ⦃p : Platform⦄ where
  -- What a property says of a capability: a normalized set, and where that is certain, the property
  -- matches the event if the set has its value.
  Tells : KeyProperty p → Event → Option (Certainty × Set) → Type 0
  Tells q event none = Unit
  Tells q event (some found) =
      IsNormal found.1.intervals
      × (found.0 ≡ always
          → member event.value found.1.intervals ≡ true
          → property_matches q event ≡ true)

  Tells-all :
      (q : KeyProperty p) (cap : Capability) (event : Event) (b : Bool)
      → Allows cap event
      → property_matches q event ≡ b
      → Tells q event (some (all_or_nothing cap b))
  unfolding Tells Sets.empty
  Tells-all q cap event true h e = (h.normal, (λ c m. e))
  Tells-all q cap event false h e = (tt, (λ c m. cc))

  property-Tells :
      (q : KeyProperty p) (cap : Capability) (event : Event)
      → IsRanged q
      → Allows cap event
      → Tells q event (property_matches_cap q cap)
  unfolding Tells property_matches property_matches_cap Sets.from_interval
  property-Tells (of_code c) cap event ok h =
      Tells-all (of_code c) cap event _ h (rw h.same_code refl)
  property-Tells (of_domain d) cap event ok h =
      Tells-all (of_domain d) cap event _ h (rw h.same_domain refl)
  property-Tells (of_namespace n) cap event ok h =
      Tells-all (of_namespace n) cap event _ h (rw h.same_namespace refl)
  property-Tells (of_type t) cap event ok h =
      Tells-all (of_type t) cap event _ h (rw h.same_code refl)
  property-Tells (of_virtual_type v) cap event ok h =
      Tells-all (of_virtual_type v) cap event _ h (rw h.same_code refl)
  property-Tells (of_value range) cap event ok h =
      let both = member-intersect (Sets.from_interval range) cap.values (ok, tt, tt) h.normal in
      (IsCanonical-IsNormal _ (both.0), λ c m. ground (arith, sym (both.1 event.value) ∙ m))
  property-Tells (of_previous_value range) cap event ok h = (h.normal, λ c m. cc)
  property-Tells (affine_factor f) cap event ok h = tt

  -- What the loop says, from the accumulators on.
  Concludes : List (KeyProperty p) → Event → Certainty × Set → Option (Certainty × Set) → Type 0
  Concludes properties event acc none = Unit
  Concludes properties event acc (some found) =
      IsNormal found.1.intervals
      × (found.0 ≡ always
          → member event.value found.1.intervals ≡ true
          → (acc.0 ≡ always)
            × (member event.value acc.1.intervals ≡ true)
            × (all (λ q. property_matches q event) properties ≡ true))

  min_always : (a b : Certainty) → min_certainty a b ≡ always → (a ≡ always) × (b ≡ always)
  min_always a b h = ground (arith, h)

  Concludes-step :
      (event : Event) (q : KeyProperty p) (rest : List (KeyProperty p))
      (acc found : Certainty × Set) (r : Option (Certainty × Set))
      → Tells q event (some found)
      → member event.value (Sets.intersect (acc.1) (found.1)).intervals
        ≡ (member event.value acc.1.intervals && member event.value found.1.intervals)
      → Concludes rest event (narrow (acc.0) (acc.1) found) r
      → Concludes (q ∷ rest) event acc r
  unfolding Concludes Tells
  Concludes-step event q rest acc found none told both later = tt
  Concludes-step event q rest acc found (some result) told both later = (
    later.0,
    λ c m.
        let (least, within, matched) = later.1 c m in
        let (acc_always, found_always) = min_always (acc.0) (found.0) least in
        let inside = sym both ∙ within in
        let mine = member event.value acc.1.intervals in
        let yours = member event.value found.1.intervals in
        (
          acc_always,
          &&_left mine yours inside,
          &&_intro _ _ (told.1 found_always (&&_right mine yours inside)) matched,
        ),
  )

  loop-Concludes :
      (cap : Capability) (event : Event) (properties : List (KeyProperty p)) (acc : Certainty × Set)
      → All IsRanged properties
      → Allows cap event
      → IsNormal acc.1.intervals
      → Concludes properties event acc (matches_cap_loop cap properties acc)
  unfolding matches_cap_loop Concludes Tells
  loop-Concludes cap event [] acc ok h n = (n, λ c m. (c, m, refl))
  loop-Concludes cap event (q ∷ rest) acc ok h n =
      elim (Option-cases (property_matches_cap q cap)) [
        | inl e ↦ rw (matches_cap_loop, e) tt
        | inr (found, e) ↦
            let told = subst (Tells q event) e (property-Tells q cap event (ok.0) h) in
            let both = member-intersect (acc.1) (found.1) n (told.0) in
            rw (matches_cap_loop, e)
              (Concludes-step event q rest acc found
                (matches_cap_loop cap rest (narrow (acc.0) (acc.1) found)) told (both.1 event.value)
                (loop-Concludes cap event rest (narrow (acc.0) (acc.1) found) (ok.1) h
                  (IsCanonical-IsNormal _ (both.0))))
      ]

  -- Where a capability allows an event, the value ranges of the key are valid, and `matches_cap`
  -- returns `Always` with values that have the value of the event: the key matches the event.
  pub matches-of-certain :
      (key : Key p) (cap : Capability) (event : Event) (values : Set)
      → All IsRanged key.properties
      → Allows cap event
      → matches_cap key cap ≡ some (always, values)
      → member event.value values.intervals ≡ true
      → matches key event ≡ true
  unfolding matches matches_cap Concludes
  matches-of-certain key cap event values ok h e m =
      ((subst (Concludes key.properties event (always, cap.values)) e
          (loop-Concludes cap event key.properties (always, cap.values) ok h h.normal)).1
        refl m).2

  -- Under the same conditions, but for any event and certainty, the values are a normalized set.
  pub matches_cap-IsNormal :
      (key : Key p) (cap : Capability) (event : Event) (certainty : Certainty) (values : Set)
      → All IsRanged key.properties
      → Allows cap event
      → matches_cap key cap ≡ some (certainty, values)
      → IsNormal values.intervals
  unfolding matches_cap Concludes
  matches_cap-IsNormal key cap event certainty values ok h e =
      (subst (Concludes key.properties event (always, cap.values)) e
        (loop-Concludes cap event key.properties (always, cap.values) ok h h.normal)).0
