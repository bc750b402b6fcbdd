-- ===== src/Key/Caps.antt =====
-- `Key::matches_cap` never misses: for an event that a capability allows and that the key matches, the
-- values that it returns have the value of the event.
use evsieve.Base.{
  ◌≡◌, subst, ◌∙◌, Bool, true, false, &&_left, &&_right, &&_intro, Option, none, some, List, [],
  ◌∷◌, all, All, Option-cases, inl, inr, arith,
}
use evsieve.Platform.{Platform}
use evsieve.Range.Sets
use evsieve.Range.Sets.{Set}
use evsieve.Range.Sets.Normal.{member, IsValid, IsNormal, IsCanonical-IsNormal}
use evsieve.Range.Sets.Pairs.{member-intersect}
use evsieve.Event.{Event}
use evsieve.Capability.{Capability, Certainty, always}
use evsieve.Key.{
  Key, KeyProperty, of_code, of_domain, of_namespace, of_value, of_previous_value, of_type,
  of_virtual_type, affine_factor, property_matches, property_matches_cap, all_or_nothing, matches,
  matches_cap, matches_cap_loop, narrow,
}

-- The capability allows the event.
pub record Allows (cap : Capability) (event : Event) : Type 0 where
  pub same_code : event.code ≡ cap.code
  pub same_domain : event.domain ≡ cap.domain
  pub same_namespace : event.namespace ≡ cap.namespace
  pub normal : IsNormal cap.values.intervals
  pub allowed : member event.value cap.values.intervals ≡ true

-- The set satisfies its invariant and has the value of the event.
Catches : Event → Set → Type 0
Catches event s = IsNormal s.intervals × (member event.value s.intervals ≡ true)

-- What is returned, if anything, catches the event.
CatchesIf : Event → Option (Certainty × Set) → Type 0
unfolding Catches
CatchesIf event none = Unit
CatchesIf event (some found) = Catches event found.1

Catches-intersect :
    (event : Event) (a b : Set)
    → Catches event a
    → Catches event b
    → Catches event (Sets.intersect a b)
unfolding Catches
Catches-intersect event a b ha hb =
    let both = member-intersect a b (ha.0) (hb.0) in
    (
      IsCanonical-IsNormal (Sets.intersect a b).intervals (both.0),
      both.1 event.value
          ∙ &&_intro (member event.value a.intervals) (member event.value b.intervals) (ha.1)
              (hb.1),
    )

module _ ⦃p : Platform⦄ where
  -- The ranges of the key are valid.
  abbrev pub IsRanged : KeyProperty p → Type 0
  IsRanged (of_value range) = IsValid range
  IsRanged _ = Unit

  Catches-all :
      (cap : Capability) (event : Event) (b : Bool)
      → Allows cap event
      → b ≡ true
      → Catches event ((all_or_nothing cap b).1)
  unfolding Catches
  Catches-all cap event true h e = (h.normal, h.allowed)
  Catches-all cap event false h e = cc

  property_lem :
      (q : KeyProperty p) (cap : Capability) (event : Event)
      → IsRanged q
      → Allows cap event
      → property_matches q event ≡ true
      → CatchesIf event (property_matches_cap q cap)
  unfolding CatchesIf Catches property_matches property_matches_cap Sets.from_interval
  property_lem (of_code c) cap event ok h m = Catches-all cap event _ h (rw⁻¹ h.same_code m)
  property_lem (of_domain d) cap event ok h m = Catches-all cap event _ h (rw⁻¹ h.same_domain m)
  property_lem (of_namespace n) cap event ok h m =
      Catches-all cap event _ h (rw⁻¹ h.same_namespace m)
  property_lem (of_type t) cap event ok h m = Catches-all cap event _ h (rw⁻¹ h.same_code m)
  property_lem (of_virtual_type v) cap event ok h m = Catches-all cap event _ h (rw⁻¹ h.same_code m)
  property_lem (of_value range) cap event ok h m =
      Catches-intersect event (Sets.from_interval range) cap.values
        ((ok, tt, tt), ground (arith, m)) (h.normal, h.allowed)
  property_lem (of_previous_value range) cap event ok h m = (h.normal, h.allowed)
  property_lem (affine_factor f) cap event ok h m = tt

  loop_lem :
      (cap : Capability) (event : Event) (properties : List (KeyProperty p)) (acc : Certainty × Set)
      → All IsRanged properties
      → Allows cap event
      → All (λ q. property_matches q event ≡ true) properties
      → Catches event (acc.1)
      → CatchesIf event (matches_cap_loop cap properties acc)
  unfolding matches_cap_loop CatchesIf
  loop_lem cap event [] acc ok h m got = got
  loop_lem cap event (q ∷ rest) acc ok h m got = elim (Option-cases (property_matches_cap q cap)) [
    | inl e ↦ rw (matches_cap_loop, e) tt
    | inr (found, e) ↦
        rw (matches_cap_loop, e)
          (loop_lem cap event rest (narrow (acc.0) (acc.1) found) (ok.1) h (m.1) (
            Catches-intersect event (acc.1) (found.1) got
              (subst (CatchesIf event) e (property_lem q cap event (ok.0) h (m.0)))))
  ]

  each_matches :
      (properties : List (KeyProperty p)) (event : Event)
      → all (λ q. property_matches q event) properties ≡ true
      → All (λ q. property_matches q event ≡ true) properties
  each_matches [] event h = tt
  each_matches (q ∷ rest) event h =
      let later = all (λ q. property_matches q event) rest in
      (
        &&_left (property_matches q event) later h,
        each_matches rest event (&&_right (property_matches q event) later h),
      )

  -- Where a capability allows an event, a key matches the event, and the value ranges of the key are
  -- valid: the values that `matches_cap` returns satisfy the invariant of sets and have the value of
  -- the event.
  pub matches_cap-of-matches :
      (key : Key p) (cap : Capability) (event : Event) (certainty : Certainty) (values : Set)
      → All IsRanged key.properties
      → Allows cap event
      → matches key event ≡ true
      → matches_cap key cap ≡ some (certainty, values)
      → IsNormal values.intervals × (member event.value values.intervals ≡ true)
  unfolding matches matches_cap Catches CatchesIf
  matches_cap-of-matches key cap event certainty values ok h m e = subst (CatchesIf event) e (
      loop_lem cap event key.properties (always, cap.values) ok h
        (each_matches key.properties event m) (h.normal, h.allowed))
