-- ===== src/Stream/Map/Caps.antt =====
-- The capabilities that a `Map` announces: an event that the map leaves alone lies in one of them.
use evsieve.Base.{
  ◌≡◌, refl, subst, ◌∙◌, true, false, none, some, List, [], ◌∷◌, All, IsI32, Bool-cases,
  Option-cases, inl, inr, ==_refl,
}
use evsieve.Platform.{Platform}
use evsieve.Range.Sets
use evsieve.Range.Sets.{Set}
use evsieve.Range.Sets.Normal.{member}
use evsieve.Event.{Event}
use evsieve.Event.Equality.{code_eq_refl, namespace_eq_refl}
use evsieve.Capability.{Capability, with_values, Certainty, always, maybe}
use evsieve.Key
use evsieve.Key.{Key}
use evsieve.Key.Caps.{Allows, IsRanged}
use evsieve.Key.Certain.{matches-of-certain, matches_cap-IsNormal}
use evsieve.Range.Sets.Normal.{IsNormal}
use evsieve.Range.Sets.Algebra.{member-setminus, nonempty_of_member}
use evsieve.Capability.Aggregate.Coverage.{offered}
use evsieve.Stream.Map.{Map, apply, apply_cap, caps_for, push_nonempty, nonmatching}

module _ ⦃p : Platform⦄ where
  -- The capability in which an event lies that does not match.
  left_alone :
      (m : Map p) (cap : Capability) (event : Event) (certainty : Certainty) (values : Set)
      → All IsRanged m.input_key.properties
      → Allows cap event
      → IsI32 event.value
      → IsNormal values.intervals
      → Key.matches m.input_key event ≡ false
      → Key.matches_cap m.input_key cap ≡ some (certainty, values)
      → member event.value
          (nonmatching certainty cap (Sets.setminus cap.values values)).values.intervals
        ≡ true
  left_alone m cap event maybe values ok h fits n off e = h.allowed
  left_alone m cap event always values ok h fits n off e =
      (member-setminus cap.values values h.normal n).1 event.value fits
      ∙ elim (Bool-cases (member event.value values.intervals)) [
        | inl there ↦ let on = matches-of-certain m.input_key cap event values ok h e there in cc
        | inr out ↦ rw (h.allowed, out) refl
      ]

  offered-head :
      (event : Event) (cap : Capability) (values : Set) (rest : List Capability)
      → Allows cap event
      → member event.value values.intervals ≡ true
      → offered event (push_nonempty (with_values cap values) rest) ≡ true
  offered-head event cap values rest h e =
      rw
        (
          nonempty_of_member event.value values e,
          h.same_code,
          h.same_domain,
          h.same_namespace,
          code_eq_refl cap.code,
          ==_refl cap.domain,
          namespace_eq_refl cap.namespace,
          e,
        )
        refl

  made_offers :
      (m : Map p) (cap : Capability) (event : Event) (certainty : Certainty) (values : Set)
      → Allows cap event
      → member event.value
          (nonmatching certainty cap (Sets.setminus cap.values values)).values.intervals
        ≡ true
      → offered event (caps_for m cap (certainty, values)) ≡ true
  unfolding caps_for
  made_offers m cap event maybe values h e = offered-head event cap cap.values _ h e
  made_offers m cap event always values h e =
      offered-head event cap (Sets.setminus cap.values values) _ h e

  -- An event that a capability allows and that the map's input key does not match passes the map
  -- unchanged, and the capabilities that the map makes of that capability allow it.
  pub apply_cap-passes :
      (m : Map p) (cap : Capability) (event : Event) (caps : List Capability)
      → All IsRanged m.input_key.properties
      → Allows cap event
      → IsI32 event.value
      → Key.matches m.input_key event ≡ false
      → apply_cap m cap ≡ some caps
      → (apply m event ≡ event ∷ []) × (offered event caps ≡ true)
  unfolding apply apply_cap
  apply_cap-passes m cap event caps ok h fits off made = (
    rw off,
    elim (Option-cases (Key.matches_cap m.input_key cap)) [
      | inl e ↦ let f = rw (e, apply_cap) at made in cc
      | inr ((certainty, values), e) ↦
          subst (λ r. (elim r [ none ↦ true | some c ↦ offered event c ]) ≡ true) made
            (rw (apply_cap, e)
              (made_offers m cap event certainty values h (
                left_alone m cap event certainty values ok h fits
                  (matches_cap-IsNormal m.input_key cap event certainty values ok h e) off e)))
    ],
  )
