-- ===== src/Key/Overlap.antt =====
-- `Key::intersects_with` never overlooks an event that two keys share.
use evsieve.Base.{
  ◌≡◌, refl, sym, ◌∙◌, ℤ, true, false, Option, none, some, List, [], ◌∷◌, all, arith, &&_left,
  &&_right, &&_intro, Option-cases, inl, inr,
}
use evsieve.Platform.{Platform}
use evsieve.Range.Interval
use evsieve.Range.Interval.{Interval}
use evsieve.Event.{Event, EventType, virtual_ev_type}
use evsieve.Event.Equality.{
  virtual_eq-eq, virtual_eq_refl, base_type-virtual_ev_type, code_eq-eq, code_eq_refl,
  namespace_eq-eq, namespace_eq_refl,
}
use evsieve.Key.{
  Key, KeyProperty, of_code, of_domain, of_namespace, of_value, of_previous_value, of_type,
  of_virtual_type, affine_factor, property_matches, matches, intersects_with, requires_event_type,
  type_of, first_of, types_differ, properties_may_intersect,
}

-- Two intervals with a value in common intersect.
shared_value :
    (a b : Interval) (v : ℤ)
    → Interval.contains a v ≡ true
    → Interval.contains b v ≡ true
    → Interval.intersects_with a b ≡ true
unfolding Interval.contains Interval.intersects_with
shared_value a b v h k = ground arith

module _ ⦃p : Platform⦄ where
  type_of-match :
      (q : KeyProperty p) (event : Event) (t : EventType)
      → property_matches q event ≡ true
      → type_of q ≡ some t
      → t ≡ event.code.ev_type
  unfolding property_matches
  type_of-match (of_code c) event t h e = ground arith
  type_of-match (of_type u) event t h e = ground arith
  type_of-match (of_virtual_type v) event t h e =
      ground (
        arith,
        virtual_eq-eq (virtual_ev_type event.code) v h,
        base_type-virtual_ev_type event.code,
      )
  type_of-match (of_domain d) event t h e = cc
  type_of-match (of_namespace n) event t h e = cc
  type_of-match (of_value range) event t h e = cc
  type_of-match (of_previous_value range) event t h e = cc
  type_of-match (affine_factor f) event t h e = cc

  required_type :
      (ps : List (KeyProperty p)) (event : Event) (t : EventType)
      → all (λ q. property_matches q event) ps ≡ true
      → first_of type_of ps ≡ some t
      → t ≡ event.code.ev_type
  required_type [] event t h e = cc
  required_type (q ∷ ps) event t h e = elim (Option-cases (type_of q)) [
    | inl none_here ↦ required_type ps event t (&&_right _ _ h) (rw (none_here, first_of) at e)
    | inr (u, found) ↦ type_of-match q event t (&&_left _ _ h) (found ∙ rw (found, first_of) at e)
  ]

  -- Two properties that match one event are not told apart.
  shared_event :
      (q r : KeyProperty p) (event : Event)
      → property_matches q event ≡ true
      → property_matches r event ≡ true
      → properties_may_intersect q r ≡ true
  unfolding property_matches properties_may_intersect
  shared_event (of_code c) (of_code d) event h k =
      ground (arith, code_eq-eq event.code c h, code_eq-eq event.code d k, code_eq_refl c)
  shared_event (of_domain c) (of_domain d) event h k = ground arith
  shared_event (of_namespace m) (of_namespace n) event h k = ground (
    arith,
    namespace_eq-eq event.namespace m h,
    namespace_eq-eq event.namespace n k,
    namespace_eq_refl m,
  )
  shared_event (of_virtual_type v) (of_virtual_type w) event h k =
      let e = sym (virtual_eq-eq _ v h) ∙ virtual_eq-eq _ w k in rw e (virtual_eq_refl w)
  shared_event (of_virtual_type v) (of_code c) event h k =
      let e = sym (virtual_eq-eq _ v h) in
      rw (e, code_eq-eq event.code c k) (virtual_eq_refl (virtual_ev_type c))
  shared_event (of_code c) (of_virtual_type v) event h k =
      let e = sym (virtual_eq-eq _ v k) in
      rw (e, code_eq-eq event.code c h) (virtual_eq_refl (virtual_ev_type c))
  shared_event (of_value a) (of_value b) event h k = shared_value a b event.value h k
  shared_event (of_previous_value a) (of_previous_value b) event h k =
      shared_value a b event.previous_value h k
  shared_event _ _ event h k = refl

  -- If some event matches both keys, `intersects_with` says that they intersect.
  pub intersects_with-of-matches :
      (self other : Key p) (event : Event)
      → matches self event ≡ true
      → matches other event ≡ true
      → intersects_with self other ≡ true
  unfolding matches intersects_with
  intersects_with-of-matches self other event h k =
      rw
        (types_agree (requires_event_type self) (requires_event_type other)
          (λ t e. required_type self.properties event t h e)
          (λ t e. required_type other.properties event t k e))
        (pairs self.properties h)
    where
      types_agree :
          (a b : Option EventType)
          → ((t : EventType) → a ≡ some t → t ≡ event.code.ev_type)
          → ((t : EventType) → b ≡ some t → t ≡ event.code.ev_type)
          → types_differ a b ≡ false
      types_agree none b ha hb = refl
      types_agree (some t) none ha hb = refl
      types_agree (some t) (some u) ha hb = ground (arith, ha t refl, hb u refl)

      against :
          (q : KeyProperty p) (ps : List (KeyProperty p))
          → property_matches q event ≡ true
          → all (λ r. property_matches r event) ps ≡ true
          → all (λ r. properties_may_intersect q r) ps ≡ true
      against q [] hq hp = refl
      against q (r ∷ ps) hq hp =
          &&_intro _ _ (shared_event q r event hq (&&_left _ _ hp))
            (against q ps hq (&&_right _ _ hp))

      pairs :
          (ps : List (KeyProperty p))
          → all (λ q. property_matches q event) ps ≡ true
          → all (λ q. all (λ r. properties_may_intersect q r) other.properties) ps ≡ true
      pairs [] hp = refl
      pairs (q ∷ ps) hp =
          &&_intro _ _ (against q other.properties (&&_left _ _ hp) k) (pairs ps (&&_right _ _ hp))
