-- ===== src/Key/Merging.antt =====
-- `Key::merge` for keys that are used as masks and have no affine factor: the merged event matches the
-- key, and an event that matches already stays as it is. Types are refused in masks.
use evsieve.Base.{
  ◌≡◌, ◌≢◌, refl, sym, ap, ◌∙◌, ℕ, ℤ, true, List, [], ◌∷◌, all, All, arith, &&_left, &&_right,
  &&_intro, ==_iff, eq_of_parts,
}
use evsieve.Platform.{Platform}
use evsieve.Range.Interval
use evsieve.Range.Interval.{Interval}
use evsieve.Range.Interval.Laws.{IsNonempty}
use evsieve.Event.{Event}
use evsieve.Event.Equality.{code_eq-eq, code_eq_refl, namespace_eq-eq, namespace_eq_refl}
use evsieve.Key.{
  Key, KeyProperty, of_code, of_domain, of_namespace, of_value, of_previous_value, of_type,
  of_virtual_type, affine_factor, property_matches, property_merge, matches, merge, merge_all,
}

module _ ⦃p : Platform⦄ where
  -- The variant of a property.
  abbrev kind : KeyProperty p → ℕ
  kind (of_code c) = 0
  kind (of_domain d) = 1
  kind (of_namespace n) = 2
  kind (of_value range) = 3
  kind (of_previous_value range) = 4
  kind (of_type t) = 5
  kind (of_virtual_type v) = 6
  kind (affine_factor f) = 7

  -- A property that an event can be made to have.
  abbrev IsMask : KeyProperty p → Type 0
  IsMask (of_code c) = Unit
  IsMask (of_domain d) = Unit
  IsMask (of_namespace n) = Unit
  IsMask (of_value range) = IsNonempty range
  IsMask (of_previous_value range) = IsNonempty range
  IsMask (of_type t) = ⊥
  IsMask (of_virtual_type v) = ⊥
  IsMask (affine_factor f) = ⊥

  -- The invariant of `Key`: at most one copy of each variant.
  abbrev IsDistinct : List (KeyProperty p) → Type 0
  IsDistinct [] = Unit
  IsDistinct (q ∷ ps) = All (λ r. kind q ≢ kind r) ps × IsDistinct ps

  bound_contained :
      (range : Interval) (v : ℤ)
      → IsNonempty range
      → Interval.contains range (Interval.bound range v) ≡ true
  unfolding Interval.contains Interval.bound
  bound_contained range v h = ground arith

  bound_fixed :
      (range : Interval) (v : ℤ) → Interval.contains range v ≡ true → Interval.bound range v ≡ v
  unfolding Interval.contains Interval.bound
  bound_fixed range v h = eq_of_parts _ _ (ground arith)

  matches-property_merge :
      (q : KeyProperty p) (event : Event)
      → IsMask q
      → property_matches q (property_merge q event) ≡ true
  unfolding property_matches property_merge
  matches-property_merge (of_code c) event h = code_eq_refl c
  matches-property_merge (of_domain d) event h = ground arith
  matches-property_merge (of_namespace n) event h = namespace_eq_refl n
  matches-property_merge (of_value range) event h = bound_contained range event.value h
  matches-property_merge (of_previous_value range) event h =
      bound_contained range event.previous_value h
  matches-property_merge (of_type t) event h = absurd h
  matches-property_merge (of_virtual_type v) event h = absurd h
  matches-property_merge (affine_factor f) event h = absurd h

  -- A mask of another variant leaves a match alone.
  property_merge_keeps :
      (q r : KeyProperty p) (event : Event)
      → IsMask q
      → IsMask r
      → kind q ≢ kind r
      → property_matches q event ≡ true
      → property_matches q (property_merge r event) ≡ true
  unfolding property_matches property_merge
  property_merge_keeps (of_code c) (of_code d) event hq hr ne h = absurd (ne refl)
  property_merge_keeps (of_domain c) (of_domain d) event hq hr ne h = absurd (ne refl)
  property_merge_keeps (of_namespace c) (of_namespace d) event hq hr ne h = absurd (ne refl)
  property_merge_keeps (of_value c) (of_value d) event hq hr ne h = absurd (ne refl)
  property_merge_keeps (of_previous_value c) (of_previous_value d) event hq hr ne h =
      absurd (ne refl)
  property_merge_keeps q (of_type t) event hq hr ne h = absurd hr
  property_merge_keeps q (of_virtual_type v) event hq hr ne h = absurd hr
  property_merge_keeps q (affine_factor f) event hq hr ne h = absurd hr
  property_merge_keeps (of_type t) r event hq hr ne h = absurd hq
  property_merge_keeps (of_virtual_type v) r event hq hr ne h = absurd hq
  property_merge_keeps (affine_factor f) r event hq hr ne h = absurd hq
  property_merge_keeps _ _ event hq hr ne h = h

  merge_all_keeps :
      (q : KeyProperty p) (ps : List (KeyProperty p)) (event : Event)
      → IsMask q
      → All IsMask ps
      → All (λ r. kind q ≢ kind r) ps
      → property_matches q event ≡ true
      → property_matches q (merge_all ps event) ≡ true
  merge_all_keeps q [] event hq hp ne h = h
  merge_all_keeps q (r ∷ ps) event hq hp ne h =
      merge_all_keeps q ps (property_merge r event) hq (hp.1) (ne.1)
        (property_merge_keeps q r event hq (hp.0) (ne.0) h)

  -- The event that a mask makes of an event matches the mask, where the mask has at most one property of
  -- each variant, no types, no affine factors, and value ranges that are not empty.
  pub matches-merge :
      (key : Key p) (event : Event)
      → All IsMask key.properties
      → IsDistinct key.properties
      → matches key (merge key event) ≡ true
  unfolding matches merge
  matches-merge key event hm hd = go key.properties event hm hd
    where
      go :
          (ps : List (KeyProperty p)) (event : Event)
          → All IsMask ps
          → IsDistinct ps
          → all (λ q. property_matches q (merge_all ps event)) ps ≡ true
      go [] event hm hd = refl
      go (q ∷ ps) event hm hd =
          &&_intro _ _
            (merge_all_keeps q ps (property_merge q event) (hm.0) (hm.1) (hd.0)
              (matches-property_merge q event (hm.0)))
            (go ps (property_merge q event) (hm.1) (hd.1))

  property_merge_fixed :
      (q : KeyProperty p) (event : Event)
      → property_matches q event ≡ true
      → property_merge q event ≡ event
  unfolding property_matches property_merge
  property_merge_fixed (of_code c) event h =
      ap (λ x. record event { code = x }) (sym (code_eq-eq event.code c h))
  property_merge_fixed (of_domain d) event h =
      ap (λ x. record event { domain = x }) (sym ((==_iff event.domain d).0 h))
  property_merge_fixed (of_namespace n) event h =
      ap (λ x. record event { namespace = x }) (sym (namespace_eq-eq event.namespace n h))
  property_merge_fixed (of_value range) event h =
      ap (λ x. record event { value = x }) (bound_fixed range event.value h)
  property_merge_fixed (of_previous_value range) event h =
      ap (λ x. record event { previous_value = x }) (bound_fixed range event.previous_value h)
  property_merge_fixed (of_type t) event h = refl
  property_merge_fixed (of_virtual_type v) event h = refl
  property_merge_fixed (affine_factor f) event h = cc

  -- Merging does nothing to an event that matches the key already.
  pub merge-of-matches :
      (key : Key p) (event : Event) → matches key event ≡ true → merge key event ≡ event
  unfolding matches merge
  merge-of-matches key event h = go key.properties h
    where
      go :
          (ps : List (KeyProperty p))
          → all (λ q. property_matches q event) ps ≡ true
          → merge_all ps event ≡ event
      go [] h = refl
      go (q ∷ ps) h =
          ap (merge_all ps) (property_merge_fixed q event (&&_left _ _ h)) ∙ go ps (&&_right _ _ h)

  -- A mask with at most one property of each variant, no types, no affine factors, and value ranges that
  -- are not empty has the same effect when it is applied again.
  pub merge-merge :
      (key : Key p) (event : Event)
      → All IsMask key.properties
      → IsDistinct key.properties
      → merge key (merge key event) ≡ merge key event
  merge-merge key event hm hd =
      merge-of-matches key (merge key event) (matches-merge key event hm hd)
