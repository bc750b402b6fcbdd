-- ===== src/Stream/Merge/Passing.antt =====
-- A merge writes only events that it has read.
use evsieve.Base.{
  Bool, true, false, List, [], ◌∷◌, ℕ, ◌==◌, pos, eqb_ℤ, All, All-append, Bool-cases, inl, inr,
  if◌then◌else◌,
}
use evsieve.Platform.{Platform}
use evsieve.Event.{Event}
use evsieve.Stream.Merge.{Merge, apply, apply_to_all, count, applies_to, down_count}

module _ ⦃p : Platform⦄ (P : Event → Type 0) where
  -- A test that lets the event through or not.
  All-if : (b : Bool) (event : Event) → P event → All P (if b then event ∷ [] else [])
  All-if true event h = (h, tt)
  All-if false event h = tt

  count_keeps : (m : Merge p) (event : Event) (last : ℕ) → P event → All P ((count m event last).0)
  unfolding count
  count_keeps m event last h = elim (Bool-cases (eqb_ℤ event.value (pos 1))) [
    | inl press ↦ rw press (All-if (last == 0) event h)
    | inr other ↦ elim (Bool-cases (eqb_ℤ event.value (pos 0))) [
      | inl release ↦ rw (other, release) (All-if (last == 1) event h)
      | inr neither ↦ rw (other, neither) (h, tt)
    ]
  ]

  apply_keeps : (m : Merge p) (event : Event) → P event → All P ((apply m event).0)
  unfolding apply
  apply_keeps m event h = elim (Bool-cases (applies_to m event)) [
    | inl e ↦ rw e (count_keeps m event (down_count m event) h)
    | inr e ↦ rw e (h, tt)
  ]

  pub apply_to_all_keeps :
      (m : Merge p) (events : List Event) → All P events → All P ((apply_to_all m events).0)
  unfolding apply_to_all
  apply_to_all_keeps m [] h = tt
  apply_to_all_keeps m (e ∷ events) (h, hs) =
      All-append P ((apply m e).0) ((apply_to_all ((apply m e).1) events).0) (apply_keeps m e h)
        (apply_to_all_keeps ((apply m e).1) events hs)
