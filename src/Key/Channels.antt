-- ===== src/Key/Channels.antt =====
-- A key that matches an event matches its channel.
use evsieve.Base.{◌≡◌, refl, true, List, [], ◌∷◌, all, arith, &&_left, &&_right, &&_intro}
use evsieve.Platform.{Platform}
use evsieve.Event.{Event, channel, virtual_ev_type}
use evsieve.Event.Equality.{virtual_eq-eq, base_type-virtual_ev_type}
use evsieve.Key.{
  Key, KeyProperty, of_code, of_domain, of_namespace, of_value, of_previous_value, of_type,
  of_virtual_type, affine_factor, property_matches, property_matches_channel, matches,
  matches_channel,
}

module _ ⦃p : Platform⦄ where
  channel_of_match :
      (property : KeyProperty p) (event : Event)
      → property_matches property event ≡ true
      → property_matches_channel property (channel event) ≡ true
  unfolding property_matches property_matches_channel
  channel_of_match (of_code c) event h = h
  channel_of_match (of_domain d) event h = h
  channel_of_match (of_namespace n) event h = refl
  channel_of_match (of_value range) event h = refl
  channel_of_match (of_previous_value range) event h = refl
  channel_of_match (of_type t) event h = ground arith
  channel_of_match (of_virtual_type v) event h =
      ground (
        arith,
        virtual_eq-eq (virtual_ev_type event.code) v h,
        base_type-virtual_ev_type event.code,
      )
  channel_of_match (affine_factor f) event h = cc

  -- `matches_channel` never misses: a key that matches an event matches the event's channel.
  pub matches_channel-of-matches :
      (key : Key p) (event : Event)
      → matches key event ≡ true
      → matches_channel key (channel event) ≡ true
  unfolding matches matches_channel
  matches_channel-of-matches key event h = go key.properties h
    where
      go :
          (ps : List (KeyProperty p))
          → all (λ q. property_matches q event) ps ≡ true
          → all (λ q. property_matches_channel q (channel event)) ps ≡ true
      go [] h = refl
      go (q ∷ ps) h =
          &&_intro _ _ (channel_of_match q event (&&_left _ _ h)) (go ps (&&_right _ _ h))
