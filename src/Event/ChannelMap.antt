-- ===== src/Event/ChannelMap.antt =====
-- `HashMap<Channel, V>` as an association list. The program never iterates over such a map, so that
-- the order of its entries is not seen.
use evsieve.Base.{◌≡◌, Option, none, some, List, [], ◌∷◌, arith, if◌then◌else◌}
use evsieve.Event.{Channel, channel_eq}

abbrev pub ChannelMap {ℓ} : Type ℓ → Type ℓ
ChannelMap V = List (Channel × V)

module _ {ℓ} {V : Type ℓ} where
  unfoldable pub get : ChannelMap V → Channel → Option V
  get [] c = none
  get ((d, v) ∷ m) c = if channel_eq d c then some v else get m c

  unfoldable pub remove : ChannelMap V → Channel → ChannelMap V
  remove [] c = []
  remove ((d, v) ∷ m) c = let rest = remove m c in if channel_eq d c then rest else (d, v) ∷ rest

  unfoldable pub insert : ChannelMap V → Channel → V → ChannelMap V
  unfolding remove
  insert m c v = (c, v) ∷ remove m c

  -- `entry(c).or_insert(v)`.
  unfoldable pub or_insert : ChannelMap V → Channel → V → ChannelMap V
  unfolding get
  or_insert m c v = elim (get m c) [ some w ↦ m | none ↦ (c, v) ∷ m ]

  pub get-remove :
      (m : ChannelMap V) (c d : Channel)
      → get (remove m c) d ≡ (if channel_eq c d then none else get m d)
  unfolding get remove
  get-remove [] c d = ground arith
  get-remove ((e, v) ∷ m) c d = ground (arith, get-remove m c d)

  pub get-insert :
      (m : ChannelMap V) (c d : Channel) (v : V)
      → get (insert m c v) d ≡ (if channel_eq c d then some v else get m d)
  unfolding get insert
  get-insert m c d v = ground (arith, get-remove m c d)
