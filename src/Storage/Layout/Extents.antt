-- ===== src/Storage/Layout/Extents.antt =====
-- The extents of a layout partition the object (storage/layout.cpp).
use goblin_store.Prelude.{ℕ, ◌+◌, ◌≤◌, ◌<◌, Bool, true, ◌≡◌, ◌⊎◌, ◌↔◌, arith}
use goblin_store.Common.Config.{TierSizes}
use goblin_store.Storage.Layout.{Tier, ObjectLayout, compute_layout, place}

module _ (size : ℕ) (t : TierSizes) (three : Bool) (ordered : t.ram_head ≤ t.ssd_prefix) where
  -- Where the head is no longer than the prefix: an object no larger than the head lives in RAM alone. Any other lies whole on the disk tiers,
  -- with its head inside the SSD extent, and reaches the HDD exactly where a third layer exists
  -- and the object is longer than the prefix, which the SSD extent then equals.
  pub compute_layout_extents :
      ((size ≤ t.ram_head)
        × (((compute_layout size t three).ssd_bytes ≡ 0)
            × ((compute_layout size t three).hdd_bytes ≡ 0)
            × ((compute_layout size t three).ram_head_bytes ≡ size)))
      ⊎ ((t.ram_head < size)
          × (((compute_layout size t three).ssd_bytes + (compute_layout size t three).hdd_bytes
                ≡ size)
              × ((compute_layout size t three).ram_head_bytes ≡ t.ram_head)
              × (t.ram_head ≤ (compute_layout size t three).ssd_bytes)
              × ((0 < (compute_layout size t three).hdd_bytes)
                  ↔ ((three ≡ true) × (t.ssd_prefix < size)))
              × (0 < (compute_layout size t three).hdd_bytes
                  → (compute_layout size t three).ssd_bytes ≡ t.ssd_prefix)))
  unfolding compute_layout
  compute_layout_extents = ground arith

-- `place` puts every offset below the end of the disk extents inside the SSD extent, at itself, or
-- inside the HDD extent, at its distance from the end of the SSD extent.
pub place_in_extent :
    (off : ℕ) (l : ObjectLayout)
    → off < l.ssd_bytes + l.hdd_bytes
    → (((place off l).tier ≡ Tier.ssd)
        × ((place off l).local ≡ off)
        × ((place off l).local < l.ssd_bytes))
      ⊎ (((place off l).tier ≡ Tier.hdd)
          × (l.ssd_bytes + (place off l).local ≡ off)
          × ((place off l).local < l.hdd_bytes))
unfolding place
place_in_extent off l h = ground arith

-- Two offsets never share a place.
pub place-injective : (a b : ℕ) (l : ObjectLayout) → place a l ≡ place b l → a ≡ b
unfolding place
place-injective a b l h = ground arith
