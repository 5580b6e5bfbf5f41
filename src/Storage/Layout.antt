-- ===== src/Storage/Layout.antt =====
-- src/goblin/storage/layout.hpp and layout.cpp: how the bytes of an object split across RAM, SSD
-- and HDD. The subtractions are reached only where they do not wrap.
pub mod Extents
use goblin_store.Prelude.{ℕ, ◌-◌, min, Bool, true, false, not, if◌then◌else◌, ltb, leb}
use goblin_store.Common.Config.{TierSizes}

pub data Tier : Type 0 where
  ram ssd hdd : Tier

pub record ObjectLayout : Type 0 where
  pub size : ℕ
  pub ram_head_bytes : ℕ
  pub ssd_bytes : ℕ
  pub hdd_bytes : ℕ

unfoldable pub compute_layout : ℕ → TierSizes → Bool → ObjectLayout
compute_layout size tiers three_layer =
    let head = min size tiers.ram_head in
    if leb size tiers.ram_head
    then record { size = size; ram_head_bytes = head; ssd_bytes = 0; hdd_bytes = 0 }
    else if not three_layer
    then record { size = size; ram_head_bytes = head; ssd_bytes = size; hdd_bytes = 0 }
    else if leb size tiers.ssd_prefix
    then record { size = size; ram_head_bytes = head; ssd_bytes = size; hdd_bytes = 0 }
    else record {
      size = size;
      ram_head_bytes = head;
      ssd_bytes = tiers.ssd_prefix;
      hdd_bytes = size - tiers.ssd_prefix;
    }

pub record Placement : Type 0 where
  pub tier : Tier
  pub local : ℕ

unfoldable pub place : ℕ → ObjectLayout → Placement
place off layout =
    if ltb off layout.ssd_bytes
    then record { tier = Tier.ssd; local = off }
    else record { tier = Tier.hdd; local = off - layout.ssd_bytes }
