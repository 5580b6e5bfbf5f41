-- ===== src/Storage/TierManager/Pins.antt =====
-- The pins of resident heads (tier_manager.cpp): when the RAM of a head is given back.
pub mod Protocol
use goblin_store.Prelude.{
  ℕ, ◌+◌, ◌-◌, ◌%◌, ◌<◌, Bool, true, false, ◌&&◌, ◌==◌, ltb, if◌then◌else◌, Option, none, some,
  List, [], ◌∷◌, ◌++◌, ◌≡◌, refl, sym, ap, ◌∙◌, arith, ℕ_discrete, Bool-cases, Option-cases, inl,
  inr, ite,
}
use goblin_store.Prelude.Assoc.{
  find, insert, erase, IsMap, find-insert, find-erase, insert-IsMap, erase-IsMap,
}
use goblin_store.Common.Types.{u32}
use goblin_store.Core.BufferPool.{BufferPool, deallocate_region}
use goblin_store.Storage.Index.{HeadLoc}
use goblin_store.Storage.TierManager.{
  TierManager, HeadPin, RegionPin, region_id, no_pin, free_head_region, free_ram, orphan, add_pin,
  pin_of, unpin_head, drop_pin,
}

-- What happens to the heads: a reader pins one, a reader unpins one, and the owner gives one back.
pub data Use : Type 0 where
  pins : HeadLoc → Use
  unpins frees : HeadPin → Use

unfoldable pub step : TierManager → Use → TierManager
step tm (pins h) = add_pin tm h
step tm (unpins p) = unpin_head tm p
step tm (frees p) = free_head_region tm p.block p.offset p.len

unfoldable pub run_uses : List Use → TierManager → TierManager
run_uses [] tm = tm
run_uses (u ∷ us) tm = run_uses us (step tm u)

abbrev pub id_of : HeadPin → ℕ
id_of p = region_id p.block p.offset

abbrev pub PinMap : Type 0
PinMap = List (ℕ × RegionPin)

-- The heads that a step hands to the allocator, and the pins after it.
unfoldable pub freed_entry : HeadPin → Option RegionPin → List HeadPin
freed_entry p none = p ∷ []
freed_entry p (some q) = if ltb 0 q.refcount then [] else p ∷ []

freed_pins : PinMap → ℕ → Option RegionPin → PinMap
freed_pins m id none = m
freed_pins m id (some q) =
    if ltb 0 q.refcount then insert ℕ_discrete id (record q { orphaned = true }) m else m

abbrev fewer : RegionPin → ℕ
fewer q = (q.refcount + u32 - 1) % u32

unfoldable pub unpinned_entry : HeadPin → Option RegionPin → List HeadPin
unpinned_entry p none = []
unpinned_entry p (some q) = if fewer q == 0 && q.orphaned then p ∷ [] else []

unpinned_pins : PinMap → ℕ → Option RegionPin → PinMap
unpinned_pins m id none = m
unpinned_pins m id (some q) =
    if fewer q == 0
    then erase ℕ_discrete id m
    else insert ℕ_discrete id (record q { refcount = fewer q }) m

pinned_entry : ℕ → Option RegionPin → RegionPin
pinned_entry len none = record { len = len; refcount = 1; orphaned = false }
pinned_entry len (some q) = record q { len = len; refcount = (q.refcount + 1) % u32 }

unfoldable pub released : PinMap → Use → List HeadPin
unfolding freed_entry unpinned_entry
released m (pins h) = []
released m (unpins p) = unpinned_entry p (find ℕ_discrete (id_of p) m)
released m (frees p) = freed_entry p (find ℕ_discrete (id_of p) m)

pub pins_after : PinMap → Use → PinMap
pins_after m (pins h) =
    let id = region_id h.block h.offset in
    insert ℕ_discrete id (pinned_entry h.len (find ℕ_discrete id m)) m
pins_after m (unpins p) = unpinned_pins m (id_of p) (find ℕ_discrete (id_of p) m)
pins_after m (frees p) = freed_pins m (id_of p) (find ℕ_discrete (id_of p) m)

-- What a sequence of steps hands to the allocator.
unfoldable pub log : List Use → TierManager → List HeadPin
unfolding step released
log [] tm = []
log (u ∷ us) tm = released tm.pins u ++ log us (step tm u)

-- The allocator after these heads are given back, in order.
unfoldable pub give_back : List HeadPin → BufferPool → BufferPool
give_back [] ram = ram
give_back (p ∷ ps) ram = give_back ps (deallocate_region ram p.block p.offset p.len)

give_back-append :
    (ps qs : List HeadPin) (ram : BufferPool)
    → give_back (ps ++ qs) ram ≡ give_back qs (give_back ps ram)
unfolding give_back
give_back-append [] qs ram = refl
give_back-append (p ∷ ps) qs ram =
    give_back-append ps qs (deallocate_region ram p.block p.offset p.len)

-- A step changes the allocator and the pins so.
abbrev pub Does : TierManager → Use → TierManager → Type 0
Does tm u tm' =
    (tm'.ram ≡ give_back (released tm.pins u) tm.ram) × (tm'.pins ≡ pins_after tm.pins u)

unpin_head-Does :
    (tm : TierManager) (p : HeadPin) (o : Option RegionPin)
    → find ℕ_discrete (id_of p) tm.pins ≡ o
    → Does tm (unpins p) (unpin_head tm p)
unfolding give_back unpinned_entry unpin_head drop_pin released pins_after unpinned_pins free_ram
unpin_head-Does tm p none e = rw (e, unpin_head, unpinned_entry, unpinned_pins) (refl, refl)
unpin_head-Does tm p (some q) e =
    rw (e, unpin_head, unpinned_entry, unpinned_pins)
      (elim (Bool-cases (fewer q == 0)) [
        | inl last ↦ rw last (elim (Bool-cases (q.orphaned)) [
          | inl due ↦ rw due (refl, refl)
          | inr kept ↦ rw kept (refl, refl)
        ])
        | inr more ↦ rw more (refl, refl)
      ])

free_head_region-Does :
    (tm : TierManager) (p : HeadPin) (o : Option RegionPin)
    → find ℕ_discrete (id_of p) tm.pins ≡ o
    → Does tm (frees p) (free_head_region tm p.block p.offset p.len)
unfolding give_back freed_entry free_head_region free_ram orphan released pins_after freed_pins
free_head_region-Does tm p none e = rw (e, free_head_region, freed_entry, freed_pins) (refl, refl)
free_head_region-Does tm p (some q) e =
    rw (e, free_head_region, freed_entry, freed_pins)
      (elim (Bool-cases (ltb 0 q.refcount)) [
        | inl busy ↦ rw busy (refl, refl)
        | inr idle ↦ rw idle (refl, refl)
      ])

add_pin-Does :
    (tm : TierManager) (h : HeadLoc) (o : Option RegionPin)
    → find ℕ_discrete (region_id h.block h.offset) tm.pins ≡ o
    → Does tm (pins h) (add_pin tm h)
unfolding give_back add_pin released pins_after pinned_entry
add_pin-Does tm h none e = rw (e, add_pin, pinned_entry) (refl, refl)
add_pin-Does tm h (some q) e = rw (e, add_pin, pinned_entry) (refl, refl)

pub step-Does : (tm : TierManager) (u : Use) → Does tm u (step tm u)
unfolding step
step-Does tm (pins h) =
    add_pin-Does tm h (find ℕ_discrete (region_id h.block h.offset) tm.pins) refl
step-Does tm (unpins p) = unpin_head-Does tm p (find ℕ_discrete (id_of p) tm.pins) refl
step-Does tm (frees p) = free_head_region-Does tm p (find ℕ_discrete (id_of p) tm.pins) refl

pub run_uses-ram :
    (us : List Use) (tm : TierManager) → (run_uses us tm).ram ≡ give_back (log us tm) tm.ram
unfolding run_uses log give_back
run_uses-ram [] tm = refl
run_uses-ram (u ∷ us) tm =
    run_uses-ram us (step tm u)
    ∙ ap (give_back (log us (step tm u))) (step-Does tm u).0
    ∙ sym (give_back-append (released tm.pins u) (log us (step tm u)) tm.ram)
