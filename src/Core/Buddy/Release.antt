-- ===== src/Core/Buddy/Release.antt =====
-- What `deallocate` (core/buffer_pool.cpp) gives back.
use goblin_store.Prelude.{ℕ, ◌-◌, List, ◌∷◌, ◌++◌, ◌≡◌, arith}
use goblin_store.Common.Types.{sub64}
use goblin_store.Core.Buddy.{Buddy, order_for, block_size, coalesce, deallocate_at, deallocate}
use goblin_store.Core.Buddy.Weights.{Weight}
use goblin_store.Core.Buddy.Blocks.{InArena, Halves, block_size-lem}
use goblin_store.Core.Buddy.Coalescing.{Merged, coalesce-Merged}
use goblin_store.Core.Buddy.Invariant.{
  Inv, weigh_live, covers, bytes_of, covers-Halves, bytes_of-Halves, weigh_live-append,
  LiveIn-append,
}

module _ (b : Buddy) (before after : List (ℕ × ℕ)) (off target : ℕ) where
  module _ (inv : Inv b (before ++ (target, off) ∷ after)) where
    here : InArena b target off
    here = (LiveIn-append b before target off after inv.live_in).0

    given_back :
        (w : Weight)
        → Halves b w
        → Merged b inv.shape w b.free
            (coalesce (b.max_order - target) b b.free off target)
            (w target off)
    given_back w halves =
        coalesce-Merged b inv.shape (b.max_order - target) w b.free off target halves inv.lists here
          (omega (arith, here.0))

    used_back : sub64 b.used (block_size b target) ≡ weigh_live (bytes_of b) (before ++ after)
    used_back =
        let v = inv.shape in
        rw (block_size-lem b v target here.0) (
          omega (
            arith,
            inv.counted,
            inv.total,
            v.fits,
            weigh_live-append (bytes_of b) before target off after,
          ))

    deallocate_at-Inv : Inv (deallocate_at b off target) (before ++ after)
    unfolding deallocate_at
    deallocate_at-Inv =
        let v = inv.shape in
        let bytes = given_back (bytes_of b) (bytes_of-Halves b) in
        record {
          shape = record {
            min_bits = v.min_bits;
            min_power = v.min_power;
            arena = v.arena;
            fits = v.fits;
            shifts = v.shifts;
          };
          lists = record { orders = bytes.lists.orders; placed = bytes.lists.placed };
          live_in = (LiveIn-append b before target off after inv.live_in).1;
          cover = λ a. omega (
            arith,
            (given_back (covers b a) (covers-Halves b a)).weight,
            inv.cover a,
            weigh_live-append (covers b a) before target off after,
          );
          counted = used_back;
          total = omega (
            arith,
            used_back,
            bytes.weight,
            inv.total,
            inv.counted,
            weigh_live-append (bytes_of b) before target off after,
          );
        }

-- `deallocate` of a block in use, with the size it was requested by, takes it out of the blocks in
-- use and keeps the invariant: whatever is coalesced, free blocks and blocks in use cover every byte
-- of the arena exactly once, and `used` counts the bytes of the rest.
pub deallocate-Inv :
    (b : Buddy) (before after : List (ℕ × ℕ)) (off bytes : ℕ)
    → Inv b (before ++ (order_for b bytes, off) ∷ after)
    → Inv (deallocate b off bytes) (before ++ after)
unfolding deallocate
deallocate-Inv b before after off bytes inv =
    deallocate_at-Inv b before after off (order_for b bytes) inv
