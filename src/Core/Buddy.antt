-- ===== src/Core/Buddy.antt =====
-- src/goblin/core/buffer_pool.hpp and buffer_pool.cpp, class BuddyAllocator: the power-of-two
-- blocks of one arena. `free_[o]` is a list in the order of the vector, its back last. Sizes are
-- 64-bit with the wrap-around written out; an order is an `unsigned` that counts at most 64 shifts.
pub mod Weights
pub mod Blocks
pub mod Splitting
pub mod Coalescing
pub mod Invariant
pub mod Allocation
pub mod Release
pub mod Orders
pub mod Creation
use goblin_store.Prelude.{
  ℕ, zero, suc, ◌+◌, ◌-◌, ◌*◌, ◌%◌, ◌^◌, bit_xor, Bool, true, false, ◌||◌, ◌==◌, ltb, leb,
  if◌then◌else◌, Option, none, some, List, [], ◌∷◌, ◌++◌, get_or, set, replicate, ℕ_discrete,
}
use goblin_store.Prelude.Assoc.{member, drop_member}
use goblin_store.Common.Types.{u64, add64, sub64}
use goblin_store.Common.Config.{is_empty}

pub record Buddy : Type 0 where
  pub arena_size : ℕ
  pub min_block : ℕ
  pub max_order : ℕ
  pub used : ℕ
  pub free : List (List ℕ)

-- `for (bs = min_block_; bs < need; bs <<= 1) ++o;`. After 64 shifts `bs` is 0.
unfoldable pub count_order : ℕ → ℕ → ℕ → ℕ → ℕ
count_order zero bs need o = o
count_order (suc fuel) bs need o =
    let rest = count_order fuel (bs * 2 % u64) need (o + 1) in if ltb bs need then rest else o

-- The constructor: one free block of the highest order.
unfoldable pub create : ℕ → ℕ → Buddy
unfolding count_order
create arena_size min_block =
    let max_order = count_order 64 min_block arena_size 0 in
    record {
      arena_size = arena_size;
      min_block = min_block;
      max_order = max_order;
      used = 0;
      free = replicate max_order [] ++ (0 ∷ []) ∷ [];
    }

unfoldable pub order_for : Buddy → ℕ → ℕ
unfolding count_order
order_for b bytes =
    let need = if ltb bytes b.min_block then b.min_block else bytes in
    count_order 64 b.min_block need 0

unfoldable pub block_size : Buddy → ℕ → ℕ
block_size b order = b.min_block * 2 ^ order % u64

-- `back()` with `pop_back()`.
unfoldable pub pop_back : List ℕ → Option (List ℕ × ℕ)
pop_back [] = none
pop_back (x ∷ xs) = elim (pop_back xs) [ none ↦ some ([], x) | some p ↦ some (x ∷ p.0, p.1) ]

unfoldable pub push_back : List (List ℕ) → ℕ → ℕ → List (List ℕ)
push_back free order off = set free order (get_or free order [] ++ off ∷ [])

-- `while (o <= max_order_ && free_[o].empty()) ++o;`, with the number of orders left to look at.
unfoldable pub find_order : ℕ → List (List ℕ) → ℕ → ℕ
find_order zero free o = o
find_order (suc left) free o =
    let rest = find_order left free (o + 1) in if is_empty (get_or free o []) then rest else o

-- `while (o > target)`: the order is `target` and the levels that are left.
unfoldable pub split_down : Buddy → List (List ℕ) → ℕ → ℕ → ℕ → List (List ℕ)
unfolding block_size push_back
split_down b free off target zero = free
split_down b free off target (suc levels) =
    let o = target + levels in
    split_down b (push_back free o (add64 off (block_size b o))) off target levels

-- A block of order `o` is popped, split down to the target order and handed out.
unfoldable pub take_block : Buddy → ℕ → ℕ → List ℕ → ℕ → Buddy × Option ℕ
unfolding block_size split_down
take_block b target o rest off = (
  record b {
    free = split_down b (set b.free o rest) off target (o - target);
    used = add64 b.used (block_size b target);
  },
  some off,
)

unfoldable pub allocate_order : Buddy → ℕ → Buddy × Option ℕ
unfolding find_order pop_back take_block
allocate_order b target =
    let o = find_order (b.max_order + 1 - target) b.free target in
    elim (pop_back (get_or b.free o [])) [
      | none ↦ (b, none)
      | some p ↦ if ltb b.max_order o then (b, none) else take_block b target o p.0 p.1
    ]

unfoldable pub allocate_at : Buddy → ℕ → ℕ → Buddy × Option ℕ
unfolding allocate_order
allocate_at b bytes target =
    if bytes == 0 || ltb b.arena_size bytes
    then (b, none)
    else if ltb b.max_order target
    then (b, none)
    else allocate_order b target

unfoldable pub allocate : Buddy → ℕ → Buddy × Option ℕ
unfolding order_for allocate_at
allocate b bytes = allocate_at b bytes (order_for b bytes)

-- The loop of `deallocate`, with the number of orders below the highest, and its final push.
unfoldable pub coalesce : ℕ → Buddy → List (List ℕ) → ℕ → ℕ → List (List ℕ)
unfolding block_size push_back
coalesce zero b free cur order = push_back free order cur
coalesce (suc left) b free cur order =
    let buddy = bit_xor cur (block_size b order) in
    let fl = get_or free order [] in
    let merged =
      coalesce left b (set free order (drop_member ℕ_discrete buddy fl))
        (if ltb cur buddy then cur else buddy) (order + 1) in
    if member ℕ_discrete buddy fl then merged else push_back free order cur

unfoldable pub deallocate_at : Buddy → ℕ → ℕ → Buddy
unfolding block_size coalesce
deallocate_at b off target = record b {
  used = sub64 b.used (block_size b target);
  free = coalesce (b.max_order - target) b b.free off target;
}

unfoldable pub deallocate : Buddy → ℕ → ℕ → Buddy
unfolding order_for deallocate_at
deallocate b off bytes = deallocate_at b off (order_for b bytes)
