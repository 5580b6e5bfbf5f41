-- ===== src/Core/Buddy/Creation.antt =====
-- A new buddy allocator (core/buffer_pool.cpp).
use goblin_store.Prelude.{
  ℕ, zero, suc, ◌+◌, ◌*◌, ◌^◌, ◌≤◌, ◌<◌, ◌==◌, if◌then◌else◌, List, [], ◌∷◌, ◌++◌, get_or,
  replicate, length-append, length-replicate, ◌≡◌, refl, ◌∙◌, arith, none, ◌≢◌, inl, inr,
}
use goblin_store.Prelude.Assoc.{member}
use goblin_store.Common.Types.{u64}
use goblin_store.Core.Buddy.{Buddy, create, allocate}
use goblin_store.Core.Buddy.Weights.{Weight, weigh}
use goblin_store.Core.Buddy.Orders.{create_order, order_for-fits}
use goblin_store.Core.Buddy.Invariant.{Inv, covers, bytes_of}
use goblin_store.Core.Buddy.Allocation.{allocate_refused}

abbrev one_block : ℕ → List (List ℕ)
one_block k = replicate k [] ++ (0 ∷ []) ∷ []

weigh-one_block : (w : Weight) (i k : ℕ) → weigh w i (one_block k) ≡ w (i + k) 0
weigh-one_block w i zero = let e : i + 0 ≡ i = omega arith in rw e (omega arith)
weigh-one_block w i (suc k) =
    let e : i + suc k ≡ suc i + k = omega arith in
    let ih = weigh-one_block w (suc i) k in rw e (omega (arith, ih))

get_or-one_block :
    (k order : ℕ) → get_or (one_block k) order [] ≡ (if order == k then 0 ∷ [] else [])
get_or-one_block zero zero = refl
get_or-one_block zero (suc order) = ground arith
get_or-one_block (suc k) zero = ground arith
get_or-one_block (suc k) (suc order) = ground (arith, get_or-one_block k order)

fresh : ℕ → ℕ → Buddy
fresh m k = record {
  arena_size = 2 ^ m * 2 ^ k;
  min_block = 2 ^ m;
  max_order = k;
  used = 0;
  free = one_block k;
}

create-fresh : (m k : ℕ) → k ≤ 64 → 2 ^ m * 2 ^ k < u64 → create (2 ^ m * 2 ^ k) (2 ^ m) ≡ fresh m k
unfolding create fresh
create-fresh m k h fits = rw (create_order m k h fits) refl

fresh-Inv : (m k : ℕ) → k ≤ 64 → 2 ^ m * 2 ^ k < u64 → Inv (fresh m k) []
unfolding fresh member
fresh-Inv m k h fits = record {
  shape = record { min_bits = m; min_power = refl; arena = refl; fits = fits; shifts = h };
  lists = record {
    orders =
        length-append (replicate k []) ((0 ∷ []) ∷ [])
        ∙ omega (arith, length-replicate {A = List ℕ} k []);
    placed = λ order off there.
        let here = rw (get_or-one_block k order) at there in
        let e : order ≡ k = ground arith in
        let z : off ≡ 0 = ground arith in rw (e, z) (omega arith, (0, omega arith), omega arith);
  };
  live_in = tt;
  cover = λ a. let w = covers (fresh m k) a in ground (arith, weigh-one_block w 0 k);
  counted = refl;
  total =
      let w = bytes_of (fresh m k) in
      let e : 0 + k ≡ k = omega arith in
      let s = weigh-one_block w 0 k in let s' = rw e at s in omega (arith, s');
}

-- A new allocator refuses no request from one byte to its whole arena.
pub create-hands_out :
    (m k bytes : ℕ)
    → k ≤ 64
    → 2 ^ m * 2 ^ k < u64
    → 0 < bytes
    → bytes ≤ 2 ^ m * 2 ^ k
    → (allocate (create (2 ^ m * 2 ^ k) (2 ^ m)) bytes).1 ≢ none
unfolding fresh
create-hands_out m k bytes h fits some_bytes small = rw (create-fresh m k h fits) λ refused.
    let inv = fresh-Inv m k h fits in
    let (same, why) = allocate_refused (fresh m k) [] bytes inv refused in
    elim why [
      | inl empty ↦ absurd (omega arith)
      | inr (inl large) ↦ absurd (omega arith)
      | inr (inr none_free) ↦
          let order = order_for-fits (fresh m k) bytes inv.shape small in
          let top = none_free k order.0 (omega arith) in
          absurd (ground (arith, get_or-one_block k k))
    ]

-- The constructor, given powers of two, makes an allocator that has the invariant with no block in
-- use.
pub create-Inv : (m k : ℕ) → k ≤ 64 → 2 ^ m * 2 ^ k < u64 → Inv (create (2 ^ m * 2 ^ k) (2 ^ m)) []
create-Inv m k h fits = rw (create-fresh m k h fits) (fresh-Inv m k h fits)

pub create_sizes :
    (m k : ℕ)
    → k ≤ 64
    → 2 ^ m * 2 ^ k < u64
    → ((create (2 ^ m * 2 ^ k) (2 ^ m)).arena_size ≡ 2 ^ m * 2 ^ k)
      × ((create (2 ^ m * 2 ^ k) (2 ^ m)).min_block ≡ 2 ^ m)
unfolding create
create_sizes m k h fits = (refl, refl)
