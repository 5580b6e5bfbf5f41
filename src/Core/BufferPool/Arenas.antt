-- ===== src/Core/BufferPool/Arenas.antt =====
-- The arenas of a buffer pool (core/buffer_pool.cpp): each block in use carries a buddy allocator
-- with its invariant, and a block is free exactly if it carries none.
use goblin_store.Prelude.{
  ℕ, zero, suc, ◌+◌, ◌*◌, ◌^◌, ◌≤◌, ◌<◌, false, ◌==◌, if◌then◌else◌, Option, none, some, List, [],
  ◌∷◌, length, get_or, ◌≡◌, refl, ap, arith, is_some,
}
use goblin_store.Core.Buddy.{Buddy}
use goblin_store.Core.Buddy.Invariant.{Inv}

-- The regions handed out: for every block, the orders and offsets in it.
abbrev pub Live : Type 0
Live = ℕ → List (ℕ × ℕ)

abbrev pub hand_out : Live → ℕ → ℕ × ℕ → Live
hand_out live block b j = if j == block then b ∷ live j else live j

-- The arena is that of a block of the pool, with its invariant.
pub record ArenaInv (block_bytes min_alloc : ℕ) (live : List (ℕ × ℕ)) (a : Buddy) : Type 0 where
  pub inv : Inv a live
  pub arena : a.arena_size ≡ block_bytes
  pub floor : a.min_block ≡ min_alloc

-- An entry of `arenas_`: a block without arena has nothing handed out.
abbrev pub EntryInv : ℕ → ℕ → List (ℕ × ℕ) → Option Buddy → Type 0
EntryInv block_bytes min_alloc live none = live ≡ []
EntryInv block_bytes min_alloc live (some a) = ArenaInv block_bytes min_alloc live a

-- From a block on.
abbrev pub ArenasInv : ℕ → ℕ → Live → ℕ → List (Option Buddy) → Type 0
ArenasInv block_bytes min_alloc live b [] = Unit
ArenasInv block_bytes min_alloc live b (e ∷ es) =
    EntryInv block_bytes min_alloc (live b) e × ArenasInv block_bytes min_alloc live (b + 1) es

pub hand_out-later :
    (bs ms : ℕ) (live : Live) (block b : ℕ) (x : ℕ × ℕ) (es : List (Option Buddy))
    → block < b
    → ArenasInv bs ms live b es
    → ArenasInv bs ms (hand_out live block x) b es
hand_out-later bs ms live block b x [] h v = tt
hand_out-later bs ms live block b x (e ∷ es) h v =
    let other : (b == block) ≡ false = ground arith in
    (rw other v.0, hand_out-later bs ms live block (b + 1) x es (omega arith) v.1)

-- The same blocks carry an arena.
pub record Alike (es es' : List (Option Buddy)) : Type 0 where
  pub size : length es' ≡ length es
  pub held : (i : ℕ) → is_some (get_or es' i none) ≡ is_some (get_or es i none)

pub Alike-cons :
    (e e' : Option Buddy) (es es' : List (Option Buddy))
    → is_some e' ≡ is_some e
    → Alike es es'
    → Alike (e ∷ es) (e' ∷ es')
Alike-cons e e' es es' h a = record { size = ap suc a.size; held = held }
  where
    held : (i : ℕ) → is_some (get_or (e' ∷ es') i none) ≡ is_some (get_or (e ∷ es) i none)
    held zero = h
    held (suc i) = a.held i

pub Alike-refl : (es : List (Option Buddy)) → Alike es es
Alike-refl es = record { size = refl; held = λ i. refl }

-- What the search of the arenas gives: an offset in the arena of a block, whose new region has the
-- order of the request; or nothing, with every arena as it was.
pub data Searched (bs ms bytes b : ℕ) (live : Live) (es : List (Option Buddy))
    : List (Option Buddy) × Option (ℕ × ℕ) → Type 0 where
  found :
      (es' : List (Option Buddy)) (block off order : ℕ)
      → b ≤ block
      → block < b + length es
      → bytes ≤ ms * 2 ^ order
      → ArenasInv bs ms (hand_out live block (order, off)) b es'
      → Alike es es'
      → Searched bs ms bytes b live es (es', some (block, off))
  missing : Searched bs ms bytes b live es (es, none)
