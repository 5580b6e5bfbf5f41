-- ===== src/Core/Buddy/Invariant.antt =====
-- The invariant of the buddy allocator (core/buffer_pool.cpp): its free blocks and the blocks that
-- are handed out cover every byte of the arena exactly once.
use goblin_store.Prelude.{
  ℕ, ◌+◌, ltb, leb, ◌&&◌, if◌then◌else◌, List, [], ◌∷◌, ◌++◌, ◌≡◌, refl, arith,
}
use goblin_store.Core.Buddy.{Buddy}
use goblin_store.Core.Buddy.Weights.{Weight, weigh}
use goblin_store.Core.Buddy.Blocks.{bytes_at, Shape, InArena, Lists, Halves, bytes_at-suc}

-- The blocks that are handed out, by order and offset.
abbrev pub weigh_live : Weight → List (ℕ × ℕ) → ℕ
weigh_live w [] = 0
weigh_live w ((order, off) ∷ live) = w order off + weigh_live w live

-- Whether the byte at an address is in the block, and the bytes of the block.
abbrev pub covers : Buddy → ℕ → Weight
covers b a order off = if leb off a && ltb a (off + bytes_at b order) then 1 else 0

abbrev pub bytes_of : Buddy → Weight
bytes_of b order off = bytes_at b order

abbrev pub LiveIn : Buddy → List (ℕ × ℕ) → Type 0
LiveIn b [] = Unit
LiveIn b ((order, off) ∷ live) = InArena b order off × LiveIn b live

pub record Inv (b : Buddy) (live : List (ℕ × ℕ)) : Type 0 where
  pub shape : Shape b
  pub lists : Lists b b.free
  pub live_in : LiveIn b live
  -- Every byte of the arena is in exactly one block.
  pub cover :
      (a : ℕ)
      → weigh (covers b a) 0 b.free + weigh_live (covers b a) live
        ≡ (if ltb a b.arena_size then 1 else 0)
  -- The bytes in use are those of the blocks handed out, and the free ones are the rest.
  pub counted : b.used ≡ weigh_live (bytes_of b) live
  pub total : weigh (bytes_of b) 0 b.free + b.used ≡ b.arena_size

pub covers-Halves : (b : Buddy) (a : ℕ) → Halves b (covers b a)
covers-Halves b a order off = ground (arith, bytes_at-suc b order)

pub bytes_of-Halves : (b : Buddy) → Halves b (bytes_of b)
bytes_of-Halves b order off = omega (arith, bytes_at-suc b order)

pub weigh_live-append :
    (w : Weight) (xs : List (ℕ × ℕ)) (order off : ℕ) (ys : List (ℕ × ℕ))
    → weigh_live w (xs ++ (order, off) ∷ ys) ≡ w order off + weigh_live w (xs ++ ys)
weigh_live-append w [] order off ys = refl
weigh_live-append w ((o, x) ∷ xs) order off ys = omega (arith, weigh_live-append w xs order off ys)

pub LiveIn-append :
    (b : Buddy) (xs : List (ℕ × ℕ)) (order off : ℕ) (ys : List (ℕ × ℕ))
    → LiveIn b (xs ++ (order, off) ∷ ys)
    → InArena b order off × LiveIn b (xs ++ ys)
LiveIn-append b [] order off ys h = h
LiveIn-append b ((o, x) ∷ xs) order off ys h =
    let r = LiveIn-append b xs order off ys h.1 in (r.0, (h.0, r.1))
