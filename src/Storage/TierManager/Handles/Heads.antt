-- ===== src/Storage/TierManager/Handles/Heads.antt =====
-- The head that a write fills in RAM (tier_manager.cpp, StoreHandle::write).
use goblin_store.Prelude.{
  ℕ, zero, suc, ◌+◌, ◌-◌, ◌≤◌, ◌<◌, min, ltb, Option, some, [], ◌∷◌, ◌++◌, length, take,
  length-take, append-nil, ◌≡◌, refl, arith, sym, ap, ap₂, ◌∙◌, inl, inr, Bool-cases,
}
use goblin_store.Prelude.Bytes.{Bytes}
use goblin_store.Core.BufferPool.{Region}
use goblin_store.Storage.TierManager.Reads.{read_memory}
use goblin_store.Storage.TierManager.Handles.{write_memory, fill_head}
use goblin_store.Storage.TierManager.Handles.Contents.{take-min}

-- Of an object that was given these bytes, `off` of them, the region holds the first, up to its length.
abbrev pub HasHead : (ℕ → ℕ) → Option Region → ℕ → Bytes → Type 0
HasHead m head off given =
    (g : Region) → head ≡ some g → read_memory m g.address (min off g.len) ≡ take g.len given

write_memory_below : (m : ℕ → ℕ) (a : ℕ) (bs : Bytes) (x : ℕ) → x < a → write_memory m a bs x ≡ m x
unfolding write_memory
write_memory_below m a [] x h = refl
write_memory_below m a (b ∷ bs) x h =
    ground (arith, write_memory_below m (a + 1) bs x (omega arith))

read_memory_below :
    (m : ℕ → ℕ) (a : ℕ) (bs : Bytes) (c n : ℕ)
    → c + n ≤ a
    → read_memory (write_memory m a bs) c n ≡ read_memory m c n
unfolding read_memory
read_memory_below m a bs c zero h = refl
read_memory_below m a bs c (suc n) h =
    ap₂ (λ x xs. x ∷ xs) (write_memory_below m a bs c (omega arith))
      (read_memory_below m a bs (c + 1) n (omega arith))

write_memory_after :
    (m : ℕ → ℕ) (a b : ℕ) (bs : Bytes) (x : ℕ)
    → a < x
    → write_memory m a (b ∷ bs) x ≡ write_memory m (a + 1) bs x
unfolding write_memory
write_memory_after m a b bs x h = ground arith

read_memory_after :
    (m : ℕ → ℕ) (a b : ℕ) (bs : Bytes) (c n : ℕ)
    → a < c
    → read_memory (write_memory m a (b ∷ bs)) c n ≡ read_memory (write_memory m (a + 1) bs) c n
unfolding read_memory
read_memory_after m a b bs c zero h = refl
read_memory_after m a b bs c (suc n) h =
    ap₂ (λ x xs. x ∷ xs) (write_memory_after m a b bs c h)
      (read_memory_after m a b bs (c + 1) n (omega arith))

write_memory_here : (m : ℕ → ℕ) (a b : ℕ) (bs : Bytes) → write_memory m a (b ∷ bs) a ≡ b
unfolding write_memory
write_memory_here m a b bs = ground arith

read_memory-write_memory :
    (m : ℕ → ℕ) (a : ℕ) (bs : Bytes) → read_memory (write_memory m a bs) a (length bs) ≡ bs
unfolding read_memory
read_memory-write_memory m a [] = refl
read_memory-write_memory m a (b ∷ bs) =
    ap₂ (λ x xs. x ∷ xs) (write_memory_here m a b bs)
      (read_memory_after m a b bs (a + 1) (length bs) (omega arith)
        ∙ read_memory-write_memory m (a + 1) bs)

read_memory-append :
    (m : ℕ → ℕ) (a n k : ℕ) → read_memory m a (n + k) ≡ read_memory m a n ++ read_memory m (a + n) k
unfolding read_memory
read_memory-append m a zero k =
    let e : 0 + k ≡ k = omega arith in let f : a + 0 ≡ a = omega arith in rw (e, f) refl
read_memory-append m a (suc n) k =
    let e : suc n + k ≡ suc (n + k) = omega arith in
    let f : a + suc n ≡ a + 1 + n = omega arith in
    rw (e, f) (ap (λ xs. m a ∷ xs) (read_memory-append m (a + 1) n k))

take-append : (k : ℕ) (xs ys : Bytes) → take k (xs ++ ys) ≡ take k xs ++ take (k - length xs) ys
take-append zero xs ys = let e : 0 - length xs ≡ 0 = omega arith in rw e refl
take-append (suc k) [] ys = let e : suc k - 0 ≡ suc k = omega arith in rw e refl
take-append (suc k) (x ∷ xs) ys =
    let e : suc k - suc (length xs) ≡ k - length xs = omega arith in
    rw e (ap (λ zs. x ∷ zs) (take-append k xs ys))

-- What the region of a head holds after a chunk.
read_memory-fill_head :
    (m : ℕ → ℕ) (g : Region) (off : ℕ) (chunk : Bytes)
    → read_memory (fill_head m (some g) off chunk) g.address (min (off + length chunk) g.len)
      ≡ read_memory m g.address (min off g.len) ++ take (g.len - off) chunk
unfolding fill_head
read_memory-fill_head m g off chunk =
    let a = g.address in
    let hend = min (off + length chunk) g.len in
    let bs = take (hend - off) chunk in
    let cut : hend - off ≡ min (length chunk) (g.len - off) = omega arith in
    let same : bs ≡ take (g.len - off) chunk =
      ap (λ k. take k chunk) cut ∙ take-min (g.len - off) chunk in
    elim (Bool-cases (ltb off hend)) [
      | inl some_left ↦
          let lt : off < hend = ground (arith, some_left) in
          let m' = write_memory m (a + off) bs in
          let len : length bs ≡ hend - off = length-take (hend - off) chunk ∙ omega arith in
          let e : hend ≡ off + length bs = omega (arith, len) in
          let f : off ≡ min off g.len = omega arith in
          rw some_left (
            ap (read_memory m' a) e
            ∙ read_memory-append m' a off (length bs)
            ∙ ap₂ (λ xs ys. xs ++ ys)
                (read_memory_below m (a + off) bs a off (omega arith) ∙ ap (read_memory m a) f)
                (read_memory-write_memory m (a + off) bs ∙ same))
      | inr full ↦
          let none_left : hend - off ≡ 0 = ground (arith, full) in
          let e : hend ≡ min off g.len = ground (arith, full) in
          let nothing : take (g.len - off) chunk ≡ [] =
            sym same ∙ ap (λ k. take k chunk) none_left in
          rw full (
            ap (read_memory m a) e
            ∙ sym (append-nil (read_memory m a (min off g.len)))
            ∙ ap (λ z. read_memory m a (min off g.len) ++ z) (sym nothing))
    ]

fill_some :
    (m : ℕ → ℕ) (g : Region) (given chunk : Bytes)
    → HasHead m (some g) (length given) given
    → read_memory
        (fill_head m (some g) (length given) chunk)
        g.address
        (min (length given + length chunk) g.len)
      ≡ take g.len (given ++ chunk)
fill_some m g given chunk had =
    read_memory-fill_head m g (length given) chunk
    ∙ ap (λ z. z ++ take (g.len - length given) chunk) (had g refl)
    ∙ sym (take-append g.len given chunk)

pub fill_head-HasHead :
    (m : ℕ → ℕ) (head : Option Region) (off : ℕ) (given chunk : Bytes)
    → off ≡ length given
    → HasHead m head off given
    → HasHead (fill_head m head off chunk) head (off + length chunk) (given ++ chunk)
fill_head-HasHead m head off given chunk sized had g e =
    rw (e, sized) (fill_some m g given chunk λ g' e'. rw (sym sized) (had g' (e ∙ e')))
