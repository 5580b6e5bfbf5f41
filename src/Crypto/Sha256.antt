-- ===== src/Crypto/Sha256.antt =====
-- src/goblin/crypto/sha256.cpp: the digest of a key. Words are 32 bits with the wrap-around written
-- out; a pointer into the data is the bytes from there on.
use Prim.Native.Nat.{bit_or}
use goblin_store.Prelude.{
  ℕ, zero, suc, ◌+◌, ◌-◌, ◌*◌, ◌/◌, ◌%◌, ◌^◌, bit_and, bit_xor, ltb, if◌then◌else◌, List, [], ◌∷◌,
  ◌++◌, length, get_or, drop, replicate,
}
use goblin_store.Common.Types.{u32, u64}
use goblin_store.Crypto.Digest.{Digest}

abbrev round_constants : List ℕ
round_constants =
    0x428a2f98 ∷ 0x71374491 ∷ 0xb5c0fbcf ∷ 0xe9b5dba5 ∷ 0x3956c25b ∷ 0x59f111f1 ∷ 0x923f82a4
    ∷ 0xab1c5ed5 ∷ 0xd807aa98 ∷ 0x12835b01 ∷ 0x243185be ∷ 0x550c7dc3 ∷ 0x72be5d74 ∷ 0x80deb1fe
    ∷ 0x9bdc06a7 ∷ 0xc19bf174 ∷ 0xe49b69c1 ∷ 0xefbe4786 ∷ 0x0fc19dc6 ∷ 0x240ca1cc ∷ 0x2de92c6f
    ∷ 0x4a7484aa ∷ 0x5cb0a9dc ∷ 0x76f988da ∷ 0x983e5152 ∷ 0xa831c66d ∷ 0xb00327c8 ∷ 0xbf597fc7
    ∷ 0xc6e00bf3 ∷ 0xd5a79147 ∷ 0x06ca6351 ∷ 0x14292967 ∷ 0x27b70a85 ∷ 0x2e1b2138 ∷ 0x4d2c6dfc
    ∷ 0x53380d13 ∷ 0x650a7354 ∷ 0x766a0abb ∷ 0x81c2c92e ∷ 0x92722c85 ∷ 0xa2bfe8a1 ∷ 0xa81a664b
    ∷ 0xc24b8b70 ∷ 0xc76c51a3 ∷ 0xd192e819 ∷ 0xd6990624 ∷ 0xf40e3585 ∷ 0x106aa070 ∷ 0x19a4c116
    ∷ 0x1e376c08 ∷ 0x2748774c ∷ 0x34b0bcb5 ∷ 0x391c0cb3 ∷ 0x4ed8aa4a ∷ 0x5b9cca4f ∷ 0x682e6ff3
    ∷ 0x748f82ee ∷ 0x78a5636f ∷ 0x84c87814 ∷ 0x8cc70208 ∷ 0x90befffa ∷ 0xa4506ceb ∷ 0xbef9a3f7
    ∷ 0xc67178f2 ∷ []

abbrev add32 : ℕ → ℕ → ℕ
add32 a b = (a + b) % u32

unfoldable pub rotr : ℕ → ℕ → ℕ
rotr x n = bit_or (x / 2 ^ n) (x * 2 ^ (32 - n) % u32)

-- `~x` on 32 bits
abbrev not32 : ℕ → ℕ
not32 x = u32 - 1 - x

-- The sixteen words of a block, big-endian.
unfoldable pub block_words : ℕ → List ℕ → List ℕ
block_words zero p = []
block_words (suc n) p =
    bit_or (get_or p 0 0 * 2 ^ 24 % u32)
      (bit_or (get_or p 1 0 * 2 ^ 16) (bit_or (get_or p 2 0 * 2 ^ 8) (get_or p 3 0)))
    ∷ block_words n (drop 4 p)

unfoldable pub next_word : List ℕ → ℕ → ℕ
unfolding rotr
next_word w i =
    let x = get_or w (i - 15) 0 in
    let y = get_or w (i - 2) 0 in
    let s0 = bit_xor (bit_xor (rotr x 7) (rotr x 18)) (x / 2 ^ 3) in
    let s1 = bit_xor (bit_xor (rotr y 17) (rotr y 19)) (y / 2 ^ 10) in
    add32 (add32 (add32 (get_or w (i - 16) 0) s0) (get_or w (i - 7) 0)) s1

unfoldable pub extend_words : ℕ → List ℕ → List ℕ
unfolding next_word
extend_words zero w = w
extend_words (suc n) w = extend_words n (w ++ next_word w (length w) ∷ [])

pub record State : Type 0 where
  pub a : ℕ
  pub b : ℕ
  pub c : ℕ
  pub d : ℕ
  pub e : ℕ
  pub f : ℕ
  pub g : ℕ
  pub h : ℕ

unfoldable pub round : State → ℕ → ℕ → State
unfolding rotr
round s k w =
    let s1 = bit_xor (bit_xor (rotr s.e 6) (rotr s.e 11)) (rotr s.e 25) in
    let ch = bit_xor (bit_and s.e s.f) (bit_and (not32 s.e) s.g) in
    let t1 = add32 (add32 (add32 (add32 s.h s1) ch) k) w in
    let s0 = bit_xor (bit_xor (rotr s.a 2) (rotr s.a 13)) (rotr s.a 22) in
    let maj = bit_xor (bit_xor (bit_and s.a s.b) (bit_and s.a s.c)) (bit_and s.b s.c) in
    let t2 = add32 s0 maj in
    record {
      a = add32 t1 t2;
      b = s.a;
      c = s.b;
      d = s.c;
      e = add32 s.d t1;
      f = s.e;
      g = s.f;
      h = s.g;
    }

unfoldable pub rounds : State → List ℕ → List ℕ → State
unfolding round
rounds s [] ws = s
rounds s (k ∷ ks) [] = s
rounds s (k ∷ ks) (w ∷ ws) = rounds (round s k w) ks ws

unfoldable pub sha256_block : State → List ℕ → State
unfolding block_words extend_words rounds
sha256_block s p =
    let t = rounds s round_constants (extend_words 48 (block_words 16 p)) in
    record {
      a = add32 s.a t.a;
      b = add32 s.b t.b;
      c = add32 s.c t.c;
      d = add32 s.d t.d;
      e = add32 s.e t.e;
      f = add32 s.f t.f;
      g = add32 s.g t.g;
      h = add32 s.h t.h;
    }

-- So many blocks from the front of the data.
unfoldable pub blocks : ℕ → State → List ℕ → State
unfolding sha256_block
blocks zero s p = s
blocks (suc n) s p = blocks n (sha256_block s p) (drop 64 p)

-- The low bytes of a number, the most significant first.
unfoldable pub big_endian : ℕ → ℕ → List ℕ
big_endian zero n = []
big_endian (suc count) n = big_endian count (n / 256) ++ n % 256 ∷ []

-- The final block or two: the remaining bytes, 0x80, zeros, and the length in bits.
unfoldable pub tail_block : List ℕ → List ℕ
unfolding big_endian
tail_block bytes =
    let len = length bytes in
    let rem = len % 64 in
    let padlen = if ltb rem 56 then 64 else 128 in
    drop (len / 64 * 64) bytes
    ++ 0x80 ∷ (replicate (padlen - rem - 1 - 8) 0 ++ big_endian 8 (len * 8 % u64))

abbrev initial : State
initial = record {
  a = 0x6a09e667;
  b = 0xbb67ae85;
  c = 0x3c6ef372;
  d = 0xa54ff53a;
  e = 0x510e527f;
  f = 0x9b05688c;
  g = 0x1f83d9ab;
  h = 0x5be0cd19;
}

unfoldable pub state_bytes : State → List ℕ
unfolding big_endian
state_bytes s =
    big_endian 4 s.a
    ++ (big_endian 4 s.b
        ++ (big_endian 4 s.c
            ++ (big_endian 4 s.d
                ++ (big_endian 4 s.e
                    ++ (big_endian 4 s.f ++ (big_endian 4 s.g ++ big_endian 4 s.h))))))

unfoldable pub sha256 : List ℕ → Digest
unfolding blocks tail_block state_bytes
sha256 bytes =
    let s = blocks (length bytes / 64) initial bytes in
    let last = tail_block bytes in record { bytes = state_bytes (blocks (length last / 64) s last) }

unfoldable pub hash_key : List ℕ → Digest
unfolding sha256
hash_key key = sha256 key
