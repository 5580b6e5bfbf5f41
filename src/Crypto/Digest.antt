-- ===== src/Crypto/Digest.antt =====
-- src/goblin/crypto/sha256.hpp, `struct Digest`: 32 bytes, each a number below 256. `bucket` copies
-- the first eight bytes into a 64-bit word of a little-endian machine.
use goblin_store.Prelude.{ℕ, ◌+◌, ◌*◌, ◌/◌, ◌%◌, List, [], ◌∷◌, take, get_or, ℕ_discrete}

pub record Digest : Type 0 where
  pub bytes : List ℕ

unfoldable pub Digest-discrete : Discrete Digest
Digest-discrete = hlevel ℕ_discrete

unfoldable pub little_endian : List ℕ → ℕ
little_endian [] = 0
little_endian (b ∷ bs) = b + 256 * little_endian bs

unfoldable pub bucket : Digest → ℕ
unfolding little_endian
bucket d = little_endian (take 8 d.bytes)

abbrev digits : List ℕ
digits =
    b'0' ∷ b'1' ∷ b'2' ∷ b'3' ∷ b'4' ∷ b'5' ∷ b'6' ∷ b'7' ∷ b'8' ∷ b'9' ∷ b'a' ∷ b'b' ∷ b'c' ∷ b'd'
    ∷ b'e' ∷ b'f' ∷ []

unfoldable pub hex_bytes : List ℕ → List ℕ
hex_bytes [] = []
hex_bytes (b ∷ bs) = get_or digits (b / 16 % 16) 0 ∷ get_or digits (b % 16) 0 ∷ hex_bytes bs

unfoldable pub hex : Digest → List ℕ
unfolding hex_bytes
hex d = hex_bytes d.bytes
