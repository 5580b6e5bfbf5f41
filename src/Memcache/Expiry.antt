-- ===== src/Memcache/Expiry.antt =====
-- src/goblin/protocol/memcache/protocol.cpp, `exptime_to_expiry`, with the expiry test of the index
-- (storage/index.hpp). Times are 32-bit seconds with the wrap-around written out.
use goblin_store.Prelude.{
  ℕ, ◌+◌, ◌*◌, ◌%◌, ◌≤◌, ◌<◌, false, ◌&&◌, not, ◌==◌, leb, ltb, if◌then◌else◌, ◌≡◌, arith,
}
use goblin_store.Common.Types.{u32}
use goblin_store.Storage.Index.{ObjectMeta, is_expired}

abbrev pub relative_max : ℕ
relative_max = 60 * 60 * 24 * 30

unfoldable pub exptime_to_expiry : ℕ → ℕ → ℕ
exptime_to_expiry exptime now =
    if exptime == 0 then 0 else if ltb relative_max exptime then exptime else (now + exptime) % u32

-- An object stored with an exptime at a time expires: never, for 0; from that many seconds later on,
-- for up to 30 days; from the absolute time on, for more. The sum must stay below 2 ^ 32.
pub exptime_to_expiry-is_expired :
    (m : ObjectMeta) (exptime now later : ℕ)
    → now + exptime < u32
    → is_expired (record m { expiry = exptime_to_expiry exptime now }) later ≡ (
        not (exptime == 0)
        && leb (if ltb relative_max exptime then exptime else now + exptime) later)
unfolding exptime_to_expiry is_expired
exptime_to_expiry-is_expired m exptime now later fits = ground arith

-- Where the sum is 2 ^ 32, the expiry is the one of an object that never expires.
pub exptime_to_expiry_wraps :
    (m : ObjectMeta) (exptime now later : ℕ)
    → 0 < exptime
    → exptime ≤ relative_max
    → now + exptime ≡ u32
    → is_expired (record m { expiry = exptime_to_expiry exptime now }) later ≡ false
unfolding exptime_to_expiry is_expired
exptime_to_expiry_wraps m exptime now later some_time relative wraps = ground arith
