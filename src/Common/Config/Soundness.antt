-- ===== src/Common/Config/Soundness.antt =====
-- What a configuration that `validate` (common/config.cpp) accepts guarantees.
use Prim.Native.String.{String}
use goblin_store.Prelude.{
  ℕ, ◌+◌, ◌%◌, ◌^◌, ◌≤◌, ◌<◌, Bool, true, false, [], length, ◌≡◌, ◌≢◌, ◌⊎◌, refl, arith, ◌==◌,
}
use goblin_store.Common.Types.{device_block, max_object_size, is_power_of_two, is_aligned}
use goblin_store.Common.Types.Alignment.{is_power_of_two_iff, is_aligned_lem}
use goblin_store.Common.Errors.{Status, done, ◌>>◌}
use goblin_store.Common.Config.{Doubles, ServerConfig, reject, validate}

-- The invariants of the design records, in arithmetic.
pub record IsSound {D : Doubles} (c : ServerConfig D) : Type 0 where
  pub block_power : (k : ℕ) × (c.memory.block_bytes ≡ 2 ^ k)
  pub block_floor : device_block ≤ c.memory.block_bytes
  pub one_block : c.memory.block_bytes ≤ c.memory.total_bytes
  pub head_in_prefix : c.tiers.ram_head ≤ c.tiers.ssd_prefix
  pub head_aligned : c.tiers.ram_head % device_block ≡ 0
  pub prefix_aligned : c.tiers.ssd_prefix % device_block ≡ 0
  pub prefix_bounded : c.tiers.ssd_prefix ≤ max_object_size
  pub head_in_block : c.tiers.ram_head ≤ c.memory.block_bytes
  pub chunk_power : (k : ℕ) × (c.io_chunk_bytes ≡ 2 ^ k)
  pub chunk_floor : device_block ≤ c.io_chunk_bytes
  pub some_buffer : 0 < c.io_buffers
  pub ssd_dirs : c.ssd.dirs ≢ []
  pub ssd_stripe : (0 < c.ssd.stripe_unit) × (c.ssd.stripe_unit % device_block ≡ 0)
  pub hdd_stripe :
      c.hdd.dirs ≢ []
      → (0 < c.hdd.stripe_unit)
        × (c.hdd.stripe_unit % device_block ≡ 0)
        × (c.tiers.ram_head + c.hdd.stripe_unit ≤ c.tiers.ssd_prefix)
  pub watermarks :
      (D.le c.eviction.low_watermark D.zero_point_zero ≡ false)
      × (D.lt D.one_point_zero c.eviction.high_watermark ≡ false)
      × (D.le c.eviction.high_watermark c.eviction.low_watermark ≡ false)
  pub listener : (c.enable_memcache ≡ true) ⊎ ((c.enable_http ≡ true) ⊎ (c.enable_https ≡ true))
  pub paired : length c.tls_cert_paths ≡ length c.tls_key_paths
  pub certified : c.enable_https ≡ true → c.tls_cert_paths ≢ []

passes :
    (b : Bool) (detail : String) {rest : Status}
    → b ≡ false
    → rest ≡ done
    → (reject b detail >> rest) ≡ done
unfolding reject
passes b detail p q = rw (p, q)

last : (b : Bool) (detail : String) → b ≡ false → reject b detail ≡ done
unfolding reject
last b detail p = rw p

module _ {D : Doubles} (c : ServerConfig D) where
  aligned_block : (v : ℕ) → is_aligned v device_block ≡ (v % device_block == 0)
  aligned_block v = is_aligned_lem 12 52 v refl

  power_tests :
      validate c ≡ done
      → (is_power_of_two c.memory.block_bytes ≡ true) × (is_power_of_two c.io_chunk_bytes ≡ true)
  unfolding validate reject
  power_tests h = ground arith

  -- A configuration that `validate` accepts has every invariant of the design records.
  pub validate-IsSound : validate c ≡ done → IsSound c
  unfolding validate reject
  validate-IsSound h = record {
    block_power = (is_power_of_two_iff c.memory.block_bytes).0 (power_tests h).0;
    block_floor = ground arith;
    one_block = ground arith;
    head_in_prefix = ground arith;
    head_aligned = ground (arith, aligned_block c.tiers.ram_head);
    prefix_aligned = ground (arith, aligned_block c.tiers.ssd_prefix);
    prefix_bounded = ground arith;
    head_in_block = ground arith;
    chunk_power = (is_power_of_two_iff c.io_chunk_bytes).0 (power_tests h).1;
    chunk_floor = ground arith;
    some_buffer = ground arith;
    ssd_dirs = λ e. ground arith;
    ssd_stripe = ground (arith, aligned_block c.ssd.stripe_unit);
    hdd_stripe = λ three. ground (arith, aligned_block c.hdd.stripe_unit);
    watermarks = ground arith;
    listener = ground arith;
    paired = ground arith;
    certified = λ on e. ground arith;
  }

  -- A configuration that has every invariant of the design records is accepted by `validate`.
  pub IsSound-validate : IsSound c → validate c ≡ done
  unfolding validate
  IsSound-validate s =
      passes _ _ (ground (arith, (is_power_of_two_iff c.memory.block_bytes).1 s.block_power)) (
        passes _ _ (ground arith) (
          passes _ _ (ground arith) (
            passes _ _
              (ground (arith, aligned_block c.tiers.ram_head, aligned_block c.tiers.ssd_prefix))
              (passes _ _ (ground arith) (
                passes _ _ (ground arith) (
                  passes _ _
                    (ground (arith, (is_power_of_two_iff c.io_chunk_bytes).1 s.chunk_power))
                    (passes _ _ (ground arith) (
                      passes _ _ (ground arith) (
                        passes _ _ (ground (arith, aligned_block c.ssd.stripe_unit)) (
                          passes _ _ (ground (arith, aligned_block c.hdd.stripe_unit)) (
                            passes _ _ (ground arith) (
                              passes _ _ (ground arith) (
                                passes _ _ (ground arith)
                                  (passes _ _ (ground arith) (last _ _ (ground arith))))))))))))))))
