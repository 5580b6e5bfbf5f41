-- ===== src/Common/Config.antt =====
-- src/goblin/common/config.hpp and config.cpp: the configuration and its validation. A `double` is
-- a value of the parameter `Doubles`: only its comparisons are read.
pub mod Soundness
use Prim.Native.String.{String}
use goblin_store.Prelude.{
  ℕ, ◌+◌, ◌-◌, Bool, true, false, not, ◌&&◌, ◌||◌, ◌==◌, ltb, if◌then◌else◌, List, [], ◌∷◌, length,
}
use goblin_store.Common.Types.{device_block, max_object_size, sub64, is_power_of_two, is_aligned}
use goblin_store.Common.Errors.{Status, done, err, invalid_argument, ◌>>=◌, ◌>>◌}

pub data WriteMode : Type 0 where
  evict block : WriteMode

pub data CacheBypass : Type 0 where
  o_direct rwf_dontcache buffered : CacheBypass

pub record TierSizes : Type 0 where
  pub ram_head : ℕ
  pub ssd_prefix : ℕ

pub record PoolConfig : Type 0 where
  pub dirs : List String
  pub stripe_unit : ℕ

pub record MemoryConfig : Type 0 where
  pub total_bytes : ℕ
  pub block_bytes : ℕ
  pub lock_memory : Bool
  pub use_hugepages : Bool

pub data EvictionPolicyKind : Type 0 where
  sieve s3fifo tinylfu : EvictionPolicyKind

pub data NetMode : Type 0 where
  blocking async : NetMode

-- What the code reads of the type `double`.
pub record Doubles : Type 1 where
  pub Double : Type 0
  pub zero_point_zero : Double
  pub one_point_zero : Double
  pub le : Double → Double → Bool
  pub lt : Double → Double → Bool

pub record EvictionConfig (D : Doubles) : Type 0 where
  pub policy : EvictionPolicyKind
  pub max_ssd_objects : ℕ
  pub high_watermark : D.Double
  pub low_watermark : D.Double

pub record ServerConfig (D : Doubles) : Type 0 where
  pub memcache_port : ℕ
  pub http_port : ℕ
  pub https_port : ℕ
  pub enable_memcache : Bool
  pub enable_http : Bool
  pub enable_https : Bool
  pub tls_cert_paths : List String
  pub tls_key_paths : List String
  pub cores : ℕ
  pub http_vhost : Bool
  pub key_on_query : Bool
  pub key_strip_slash : Bool
  pub http_index : String
  pub sources : List String
  pub io_chunk_bytes : ℕ
  pub io_buffers : ℕ
  pub io_timeout_ms : ℕ
  pub ttl_reap_ms : ℕ
  pub shutdown_grace_ms : ℕ
  pub read_ahead : Bool
  pub net : NetMode
  pub memory : MemoryConfig
  pub tiers : TierSizes
  pub ssd : PoolConfig
  pub hdd : PoolConfig
  pub eviction : EvictionConfig D
  pub memcache_write_mode : WriteMode
  pub http_write_mode : WriteMode
  pub cache_bypass : CacheBypass

abbrev pub is_empty {ℓ} : {A : Type ℓ} → List A → Bool
is_empty [] = true
is_empty (x ∷ xs) = false

-- `if (bad) return err(Errc::invalid_argument, detail);`
unfoldable pub reject : Bool → String → Status
reject true detail = err invalid_argument detail
reject false detail = done

module _ {D : Doubles} where
  unfoldable pub three_layer : ServerConfig D → Bool
  three_layer c = not (is_empty c.hdd.dirs)

  -- The first violation, or success.
  unfoldable pub validate : ServerConfig D → Status
  unfolding three_layer
  validate c = do
    let m = c.memory
    reject (not (is_power_of_two m.block_bytes) || ltb m.block_bytes device_block)
        "memory.block_bytes must be a power of two >= 4 KiB"
    reject (ltb m.total_bytes m.block_bytes) "memory.total_bytes must be >= block size"
    let t = c.tiers
    reject (ltb t.ssd_prefix t.ram_head) "ram_head must be <= ssd_prefix (ADR-0006)"
    reject (not (is_aligned t.ram_head device_block) || not (is_aligned t.ssd_prefix device_block))
        "tier sizes must be 4 KiB-aligned (O_DIRECT, ADR-0011)"
    reject (ltb max_object_size t.ssd_prefix) "ssd_prefix exceeds the maximum object size"
    reject (ltb m.block_bytes t.ram_head)
        "ram_head must be <= memory.block_bytes (head fits one block)"
    reject (not (is_power_of_two c.io_chunk_bytes) || ltb c.io_chunk_bytes device_block)
        "io_chunk_bytes must be a power of two >= 4 KiB"
    reject (c.io_buffers == 0) "io_buffers must be >= 1"
    reject (is_empty c.ssd.dirs) "at least one --ssd-dir is required"
    reject (c.ssd.stripe_unit == 0 || not (is_aligned c.ssd.stripe_unit device_block))
        "ssd stripe_unit must be a nonzero multiple of 4 KiB"
    reject
        (three_layer c
          && (c.hdd.stripe_unit == 0 || not (is_aligned c.hdd.stripe_unit device_block)))
        "hdd stripe_unit must be a nonzero multiple of 4 KiB"
    reject (three_layer c && ltb (sub64 t.ssd_prefix t.ram_head) c.hdd.stripe_unit)
        "ssd middle (ssd_prefix - ram_head) must be >= hdd stripe_unit (ADR-0006)"
    let ev = c.eviction
    reject
        (D.le ev.low_watermark D.zero_point_zero
          || (D.lt D.one_point_zero ev.high_watermark || D.le ev.high_watermark ev.low_watermark))
        "require 0 < low_watermark < high_watermark <= 1.0"
    reject (not c.enable_memcache && (not c.enable_http && not c.enable_https))
        "no listeners enabled (need at least one of memcache, HTTP, HTTPS)"
    reject (not (length c.tls_cert_paths == length c.tls_key_paths))
        "each --tls-cert needs a matching --tls-key"
    reject (c.enable_https && is_empty c.tls_cert_paths)
        "HTTPS requires at least one --tls-cert/--tls-key pair"
