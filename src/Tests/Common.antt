-- ===== src/Tests/Common.antt =====
-- The bit helpers and the configuration (common/types.hpp, common/config.cpp) at concrete inputs.
use goblin_store.Prelude.{ℕ, ◌*◌, ◌≤◌, ◌<◌, ◌%◌, true, false, [], ◌∷◌, ◌≡◌, refl, arith, ltb, leb}
use goblin_store.Common.Types.{kib, mib, gib, is_power_of_two, is_aligned, align_up, align_down}
use goblin_store.Common.Types.Alignment.{align_down_lem, align_up_bounds}
use goblin_store.Common.Errors.{done, err, invalid_argument}
use goblin_store.Common.Config.{
  Doubles, ServerConfig, EvictionPolicyKind, NetMode, WriteMode, CacheBypass, validate, reject,
}
use goblin_store.Common.Config.Soundness.{IsSound, validate-IsSound, IsSound-validate}

align_down_test : align_down 10000 4096 ≡ 8192
unfolding align_down
align_down_test = refl

align_down_lem_example : align_down 10000 4096 ≡ 8192
align_down_lem_example = align_down_lem 12 52 10000 refl (omega arith)

align_up_test : align_up 10000 4096 ≡ 12288
unfolding align_up
align_up_test = refl

align_up_bounds_example :
    (10000 ≤ align_up 10000 4096) × (align_up 10000 4096 < 14096) × (align_up 10000 4096 % 4096 ≡ 0)
align_up_bounds_example = align_up_bounds 12 52 10000 refl (omega arith)

-- Watermarks in hundredths.
abbrev hundredths : Doubles
hundredths = record { Double = ℕ; zero_point_zero = 0; one_point_zero = 100; le = leb; lt = ltb }

-- The defaults, with one SSD directory.
abbrev default_config : ServerConfig hundredths
default_config = record {
  memcache_port = 11211;
  http_port = 8080;
  https_port = 8443;
  enable_memcache = true;
  enable_http = true;
  enable_https = false;
  tls_cert_paths = [];
  tls_key_paths = [];
  cores = 0;
  http_vhost = false;
  key_on_query = false;
  key_strip_slash = false;
  http_index = "index.html";
  sources = [];
  io_chunk_bytes = 256 * kib;
  io_buffers = 64;
  io_timeout_ms = 30000;
  ttl_reap_ms = 1000;
  shutdown_grace_ms = 5000;
  read_ahead = true;
  net = NetMode.async;
  memory = record {
    total_bytes = 1 * gib;
    block_bytes = 1 * mib;
    lock_memory = true;
    use_hugepages = true;
  };
  tiers = record { ram_head = 256 * kib; ssd_prefix = 32 * mib };
  ssd = record { dirs = "ssd0" ∷ []; stripe_unit = 64 * kib };
  hdd = record { dirs = "hdd0" ∷ []; stripe_unit = 4 * mib };
  eviction = record {
    policy = EvictionPolicyKind.s3fifo;
    max_ssd_objects = 0;
    high_watermark = 90;
    low_watermark = 80;
  };
  memcache_write_mode = WriteMode.evict;
  http_write_mode = WriteMode.block;
  cache_bypass = CacheBypass.o_direct;
}

default_config_passes : validate default_config ≡ done
unfolding validate reject is_power_of_two is_aligned
default_config_passes = refl

default_config_deep :
    validate (record default_config { hdd = record { dirs = "hdd0" ∷ []; stripe_unit = 32 * mib } })
    ≡ err invalid_argument
        "ssd middle (ssd_prefix - ram_head) must be >= hdd stripe_unit (ADR-0006)"
unfolding validate reject is_power_of_two is_aligned
default_config_deep = refl

validate-IsSound_example : IsSound default_config
validate-IsSound_example = validate-IsSound default_config default_config_passes

IsSound-validate_example : validate default_config ≡ done
IsSound-validate_example =
    IsSound-validate default_config (validate-IsSound default_config default_config_passes)
