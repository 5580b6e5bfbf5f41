-- ===== src/Storage/Eviction.antt =====
-- src/goblin/storage/eviction.hpp and eviction.cpp: the policy behind the interface, by its kind.
use goblin_store.Prelude.{ℕ}
use goblin_store.Common.Config.{EvictionPolicyKind}
use goblin_store.Storage.S3Fifo.{S3Fifo, create}

-- Every kind gives an S3-FIFO policy.
unfoldable pub make_eviction_policy : EvictionPolicyKind → ℕ → S3Fifo
make_eviction_policy EvictionPolicyKind.s3fifo capacity_hint = create capacity_hint
make_eviction_policy EvictionPolicyKind.sieve capacity_hint = create capacity_hint
make_eviction_policy EvictionPolicyKind.tinylfu capacity_hint = create capacity_hint
