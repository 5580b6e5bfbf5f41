-- ===== src/Core/Stats.antt =====
-- src/goblin/core/stats.hpp: the counters of the workers. A slot is a number, and its counters a
-- function of it; a relaxed load of each counter is a read of a 64-bit number. The clock of
-- `uptime_secs` is left out.
pub mod Sums
use goblin_store.Prelude.{ℕ, ◌+◌, ◌==◌, if◌then◌else◌, List, [], ◌∷◌, ◌++◌}
use goblin_store.Common.Types.{add64}

pub record StatsSnapshot : Type 0 where
  pub conns : ℕ
  pub curr_conns : ℕ
  pub get_hits : ℕ
  pub get_misses : ℕ
  pub sets : ℕ
  pub set_rejected : ℕ
  pub bytes_served : ℕ
  pub bytes_stored : ℕ
  pub get_backpressure : ℕ
  pub set_backpressure : ℕ
  pub slow_drops : ℕ

abbrev pub no_counts : StatsSnapshot
no_counts = record {
  conns = 0;
  curr_conns = 0;
  get_hits = 0;
  get_misses = 0;
  sets = 0;
  set_rejected = 0;
  bytes_served = 0;
  bytes_stored = 0;
  get_backpressure = 0;
  set_backpressure = 0;
  slow_drops = 0;
}

-- `operator+=`
unfoldable pub plus : StatsSnapshot → StatsSnapshot → StatsSnapshot
plus s o = record {
  conns = add64 s.conns o.conns;
  curr_conns = add64 s.curr_conns o.curr_conns;
  get_hits = add64 s.get_hits o.get_hits;
  get_misses = add64 s.get_misses o.get_misses;
  sets = add64 s.sets o.sets;
  set_rejected = add64 s.set_rejected o.set_rejected;
  bytes_served = add64 s.bytes_served o.bytes_served;
  bytes_stored = add64 s.bytes_stored o.bytes_stored;
  get_backpressure = add64 s.get_backpressure o.get_backpressure;
  set_backpressure = add64 s.set_backpressure o.set_backpressure;
  slow_drops = add64 s.slow_drops o.slow_drops;
}

-- What `Stats::snapshot` reads of each slot.
abbrev pub Counters : Type 0
Counters = ℕ → StatsSnapshot

unfoldable pub add_slot : List ℕ → ℕ → List ℕ
add_slot slots s = slots ++ s ∷ []

-- `std::erase(slots_, s)`
unfoldable pub remove_slot : List ℕ → ℕ → List ℕ
remove_slot [] s = []
remove_slot (t ∷ ts) s = let rest = remove_slot ts s in if t == s then rest else t ∷ rest

unfoldable pub sum_slots : Counters → StatsSnapshot → List ℕ → StatsSnapshot
unfolding plus
sum_slots counters t [] = t
sum_slots counters t (s ∷ ss) = sum_slots counters (plus t (counters s)) ss

unfoldable pub aggregate : Counters → List ℕ → StatsSnapshot
unfolding sum_slots
aggregate counters slots = sum_slots counters no_counts slots
