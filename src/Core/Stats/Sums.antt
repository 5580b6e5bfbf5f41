-- ===== src/Core/Stats/Sums.antt =====
-- What `aggregate` (core/stats.hpp) adds up.
use goblin_store.Prelude.{ℕ, ◌+◌, ◌%◌, ◌<◌, false, List, [], ◌∷◌, ◌≡◌, refl, ap, arith, ℕ_discrete}
use goblin_store.Prelude.Assoc.{member}
use goblin_store.Common.Types.{add64, u64}
use goblin_store.Core.Stats.{
  StatsSnapshot, Counters, no_counts, plus, add_slot, remove_slot, sum_slots, aggregate,
}

pub data Counter : Type 0 where
  conns curr_conns get_hits get_misses sets set_rejected bytes_served bytes_stored : Counter
  get_backpressure set_backpressure slow_drops : Counter

unfoldable pub read : Counter → StatsSnapshot → ℕ
read conns s = s.conns
read curr_conns s = s.curr_conns
read get_hits s = s.get_hits
read get_misses s = s.get_misses
read sets s = s.sets
read set_rejected s = s.set_rejected
read bytes_served s = s.bytes_served
read bytes_stored s = s.bytes_stored
read get_backpressure s = s.get_backpressure
read set_backpressure s = s.set_backpressure
read slow_drops s = s.slow_drops

read-plus : (c : Counter) (s t : StatsSnapshot) → read c (plus s t) ≡ add64 (read c s) (read c t)
unfolding read plus
read-plus conns s t = refl
read-plus curr_conns s t = refl
read-plus get_hits s t = refl
read-plus get_misses s t = refl
read-plus sets s t = refl
read-plus set_rejected s t = refl
read-plus bytes_served s t = refl
read-plus bytes_stored s t = refl
read-plus get_backpressure s t = refl
read-plus set_backpressure s t = refl
read-plus slow_drops s t = refl

read-no_counts : (c : Counter) → read c no_counts ≡ 0
unfolding read
read-no_counts conns = refl
read-no_counts curr_conns = refl
read-no_counts get_hits = refl
read-no_counts get_misses = refl
read-no_counts sets = refl
read-no_counts set_rejected = refl
read-no_counts bytes_served = refl
read-no_counts bytes_stored = refl
read-no_counts get_backpressure = refl
read-no_counts set_backpressure = refl
read-no_counts slow_drops = refl

-- The true sum, with no wrap-around.
abbrev pub sum_of : Counters → Counter → List ℕ → ℕ
sum_of counters c [] = 0
sum_of counters c (s ∷ ss) = read c (counters s) + sum_of counters c ss

read-sum_slots :
    (counters : Counters) (c : Counter) (t : StatsSnapshot) (ss : List ℕ)
    → read c t < u64
    → read c (sum_slots counters t ss) ≡ (read c t + sum_of counters c ss) % u64
unfolding sum_slots
read-sum_slots counters c t [] small = omega arith
read-sum_slots counters c t (s ∷ ss) small =
    let e = read-plus c t (counters s) in
    let ih = read-sum_slots counters c (plus t (counters s)) ss (omega (arith, e)) in
    omega (arith, ih, e)

pub read-aggregate :
    (counters : Counters) (c : Counter) (slots : List ℕ)
    → read c (aggregate counters slots) ≡ sum_of counters c slots % u64
unfolding aggregate
read-aggregate counters c slots =
    let z = read-no_counts c in
    omega (arith, read-sum_slots counters c no_counts slots (omega (arith, z)), z)

sum_of-add_slot :
    (counters : Counters) (c : Counter) (slots : List ℕ) (s : ℕ)
    → sum_of counters c (add_slot slots s) ≡ sum_of counters c slots + read c (counters s)
unfolding add_slot
sum_of-add_slot counters c [] s = omega arith
sum_of-add_slot counters c (t ∷ ts) s = omega (arith, sum_of-add_slot counters c ts s)

remove_slot-add_slot :
    (slots : List ℕ) (s : ℕ)
    → member ℕ_discrete s slots ≡ false
    → remove_slot (add_slot slots s) s ≡ slots
unfolding remove_slot add_slot member
remove_slot-add_slot [] s h = ground arith
remove_slot-add_slot (t ∷ ts) s h = ground (arith, remove_slot-add_slot ts s)

-- Each counter of `aggregate` is the sum of the counters of the slots modulo 2 ^ 64; so a slot that
-- is added adds its counter, and when a slot that was not there is added and removed, the total is
-- as it was.
pub aggregate-add_slot :
    (counters : Counters) (c : Counter) (slots : List ℕ) (s : ℕ)
    → (read c (aggregate counters slots) ≡ sum_of counters c slots % u64)
      × (read c (aggregate counters (add_slot slots s))
          ≡ add64 (read c (aggregate counters slots)) (read c (counters s)))
      × (member ℕ_discrete s slots ≡ false
          → aggregate counters (remove_slot (add_slot slots s) s) ≡ aggregate counters slots)
aggregate-add_slot counters c slots s = (
  read-aggregate counters c slots,
  omega (
    arith,
    read-aggregate counters c slots,
    read-aggregate counters c (add_slot slots s),
    sum_of-add_slot counters c slots s,
  ),
  λ new. ap (aggregate counters) (remove_slot-add_slot slots s new),
)
