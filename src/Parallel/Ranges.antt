-- ===== src/Parallel/Ranges.antt =====
-- include/async++/partitioner.h: the partitioners that are made for a range, and `parallel_for` over
-- a range. A range is given by its first and its last position.
use asyncplusplus_1_1_annota.Base.{ℕ, ◌-◌, ◌≤◌, ◌<◌, ◌≡◌, Bool, none, some, List, []}
use asyncplusplus_1_1_annota.Parallel.{StaticPartitioner, AutoPartitioner, auto_grain_size}
use asyncplusplus_1_1_annota.Parallel.Split.{auto, auto_grain_size-bounds}
use asyncplusplus_1_1_annota.Parallel.Forks.{Forks, internal_parallel_for}
use asyncplusplus_1_1_annota.Parallel.Calls.{Visits, auto_for_once}

-- `static_partitioner` with a grain size, and without.
abbrev pub static_partitioner_of : (first last grain : ℕ) → StaticPartitioner
static_partitioner_of first last grain = record {
  iter_begin = first;
  iter_end = last;
  grain = grain;
}

abbrev pub static_partitioner : (hardware_concurrency first last : ℕ) → StaticPartitioner
static_partitioner hardware_concurrency first last =
    static_partitioner_of first last (auto_grain_size hardware_concurrency (last - first))

-- `auto_partitioner`; `unset` is what stands in `num_threads` before it is set.
abbrev pub auto_partitioner : (hardware_concurrency unset first last : ℕ) → AutoPartitioner
auto_partitioner hardware_concurrency unset first last = record {
  iter_begin = first;
  iter_end = last;
  grain = auto_grain_size hardware_concurrency (last - first);
  num_threads = unset;
  last_thread = none;
}

-- What an algorithm is given: a partitioner, or a range.
pub data Argument : Type 0 where
  partitioner : AutoPartitioner → Argument
  range : (first last : ℕ) → Argument

abbrev pub to_partitioner : (hardware_concurrency unset : ℕ) → Argument → AutoPartitioner
to_partitioner hardware_concurrency unset (partitioner p) = p
to_partitioner hardware_concurrency unset (range first last) =
    auto_partitioner hardware_concurrency unset first last

-- `parallel_for` over a range of positions, on any number of threads: its grain size is at least 1
-- and at most 2048; it comes to an end in as many rounds as the range is long, and one; and it calls
-- the function once for every position of the range, and for no other one.
pub range_for_once :
    (hardware_concurrency unset : ℕ) (thread_of : List Bool → ℕ) (rounds thread first last : ℕ)
    → first ≤ last
    → last - first < rounds
    → let p = to_partitioner hardware_concurrency unset (range first last) in
      (1 ≤ p.grain)
      × (p.grain ≤ 2048)
      × ((t : Forks) × (internal_parallel_for
              (auto hardware_concurrency)
              thread_of
              rounds
              thread
              []
              p
            ≡ some t)
          × Visits t first last)
range_for_once hardware_concurrency unset thread_of rounds thread first last le lt =
    let (low, high) = auto_grain_size-bounds hardware_concurrency (last - first) in
    (
      low,
      high,
      auto_for_once hardware_concurrency thread_of rounds thread
          (to_partitioner hardware_concurrency unset (range first last)) le lt,
    )
