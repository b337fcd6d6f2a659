-- ===== src/Parallel.antt =====
-- include/async++/partitioner.h and the parallel algorithms: a range is split until no split is
-- possible, and the parts run as tasks. A range is a pair of positions of a sequence.
pub mod Split
pub mod Forks
pub mod Calls
pub mod Reduce
pub mod Ranges
mod Examples
use asyncplusplus_1_1_annota.Base.{
  ℕ, suc, ◌+◌, ◌-◌, ◌*◌, ◌/◌, Bool, Option, none, some, leb, ltb, ◌==◌, if◌then◌else◌,
}

-- `static_partitioner_impl`.
pub record StaticPartitioner : Type 0 where
  pub iter_begin : ℕ
  pub iter_end : ℕ
  pub grain : ℕ

-- `auto_partitioner_impl`; `none` is the `std::thread::id` of no thread. The constructor leaves
-- `num_threads` unset: it is read after `last_thread` has been set.
pub record AutoPartitioner : Type 0 where
  pub iter_begin : ℕ
  pub iter_end : ℕ
  pub grain : ℕ
  pub num_threads : ℕ
  pub last_thread : Option ℕ

-- `auto_grain_size`.
unfoldable pub auto_grain_size : (hardware_concurrency : ℕ) → ℕ → ℕ
auto_grain_size hardware_concurrency dist =
    let grain = dist / (8 * hardware_concurrency) in
    let at_least = if ltb grain 1 then 1 else grain in if ltb 2048 at_least then 2048 else at_least

-- `split` returns the part to be spawned and the rest.
unfoldable pub static_split : StaticPartitioner → StaticPartitioner × StaticPartitioner
static_split p =
    let size = p.iter_end - p.iter_begin in
    let out = record p { iter_begin = p.iter_end } in
    let middle = p.iter_begin + (size + 1) / 2 in
    if leb size p.grain
    then (out, p)
    else (record out { iter_begin = middle }, record p { iter_end = middle })

-- Whether the partitioner was last split by the current thread.
abbrev is_thread : Option ℕ → ℕ → Bool
is_thread none current = Bool.false
is_thread (some last) current = last == current

-- The number of threads that the partitioner may still use: a part that another thread took is
-- divided anew.
abbrev threads_for : (hardware_concurrency : ℕ) → ℕ → AutoPartitioner → ℕ
threads_for hardware_concurrency current_thread p =
    if is_thread p.last_thread current_thread then p.num_threads else hardware_concurrency

unfoldable pub auto_split :
    (hardware_concurrency current_thread : ℕ) → AutoPartitioner → AutoPartitioner × AutoPartitioner
auto_split hardware_concurrency current_thread p =
    let size = p.iter_end - p.iter_begin in
    let out = record p { iter_begin = p.iter_end; last_thread = none } in
    let threads = threads_for hardware_concurrency current_thread p in
    let middle = p.iter_begin + (size + 1) / 2 in
    if leb size p.grain
    then (out, p)
    else if leb threads 1
    then (out, record p { num_threads = threads })
    else (
      record out {
        iter_begin = middle;
        last_thread = some current_thread;
        num_threads = threads / 2;
      },
      record p {
        iter_end = middle;
        last_thread = some current_thread;
        num_threads = threads - threads / 2;
      },
    )
