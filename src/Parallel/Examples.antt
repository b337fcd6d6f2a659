-- ===== src/Parallel/Examples.antt =====
-- Tests of the parallel algorithms, and their theorems at concrete ranges.
use asyncplusplus_1_1_annota.Base.{ℕ, ◌+◌, ◌≡◌, Bool, ◌-◌, none, some, List, [], arith, refl}
use asyncplusplus_1_1_annota.Parallel.{
  StaticPartitioner, AutoPartitioner, static_split, auto_split, auto_grain_size,
}
use asyncplusplus_1_1_annota.Parallel.Split.{static, auto}
use asyncplusplus_1_1_annota.Parallel.Forks.{
  Forks, loop, fork, internal_parallel_for, internal_parallel_map_reduce, parallel_invoke,
  reduce_loop,
}
use asyncplusplus_1_1_annota.Parallel.Calls.{Visits, auto_for_once, invoke_once}
use asyncplusplus_1_1_annota.Parallel.Reduce.{IsMonoid, auto_reduce_as_loop}

abbrev eight : StaticPartitioner
eight = record { iter_begin = 0; iter_end = 8; grain = 2 }

abbrev two_threads : AutoPartitioner
two_threads = record {
  iter_begin = 3;
  iter_end = 10;
  grain = 1;
  num_threads = 0;
  last_thread = none;
}

abbrev own_thread : List Bool → ℕ
own_thread path = 1

-- The four parts of eight positions.
eight_runs :
    internal_parallel_for static own_thread 9 0 [] eight
    ≡ some (fork (fork (loop 6 8) (loop 4 6)) (fork (loop 2 4) (loop 0 2)))
unfolding internal_parallel_for static_split
eight_runs = refl

-- Two threads share seven positions, and one that is stolen is divided anew.
two_threads_run :
    internal_parallel_for (auto 2) own_thread 8 0 [] two_threads
    ≡ some (fork (fork (loop 9 10) (loop 7 9)) (loop 3 7))
unfolding internal_parallel_for auto_split
two_threads_run = refl

-- 0 + 1 + … + 7.
sum_runs : internal_parallel_map_reduce ◌+◌ (λ i. i) static own_thread 0 9 0 [] eight ≡ some 28
unfolding internal_parallel_map_reduce static_split reduce_loop
sum_runs = refl

grain_runs : auto_grain_size 4 1000 ≡ 31
unfolding auto_grain_size
grain_runs = refl

add-IsMonoid : IsMonoid ◌+◌ 0
add-IsMonoid = record {
  assoc = λ x y z. omega arith;
  left = λ x. omega arith;
  right = λ x. omega arith;
}

auto_for_once_example :
    (t : Forks) × (internal_parallel_for (auto 2) own_thread 8 0 [] two_threads ≡ some t)
    × Visits t 3 10
auto_for_once_example = auto_for_once 2 own_thread 8 0 two_threads (omega arith) (omega arith)

invoke_once_example : (t : Forks) × (parallel_invoke 6 0 5 ≡ some t) × Visits t 0 5
invoke_once_example = invoke_once 6 0 5 (omega arith)

auto_reduce_as_loop_example :
    internal_parallel_map_reduce ◌+◌ (λ i. i) (auto 2) own_thread 0 8 0 [] two_threads
    ≡ some (reduce_loop ◌+◌ (λ i. i) 0 3 (10 - 3))
auto_reduce_as_loop_example =
    auto_reduce_as_loop ◌+◌ (λ i. i) 0 add-IsMonoid 2 own_thread 8 0 two_threads (omega arith)
      (omega arith)
