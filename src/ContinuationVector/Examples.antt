-- ===== src/ContinuationVector/Examples.antt =====
-- Two threads add their tasks, and the task finishes.
use asyncplusplus_1_1_annota.Base.{ℕ, ◌+◌, ◌≡◌, [], count, if◌then◌else◌, refl, inl}
use asyncplusplus_1_1_annota.ContinuationVector.{
  try_add, flush_and_lock, State, load, first, second, win_first, win_second, flush_load, flush_win,
  flush_take, flush_all, Reach, here, next, destroy,
}
use asyncplusplus_1_1_annota.ContinuationVector.Destroyed.{destroys_rest}
use asyncplusplus_1_1_annota.ContinuationVector.Inv.{is_added, conts}
use asyncplusplus_1_1_annota.ContinuationVector.Once.{flush_gives_all}

abbrev one_added : (s : State) × Reach s
one_added = (
  _,
  next (next (next here (try_add (load 5 refl))) (try_add (first 5 refl)))
      (try_add (win_first 5 refl refl refl)),
)

abbrev two_added : (s : State) × Reach s
two_added = (
  _,
  next (next (next (one_added.1) (try_add (load 6 refl))) (try_add (second 6 refl)))
      (try_add (win_second 6 refl refl refl)),
)

abbrev finished : (s : State) × Reach s
finished = (
  _,
  next
      (next
        (next (next (two_added.1) (flush_and_lock (flush_load refl)))
          (flush_and_lock (flush_win refl refl refl)))
        (flush_and_lock (flush_take refl refl)))
      (flush_and_lock (flush_all refl)),
)

flush_gives_all_example :
    (conts (finished.0) ≡ [])
    × ((i : ℕ) → count i (finished.0).flushed ≡ (if is_added ((finished.0).pc i) then 1 else 0))
flush_gives_all_example = flush_gives_all (finished.1) refl

destroys_rest_example : count 6 (destroy (two_added.0)) + count 6 (two_added.0).flushed ≡ 1
destroys_rest_example = destroys_rest (two_added.1) (inl refl) 6
