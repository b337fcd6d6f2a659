-- ===== src/ThreadPool/Examples.antt =====
-- A pool of one thread: a handle comes from outside, and its task schedules another one, waits for
-- a task, and the pool is destroyed.
use asyncplusplus_1_1_annota.Base.{
  ℕ, ◌+◌, ◌≤◌, ◌<◌, ◌≡◌, inl, true, false, some, [], ◌∷◌, ==_iff, ltb, length, count, if◌then◌else◌,
  refl, arith,
}
use asyncplusplus_1_1_annota.WaitEvent.{is_set}
use asyncplusplus_1_1_annota.ThreadPool.State.{left, Pool, top}
use asyncplusplus_1_1_annota.ThreadPool.Steps.{
  steal_task, loop, schedule, wait_handler, destructor, finish, done_ready, not_done, pop_some,
  pop_none, shuffle, skip_self, no_victim, fetch_some, exit, fall_asleep, returned, schedule_push,
  no_waiters, wait_for, schedule_outside, destroy, task_finishes, Reach, here, next,
}
use asyncplusplus_1_1_annota.ThreadPool.Inv.{stuck, total}
use asyncplusplus_1_1_annota.ThreadPool.Safe.{
  scheduled_once, joined_all_run, event_alive, wait_returns_finished, public_has_thread,
  shutdown_wakes,
}
use asyncplusplus_1_1_annota.ThreadPool.Bound.{waiters_fit}

one_lt : 0 < 1
one_lt = omega arith

abbrev outside : (s : Pool) × Reach 1 s
outside = (_, next here (schedule (schedule_outside 7 refl)))

only : (j : ℕ) → count j (0 ∷ []) ≡ (if ltb j 1 then 1 else 0)
only j = ground (arith, ==_iff j 0)

-- The thread finds nothing of its own and nothing to steal.
abbrev searched : (s : Pool) × Reach 1 s
searched = (
  _,
  next
      (next
        (next
          (next (next (outside.1) (loop (not_done 0 one_lt refl refl)))
            (loop (pop_none 0 one_lt refl refl)))
          (steal_task (shuffle 0 (0 ∷ []) one_lt refl only)))
        (steal_task (skip_self 0 one_lt refl)))
      (steal_task (no_victim 0 one_lt refl)),
)

-- The task that came from outside has scheduled another one, and waits for a task.
abbrev waits : (s : Pool) × Reach 1 s
waits = (
  _,
  next
      (next
        (next (next (searched.1) (loop (fetch_some 0 7 one_lt refl refl)))
          (schedule (schedule_push 0 8 one_lt refl)))
        (schedule (no_waiters 0 one_lt refl refl)))
      (wait_handler (wait_for 0 3 one_lt refl)),
)

abbrev sleeps : (s : Pool) × Reach 1 s
sleeps = (
  _,
  next
      (next
        (next
          (next
            (next
              (next
                (next
                  (next (next (waits.1) (loop (not_done 0 one_lt refl refl)))
                    (loop (pop_some 0 8 one_lt refl refl)))
                  (loop (returned 0 one_lt refl)))
                (loop (not_done 0 one_lt refl refl)))
              (loop (pop_none 0 one_lt refl refl)))
            (steal_task (shuffle 0 (0 ∷ []) one_lt refl only)))
          (steal_task (skip_self 0 one_lt refl)))
        (steal_task (no_victim 0 one_lt refl)))
      (loop (fall_asleep 0 one_lt refl refl refl)),
)

abbrev finished_in_time : (s : Pool) × Reach 1 s
finished_in_time = (_, next (waits.1) (finish (task_finishes 3)))

abbrev joined : (s : Pool) × Reach 1 s
joined = (
  _,
  next
      (next
        (next
          (next
            (next
              (next
                (next
                  (next
                    (next
                      (next
                        (next
                          (next (finished_in_time.1)
                            (loop (done_ready 0 3 0 one_lt refl refl refl refl refl)))
                          (loop (returned 0 one_lt refl)))
                        (loop (not_done 0 one_lt refl refl)))
                      (loop (pop_some 0 8 one_lt refl refl)))
                    (loop (returned 0 one_lt refl)))
                  (loop (not_done 0 one_lt refl refl)))
                (loop (pop_none 0 one_lt refl refl)))
              (steal_task (shuffle 0 (0 ∷ []) one_lt refl only)))
            (steal_task (skip_self 0 one_lt refl)))
          (steal_task (no_victim 0 one_lt refl)))
        (destructor (destroy refl)))
      (loop (exit 0 one_lt refl refl refl)),
)

abbrev shut_down : (s : Pool) × Reach 1 s
shut_down = (
  _,
  next
      (next
        (next
          (next
            (next
              (next (next here (loop (not_done 0 one_lt refl refl)))
                (loop (pop_none 0 one_lt refl refl)))
              (steal_task (shuffle 0 (0 ∷ []) one_lt refl only)))
            (steal_task (skip_self 0 one_lt refl)))
          (steal_task (no_victim 0 one_lt refl)))
        (loop (fall_asleep 0 one_lt refl refl refl)))
      (destructor (destroy refl)),
)

below_one : (i : ℕ) → i < 1 → (top (joined.0) i).pc ≡ left
below_one i lt = ground arith

scheduled_once_example :
    count 8 (waits.0).public_queue + total 8 1 (waits.0).queue + count 8 (waits.0).ran
    ≡ count 8 (waits.0).accepted
scheduled_once_example = scheduled_once (waits.1) 8

joined_all_run_example :
    ((joined.0).shutdown ≡ true) × ((h : ℕ) → count h (joined.0).ran ≡ count h (joined.0).accepted)
joined_all_run_example = joined_all_run one_lt (joined.1) below_one

event_alive_example : (1 ≤ (sleeps.0).depth 0) × (((sleeps.0).call 0 1).event.initialized ≡ true)
event_alive_example = event_alive (sleeps.1) 0 1 (inl refl)

waiters_fit_example : length (sleeps.0).waiters ≤ 1
waiters_fit_example = waiters_fit (sleeps.1)

wait_returns_finished_example :
    (w : ℕ) × ((top (finished_in_time.0) 0).wait_task ≡ some w)
    × ((finished_in_time.0).finished w ≡ true)
wait_returns_finished_example =
    wait_returns_finished (finished_in_time.1)
      (loop (done_ready 0 3 0 one_lt refl refl refl refl refl)) 0 (omega arith)

public_has_thread_example : (i : ℕ) × (i < 1) × (stuck (top (outside.0) i) ≡ false)
public_has_thread_example = public_has_thread one_lt (outside.1) (λ e. cc)

shutdown_wakes_example : is_set (top (shut_down.0) 0).event ≡ true
shutdown_wakes_example = shutdown_wakes one_lt (shut_down.1) refl 0 one_lt refl refl
