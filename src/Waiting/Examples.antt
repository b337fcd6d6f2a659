-- ===== src/Waiting/Examples.antt =====
-- A thread that waits for a task that finishes meanwhile, and a handler that is set and restored.
use asyncplusplus_1_1_annota.Base.{ℕ, ◌≡◌, true, false, none, refl}
use asyncplusplus_1_1_annota.WaitEvent.{is_set}
use asyncplusplus_1_1_annota.Waiting.{
  generic_wait_handler, handler_at, Keys, get_num_threads, get_thread_wait_handler, set_key,
  run_with_wait_handler, waiting, returned, Call, init_event, add, leave, finish, signals, waiter,
  runner, Reach, here, next,
}
use asyncplusplus_1_1_annota.Waiting.Generic.{generic_wait_returns}

abbrev over : (s : Call) × Reach s
over = (
  _,
  next
      (next
        (next (next (next (here false) (waiter (init_event refl))) (waiter (add refl)))
          (runner finish))
        (runner (signals refl refl)))
      (waiter (leave refl refl)),
)

generic_wait_returns_example :
    ((over.0).pc ≡ returned → (over.0).finished ≡ true)
    × ((over.0).continuation ≡ true → (over.0).pc ≡ waiting)
    × ((over.0).pc ≡ waiting → (over.0).continuation ≡ false → is_set (over.0).event ≡ true)
generic_wait_returns_example = generic_wait_returns (over.1)

-- Nothing set, and a task that sets a handler of its own on thread 2.
abbrev keys : Keys
keys j = none

abbrev run : Keys → Keys
run k = set_key k 2 (handler_at 9)

restored_runs :
    get_thread_wait_handler (run_with_wait_handler run keys 2 (handler_at 4)) 2
    ≡ generic_wait_handler
restored_runs = refl

threads_run : get_num_threads (λ (n : ℕ). n) none 0 ≡ 1
threads_run = refl
