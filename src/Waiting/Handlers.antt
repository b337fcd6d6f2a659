-- ===== src/Waiting/Handlers.antt =====
-- The handler of a thread, and the number of threads of the default pool.
use asyncplusplus_1_1_annota.Base.{
  ℕ, some_inj, ◌≤◌, ◌≡◌, ◌≢◌, Option, none, some, arith, refl, ==_refl, ==_ne,
}
use asyncplusplus_1_1_annota.Waiting.{
  WaitHandler, Keys, get_num_threads, get_thread_wait_handler, set_key, run_with_wait_handler,
}

-- Whatever the environment says, also where it is no number, the default pool has a thread, and as
-- many as the environment asks for where that is one or more.
pub num_threads_asked {ℓ} :
    {S : Type ℓ} (strtoul : S → ℕ) (env : Option S) (value : ℕ)
    → (1 ≤ get_num_threads strtoul env value)
      × ((s : S) → env ≡ some s → 1 ≤ strtoul s → get_num_threads strtoul env value ≡ strtoul s)
num_threads_asked strtoul none value = (ground arith, λ s e. cc)
num_threads_asked strtoul (some a) value =
    (ground arith, λ s e le. let same : a ≡ s = some_inj e in rw same (ground arith))

-- A task that is run with a wait handler finds that handler on its thread, and whatever handlers the
-- task sets, its thread has the handler from before the call again afterwards; the other threads
-- have what the task left them.
pub handler_restored :
    (run : Keys → Keys) (keys : Keys) (thread : ℕ) (handler : WaitHandler)
    → (get_thread_wait_handler (set_key keys thread handler) thread ≡ handler)
      × (get_thread_wait_handler (run_with_wait_handler run keys thread handler) thread
          ≡ get_thread_wait_handler keys thread)
      × ((j : ℕ)
          → j ≢ thread
          → run_with_wait_handler run keys thread handler j ≡ run (set_key keys thread handler) j)
handler_restored run keys thread handler = (
  rw (==_refl thread, get_thread_wait_handler) refl,
  rw (==_refl thread, get_thread_wait_handler) refl,
  λ j ne. rw (==_ne ne) refl,
)
