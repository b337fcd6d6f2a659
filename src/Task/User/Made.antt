-- ===== src/Task/User/Made.antt =====
-- Tasks that are made from a result or an exception.
use asyncplusplus_1_1_annota.Base.{ℕ, ◌≡◌, none, some, [], ◌∷◌, ==_refl, refl}
use asyncplusplus_1_1_annota.Task.Types.{Value, World}
use asyncplusplus_1_1_annota.Task.Heap.{hand, get_result, get_exception, add_continuation}
use asyncplusplus_1_1_annota.Task.User.{
  rethrows, gives, shared_get, get_internal, wait_and_throw, exception_of, make_task,
  make_exception_task,
}

-- In any heap: `get` on a made shared task gives the result, or throws the exception, without blocking,
-- `get_exception` gives the exception, or a null one, and a continuation added to it is scheduled
-- at once.
pub made_answers :
    {V E : Type 0} (w : World V E) (v : Value V) (e : E) (c : ℕ)
    → let made = make_task w v in
      let failed = make_exception_task w e in
      (shared_get made (some w.next) ≡ some (gives v))
      × (exception_of made (some w.next) ≡ some (gives none))
      × (add_continuation made w.next c ≡ some (hand made (c ∷ [])))
      × (shared_get failed (some w.next) ≡ some (rethrows e))
      × (exception_of failed (some w.next) ≡ some (gives (some e)))
      × (add_continuation failed w.next c ≡ some (hand failed (c ∷ [])))
unfolding shared_get get_internal wait_and_throw get_result get_exception exception_of make_task
    make_exception_task add_continuation
made_answers w v e c = (
  rw (==_refl w.next) refl,
  rw (==_refl w.next) refl,
  rw (==_refl w.next) refl,
  rw (==_refl w.next) refl,
  rw (==_refl w.next) refl,
  rw (==_refl w.next) refl,
)
