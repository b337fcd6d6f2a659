-- ===== src/Task/Safety/Made.antt =====
-- A task that is made with a result or an exception: the discipline of the tasks holds with it.
use asyncplusplus_1_1_annota.Base.{
  ◌≡◌, ◌≢◌, true, Option, none, some, append-nil, arith, refl, subst, ==_refl,
}
use asyncplusplus_1_1_annota.Task.Types.{TaskState, completed, canceled, is_finished, Value, World}
use asyncplusplus_1_1_annota.Task.Heap.{fresh, alloc}
use asyncplusplus_1_1_annota.Task.Inv.{Inv}
use asyncplusplus_1_1_annota.Task.Inv.Same.{same-Inv}
use asyncplusplus_1_1_annota.Task.Steps.{World-ext}
use asyncplusplus_1_1_annota.Task.Safety.Event.{new_event-Inv, ended-Inv, ended_task}
use asyncplusplus_1_1_annota.Task.User.{make_task, make_exception_task}

module _ {V E : Type 0} {w : World V E} (inv : Inv w) where
  module _ (s : TaskState) (r : Option (Value V)) (x : Option E)
      (set : (s ≡ completed → r ≢ none) × (s ≡ canceled → x ≢ none))
      (over : is_finished s ≡ true) where
    -- As an event that is set, but for the lock of its continuations.
    made-Inv : Inv (alloc w (record (fresh none) { state = s; result = r; except = x }))
    made-Inv = subst Inv (World-ext (λ c. ground arith) refl (append-nil w.handles)) (
        same-Inv
          (ended-Inv (new_event-Inv inv) w.next (fresh none) (rw (==_refl w.next) refl) refl refl s
            r x set over)
          w.next (record (fresh none) { state = s; result = r; except = x; conts_locked = true })
          (record (fresh none) { state = s; result = r; except = x })
          (ended_task (new_event-Inv inv) w.next (fresh none) (rw (==_refl w.next) refl) refl refl s
            r x)
          refl refl refl
          (record {
            has_result = set.0;
            has_except = set.1;
            func_pending = λ e. absurd (e refl);
            lock = λ e. refl;
          }))

  pub make_task-Inv : (v : Value V) → Inv (make_task w v)
  unfolding make_task
  make_task-Inv v = made-Inv completed (some v) none (λ _ h. cc, λ h. cc) refl

  pub make_exception_task-Inv : (e : E) → Inv (make_exception_task w e)
  unfolding make_exception_task
  make_exception_task-Inv e = made-Inv canceled none (some e) (λ h. cc, λ _ h. cc) refl
