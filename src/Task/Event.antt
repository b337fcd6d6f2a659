-- ===== src/Task/Event.antt =====
-- include/async++/task.h: `basic_event`, the task whose result is set by hand.
use asyncplusplus_1_1_annota.Base.{
  ℕ, Bool, true, false, not, ◌&&◌, Option, none, some, if◌then◌else◌,
}
use asyncplusplus_1_1_annota.Task.Types.{locked, is_finished, is_pending, Ran, returns, World}
use asyncplusplus_1_1_annota.Task.Heap.{
  ◌>>=◌, store, fresh, alloc, finish, set_result, set_state, cancel_base,
}

module _ {V E : Type 0} where
  -- The constructor: the event's task stands at the next address.
  abbrev pub new_event : World V E → World V E
  new_event w = alloc w (record (fresh none) { event_task_got_task = false })

  -- The compare-exchange from `pending` to `locked`, and what follows it: `store_and_finish` where
  -- it succeeds, and the answer whether it did.
  unfoldable pub if_pending :
      World V E → ℕ → (World V E → Option (World V E)) → Option (World V E × Bool)
  if_pending w t store_and_finish = do
    k ← w.task t
    if is_pending k.state
        then set_state w t locked >>= (λ w₁. store_and_finish w₁ >>= λ w₂. some (w₂, true))
        else some (w, false)

  -- `set_internal`: `throws` is an exception from the copy of the result into the task.
  unfoldable pub set_internal : World V E → ℕ → Ran V E → Option (World V E × Bool)
  set_internal w t (returns v) = if_pending w t (λ w₁. set_result w₁ t v >>= λ w₂. finish w₂ t)
  set_internal w t (Ran.throws e) = if_pending w t (λ w₁. cancel_base w₁ t e)

  -- `set_exception` of an event.
  unfoldable pub set_event_exception : World V E → ℕ → E → Option (World V E × Bool)
  set_event_exception w t e = if_pending w t (λ w₁. cancel_base w₁ t e)

  -- `get_task`, with assertions off: a second call gets an empty task.
  unfoldable pub get_task : World V E → ℕ → Option (Option ℕ × World V E)
  get_task w t = do
    k ← w.task t
    some (
      if k.event_task_got_task then none else some t,
      store w t (record k { event_task_got_task = true }),
    )

  -- `~basic_event`; `unique` says whether the event has the only reference to its task.
  unfoldable pub abandon : E → World V E → ℕ → (unique : Bool) → Option (World V E)
  abandon abandoned_event_task w t unique = do
    k ← w.task t
    if not (is_finished k.state) && not unique
        then set_event_exception w t abandoned_event_task >>= (λ r. some (r.0))
        else some w
