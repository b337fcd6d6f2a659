-- ===== src/Task/User/Answers.antt =====
-- What a user gets from a task that a program can reach.
use asyncplusplus_1_1_annota.Base.{
  ℕ, ◌≡◌, true, false, Option, none, some, Option-cases, inl, inr, refl, ◌∙◌,
}
use asyncplusplus_1_1_annota.Task.Types.{
  completed, canceled, is_finished, Value, after_move, Task, World,
}
use asyncplusplus_1_1_annota.Task.Heap.{◌>>=◌, store, get_result, get_exception}
use asyncplusplus_1_1_annota.Task.System.{Reachable, Reachable-Inv}
use asyncplusplus_1_1_annota.Task.User.{
  blocks, rethrows, gives, move_out, with_rest, task_get, get_internal, wait_and_throw,
}

module _ {V E : Type 0} {w : World V E} (r : Reachable w) (t : ℕ) (k : Task V E)
    (there : w.task t ≡ some k) where
  -- The heap in which the result of the task has been moved out.
  abbrev pub emptied : Value V → World V E
  emptied v = store w t (record k { result = some (after_move v) })

  moves_result : (v : Value V) → k.result ≡ some v → get_result w t true ≡ some (v, emptied v)
  unfolding get_result
  moves_result v has = rw (there, has) refl

  -- The result is moved out as soon as the task has completed.
  get-completed :
      (throws : Option E)
      → k.state ≡ completed
      → task_get w (some t) throws ≡ (move_out w t throws >>= λ o. some (with_rest w (some t) o))
  unfolding task_get get_internal wait_and_throw
  get-completed throws e = rw (there, e) refl

  -- In every heap that a program and its schedulers can reach, `get` on a `task` that is there blocks
  -- as long as the task has not finished, and leaves the task object and the heap; of a completed one
  -- it moves the result out, which it gives, or, where the move throws, throws the exception of the
  -- move, and it leaves the task object empty in both cases; and it throws the exception of a
  -- canceled one, and leaves the task object, which is still valid, and the heap.
  pub get_answers :
      (throws : Option E)
      → (is_finished k.state ≡ false → task_get w (some t) throws ≡ some (blocks, some t, w))
        × (k.state ≡ completed
            → (v : Value V) × (k.result ≡ some v)
              × (task_get w (some t) none ≡ some (gives v, none, emptied v))
              × ((x : E) → task_get w (some t) (some x) ≡ some (rethrows x, none, emptied v)))
        × (k.state ≡ canceled
            → (e : E) × (k.except ≡ some e)
              × (task_get w (some t) throws ≡ some (rethrows e, some t, w)))
  unfolding task_get get_internal wait_and_throw get_exception
  get_answers throws = (
    λ e. rw (there, e) refl,
    λ e. elim (Option-cases k.result) [
      | inl no_result ↦ absurd (((Reachable-Inv r).sound t k there).has_result e no_result)
      | inr (v, has) ↦ (
        v,
        has,
        get-completed none e ∙ rw (moves_result v has) refl,
        λ x. get-completed (some x) e ∙ rw (moves_result v has) refl,
      )
    ],
    λ e. elim (Option-cases k.except) [
      | inl no_except ↦ absurd (((Reachable-Inv r).sound t k there).has_except e no_except)
      | inr (x, has) ↦ (x, has, rw (there, e, has) refl)
    ],
  )
