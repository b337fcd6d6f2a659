-- ===== src/Task/Exec.antt =====
-- Running a task: the execution functions of task_base.h, and the handles of scheduler.h.
use asyncplusplus_1_1_annota.Base.{
  Bool, ℕ, zero, suc, Option, none, some, List, [], ◌∷◌, if◌then◌else◌,
}
use asyncplusplus_1_1_annota.Task.Types.{
  unwrapped, is_completed, is_canceled, is_pending, Value, fake_void, Ran, returns, Gave, gives,
  Child, returned, then_throws, Final, result, exception, Exec, root, root_unwrap, task_cont,
  value_cont, void_cont, task_cont_unwrap, value_cont_unwrap, void_cont_unwrap, forward, callback,
  World,
}
use asyncplusplus_1_1_annota.Task.Heap.{
  ◌>>=◌, hand, fresh, alloc, finish, set_result, set_state, cancel_base, destroy_func, cancel,
  get_result, get_exception, add_continuation,
}

-- Which handle is next: the scheduler's choice.
unfoldable pub take_handle : ℕ → List ℕ → Option (ℕ × List ℕ)
take_handle i [] = none
take_handle zero (t ∷ ts) = some (t, ts)
take_handle (suc i) (t ∷ ts) = elim (take_handle i ts) [
  | none ↦ none
  | some (u, us) ↦ some (u, t ∷ us)
]

module _ {V E : Type 0} where
  -- The end of an execution function without unwrapping; an exception ends in `task_func::run`.
  unfoldable pub complete : World V E → ℕ → Ran V E → Option (World V E)
  complete w t (returns v) = do w₁ ← set_result w t v; w₂ ← destroy_func w₁ t; finish w₂ t
  complete w t (Ran.throws e) = cancel w t e

  -- `unwrapped_finish`: the continuation on the child is a new task, run by the inline scheduler.
  -- Where `then` throws, the catch cancels the task, whose function object is gone already.
  unfoldable pub link : World V E → ℕ → Child E → Option (World V E)
  link w t (returned c moves copy_throws) =
      add_continuation (alloc w (fresh (some (forward t c moves copy_throws)))) c w.next
  link w t (then_throws e) = cancel_base w t e

  unfoldable pub unwrapped_finish : World V E → ℕ → Child E → Option (World V E)
  unwrapped_finish w t child_task = do
    w₁ ← set_state w t unwrapped
    w₂ ← destroy_func w₁ t
    link w₂ t child_task

  unfoldable pub unwrap : World V E → ℕ → Gave E → Option (World V E)
  unwrap w t (gives child_task) = unwrapped_finish w t child_task
  unwrap w t (Gave.throws e) = cancel w t e

  -- The parent as a task-based continuation gets it, and what its function leaves of the result.
  unfoldable pub final : World V E → ℕ → (moves : Bool) → Option (Final V E × World V E)
  final w p moves = do
    k ← w.task p
    if is_canceled k.state
        then get_exception w p >>= (λ e. some (exception e, w))
        else get_result w p moves >>= (λ got. some (result got.0, got.1))

  -- A value-based continuation: a canceled parent cancels it, without a call of its function.
  unfoldable pub with_value :
      World V E
      → ℕ
      → ℕ
      → (moves : Bool) → (Value V → World V E → Option (World V E))
      → Option (World V E)
  with_value w t p moves run = do
    k ← w.task p
    if is_canceled k.state
        then get_exception w p >>= (λ e. cancel w t e)
        else get_result w p moves >>= (λ got. run got.0 got.1)

  -- A void continuation does not read the result.
  unfoldable pub with_void : World V E → ℕ → ℕ → Option (World V E) → Option (World V E)
  with_void w t p run = do
    k ← w.task p
    if is_canceled k.state then get_exception w p >>= (λ e. cancel w t e) else run

  -- `unwrapped_func::operator()`, with its catch: where the copy or the move of the result into the
  -- parent throws, the parent is canceled.
  unfoldable pub copy_to : World V E → ℕ → Option E → Value V → Option (World V E)
  copy_to w parent none v = do w₁ ← set_result w parent v; finish w₁ parent
  copy_to w parent (some e) v = cancel_base w parent e

  unfoldable pub forward_result :
      World V E → ℕ → ℕ → (moves : Bool) → (copy_throws : Option E) → Option (World V E)
  forward_result w parent child moves copy_throws = do
    k ← w.task child
    if is_completed k.state
        then get_result w child moves >>= (λ got. copy_to got.1 parent copy_throws got.0)
        else get_exception w child >>= (λ e. cancel_base w parent e)

  -- `~task_func`: the last reference to a task is gone.
  unfoldable pub destroy : World V E → ℕ → Option (World V E)
  destroy w t = do k ← w.task t; if is_pending k.state then destroy_func w t else some w

  -- `task_func::run`, by the function object. The handle of a callback is the only reference to
  -- its task, which ends with it.
  unfoldable pub exec : World V E → ℕ → Exec V E → Option (World V E)
  exec w t (root r) = complete w t r
  exec w t (root_unwrap g) = unwrap w t g
  exec w t (task_cont p moves f) = do (x, w₁) ← final w p moves; complete w₁ t (f x)
  exec w t (value_cont p moves f) = with_value w t p moves (λ v w₁. complete w₁ t (f v))
  exec w t (void_cont p r) = with_void w t p (complete w t r)
  exec w t (task_cont_unwrap p moves f) = do (x, w₁) ← final w p moves; unwrap w₁ t (f x)
  exec w t (value_cont_unwrap p moves f) = with_value w t p moves (λ v w₁. unwrap w₁ t (f v))
  exec w t (void_cont_unwrap p g) = with_void w t p (unwrap w t g)
  exec w t (forward parent child moves copy_throws) = do
    w₁ ← forward_result w parent child moves copy_throws
    complete w₁ t (returns fake_void)
  exec w t (callback watched none) = destroy w t
  exec w t (callback watched (some e)) = do w₁ ← cancel w t e; destroy w₁ t

  -- `task_run_handle::run`.
  unfoldable pub run_task : World V E → ℕ → Option (World V E)
  run_task w t = do k ← w.task t; f ← k.func; exec w t f

  -- `spawn`: a new task whose handle goes to the scheduler.
  unfoldable pub spawn : World V E → Exec V E → World V E
  spawn w f = hand (alloc w (fresh (some f))) (w.next ∷ [])

  -- `then_internal` on the task `p`, and `on_finish`.
  unfoldable pub then_internal : World V E → ℕ → Exec V E → Option (World V E)
  then_internal w p f = add_continuation (alloc w (fresh (some f))) p w.next

  -- A scheduler runs one of the handles that it holds, or destroys it: `~task_run_handle` cancels
  -- the task with `task_not_executed`.
  unfoldable pub run_handle : World V E → ℕ → Option (World V E)
  run_handle w i = do (t, left) ← take_handle i w.handles; run_task (record w { handles = left }) t

  unfoldable pub drop_handle : E → World V E → ℕ → Option (World V E)
  drop_handle task_not_executed w i = do
    (t, left) ← take_handle i w.handles
    cancel (record w { handles = left }) t task_not_executed
