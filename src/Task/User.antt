-- ===== src/Task/User.antt =====
-- include/async++/task.h: what a user does with a `task`, a `shared_task` or a `local_task`, with
-- assertions on. The outer `none` is undefined behaviour.
pub mod Answers
pub mod Made
pub mod Local
mod Examples
use asyncplusplus_1_1_annota.Base.{ℕ, Bool, true, false, Option, none, some, if◌then◌else◌}
use asyncplusplus_1_1_annota.Task.Types.{
  TaskState, completed, canceled, is_finished, is_canceled, Value, Task, World,
}
use asyncplusplus_1_1_annota.Task.Heap.{◌>>=◌, fresh, alloc, get_result, get_exception}

-- How a call ends: `blocks` is one that waits for the task, `invalid_argument` the failed assertion
-- on an empty task object.
pub data Outcome (E A : Type 0) : Type 0 where
  blocks invalid_argument : Outcome E A
  rethrows : E → Outcome E A
  gives : A → Outcome E A

-- `internal_task` of a `basic_task`: the address of the task, `none` for an empty object.
abbrev pub TaskPtr : Type 0
TaskPtr = Option ℕ

abbrev pub valid : TaskPtr → Bool
valid none = false
valid (some t) = true

abbrev pub checked {ℓ} : {A : Type ℓ} → A → TaskPtr → (ℕ → A) → A
checked invalid none f = invalid
checked invalid (some t) f = f t

-- `task::share`: the shared task, and what is left.
unfoldable pub share : {E : Type 0} → TaskPtr → Outcome E TaskPtr × TaskPtr
share p = checked (invalid_argument, none) p (λ t. (gives (some t), none))

module _ {V E : Type 0} where
  -- `task_base::wait`, with what is done with the state.
  abbrev pub after_wait :
      {A : Type 0} → World V E → ℕ → (TaskState → Option (Outcome E A)) → Option (Outcome E A)
  after_wait w t then_do =
      w.task t >>= (λ k. if is_finished k.state then then_do k.state else some blocks)

  unfoldable pub ready : World V E → TaskPtr → Option (Outcome E Bool)
  ready w p =
      checked (some invalid_argument) p
        (λ t. w.task t >>= (λ k. some (gives (is_finished k.state))))

  unfoldable pub is_task_canceled : World V E → TaskPtr → Option (Outcome E Bool)
  is_task_canceled w p =
      checked (some invalid_argument) p
        (λ t. w.task t >>= (λ k. some (gives (is_canceled k.state))))

  unfoldable pub wait : World V E → TaskPtr → Option (Outcome E TaskState)
  wait w p = checked (some invalid_argument) p (λ t. after_wait w t (λ s. some (gives s)))

  -- `get_exception` of a task: the null `exception_ptr` is `none`.
  unfoldable pub exception_of : World V E → TaskPtr → Option (Outcome E (Option E))
  exception_of w p = checked (some invalid_argument) p (λ t. after_wait w t (λ s.
      if is_canceled s
      then get_exception w t >>= (λ e. some (gives (some e)))
      else some (gives none)))

  -- `wait_and_throw`: it waits, and throws the exception of a canceled task; and what is done then.
  unfoldable pub wait_and_throw :
      {A : Type 0} → World V E → ℕ → Option (Outcome E A) → Option (Outcome E A)
  wait_and_throw w t then_do =
      after_wait w t
        (λ s. if is_canceled s then get_exception w t >>= (λ e. some (rethrows e)) else then_do)

  -- `get_internal`, with what is done next.
  unfoldable pub get_internal :
      {A : Type 0} → World V E → TaskPtr → (ℕ → Option (Outcome E A)) → Option (Outcome E A)
  get_internal w p then_do = checked (some invalid_argument) p (λ t. wait_and_throw w t (then_do t))

  -- `shared_task::get`.
  unfoldable pub shared_get : World V E → TaskPtr → Option (Outcome E (Value V))
  shared_get w p = get_internal w p (λ t. get_result w t false >>= λ got. some (gives got.0))

  -- `task::get`, with the pointer that it leaves and the heap: the pointer is moved out, then the
  -- result is moved out of the task; `throws` is the exception that this move throws, if it does.
  abbrev pub move_out :
      World V E → ℕ → Option E → Option (Outcome E (Outcome E (Value V) × World V E))
  move_out w t throws = do
    (v, w₁) ← get_result w t true
    some (gives (elim throws [ none ↦ gives v | some e ↦ rethrows e ], w₁))

  abbrev pub with_rest :
      World V E
      → TaskPtr
      → Outcome E (Outcome E (Value V) × World V E)
      → Outcome E (Value V) × TaskPtr × World V E
  with_rest w p (gives (o, w₁)) = (o, none, w₁)
  with_rest w p (rethrows e) = (rethrows e, p, w)
  with_rest w p blocks = (blocks, p, w)
  with_rest w p invalid_argument = (invalid_argument, p, w)

  unfoldable pub task_get :
      World V E → TaskPtr → (throws : Option E) → Option (Outcome E (Value V) × TaskPtr × World V E)
  task_get w p throws = do o ← get_internal w p (λ t. move_out w t throws); some (with_rest w p o)

  -- `make_task` and `make_exception_task`: the task is at the next address, and has finished.
  unfoldable pub make_task : World V E → Value V → World V E
  make_task w v = alloc w (record (fresh none) { result = some v; state = completed })

  unfoldable pub make_exception_task : World V E → E → World V E
  make_exception_task w e = alloc w (record (fresh none) { except = some e; state = canceled })
