-- ===== src/Task/Types.antt =====
-- The data of a task object, and the heap of all of them.
use asyncplusplus_1_1_annota.Base.{ℕ, Bool, true, false, Option, List, if◌then◌else◌}

-- `enum class task_state`.
pub data TaskState : Type 0 where
  pending locked unwrapped completed canceled : TaskState

abbrev pub is_finished : TaskState → Bool
is_finished completed = true
is_finished canceled = true
is_finished _ = false

abbrev pub is_completed : TaskState → Bool
is_completed completed = true
is_completed _ = false

abbrev pub is_canceled : TaskState → Bool
is_canceled canceled = true
is_canceled _ = false

abbrev pub is_pending : TaskState → Bool
is_pending pending = true
is_pending _ = false

-- The result of a task: `void` results are kept as `fake_void`, and `moved_from` is an object that
-- has been moved from.
pub data Value (V : Type 0) : Type 0 where
  fake_void moved_from : Value V
  value : V → Value V

-- What a move leaves of a result.
abbrev pub after_move : {V : Type 0} → Value V → Value V
after_move fake_void = fake_void
after_move _ = moved_from

abbrev pub left_behind : {V : Type 0} → Bool → Value V → Value V
left_behind moves v = if moves then after_move v else v

-- A task that a user's function returns: its address, whether the `unwrapped_func` moves its result
-- out, as it can where it is a `task`, or copies it, as it does where it is a `shared_task`, and the
-- exception that the copy or the move throws, if it does; or a task to which no continuation can be
-- added, an empty one or one for which there is no memory, with the exception that `then` throws.
pub data Child (E : Type 0) : Type 0 where
  returned : (t : ℕ) (moves : Bool) → (copy_throws : Option E) → Child E
  then_throws : E → Child E

-- How a call of the user's function ends, and one of a function whose result is a task.
pub data Ran (V E : Type 0) : Type 0 where
  returns : Value V → Ran V E
  throws : E → Ran V E

pub data Gave (E : Type 0) : Type 0 where
  gives : Child E → Gave E
  throws : E → Gave E

-- What a task-based continuation can learn from its finished parent.
pub data Final (V E : Type 0) : Type 0 where
  result : Value V → Final V E
  exception : E → Final V E

-- The function object of a `task_func`: `root_exec_func` and `continuation_exec_func` in their
-- specialisations, with the user's function applied to what it captures; `wait_exec_func`; and the
-- continuation that `unwrapped_finish` adds to a child, with an `unwrapped_func` for its parent. The
-- flag of a continuation is whether its function moves the result of its parent out, which it can
-- where that is a `task`, and not where it is a `shared_task`.
pub data Exec (V E : Type 0) : Type 0 where
  root : Ran V E → Exec V E
  root_unwrap : Gave E → Exec V E
  task_cont : ℕ → (moves : Bool) → (Final V E → Ran V E) → Exec V E
  value_cont : ℕ → (moves : Bool) → (Value V → Ran V E) → Exec V E
  void_cont : ℕ → Ran V E → Exec V E
  task_cont_unwrap : ℕ → (moves : Bool) → (Final V E → Gave E) → Exec V E
  value_cont_unwrap : ℕ → (moves : Bool) → (Value V → Gave E) → Exec V E
  void_cont_unwrap : ℕ → Gave E → Exec V E
  forward : (parent child : ℕ) (moves : Bool) → (copy_throws : Option E) → Exec V E
  callback : (watched : ℕ) → Option E → Exec V E

-- `task_base` with the fields of `task_result_holder` and `task_func`; `result` and `except` are one
-- union, in which setting one ends the other. `func` is `none` where there
-- is no function object, or no longer; `conts` and `conts_locked` are the continuation_vector.
pub record Task (V E : Type 0) : Type 0 where
  pub state : TaskState
  pub event_task_got_task : Bool
  pub func : Option (Exec V E)
  pub result : Option (Value V)
  pub except : Option E
  pub conts : List ℕ
  pub conts_locked : Bool

-- All task objects by address, the next free address, and the `task_run_handle`s that some
-- scheduler, queue or thread holds and has yet to run.
pub record World (V E : Type 0) : Type 0 where
  pub task : ℕ → Option (Task V E)
  pub next : ℕ
  pub handles : List ℕ
