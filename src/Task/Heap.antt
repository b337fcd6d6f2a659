-- ===== src/Task/Heap.antt =====
-- The operations of task_base and task_result on the heap. `none` is undefined behaviour: a task
-- that is not there, a function object destroyed twice or run after its end, a result or an
-- exception that is read before it is set.
use asyncplusplus_1_1_annota.Base.{
  ℕ, ◌+◌, Bool, true, false, Option, none, some, List, [], ◌∷◌, ◌++◌, ◌==◌, if◌then◌else◌,
}
use asyncplusplus_1_1_annota.Task.Types.{
  TaskState, pending, completed, canceled, is_finished, Value, left_behind, Exec, Task, World,
}

infixl 5 ◌>>=◌
abbrev pub ◌>>=◌ {ℓ κ} : {A : Type ℓ} {B : Type κ} → Option A → (A → Option B) → Option B
none >>= f = none
some a >>= f = f a

abbrev pub update {ℓ} : {A : Type ℓ} → (ℕ → A) → ℕ → A → ℕ → A
update f i a j = if j == i then a else f j

module _ {V E : Type 0} where
  abbrev pub store : World V E → ℕ → Task V E → World V E
  store w t k = record w { task = update w.task t (some k) }

  -- A scheduler takes a `task_run_handle`.
  abbrev pub hand : World V E → List ℕ → World V E
  hand w cs = record w { handles = w.handles ++ cs }

  unfoldable pub run_continuations : World V E → ℕ → Option (World V E)
  run_continuations w t = do
    k ← w.task t
    some (hand (store w t (record k { conts = []; conts_locked = true })) k.conts)

  unfoldable pub finish : World V E → ℕ → Option (World V E)
  finish w t = do k ← w.task t; run_continuations (store w t (record k { state = completed })) t

  unfoldable pub set_result : World V E → ℕ → Value V → Option (World V E)
  set_result w t v = do k ← w.task t; some (store w t (record k { result = some v; except = none }))

  unfoldable pub set_exception : World V E → ℕ → E → Option (World V E)
  set_exception w t e = do
    k ← w.task t
    some (store w t (record k { except = some e; result = none }))

  unfoldable pub set_state : World V E → ℕ → TaskState → Option (World V E)
  set_state w t s = do k ← w.task t; some (store w t (record k { state = s }))

  unfoldable pub cancel_base : World V E → ℕ → E → Option (World V E)
  cancel_base w t e = do
    w₁ ← set_exception w t e
    w₂ ← set_state w₁ t canceled
    run_continuations w₂ t

  unfoldable pub destroy_func : World V E → ℕ → Option (World V E)
  destroy_func w t = do k ← w.task t; f ← k.func; some (store w t (record k { func = none }))

  -- `task_func::cancel`.
  unfoldable pub cancel : World V E → ℕ → E → Option (World V E)
  cancel w t e = do w₁ ← destroy_func w t; cancel_base w₁ t e

  -- `get_result`: the result, and the heap with what the reader leaves of it. A reader of a `task`
  -- gets an rvalue, and may move it out; a reader of a `shared_task` does not.
  unfoldable pub get_result : World V E → ℕ → (moves : Bool) → Option (Value V × World V E)
  get_result w t moves = do
    k ← w.task t
    v ← k.result
    some (v, store w t (record k { result = some (left_behind moves v) }))

  unfoldable pub get_exception : World V E → ℕ → Option E
  get_exception w t = do k ← w.task t; k.except

  -- `add_continuation`, over `continuation_vector::try_add`: a task that has finished, or whose
  -- vector is locked, has the continuation scheduled at once.
  unfoldable pub add_continuation : World V E → ℕ → ℕ → Option (World V E)
  add_continuation w p c = do
    k ← w.task p
    some (
        if is_finished k.state
        then hand w (c ∷ [])
        else if k.conts_locked
        then hand w (c ∷ [])
        else store w p (record k { conts = k.conts ++ c ∷ [] }))

  -- A new object at the next address.
  abbrev pub fresh : Option (Exec V E) → Task V E
  fresh f = record {
    state = pending;
    event_task_got_task = false;
    func = f;
    result = none;
    except = none;
    conts = [];
    conts_locked = false;
  }

  abbrev pub alloc : World V E → Task V E → World V E
  alloc w k = record w { task = update w.task w.next (some k); next = w.next + 1 }
