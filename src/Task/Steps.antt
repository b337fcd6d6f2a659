-- ===== src/Task/Steps.antt =====
-- The operations of a task on a heap in which the task has just been stored.
use mathlib.Core.Path.{fun_ext}
use asyncplusplus_1_1_annota.Base.{
  ℕ, ◌≡◌, true, Option, none, some, [], arith, refl, ==_iff, ==_refl, ap, ◌∙◌,
}
use asyncplusplus_1_1_annota.Task.Types.{
  TaskState, completed, canceled, Value, returns, Exec, Task, World,
}
use asyncplusplus_1_1_annota.Task.Exec.{complete}
use asyncplusplus_1_1_annota.Task.Heap.{
  ◌>>=◌, store, hand, run_continuations, finish, set_result, set_exception, set_state, cancel_base,
  destroy_func, cancel,
}

module _ {V E : Type 0} where
  -- Two heaps that agree at every address are one.
  pub World-ext :
      {w w' : World V E}
      → ((c : ℕ) → w.task c ≡ w'.task c)
      → w.next ≡ w'.next
      → w.handles ≡ w'.handles
      → w ≡ w'
  World-ext tasks next handles =
      λ i. record { task = fun_ext tasks i; next = next i; handles = handles i }

module _ {V E : Type 0} (w : World V E) (t : ℕ) where
  pub store-store : (a b : Task V E) → store (store w t a) t b ≡ store w t b
  store-store a b = World-ext (λ c. ground arith) refl refl

  pub store_self : (k : Task V E) → w.task t ≡ some k → store w t k ≡ w
  store_self k there = World-ext (λ c. ground (arith, ==_iff c t)) refl refl

  task-store : (a : Task V E) → (store w t a).task t ≡ some a
  task-store a = rw (==_refl t) refl

  pub set_result-store :
      (a : Task V E) (v : Value V)
      → set_result (store w t a) t v
        ≡ some (store w t (record a { result = some v; except = none }))
  unfolding set_result
  set_result-store a v =
      rw (task-store a) (ap some (store-store a (record a { result = some v; except = none })))

  pub set_exception-store :
      (a : Task V E) (e : E)
      → set_exception (store w t a) t e
        ≡ some (store w t (record a { except = some e; result = none }))
  unfolding set_exception
  set_exception-store a e =
      rw (task-store a) (ap some (store-store a (record a { except = some e; result = none })))

  pub set_state-store :
      (a : Task V E) (s : TaskState)
      → set_state (store w t a) t s ≡ some (store w t (record a { state = s }))
  unfolding set_state
  set_state-store a s = rw (task-store a) (ap some (store-store a (record a { state = s })))

  pub destroy_func-store :
      (a : Task V E) (f : Exec V E)
      → a.func ≡ some f
      → destroy_func (store w t a) t ≡ some (store w t (record a { func = none }))
  unfolding destroy_func
  destroy_func-store a f owns = rw (task-store a) (
      ap (λ o. o >>= λ _. some (store (store w t a) t (record a { func = none }))) owns
      ∙ ap some (store-store a (record a { func = none })))

  pub run_continuations-store :
      (a : Task V E)
      → run_continuations (store w t a) t
        ≡ some (hand (store w t (record a { conts = []; conts_locked = true })) a.conts)
  unfolding run_continuations
  run_continuations-store a = rw (task-store a) (
      ap (λ v. some (hand v a.conts))
        (store-store a (record a { conts = []; conts_locked = true })))

  -- A task that ends, with the state, the result and the exception it ends with.
  abbrev pub end_with : Task V E → TaskState → Option (Value V) → Option E → World V E
  end_with a s r x =
      hand
        (store w t
          (record a { state = s; result = r; except = x; conts = []; conts_locked = true }))
        a.conts

  pub finish-store :
      (a : Task V E) → finish (store w t a) t ≡ some (end_with a completed a.result a.except)
  unfolding finish
  finish-store a =
      rw (task-store a, store-store a (record a { state = completed }))
        (run_continuations-store (record a { state = completed }))

  pub cancel_base-store :
      (a : Task V E) (e : E)
      → cancel_base (store w t a) t e ≡ some (end_with a canceled none (some e))
  unfolding cancel_base
  cancel_base-store a e =
      rw
        (
          set_exception-store a e,
          set_state-store (record a { except = some e; result = none }) canceled,
        )
        (run_continuations-store (record a { state = canceled; except = some e; result = none }))

  pub cancel-store :
      (a : Task V E) (f : Exec V E) (e : E)
      → a.func ≡ some f
      → cancel (store w t a) t e ≡ some (end_with (record a { func = none }) canceled none (some e))
  unfolding cancel
  cancel-store a f e owns =
      rw (destroy_func-store a f owns) (cancel_base-store (record a { func = none }) e)

  pub complete-store :
      (a : Task V E) (f : Exec V E) (v : Value V)
      → a.func ≡ some f
      → complete (store w t a) t (returns v)
        ≡ some (end_with (record a { func = none }) completed (some v) none)
  unfolding complete
  complete-store a f v owns =
      rw
        (
          set_result-store a v,
          destroy_func-store (record a { result = some v; except = none }) f owns,
        )
        (finish-store (record a { result = some v; except = none; func = none }))
