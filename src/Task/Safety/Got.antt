-- ===== src/Task/Safety/Got.antt =====
-- A `get` of the user on a `task`, which may move the result out.
use asyncplusplus_1_1_annota.Base.{
  ℕ, ◌≡◌, true, Option, none, some, Option-cases, Bool-cases, inl, inr, some_inj, ap, subst, refl,
}
use asyncplusplus_1_1_annota.Task.Types.{is_finished, is_canceled, Value, left_behind, Task, World}
use asyncplusplus_1_1_annota.Task.Heap.{◌>>=◌, store, get_result, get_exception}
use asyncplusplus_1_1_annota.Task.Inv.{Inv}
use asyncplusplus_1_1_annota.Task.Inv.Same.{same-Inv}
use asyncplusplus_1_1_annota.Task.User.{
  Outcome, TaskPtr, move_out, with_rest, task_get, get_internal, wait_and_throw,
}

module _ {V E : Type 0} {w : World V E} (inv : Inv w) (t : ℕ) (k : Task V E)
    (there : w.task t ≡ some k) (p : TaskPtr) where
  moved-Inv : (v : Value V) → Inv (store w t (record k { result = some (left_behind true v) }))
  moved-Inv v =
      let ok = inv.sound t k there in
      same-Inv inv t k (record k { result = some (left_behind true v) }) there refl refl refl
        (record {
          has_result = λ _ e. cc;
          has_except = ok.has_except;
          func_pending = ok.func_pending;
          lock = ok.lock;
        })

  -- The heap in which the result has been moved out, where the task has one.
  move_out-Inv :
      (throws : Option E) {w' : World V E} {o : Outcome E (Value V)} {p' : TaskPtr}
      → (move_out w t throws >>= λ x. some (with_rest w p x)) ≡ some (o, p', w')
      → Inv w'
  unfolding get_result
  move_out-Inv throws e = elim (Option-cases k.result) [
    | inl no_result ↦ absurd (let undefined = rw (there, no_result) at e in cc)
    | inr (v, has) ↦
        let gone = some_inj (rw (there, has) at e) in
        subst Inv (ap (λ (z : Outcome E (Value V) × TaskPtr × World V E). z.2) gone) (moved-Inv v)
  ]

module _ {V E : Type 0} {w : World V E} (inv : Inv w) where
  abbrev heap_of : Outcome E (Value V) × TaskPtr × World V E → World V E
  heap_of z = z.2

  -- A call of `get` on any task object keeps the discipline of the tasks.
  pub task_get-Inv :
      (p : TaskPtr) (throws : Option E) {w' : World V E} {o : Outcome E (Value V)} {p' : TaskPtr}
      → task_get w p throws ≡ some (o, p', w')
      → Inv w'
  unfolding task_get get_internal wait_and_throw get_exception
  task_get-Inv none throws e = subst Inv (ap heap_of (some_inj e)) inv
  task_get-Inv (some t) throws e = elim (Option-cases (w.task t)) [
    | inl no_task ↦ absurd (let undefined = rw no_task at e in cc)
    | inr (k, there) ↦ elim (Bool-cases (is_finished k.state)) [
      | inr not_over ↦ subst Inv (ap heap_of (some_inj (rw (there, not_over) at e))) inv
      | inl over ↦ elim (Bool-cases (is_canceled k.state)) [
        | inr not_canceled ↦
            move_out-Inv inv t k there (some t) throws (rw (there, over, not_canceled) at e)
        | inl is_out ↦ elim (Option-cases k.except) [
          | inl no_except ↦ absurd (let undefined = rw (there, over, is_out, no_except) at e in cc)
          | inr (x, has) ↦
              subst Inv (ap heap_of (some_inj (rw (there, over, is_out, has) at e))) inv
        ]
      ]
    ]
  ]
