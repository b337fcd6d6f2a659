-- ===== src/Task/Inv.antt =====
-- The discipline of the task objects: what a task holds in each state, and where the one handle of
-- a task that has yet to run is.
pub mod Alloc
pub mod Drop
pub mod Finish
pub mod Same
pub use asyncplusplus_1_1_annota.Base.{count, count-append}
use asyncplusplus_1_1_annota.Base.{
  ℕ, zero, suc, ◌+◌, ◌<◌, ◌≤◌, ◌≡◌, ◌≢◌, Bool, true, false, Option, none, some, List, [], ◌∷◌, ◌++◌,
  ◌==◌, if◌then◌else◌, arith, refl,
}
use asyncplusplus_1_1_annota.Task.Types.{
  TaskState, pending, unwrapped, completed, canceled, is_finished, Value, Exec, root, root_unwrap,
  task_cont, value_cont, void_cont, task_cont_unwrap, value_cont_unwrap, void_cont_unwrap, forward,
  callback, Task, World,
}
use asyncplusplus_1_1_annota.Task.Heap.{update}

module _ {V E : Type 0} where
  -- The task whose end a function object waits for.
  abbrev pub waits_on : Exec V E → Option ℕ
  waits_on (root _) = none
  waits_on (root_unwrap _) = none
  waits_on (task_cont p _ _) = some p
  waits_on (value_cont p _ _) = some p
  waits_on (void_cont p _) = some p
  waits_on (task_cont_unwrap p _ _) = some p
  waits_on (value_cont_unwrap p _ _) = some p
  waits_on (void_cont_unwrap p _) = some p
  waits_on (forward _ child _ _) = some child
  waits_on (callback p _) = some p

  -- The unwrapped task that a function object will finish.
  abbrev pub target : Exec V E → Option ℕ
  target (forward parent _ _ _) = some parent
  target _ = none

  -- The task whose result a function object moves out.
  abbrev pub moves_from : Exec V E → Option ℕ
  moves_from (task_cont p true _) = some p
  moves_from (value_cont p true _) = some p
  moves_from (task_cont_unwrap p true _) = some p
  moves_from (value_cont_unwrap p true _) = some p
  moves_from (forward _ child true _) = some child
  moves_from _ = none

  abbrev pub func_at : World V E → ℕ → Option (Exec V E)
  func_at w c = elim (w.task c) [ none ↦ none | some k ↦ k.func ]

  abbrev pub finished_at : World V E → ℕ → Bool
  finished_at w p = elim (w.task p) [ none ↦ false | some k ↦ is_finished k.state ]

  abbrev pub conts_at : World V E → ℕ → List ℕ
  conts_at w p = elim (w.task p) [ none ↦ [] | some k ↦ k.conts ]

  -- Whether a function object may run, and whether it waits for the task `q`.
  abbrev pub due : Option (Exec V E) → (ℕ → Bool) → ℕ
  due none fin = 0
  due (some f) fin = elim (waits_on f) [ none ↦ 1 | some p ↦ if fin p then 1 else 0 ]

  abbrev pub waiting : Option (Exec V E) → (ℕ → Bool) → ℕ → ℕ
  waiting none fin q = 0
  waiting (some f) fin q = elim (waits_on f) [
    | none ↦ 0
    | some p ↦ if fin p then 0 else if p == q then 1 else 0
  ]

  -- A function object either may run, or waits for one task.
  pub due-add-waiting-le :
      (f : Option (Exec V E)) (fin : ℕ → Bool) (q : ℕ) → due f fin + waiting f fin q ≤ 1
  due-add-waiting-le none fin q = omega arith
  due-add-waiting-le (some f) fin q = ground arith

  -- What a task object holds in each state.
  pub record IsSound (k : Task V E) : Type 0 where
    pub has_result : k.state ≡ completed → k.result ≢ none
    pub has_except : k.state ≡ canceled → k.except ≢ none
    pub func_pending : k.func ≢ none → k.state ≡ pending
    pub lock : is_finished k.state ≡ false → k.conts_locked ≡ false

  pub record Inv (w : World V E) : Type 0 where
    pub sound : (t : ℕ) (k : Task V E) → w.task t ≡ some k → IsSound k
    pub bound : (t : ℕ) (k : Task V E) → w.task t ≡ some k → t < w.next
    -- A task that may run has one handle, any other none.
    pub handed : (c : ℕ) → count c w.handles ≡ due (func_at w c) (finished_at w)
    -- A task that waits is once among the continuations of the task that it waits for.
    pub kept : (p c : ℕ) → count c (conts_at w p) ≡ waiting (func_at w c) (finished_at w) p
    -- The task that it waits for is there.
    pub parent :
        (c p : ℕ) (f : Exec V E) → func_at w c ≡ some f → waits_on f ≡ some p → w.task p ≢ none
    -- A task that is to be finished by another one is unwrapped, and by no third one.
    pub goal :
        (c u : ℕ) (f : Exec V E)
        → func_at w c ≡ some f
        → target f ≡ some u
        → (k : Task V E) × (w.task u ≡ some k) × (k.state ≡ unwrapped)
    pub one_goal :
        (c d u : ℕ) (f g : Exec V E)
        → func_at w c ≡ some f
        → func_at w d ≡ some g
        → target f ≡ some u
        → target g ≡ some u
        → c ≡ d
