-- ===== src/Task/Inv/Alloc.antt =====
-- A new task, at the next address: what holds of it wherever its handle goes.
pub mod Handed
pub mod Waits
use mathlib.Core.Path.{fun_ext}
use asyncplusplus_1_1_annota.Base.{
  ℕ, suc, ◌+◌, ◌<◌, ◌≤◌, ◌≡◌, ◌≢◌, ◌⊎◌, ==_ne, Bool, true, false, Option, none, some, List, [], ◌∷◌,
  ◌++◌, ◌==◌, if◌then◌else◌, arith, refl, Bool-cases, inl, inr, ==_iff, ==_refl, subst, some_inj,
  sym, ap, ◌∙◌, Option-cases,
}
use asyncplusplus_1_1_annota.Task.Types.{
  TaskState, pending, unwrapped, completed, canceled, is_finished, Exec, Task, World, Value,
}
use asyncplusplus_1_1_annota.Task.Heap.{update, fresh, alloc, store, hand}
use asyncplusplus_1_1_annota.Task.Inv.{
  Inv, IsSound, count, count-append, due, due-add-waiting-le, waiting, waits_on, target, func_at,
  finished_at, conts_at,
}

pub IsSound-fresh : {V E : Type 0} (f : Option (Exec V E)) → IsSound (fresh f)
IsSound-fresh f = record {
  has_result = λ e. cc;
  has_except = λ e. cc;
  func_pending = λ _. refl;
  lock = λ _. refl;
}

module _ {V E : Type 0} {w : World V E} (inv : Inv w) where
  open inv use {sound, bound, handed, kept, parent, goal, one_goal}

  pub no_task : w.task w.next ≡ none
  no_task = elim (Option-cases (w.task w.next)) [
    | inl e ↦ e
    | inr (k, e) ↦ absurd (omega (arith, bound w.next k e))
  ]

  pub no_handle : count w.next w.handles ≡ 0
  no_handle = ground (arith, no_task, handed w.next)

  pub no_cont : (p : ℕ) → count w.next (conts_at w p) ≡ 0
  no_cont p = ground (arith, no_task, kept p w.next)

-- The task that a new function object is to finish: unwrapped, and no other task's to finish.
pub record IsFree {V E : Type 0} (w : World V E) (f : Option (Exec V E)) : Type 0 where
  pub held :
      (u : ℕ) (g : Exec V E)
      → f ≡ some g
      → target g ≡ some u
      → (k : Task V E) × (w.task u ≡ some k) × (k.state ≡ unwrapped)
  pub alone :
      (c u : ℕ) (g h : Exec V E)
      → f ≡ some g
      → target g ≡ some u
      → func_at w c ≡ some h
      → target h ≢ some u
  pub waits : (p : ℕ) (g : Exec V E) → f ≡ some g → waits_on g ≡ some p → w.task p ≢ none

-- What any heap with one more function object, at the next address, has from the old one.
module _ {V E : Type 0} {w : World V E} (inv : Inv w) (f : Option (Exec V E)) (free : IsFree w f)
    (w' : World V E) (funcs : (c : ℕ) → func_at w' c ≡ (if c == w.next then f else func_at w c))
    (alive : (p : ℕ) → w.task p ≢ none → w'.task p ≢ none)
    (states : (u : ℕ) (k : Task V E)
      → w.task u ≡ some k
      → (k' : Task V E) × (w'.task u ≡ some k') × (k'.state ≡ k.state)) where
  open inv use {parent, goal, one_goal}

  func-cases :
      (c : ℕ) (g : Exec V E)
      → func_at w' c ≡ some g
      → ((c ≡ w.next) × (f ≡ some g)) ⊎ (func_at w c ≡ some g)
  func-cases c g e = elim (Bool-cases (c == w.next)) [
    | inl same ↦ inl ((==_iff c w.next).0 same, ground (arith, funcs c))
    | inr other ↦ inr (ground (arith, funcs c))
  ]

  pub parent-grow :
      (c p : ℕ) (g : Exec V E) → func_at w' c ≡ some g → waits_on g ≡ some p → w'.task p ≢ none
  parent-grow c p g e h = elim (func-cases c g e) [
    | inl (here, same) ↦ alive p (free.waits p g same h)
    | inr old ↦ alive p (parent c p g old h)
  ]

  pub goal-grow :
      (c u : ℕ) (g : Exec V E)
      → func_at w' c ≡ some g
      → target g ≡ some u
      → (k : Task V E) × (w'.task u ≡ some k) × (k.state ≡ unwrapped)
  goal-grow c u g e h =
      let old : (k : Task V E) × (w.task u ≡ some k) × (k.state ≡ unwrapped) =
        elim (func-cases c g e) [
          | inl (here, same) ↦ free.held u g same h
          | inr old ↦ goal c u g old h
        ] in
      let new = states u old.0 old.1 in (new.0, new.1, new.2 ∙ old.2)

  pub one_goal-grow :
      (c d u : ℕ) (g h : Exec V E)
      → func_at w' c ≡ some g
      → func_at w' d ≡ some h
      → target g ≡ some u
      → target h ≡ some u
      → c ≡ d
  one_goal-grow c d u g h e e' i i' = elim (func-cases c g e) [
    | inl (here, same) ↦ elim (func-cases d h e') [
      | inl (here', same') ↦ here ∙ sym here'
      | inr old' ↦ absurd (free.alone d u g h same i old' i')
    ]
    | inr old ↦ elim (func-cases d h e') [
      | inl (here', same') ↦ absurd (free.alone c u h g same' i' old i)
      | inr old' ↦ one_goal c d u g h old old' i i'
    ]
  ]
