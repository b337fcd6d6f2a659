-- ===== src/Task/Inv/Drop.antt =====
-- A task that has run gives up its handle and its function object.
use mathlib.Core.Path.{fun_ext}
use asyncplusplus_1_1_annota.Base.{
  ℕ, ◌+◌, ◌<◌, ◌≡◌, false, none, some, List, ◌==◌, if◌then◌else◌, arith, refl, Bool-cases, inl, inr,
  ==_iff, subst, some_inj,
}
use asyncplusplus_1_1_annota.Task.Types.{
  TaskState, pending, unwrapped, is_finished, Exec, Task, World,
}
use asyncplusplus_1_1_annota.Task.Heap.{update}
use asyncplusplus_1_1_annota.Task.Inv.{
  Inv, IsSound, count, due, waiting, due-add-waiting-le, func_at, finished_at, conts_at,
}

module _ {V E : Type 0} {w : World V E} (inv : Inv w) (t : ℕ) (k : Task V E) (f : Exec V E)
    (there : w.task t ≡ some k) (owns : k.func ≡ some f) (left : List ℕ)
    (took : (c : ℕ) → count c w.handles ≡ (if c == t then 1 else 0) + count c left) (s : TaskState)
    (unfinished : is_finished s ≡ false) where
  open inv use {sound, bound, handed, kept, parent, goal, one_goal}

  abbrev pub dropped : World V E
  dropped = record w {
    task = update w.task t (some (record k { state = s; func = none }));
    handles = left;
  }

  was_pending : k.state ≡ pending
  was_pending = (sound t k there).func_pending (ground arith)

  func-drop : (c : ℕ) → func_at dropped c ≡ (if c == t then none else func_at w c)
  func-drop c = ground arith

  finished-drop : finished_at dropped ≡ finished_at w
  finished-drop = fun_ext λ p. ground (arith, was_pending, ==_iff p t)

  conts-drop : (p : ℕ) → conts_at dropped p ≡ conts_at w p
  conts-drop p = ground arith

  due_before : due (func_at w t) (finished_at w) ≡ 1 + count t left
  due_before = ground (arith, handed t, took t)

  took_other : (c : ℕ) → (c == t) ≡ false → count c w.handles ≡ count c left
  took_other c e = ground (arith, took c)

  handed-drop : (c : ℕ) → count c left ≡ due (func_at dropped c) (finished_at dropped)
  handed-drop c =
      rw (func-drop c, finished-drop)
        (elim (Bool-cases (c == t)) [
          | inl e ↦ rw e (
              rw ((==_iff c t).0 e)
                (omega (arith, due_before, due-add-waiting-le (func_at w t) (finished_at w) t)))
          | inr e ↦ rw e (omega (arith, took_other c e, handed c))
        ])

  kept-drop :
      (p c : ℕ) → count c (conts_at dropped p) ≡ waiting (func_at dropped c) (finished_at dropped) p
  kept-drop p c =
      rw (conts-drop p, func-drop c, finished-drop)
        (elim (Bool-cases (c == t)) [
          | inl e ↦ rw e (
              rw ((==_iff c t).0 e) (
                omega (
                  arith,
                  kept p t,
                  due_before,
                  due-add-waiting-le (func_at w t) (finished_at w) p,
                )))
          | inr e ↦ rw e (kept p c)
        ])

  IsSound-drop : IsSound (record k { state = s; func = none })
  IsSound-drop = record {
    has_result = λ e. ground arith;
    has_except = λ e. ground arith;
    func_pending = λ e. absurd (e refl);
    lock = λ e. (sound t k there).lock (rw was_pending refl);
  }

  IsSound-dropped : (c : ℕ) (k' : Task V E) → dropped.task c ≡ some k' → IsSound k'
  IsSound-dropped c k' e = elim (Bool-cases (c == t)) [
    | inl same ↦ subst IsSound (some_inj (rw same at e)) IsSound-drop
    | inr other ↦ sound c k' (rw other at e)
  ]

  bound-drop : (c : ℕ) (k' : Task V E) → dropped.task c ≡ some k' → c < w.next
  bound-drop c k' e = elim (Bool-cases (c == t)) [
    | inl same ↦ rw ((==_iff c t).0 same) (bound t k there)
    | inr other ↦ bound c k' (rw other at e)
  ]

  func-other : (c : ℕ) (g : Exec V E) → func_at dropped c ≡ some g → func_at w c ≡ some g
  func-other c g e = ground arith

  goal-drop :
      (c u : ℕ)
      → (k' : Task V E) × (w.task u ≡ some k') × (k'.state ≡ unwrapped)
      → (k' : Task V E) × (dropped.task u ≡ some k') × (k'.state ≡ unwrapped)
  goal-drop c u (k', at, un) = (k', ground (arith, was_pending), un)

  -- The invariant holds after the task has given up its handle and its function.
  pub drop-Inv : Inv dropped
  drop-Inv = record {
    sound = IsSound-dropped;
    bound = bound-drop;
    handed = handed-drop;
    kept = kept-drop;
    parent = λ c p g e h. ground (arith, parent c p g (func-other c g e) h);
    goal = λ c u g e h. goal-drop c u (goal c u g (func-other c g e) h);
    one_goal =
        λ c d u g g' e e' h h'. one_goal c d u g g' (func-other c g e) (func-other d g' e') h h';
  }
