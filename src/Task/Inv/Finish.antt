-- ===== src/Task/Inv/Finish.antt =====
-- A task that finishes hands on the continuations that waited for it.
use mathlib.Core.Path.{fun_ext}
use asyncplusplus_1_1_annota.Base.{
  ℕ, ◌+◌, ◌<◌, ◌≡◌, ◌≢◌, Bool, true, false, Option, none, some, [], ◌++◌, ◌==◌, if◌then◌else◌,
  arith, refl, Bool-cases, inl, inr, ==_iff, subst, some_inj, sym, ap, ◌∙◌,
}
use asyncplusplus_1_1_annota.Task.Types.{
  TaskState, unwrapped, completed, canceled, is_finished, Exec, Task, World, Value,
}
use asyncplusplus_1_1_annota.Task.Heap.{update}
use asyncplusplus_1_1_annota.Task.Inv.{
  Inv, IsSound, count, count-append, due, waiting, target, func_at, finished_at, conts_at,
}

abbrev ended : (ℕ → Bool) → ℕ → ℕ → Bool
ended fin u p = if p == u then true else fin p

module _ {V E : Type 0} (fin : ℕ → Bool) (u : ℕ) where
  due-ended :
      (f : Option (Exec V E)) → fin u ≡ false → due f (ended fin u) ≡ due f fin + waiting f fin u
  due-ended none o = omega arith
  due-ended (some f) o = ground arith

  waiting-ended : (f : Option (Exec V E)) → waiting f (ended fin u) u ≡ 0
  waiting-ended none = refl
  waiting-ended (some f) = ground arith

  waiting-other :
      (f : Option (Exec V E)) (p : ℕ)
      → (p == u) ≡ false
      → waiting f (ended fin u) p ≡ waiting f fin p
  waiting-other none p ne = refl
  waiting-other (some f) p ne = ground arith

module _ {V E : Type 0} {w : World V E} (inv : Inv w) (u : ℕ) (k : Task V E)
    (there : w.task u ≡ some k) (no_func : k.func ≡ none) (unfinished : is_finished k.state ≡ false)
    (nobody : (c : ℕ) (f : Exec V E) → func_at w c ≡ some f → target f ≢ some u) (s : TaskState)
    (r : Option (Value V)) (x : Option E)
    (set : (s ≡ completed → r ≢ none) × (s ≡ canceled → x ≢ none))
    (over : is_finished s ≡ true) where
  open inv use {sound, bound, handed, kept, parent, goal, one_goal}

  abbrev last : Task V E
  last = record k { state = s; result = r; except = x; conts = []; conts_locked = true }

  abbrev pub finished : World V E
  finished = record w { task = update w.task u (some last); handles = w.handles ++ k.conts }

  func-finish : (c : ℕ) → func_at finished c ≡ func_at w c
  func-finish c = ground (arith, ==_iff c u)

  finished-finish : finished_at finished ≡ ended (finished_at w) u
  finished-finish = fun_ext λ p. ground arith

  conts-finish : (p : ℕ) → conts_at finished p ≡ (if p == u then [] else conts_at w p)
  conts-finish p = ground arith

  was_open : finished_at w u ≡ false
  was_open = ground arith

  conts_here : (c : ℕ) → count c k.conts ≡ waiting (func_at w c) (finished_at w) u
  conts_here c = ground (arith, kept u c)

  handed-finish :
      (c : ℕ) → count c finished.handles ≡ due (func_at finished c) (finished_at finished)
  handed-finish c =
      rw (func-finish c, finished-finish)
        (omega (
          arith,
          count-append c w.handles k.conts,
          handed c,
          conts_here c,
          due-ended (finished_at w) u (func_at w c) was_open,
        ))

  kept-finish :
      (p c : ℕ)
      → count c (conts_at finished p) ≡ waiting (func_at finished c) (finished_at finished) p
  kept-finish p c =
      rw (conts-finish p, func-finish c, finished-finish)
        (elim (Bool-cases (p == u)) [
          | inl e ↦
              rw e (rw ((==_iff p u).0 e) (sym (waiting-ended (finished_at w) u (func_at w c))))
          | inr e ↦ rw e (kept p c ∙ sym (waiting-other (finished_at w) u (func_at w c) p e))
        ])

  IsSound-finish : IsSound last
  IsSound-finish = record {
    has_result = set.0;
    has_except = set.1;
    func_pending = λ e. absurd (e no_func);
    lock = λ e. absurd (let both : true ≡ false = sym over ∙ e in cc);
  }

  IsSound-finished : (c : ℕ) (k' : Task V E) → finished.task c ≡ some k' → IsSound k'
  IsSound-finished c k' e = elim (Bool-cases (c == u)) [
    | inl same ↦ subst IsSound (some_inj (rw same at e)) IsSound-finish
    | inr other ↦ sound c k' (rw other at e)
  ]

  bound-finish : (c : ℕ) (k' : Task V E) → finished.task c ≡ some k' → c < w.next
  bound-finish c k' e = elim (Bool-cases (c == u)) [
    | inl same ↦ rw ((==_iff c u).0 same) (bound u k there)
    | inr other ↦ bound c k' (rw other at e)
  ]

  func-same : (c : ℕ) (g : Exec V E) → func_at finished c ≡ some g → func_at w c ≡ some g
  func-same c g e = sym (func-finish c) ∙ e

  goal-finish :
      (c v : ℕ) (g : Exec V E)
      → func_at w c ≡ some g
      → target g ≡ some v
      → (k' : Task V E) × (w.task v ≡ some k') × (k'.state ≡ unwrapped)
      → (k' : Task V E) × (finished.task v ≡ some k') × (k'.state ≡ unwrapped)
  goal-finish c v g e h (k', at, un) = elim (Bool-cases (v == u)) [
    | inl same ↦ absurd (nobody c g e (h ∙ ap some ((==_iff v u).0 same)))
    | inr other ↦ (k', rw other at, un)
  ]

  -- The invariant holds after the task has finished and its continuations are handed on.
  pub finish-Inv : Inv finished
  finish-Inv = record {
    sound = IsSound-finished;
    bound = bound-finish;
    handed = handed-finish;
    kept = kept-finish;
    parent = λ c p g e h. ground (arith, parent c p g (func-same c g e) h);
    goal = λ c v g e h. goal-finish c v g (func-same c g e) h (goal c v g (func-same c g e) h);
    one_goal =
        λ c d v g g' e e' h h'. one_goal c d v g g' (func-same c g e) (func-same d g' e') h h';
  }
