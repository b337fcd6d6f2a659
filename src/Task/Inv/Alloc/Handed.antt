-- ===== src/Task/Inv/Alloc/Handed.antt =====
-- A new task whose handle goes to a scheduler.
use mathlib.Core.Path.{fun_ext}
use asyncplusplus_1_1_annota.Base.{
  ℕ, ◌+◌, ◌<◌, ◌≡◌, ◌≢◌, true, false, Option, none, some, List, ◌==◌, if◌then◌else◌, arith, refl,
  Bool-cases, inl, inr, ==_iff, subst, some_inj, sym, ◌∙◌,
}
use asyncplusplus_1_1_annota.Task.Types.{Exec, Task, World}
use asyncplusplus_1_1_annota.Task.Heap.{fresh, alloc, hand}
use asyncplusplus_1_1_annota.Task.Inv.{
  Inv, IsSound, count, count-append, due, waiting, func_at, finished_at, conts_at,
}
use asyncplusplus_1_1_annota.Task.Inv.Alloc.{
  IsSound-fresh, no_task, no_handle, no_cont, IsFree, parent-grow, goal-grow, one_goal-grow,
}

module _ {V E : Type 0} {w : World V E} (inv : Inv w) (f : Option (Exec V E)) (free : IsFree w f)
    (more : List ℕ)
    (adds : (c : ℕ) → count c more ≡ (if c == w.next then due f (finished_at w) else 0))
    (stays : (q : ℕ) → waiting f (finished_at w) q ≡ 0) where
  open inv use {sound, bound, handed, kept, parent, goal, one_goal}

  abbrev pub handed_out : World V E
  handed_out = hand (alloc w (fresh f)) more

  func-alloc : (c : ℕ) → func_at handed_out c ≡ (if c == w.next then f else func_at w c)
  func-alloc c = ground arith

  finished-alloc : finished_at handed_out ≡ finished_at w
  finished-alloc = fun_ext λ p. ground (arith, no_task inv, ==_iff p w.next)

  conts-alloc : (p : ℕ) → conts_at handed_out p ≡ conts_at w p
  conts-alloc p = ground (arith, no_task inv, ==_iff p w.next)

  fresh_handle : (c : ℕ) → (c == w.next) ≡ true → count c w.handles ≡ 0
  fresh_handle c e = rw ((==_iff c w.next).0 e) (no_handle inv)

  adds_here : (c : ℕ) → (c == w.next) ≡ true → count c more ≡ due f (finished_at w)
  adds_here c e = rw e at (adds c)

  adds_other : (c : ℕ) → (c == w.next) ≡ false → count c more ≡ 0
  adds_other c e = rw e at (adds c)

  handed-alloc :
      (c : ℕ) → count c handed_out.handles ≡ due (func_at handed_out c) (finished_at handed_out)
  handed-alloc c =
      rw (func-alloc c, finished-alloc)
        (elim (Bool-cases (c == w.next)) [
          | inl e ↦
              rw e (omega (arith, count-append c w.handles more, fresh_handle c e, adds_here c e))
          | inr e ↦ rw e (omega (arith, count-append c w.handles more, handed c, adds_other c e))
        ])

  kept-alloc :
      (p c : ℕ)
      → count c (conts_at handed_out p) ≡ waiting (func_at handed_out c) (finished_at handed_out) p
  kept-alloc p c =
      rw (conts-alloc p, func-alloc c, finished-alloc)
        (elim (Bool-cases (c == w.next)) [
          | inl e ↦ rw e (rw ((==_iff c w.next).0 e) (no_cont inv p ∙ sym (stays p)))
          | inr e ↦ rw e (kept p c)
        ])

  IsSound-alloc : (c : ℕ) (k' : Task V E) → handed_out.task c ≡ some k' → IsSound k'
  IsSound-alloc c k' e = elim (Bool-cases (c == w.next)) [
    | inl same ↦ subst IsSound (some_inj (rw same at e)) (IsSound-fresh f)
    | inr other ↦ sound c k' (rw other at e)
  ]

  bound-alloc : (c : ℕ) (k' : Task V E) → handed_out.task c ≡ some k' → c < w.next + 1
  bound-alloc c k' e = elim (Bool-cases (c == w.next)) [
    | inl same ↦ omega (arith, (==_iff c w.next).0 same)
    | inr other ↦ omega (arith, bound c k' (rw other at e))
  ]

  states-alloc :
      (u : ℕ) (k : Task V E)
      → w.task u ≡ some k
      → (k' : Task V E) × (handed_out.task u ≡ some k') × (k'.state ≡ k.state)
  states-alloc u k e = elim (Bool-cases (u == w.next)) [
    | inl same ↦ absurd (omega (arith, bound u k e, (==_iff u w.next).0 same))
    | inr other ↦ (k, rw other e, refl)
  ]

  alive-alloc : (p : ℕ) → w.task p ≢ none → handed_out.task p ≢ none
  alive-alloc p ne = ground arith

  -- The invariant holds with the new task, whose handle a scheduler has.
  pub alloc-Inv : Inv handed_out
  alloc-Inv = record {
    sound = IsSound-alloc;
    bound = bound-alloc;
    handed = handed-alloc;
    kept = kept-alloc;
    parent = parent-grow inv f free handed_out func-alloc alive-alloc states-alloc;
    goal = goal-grow inv f free handed_out func-alloc alive-alloc states-alloc;
    one_goal = one_goal-grow inv f free handed_out func-alloc alive-alloc states-alloc;
  }
