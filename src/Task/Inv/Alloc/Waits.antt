-- ===== src/Task/Inv/Alloc/Waits.antt =====
-- A new task that goes to the continuations of the task that it waits for.
use mathlib.Core.Path.{fun_ext}
use asyncplusplus_1_1_annota.Base.{
  ℕ, ◌+◌, ◌<◌, ◌≡◌, ◌≢◌, ==_ne, false, none, some, [], ◌∷◌, ◌++◌, ◌==◌, if◌then◌else◌, arith, refl,
  Bool-cases, inl, inr, ==_iff, ==_refl, subst, some_inj, sym, ap, ◌∙◌,
}
use asyncplusplus_1_1_annota.Task.Types.{is_finished, Exec, Task, World}
use asyncplusplus_1_1_annota.Task.Heap.{fresh, alloc, store}
use asyncplusplus_1_1_annota.Task.Inv.{
  Inv, IsSound, count, count-append, due, waiting, waits_on, func_at, finished_at, conts_at,
}
use asyncplusplus_1_1_annota.Task.Inv.Alloc.{
  IsSound-fresh, no_task, no_handle, no_cont, IsFree, parent-grow, goal-grow, one_goal-grow,
}

module _ {V E : Type 0} {w : World V E} (inv : Inv w) (f : Exec V E) (free : IsFree w (some f))
    (p : ℕ) (k : Task V E) (waited : waits_on f ≡ some p) (there : w.task p ≡ some k)
    (unfinished : is_finished k.state ≡ false) where
  open inv use {sound, bound, handed, kept, parent, goal, one_goal}

  abbrev pub waiting_in : World V E
  waiting_in = store (alloc w (fresh (some f))) p (record k { conts = k.conts ++ w.next ∷ [] })

  not_new : (p == w.next) ≡ false
  not_new = ==_ne (λ e. omega (arith, bound p k there))

  func-wait : (c : ℕ) → func_at waiting_in c ≡ (if c == w.next then some f else func_at w c)
  func-wait c = ground (arith, not_new, ==_iff c p, ==_iff c w.next)

  finished-wait : finished_at waiting_in ≡ finished_at w
  finished-wait = fun_ext λ q. ground (arith, no_task inv, ==_iff q w.next, ==_iff q p)

  conts-wait :
      (q : ℕ) → conts_at waiting_in q ≡ (if q == p then k.conts ++ w.next ∷ [] else conts_at w q)
  conts-wait q = ground (arith, no_task inv, ==_iff q w.next, ==_iff q p)

  not_due : due (some f) (finished_at w) ≡ 0
  not_due = ground arith

  handed-wait : (c : ℕ) → count c w.handles ≡ due (func_at waiting_in c) (finished_at waiting_in)
  handed-wait c =
      rw (func-wait c, finished-wait)
        (elim (Bool-cases (c == w.next)) [
          | inl e ↦ rw e (rw ((==_iff c w.next).0 e) (no_handle inv ∙ sym not_due))
          | inr e ↦ rw e (handed c)
        ])

  waiting-here : waiting (some f) (finished_at w) p ≡ 1
  waiting-here = ground (arith, ==_refl p)

  waiting-elsewhere : (q : ℕ) → (q == p) ≡ false → waiting (some f) (finished_at w) q ≡ 0
  waiting-elsewhere q ne = ground (arith, ==_iff p q, ==_iff q p)

  conts_here : (c : ℕ) → count c k.conts ≡ waiting (func_at w c) (finished_at w) p
  conts_here c = ground (arith, kept p c)

  no_cont_here : count w.next k.conts ≡ 0
  no_cont_here = ground (arith, no_cont inv p)

  count-new :
      (c : ℕ) → count c (k.conts ++ w.next ∷ []) ≡ count c k.conts + (if c == w.next then 1 else 0)
  count-new c = omega (arith, count-append c k.conts (w.next ∷ []))

  kept-here :
      (c : ℕ)
      → count c (k.conts ++ w.next ∷ [])
        ≡ waiting (if c == w.next then some f else func_at w c) (finished_at w) p
  kept-here c = rw (count-new c) (elim (Bool-cases (c == w.next)) [
    | inl e ↦ rw e (rw ((==_iff c w.next).0 e) (omega (arith, no_cont_here, waiting-here)))
    | inr e ↦ rw e (omega (arith, conts_here c))
  ])

  kept-elsewhere :
      (q c : ℕ)
      → (q == p) ≡ false
      → count c (conts_at w q)
        ≡ waiting (if c == w.next then some f else func_at w c) (finished_at w) q
  kept-elsewhere q c ne = elim (Bool-cases (c == w.next)) [
    | inl e ↦ rw e (rw ((==_iff c w.next).0 e) (no_cont inv q ∙ sym (waiting-elsewhere q ne)))
    | inr e ↦ rw e (kept q c)
  ]

  kept-wait :
      (q c : ℕ)
      → count c (conts_at waiting_in q) ≡ waiting (func_at waiting_in c) (finished_at waiting_in) q
  kept-wait q c =
      rw (conts-wait q, func-wait c, finished-wait)
        (elim (Bool-cases (q == p)) [
          | inl e ↦ rw e (rw ((==_iff q p).0 e) (kept-here c))
          | inr e ↦ rw e (kept-elsewhere q c e)
        ])

  IsSound-wait : (c : ℕ) (k' : Task V E) → waiting_in.task c ≡ some k' → IsSound k'
  IsSound-wait c k' e = elim (Bool-cases (c == p)) [
    | inl same ↦ subst IsSound (some_inj (rw same at e)) (record {
      has_result = (sound p k there).has_result;
      has_except = (sound p k there).has_except;
      func_pending = (sound p k there).func_pending;
      lock = (sound p k there).lock;
    })
    | inr other ↦ elim (Bool-cases (c == w.next)) [
      | inl same ↦ subst IsSound (some_inj (rw (other, same) at e)) (IsSound-fresh (some f))
      | inr other' ↦ sound c k' (rw (other, other') at e)
    ]
  ]

  bound-wait : (c : ℕ) (k' : Task V E) → waiting_in.task c ≡ some k' → c < w.next + 1
  bound-wait c k' e = elim (Bool-cases (c == p)) [
    | inl same ↦ omega (arith, (==_iff c p).0 same, bound p k there)
    | inr other ↦ elim (Bool-cases (c == w.next)) [
      | inl same ↦ omega (arith, (==_iff c w.next).0 same)
      | inr other' ↦ omega (arith, bound c k' (rw (other, other') at e))
    ]
  ]

  states-wait :
      (u : ℕ) (k₀ : Task V E)
      → w.task u ≡ some k₀
      → (k' : Task V E) × (waiting_in.task u ≡ some k') × (k'.state ≡ k₀.state)
  states-wait u k₀ e = elim (Bool-cases (u == p)) [
    | inl same ↦ (
      record k { conts = k.conts ++ w.next ∷ [] },
      rw same refl,
      ap (λ (x : Task V E). x.state)
          (some_inj (sym there ∙ ap w.task (sym ((==_iff u p).0 same)) ∙ e)),
    )
    | inr other ↦ elim (Bool-cases (u == w.next)) [
      | inl same ↦ absurd (omega (arith, bound u k₀ e, (==_iff u w.next).0 same))
      | inr other' ↦ (k₀, rw (other, other') e, refl)
    ]
  ]

  alive-wait : (q : ℕ) → w.task q ≢ none → waiting_in.task q ≢ none
  alive-wait q ne = ground arith

  -- The invariant holds with the new task among the continuations of the task it waits for.
  pub wait-Inv : Inv waiting_in
  wait-Inv = record {
    sound = IsSound-wait;
    bound = bound-wait;
    handed = handed-wait;
    kept = kept-wait;
    parent = parent-grow inv (some f) free waiting_in func-wait alive-wait states-wait;
    goal = goal-grow inv (some f) free waiting_in func-wait alive-wait states-wait;
    one_goal = one_goal-grow inv (some f) free waiting_in func-wait alive-wait states-wait;
  }
