-- ===== src/Task/Safety/Link.antt =====
-- A new task that waits for another one, and a new task that a scheduler gets at once.
use asyncplusplus_1_1_annota.Base.{
  true, false, sym, ap, some_inj, ==_iff, ◌++◌, ℕ, ◌≡◌, some, [], ◌∷◌, ◌==◌, ==_ne, if◌then◌else◌,
  arith, refl, Bool-cases, inl, inr, ◌∙◌,
}
use asyncplusplus_1_1_annota.Task.Types.{is_finished, Exec, Task, World}
use asyncplusplus_1_1_annota.Task.Heap.{store, hand, fresh, alloc, add_continuation}
use asyncplusplus_1_1_annota.Task.Inv.{Inv, count, due, waiting, waits_on, finished_at}
use asyncplusplus_1_1_annota.Task.Inv.Alloc.{IsFree}
use asyncplusplus_1_1_annota.Task.Inv.Alloc.Handed.{alloc-Inv}
use asyncplusplus_1_1_annota.Task.Inv.Alloc.Waits.{waiting_in, wait-Inv}
use asyncplusplus_1_1_annota.Task.Safety.{Safe}

module _ {V E : Type 0} {w : World V E} (inv : Inv w) (f : Exec V E)
    (free : IsFree w (some f)) where
  one_more : (c : ℕ) → count c (w.next ∷ []) ≡ (if c == w.next then 1 else 0)
  one_more c = omega arith

  no_wait : due (some f) (finished_at w) ≡ 1 → (q : ℕ) → waiting (some f) (finished_at w) q ≡ 0
  no_wait e q = ground arith

  pub handed-Inv :
      due (some f) (finished_at w) ≡ 1 → Inv (hand (alloc w (fresh (some f))) (w.next ∷ []))
  handed-Inv e = alloc-Inv inv (some f) free (w.next ∷ []) (λ c. rw e (one_more c)) (no_wait e)

  module _ (p : ℕ) (waited : waits_on f ≡ some p) (k : Task V E) (there : w.task p ≡ some k) where
    still_there : (alloc w (fresh (some f))).task p ≡ some k
    still_there = rw (==_ne {a = p} {b = w.next} (λ e. omega (arith, inv.bound p k there))) there

    kept_old :
        (c : ℕ) (q : Task V E)
        → w.task c ≡ some q
        → is_finished q.state ≡ true
        → (alloc w (fresh (some f))).task c ≡ some q
    kept_old c q at over = rw (==_ne {a = c} {b = w.next} (λ e. omega (arith, inv.bound c q at))) at

    kept_waiting :
        is_finished k.state ≡ false
        → (c : ℕ) (q : Task V E) → w.task c ≡ some q
        → is_finished q.state ≡ true
        → (store (alloc w (fresh (some f))) p (record k { conts = k.conts ++ w.next ∷ [] })).task c
          ≡ some q
    kept_waiting open_yet c q at over = elim (Bool-cases (c == p)) [
      | inl same ↦
          let here : q ≡ k = some_inj (sym at ∙ ap w.task ((==_iff c p).0 same) ∙ there) in
          let not_over : is_finished q.state ≡ false =
            ap (λ (x : Task V E). is_finished x.state) here ∙ open_yet in
          absurd (let both : true ≡ false = sym over ∙ not_over in cc)
      | inr other ↦ rw other (kept_old c q at over)
    ]

    pub linked-at : Safe w (add_continuation (alloc w (fresh (some f))) p w.next)
    unfolding add_continuation
    linked-at = elim (Bool-cases (is_finished k.state)) [
      | inl over ↦ (
        hand (alloc w (fresh (some f))) (w.next ∷ []),
        rw (still_there, over) refl,
        handed-Inv (ground arith),
        kept_old,
      )
      | inr open_still ↦ (
        waiting_in inv f free p k waited there open_still,
        rw (still_there, open_still, (inv.sound p k there).lock open_still) refl,
        wait-Inv inv f free p k waited there open_still,
        kept_waiting open_still,
      )
    ]
