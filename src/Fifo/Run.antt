-- ===== src/Fifo/Run.antt =====
-- A client's calls of one fifo_queue, in the order in which the lock lets them through.
use mathlib.Core.Bool.{false≢true}
use asyncplusplus_1_1_annota.Base.{
  ℕ, ◌^◌, ◌≤◌, ◌≡◌, refl, sym, ◌∙◌, inl, inr, Bool, true, Option, none, some, List, [], ◌∷◌, ◌++◌,
  arith, rest,
}
use asyncplusplus_1_1_annota.Fifo
use asyncplusplus_1_1_annota.Fifo.{FifoQueue}
use asyncplusplus_1_1_annota.Fifo.Rep.{Rep}
use asyncplusplus_1_1_annota.Fifo.Refine.{IsBounded, push_at_tail, pop_at_head}
use asyncplusplus_1_1_annota.Fifo.Spec.{Op, Keeps, push, pop, serve}

module _ {ℓ} {A : Type ℓ} where
  -- `none` means that some `push` threw.
  unfoldable pub run :
      (ℕ → Bool) → FifoQueue A → List (Op A) → Option (List (Option A) × FifoQueue A)
  run alloc q [] = some ([], q)
  run alloc q (push x ∷ ops) = elim (Fifo.push alloc q x) [
    | none ↦ none
    | some q' ↦ run alloc q' ops
  ]
  run alloc q (pop ∷ ops) =
      let (out, q') = Fifo.pop q in
      elim (run alloc q' ops) [ none ↦ none | some (outs, last) ↦ some (out ∷ outs, last) ]

  -- What `run` does to a queue that holds `xs`.
  abbrev pub Ran : (ℕ → Bool) → FifoQueue A → List A → List (Op A) → Type ℓ
  Ran alloc q xs ops =
      (k' : ℕ) × (q' : FifoQueue A) × (run alloc q ops ≡ some ((serve xs ops).0, q'))
      × Rep k' q' (serve xs ops).1

  -- With an allocator that has room for `2 ^ 60` pointers, any sequence of calls, however long, in
  -- which the queue never holds `2 ^ 59` handles runs without an exception, and is answered as by a
  -- list.
  pub run_serves :
      (alloc : ℕ → Bool)
      → ((n : ℕ) → n ≤ 2 ^ 60 → alloc n ≡ true)
      → IsBounded alloc
      → (k : ℕ) (q : FifoQueue A) (xs : List A) (ops : List (Op A)) → Keeps (2 ^ 59) xs ops
      → Rep k q xs
      → Ran alloc q xs ops
  unfolding run serve
  run_serves alloc enough bounded k q xs [] lt r = (k, q, refl, r)
  run_serves alloc enough bounded k q xs (push x ∷ ops) lt r =
      elim (push_at_tail alloc x bounded r) [
        | inl (k₁, q₁, e, r₁) ↦
            let ih = run_serves alloc enough bounded k₁ q₁ (xs ++ x ∷ []) ops (lt.1) r₁ in
            (ih.0, ih.1, rw (e, run) ih.2, ih.3)
        | inr (e, last, refused) ↦
            absurd (false≢true (sym refused ∙ enough _ (omega (arith, r.size, lt.0))))
      ]
  run_serves alloc enough bounded k q xs (pop ∷ ops) lt r =
      let p = pop_at_head r in
      let ih = run_serves alloc enough bounded k (Fifo.pop q).1 (rest xs) ops (lt.1) p.1 in
      (ih.0, ih.1, rw (ih.2, p.0) refl, ih.3)
