-- ===== src/FifoScheduler/RunAll.antt =====
-- `run_all_tasks` runs what is queued, and what that schedules, in the order of a queue.
use mathlib.Core.Bool.{false≢true}
use asyncplusplus_1_1_annota.Base.{
  ℕ, zero, suc, ◌+◌, ◌^◌, ◌≤◌, ◌<◌, ◌≡◌, refl, sym, ◌∙◌, inl, inr, Bool, true, some, List, [], ◌∷◌,
  ◌++◌, arith, length, length-append, append_assoc, append-nil, subst, ap,
}
use asyncplusplus_1_1_annota.Fifo
use asyncplusplus_1_1_annota.Fifo.{FifoQueue}
use asyncplusplus_1_1_annota.Fifo.Rep.{Rep}
use asyncplusplus_1_1_annota.Fifo.Refine.{IsBounded, push_at_tail, pop_at_head}
use asyncplusplus_1_1_annota.FifoScheduler.{
  FifoScheduler, schedule, schedule_all, try_run_one_task, run_all_tasks,
}

-- The sum of the weights.
abbrev pub sum {ℓ} : {A : Type ℓ} → (A → ℕ) → List A → ℕ
sum w [] = 0
sum w (x ∷ xs) = w x + sum w xs

sum-append {ℓ} : {A : Type ℓ} (w : A → ℕ) (xs ys : List A) → sum w (xs ++ ys) ≡ sum w xs + sum w ys
sum-append w [] ys = omega arith
sum-append w (x ∷ xs) ys = omega (arith, sum-append w xs ys)

-- The order of a queue: what the first handle schedules comes after all that wait.
abbrev pub in_turn {ℓ} : {A : Type ℓ} → (A → List A) → ℕ → List A → List A
in_turn body zero xs = []
in_turn body (suc n) [] = []
in_turn body (suc n) (x ∷ xs) = x ∷ in_turn body n (xs ++ body x)

module _ {ℓ} {A : Type ℓ} (alloc : ℕ → Bool) (enough : (n : ℕ) → n ≤ 2 ^ 60 → alloc n ≡ true)
    (bounded : IsBounded alloc) where
  -- The state after handles were scheduled.
  abbrev Scheduled : FifoScheduler A → List A → List A → Type ℓ
  Scheduled s xs ts =
      (k : ℕ) × (s' : FifoScheduler A) × (schedule_all alloc s ts ≡ some s')
      × (s'.ran ≡ s.ran)
      × Rep k s'.queue (xs ++ ts)

  schedule_all-appends :
      (k : ℕ) (s : FifoScheduler A) (xs ts : List A)
      → length xs + length ts < 2 ^ 59
      → Rep k s.queue xs
      → Scheduled s xs ts
  unfolding schedule_all schedule
  schedule_all-appends k s xs [] lt r = (k, s, refl, refl, rw (append-nil xs) r)
  schedule_all-appends k s xs (t ∷ ts) lt r = elim (push_at_tail alloc t bounded r) [
    | inl (k₁, q₁, e, r₁) ↦
        let (k₂, s₂, e₂, same, r₂) =
          schedule_all-appends k₁ (record s { queue = q₁ }) (xs ++ t ∷ []) ts
            (omega (arith, length-append xs (t ∷ []))) r₁ in
        (
          k₂,
          s₂,
          rw (e, schedule_all, schedule) e₂,
          same,
          subst (λ ys. Rep k₂ s₂.queue ys) (append_assoc xs (t ∷ []) ts) r₂,
        )
    | inr (e, last, refused) ↦ absurd (false≢true (sym refused ∙ enough _ (omega (arith, r.size))))
  ]

  module _ (body : A → List A) (weight : A → ℕ)
      (costs : (x : A) → suc (sum weight (body x)) ≤ weight x) where
    length-sum : (xs : List A) → length xs ≤ sum weight xs
    length-sum [] = omega arith
    length-sum (x ∷ xs) = omega (arith, length-sum xs, costs x)

    -- What `run_all_tasks` does to a scheduler that has `xs`.
    abbrev pub Done : ℕ → FifoScheduler A → List A → Type ℓ
    Done rounds s xs =
        (k : ℕ) × (s' : FifoScheduler A) × (run_all_tasks alloc body rounds s ≡ some s')
        × (s'.ran ≡ s.ran ++ in_turn body rounds xs)
        × Rep k s'.queue []

    -- With an allocator that has room for `2 ^ 60` pointers and no more, where every handle has a
    -- weight above the sum of the weights of those that its task schedules, as it has if the tasks
    -- are finite in all, and the weights of those that wait are below `2 ^ 59` and below the rounds:
    -- `run_all_tasks` comes to an end without an exception, the queue is empty, and the handles were
    -- run in the order of a queue, each before those that were scheduled after it.
    pub run_all_in_turn :
        (rounds k : ℕ) (s : FifoScheduler A) (xs : List A)
        → sum weight xs < rounds
        → sum weight xs < 2 ^ 59
        → Rep k s.queue xs
        → Done rounds s xs
    unfolding run_all_tasks try_run_one_task
    run_all_in_turn zero k s xs lt small r = absurd (omega arith)
    run_all_in_turn (suc rounds) k s [] lt small r =
        let p = pop_at_head r in
        (
          k,
          record s { queue = (Fifo.pop s.queue).1 },
          rw (p.0, run_all_tasks, try_run_one_task) refl,
          sym (append-nil s.ran),
          p.1,
        )
    run_all_in_turn (suc rounds) k s (x ∷ xs) lt small r =
        let p = pop_at_head r in
        let t : FifoScheduler A = record { queue = (Fifo.pop s.queue).1; ran = s.ran ++ x ∷ [] } in
        let (k₁, s₁, e₁, same, r₁) =
          schedule_all-appends k t xs (body x)
            (omega (arith, length-sum xs, length-sum (body x), costs x)) p.1 in
        let (k₂, s₂, e₂, order, r₂) =
          run_all_in_turn rounds k₁ s₁ (xs ++ body x)
            (omega (arith, sum-append weight xs (body x), costs x))
            (omega (arith, sum-append weight xs (body x), costs x)) r₁ in
        (
          k₂,
          s₂,
          rw (p.0, run_all_tasks, try_run_one_task) (rw e₁ e₂),
          order
              ∙ ap (λ u. u ++ in_turn body rounds (xs ++ body x)) same
              ∙ append_assoc s.ran (x ∷ []) (in_turn body rounds (xs ++ body x)),
          r₂,
        )
