-- ===== src/Parallel/Calls.antt =====
-- Every position once: whatever the partitioner, the threads and the interleaving are.
use asyncplusplus_1_1_annota.Base.{
  ℕ, zero, suc, ◌+◌, ◌-◌, ◌/◌, ◌≤◌, ◌<◌, ◌≡◌, Bool, true, false, some, List, [], ◌∷◌, ◌==◌, leb,
  ltb, if◌then◌else◌, arith, refl, subst, ◌∙◌, inl, inr, Bool-cases, ==_iff, count,
}
use asyncplusplus_1_1_annota.Parallel.{StaticPartitioner, AutoPartitioner}
use asyncplusplus_1_1_annota.Parallel.Split.{
  Partitioner, IsSplit, Splits, static, auto, static-Splits, auto-Splits,
}
use asyncplusplus_1_1_annota.Parallel.Forks.{
  Forks, loop, fork, internal_parallel_for, parallel_invoke, positions, Shuffle, done, left, right,
  Order, in_order, at_once,
}

-- How often a position between two others is to be visited.
abbrev pub once : ℕ → ℕ → ℕ → ℕ
once first last c = if leb first c then (if ltb c last then 1 else 0) else 0

once-split : (a m b c : ℕ) → a ≤ m → m ≤ b → once m b c + once a m c ≡ once a b c
once-split a m b c h h' = ground arith

count-positions : (c first n : ℕ) → count c (positions first n) ≡ once first (first + n) c
count-positions c first zero = ground arith
count-positions c first (suc n) = ground (arith, count-positions c (first + 1) n)

count-Shuffle :
    {xs ys zs : List ℕ} (c : ℕ) → Shuffle xs ys zs → count c zs ≡ count c xs + count c ys
count-Shuffle c done = refl
count-Shuffle c (left x s) = omega (arith, count-Shuffle c s)
count-Shuffle c (right y s) = omega (arith, count-Shuffle c s)

-- The calls visit every position from `first` to `last` once, in every order in which they may
-- happen.
abbrev pub Visits : Forks → ℕ → ℕ → Type 0
Visits t first last = (zs : List ℕ) → Order t zs → (c : ℕ) → count c zs ≡ once first last c

Visits-loop : (first last : ℕ) → first ≤ last → Visits (loop first last) first last
Visits-loop first last le _ (in_order _ _) c =
    let sum : first + (last - first) ≡ last = omega arith in
    count-positions c first (last - first) ∙ rw sum refl

Visits-fork :
    (s r : Forks) (a m b : ℕ) → a ≤ m → m ≤ b → Visits s m b → Visits r a m → Visits (fork s r) a b
Visits-fork s r a m b h h' vs vr zs (at_once {xs} {ys} os or sh) c =
    omega (arith, count-Shuffle c sh, vs xs os c, vr ys or c, once-split a m b c h h')

module _ {P : Type 0} (part : Partitioner P) (splits : Splits part)
    (thread_of : List Bool → ℕ) where
  -- The two parts of a split, in terms of the whole.
  pub apart :
      {first last cut cut_end from to : ℕ}
      → IsSplit first last cut cut_end from to
      → (cut == cut_end) ≡ false
      → (first < cut) × (cut < last)
  apart c ne = c.shrinks (λ e. ground arith)

  for-Visits :
      (rounds thread : ℕ) (path : List Bool) (p : P)
      → part.begin p ≤ part.end p
      → part.end p - part.begin p < rounds
      → (t : Forks) × (internal_parallel_for part thread_of rounds thread path p ≡ some t)
        × Visits t (part.begin p) (part.end p)
  unfolding internal_parallel_for
  for-Visits zero thread path p le lt = absurd (omega (arith, lt))
  for-Visits (suc n) thread path p le lt =
      let (out, this) = part.split thread p in
      let c = splits.cuts thread p le in
      elim (Bool-cases (part.begin out == part.end out)) [
        | inl e ↦ (
          loop (part.begin this) (part.end this),
          rw e refl,
          rw (c.starts, c.meets ∙ (==_iff (part.begin out) (part.end out)).0 e ∙ c.ends)
              (Visits-loop (part.begin p) (part.end p) le),
        )
        | inr e ↦
            let cut = apart c e in
            let (task, runs, visits) =
              for-Visits n (thread_of (true ∷ path)) (true ∷ path) out (omega (arith, c.ends, cut))
                (omega (arith, c.ends, cut, lt)) in
            let (rest, runs', visits') =
              for-Visits n thread (false ∷ path) this (omega (arith, c.starts, c.meets, cut))
                (omega (arith, c.starts, c.meets, cut, lt)) in
            (
              fork task rest,
              rw (e, runs, runs') refl,
              Visits-fork task rest (part.begin p) (part.begin out) (part.end p)
                  (omega (arith, cut)) (omega (arith, cut))
                  (subst (λ u. Visits task (part.begin out) u) c.ends visits)
                  (subst (λ u. Visits rest u (part.begin out)) c.starts
                    (subst (λ u. Visits rest (part.begin this) u) c.meets visits')),
            )
      ]

-- `parallel_for` over a static partitioner: in as many rounds as the range is long, and one, it
-- comes to an end, and whatever the threads and the interleaving are, it calls the function once
-- for every position of the range, and for no other one.
pub static_for_once :
    (thread_of : List Bool → ℕ) (rounds thread : ℕ) (p : StaticPartitioner)
    → p.iter_begin ≤ p.iter_end
    → p.iter_end - p.iter_begin < rounds
    → (t : Forks) × (internal_parallel_for static thread_of rounds thread [] p ≡ some t)
      × Visits t p.iter_begin p.iter_end
static_for_once thread_of rounds thread p =
    for-Visits static static-Splits thread_of rounds thread [] p

-- The same over an automatic partitioner, which also looks at the thread that splits it and at the
-- number of threads: in as many rounds as the range is long, and one, `parallel_for` comes to an
-- end, and it calls the function once for every position of the range, and for no other one.
pub auto_for_once :
    (hardware_concurrency : ℕ) (thread_of : List Bool → ℕ) (rounds thread : ℕ) (p : AutoPartitioner)
    → p.iter_begin ≤ p.iter_end
    → p.iter_end - p.iter_begin < rounds
    → (t : Forks) × (internal_parallel_for (auto hardware_concurrency) thread_of rounds thread [] p
        ≡ some t)
      × Visits t p.iter_begin p.iter_end
auto_for_once hardware_concurrency thread_of rounds thread p =
    for-Visits (auto hardware_concurrency) (auto-Splits hardware_concurrency) thread_of rounds
      thread [] p

-- `parallel_invoke` of any number of functions comes to an end in as many rounds, and one, and
-- whatever the interleaving is, it calls each of the functions once.
pub invoke_once :
    (rounds start n : ℕ)
    → n < rounds
    → (t : Forks) × (parallel_invoke rounds start n ≡ some t) × Visits t start (start + n)
unfolding parallel_invoke
invoke_once zero start n lt = absurd (omega (arith, lt))
invoke_once (suc rounds) start zero lt = (
  loop start start,
  refl,
  subst (λ u. Visits (loop start start) start u) (omega arith)
      (Visits-loop start start (omega arith)),
)
invoke_once (suc rounds) start (suc zero) lt =
    (loop start (start + 1), refl, Visits-loop start (start + 1) (omega arith))
invoke_once (suc rounds) start (suc (suc n)) lt =
    let half = (n + 2) / 2 in
    let (task, runs, visits) =
      invoke_once rounds (start + half) (n + 2 - half) (omega (arith, lt)) in
    let (rest, runs', visits') = invoke_once rounds start half (omega (arith, lt)) in
    (
      fork task rest,
      rw (runs, runs') refl,
      Visits-fork task rest start (start + half) (start + suc (suc n)) (omega arith) (omega arith)
          (subst (λ u. Visits task (start + half) u) (omega arith) visits) visits',
    )
