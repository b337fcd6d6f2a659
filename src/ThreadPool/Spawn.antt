-- ===== src/ThreadPool/Spawn.antt =====
-- src/threadpool_scheduler.cpp, `recursive_spawn_worker_thread`: the threads of a pool start one
-- another, each for half of its range.
use asyncplusplus_1_1_annota.Base.{
  ℕ, zero, suc, ◌+◌, ◌-◌, ◌/◌, ◌≤◌, ◌<◌, ◌≡◌, Bool, ◌&&◌, Option, none, some, List, [], ◌∷◌, ◌++◌,
  count, count-append, leb, ltb, ◌==◌, ==_iff, if◌then◌else◌, refl, arith, subst, inl, inr,
  Bool-cases,
}

-- `workers` are the threads that reach `worker_thread`, by their number. `handles` are the cells of
-- `thread_data` whose `handle` is assigned, each with the thread that assigns it.
pub record Spawned : Type 0 where
  pub workers : List ℕ
  pub handles : List ℕ

abbrev pub spawned : ℕ → Spawned → Spawned → Spawned
spawned mid ours theirs = record {
  workers = ours.workers ++ theirs.workers;
  handles = mid ∷ ours.handles ++ theirs.handles;
}

-- `none` if `rounds` nested calls are not enough.
unfoldable pub recursive_spawn : (rounds index threads : ℕ) → Option Spawned
recursive_spawn zero index threads = none
recursive_spawn (suc rounds) index threads =
    let theirs = recursive_spawn rounds (index + threads / 2) (threads - threads / 2) in
    let ours = recursive_spawn rounds index (threads / 2) in
    if threads == 1 then some (record { workers = index ∷ []; handles = [] }) else elim ours [
      | none ↦ none
      | some o ↦ elim theirs [ none ↦ none | some t ↦ some (spawned (index + threads / 2) o t) ]
    ]

-- Whether a number is one of a range.
abbrev pub within : ℕ → ℕ → ℕ → Bool
within j index threads = leb index j && ltb j (index + threads)

-- Every number of the range is a worker, once, and every one but the first has its handle assigned,
-- once.
pub record Covers (index threads : ℕ) (r : Spawned) : Type 0 where
  pub each_once : (j : ℕ) → count j r.workers ≡ (if within j index threads then 1 else 0)
  pub assigned : (j : ℕ) → count j r.handles ≡ (if within j (suc index) (threads - 1) then 1 else 0)

Covers-spawned :
    (index a b : ℕ) (ours theirs : Spawned)
    → 0 < a
    → 0 < b
    → Covers index a ours
    → Covers (index + a) b theirs
    → Covers index (a + b) (spawned (index + a) ours theirs)
Covers-spawned index a b ours theirs some_a some_b left right = record {
  each_once = λ j.
      ground
        (arith, left.each_once j, right.each_once j, count-append j ours.workers theirs.workers);
  assigned = λ j. ground (
    arith,
    left.assigned j,
    right.assigned j,
    count-append j ours.handles theirs.handles,
    ==_iff j (index + a),
  );
}

-- With as many rounds as there are threads, of which there is one at least, the recursion comes to
-- an end: every number of the range becomes a worker once, and every one but the first, whose
-- handle the caller assigns, has its handle assigned once.
pub spawn-Covers :
    (rounds index threads : ℕ)
    → 0 < threads
    → threads ≤ rounds
    → (r : Spawned) × (recursive_spawn rounds index threads ≡ some r) × Covers index threads r
unfolding recursive_spawn
spawn-Covers zero index threads pos le = absurd (omega arith)
spawn-Covers (suc rounds) index threads pos le = elim (Bool-cases (threads == 1)) [
  | inl one ↦ (
    record { workers = index ∷ []; handles = [] },
    rw one refl,
    record {
      each_once = λ j. ground (arith, one, ==_iff threads 1, ==_iff j index);
      assigned = λ j. ground (arith, one, ==_iff threads 1);
    },
  )
  | inr more ↦
      let (ours, e₁, left) =
        spawn-Covers rounds index (threads / 2) (ground (arith, more, ==_iff threads 1))
          (ground (arith, more, ==_iff threads 1)) in
      let (theirs, e₂, right) =
        spawn-Covers rounds (index + threads / 2) (threads - threads / 2)
          (ground (arith, more, ==_iff threads 1)) (ground (arith, more, ==_iff threads 1)) in
      (
        spawned (index + threads / 2) ours theirs,
        rw more (rw e₁ (rw e₂ refl)),
        subst (λ u. Covers index u (spawned (index + threads / 2) ours theirs)) (omega arith)
            (Covers-spawned index (threads / 2) (threads - threads / 2) ours theirs
              (ground (arith, more, ==_iff threads 1)) (ground (arith, more, ==_iff threads 1)) left
              right),
      )
]

-- A range of no threads never ends: the call starts another one for no threads, however many
-- rounds there are.
pub spawn_none_diverges : (rounds index : ℕ) → recursive_spawn rounds index 0 ≡ none
unfolding recursive_spawn
spawn_none_diverges zero index = refl
spawn_none_diverges (suc rounds) index = rw (spawn_none_diverges rounds index) refl
