-- ===== src/Parallel/Forks.antt =====
-- include/async++/parallel_for.h, parallel_reduce.h and parallel_invoke.h: what the algorithms run,
-- and in which orders.
use asyncplusplus_1_1_annota.Base.{
  ℕ, zero, suc, ◌+◌, ◌-◌, ◌/◌, Bool, true, false, Option, none, some, List, [], ◌∷◌, ◌==◌,
  if◌then◌else◌,
}
use asyncplusplus_1_1_annota.Parallel.Split.{Partitioner}

-- A call of an algorithm: the loop over the positions from `first` to `last`, or two calls at once,
-- one of them spawned as a task and the other on the current thread.
pub data Forks : Type 0 where
  loop : (first last : ℕ) → Forks
  fork : (spawned inline : Forks) → Forks

-- Both halves as the code combines them: no result where one of them ran out of rounds.
abbrev pub both : Option Forks → Option Forks → Option Forks
both none r = none
both (some s) none = none
both (some s) (some r) = some (fork s r)

module _ {P : Type 0} (part : Partitioner P) (thread_of : List Bool → ℕ) where
  -- `internal_parallel_for`, in so many rounds, on the thread `thread`. The spawned task at the end
  -- of `path` runs on the thread that the scheduler picks, `thread_of path`.
  unfoldable pub internal_parallel_for : ℕ → ℕ → List Bool → P → Option Forks
  internal_parallel_for zero thread path p = none
  internal_parallel_for (suc rounds) thread path p =
      let (subpart, this) = part.split thread p in
      let task = internal_parallel_for rounds (thread_of (true ∷ path)) (true ∷ path) subpart in
      let rest = internal_parallel_for rounds thread (false ∷ path) this in
      if part.begin subpart == part.end subpart
      then some (loop (part.begin this) (part.end this))
      else both task rest

module _ {R : Type 0} (reduce : R → R → R) (map : ℕ → R) where
  -- The loop of a leaf: `n` positions from `first`.
  unfoldable pub reduce_loop : R → ℕ → ℕ → R
  reduce_loop out first zero = out
  reduce_loop out first (suc n) = reduce_loop (reduce out (map first)) (first + 1) n

  module _ {P : Type 0} (part : Partitioner P) (thread_of : List Bool → ℕ) (init : R) where
    abbrev pub reduce_both : Option R → Option R → Option R
    reduce_both none t = none
    reduce_both (some out) none = none
    reduce_both (some out) (some t) = some (reduce out t)

    -- `internal_parallel_map_reduce`.
    unfoldable pub internal_parallel_map_reduce : ℕ → ℕ → List Bool → P → Option R
    internal_parallel_map_reduce zero thread path p = none
    internal_parallel_map_reduce (suc rounds) thread path p =
        let (subpart, this) = part.split thread p in
        let task =
          internal_parallel_map_reduce rounds (thread_of (true ∷ path)) (true ∷ path) subpart in
        let rest = internal_parallel_map_reduce rounds thread (false ∷ path) this in
        if part.begin subpart == part.end subpart
        then some (reduce_loop init (part.begin this) (part.end this - part.begin this))
        else reduce_both rest task

-- `parallel_invoke_internal<Start, Count>::run`, in so many rounds.
unfoldable pub parallel_invoke : ℕ → ℕ → ℕ → Option Forks
parallel_invoke zero start count = none
parallel_invoke (suc rounds) start zero = some (loop start start)
parallel_invoke (suc rounds) start (suc zero) = some (loop start (start + 1))
parallel_invoke (suc rounds) start (suc (suc n)) =
    let count = n + 2 in
    let task = parallel_invoke rounds (start + count / 2) (count - count / 2) in
    let rest = parallel_invoke rounds start (count / 2) in both task rest

-- The positions from `first`, `n` of them.
abbrev pub positions : ℕ → ℕ → List ℕ
positions first zero = []
positions first (suc n) = first ∷ positions (first + 1) n

-- The interleavings of two threads' calls.
pub data Shuffle : List ℕ → List ℕ → List ℕ → Type 0 where
  done : Shuffle [] [] []
  left : {xs ys zs : List ℕ} (x : ℕ) → Shuffle xs ys zs → Shuffle (x ∷ xs) ys (x ∷ zs)
  right : {xs ys zs : List ℕ} (y : ℕ) → Shuffle xs ys zs → Shuffle xs (y ∷ ys) (y ∷ zs)

-- The orders in which the calls of the user's function may happen.
pub data Order : Forks → List ℕ → Type 0 where
  in_order : (first last : ℕ) → Order (loop first last) (positions first (last - first))
  at_once :
      {s r : Forks} {xs ys zs : List ℕ}
      → Order s xs
      → Order r ys
      → Shuffle xs ys zs
      → Order (fork s r) zs
