-- ===== src/ThreadPool/Bound.antt =====
-- The array of the sleeping threads, which has one cell for each thread, is large enough.
use asyncplusplus_1_1_annota.Base.{
  ℕ, zero, suc, ◌+◌, ◌≤◌, ◌<◌, ◌≡◌, Bool, ◌&&◌, List, [], ◌∷◌, ltb, ◌==◌, ==_iff, ==_refl, All,
  length, if◌then◌else◌, refl, arith,
}
use asyncplusplus_1_1_annota.ThreadPool.State.{Address, Pool, top}
use asyncplusplus_1_1_annota.ThreadPool.Steps.{Reach}
use asyncplusplus_1_1_annota.ThreadPool.Inv.{in_bed, listed}
use asyncplusplus_1_1_annota.ThreadPool.Kept.{Reach-Kept}

-- How many entries of a list are of one thread, and of the first threads.
entries : ℕ → List Address → ℕ
entries i [] = 0
entries i (a ∷ xs) = (if i == a.thread then 1 else 0) + entries i xs

first_entries : ℕ → List Address → ℕ
unfolding entries
first_entries zero xs = 0
first_entries (suc n) xs = entries n xs + first_entries n xs

first_entries-cons :
    (n : ℕ) (a : Address) (xs : List Address)
    → first_entries n (a ∷ xs) ≡ (if ltb a.thread n then 1 else 0) + first_entries n xs
unfolding first_entries entries
first_entries-cons zero a xs = ground arith
first_entries-cons (suc n) a xs = ground (arith, first_entries-cons n a xs, ==_iff n a.thread)

first_entries-le :
    (n : ℕ) (xs : List Address) → ((i : ℕ) → i < n → entries i xs ≤ 1) → first_entries n xs ≤ n
unfolding first_entries
first_entries-le zero xs ones = omega arith
first_entries-le (suc n) xs ones =
    omega (arith, ones n, first_entries-le n xs (λ i lt. ones i (omega arith)))

module _ (n : ℕ) (depth : ℕ → ℕ) (b : ℕ → Bool) where
  abbrev Placed : Address → Type 0
  Placed a = (a.thread < n) × (a.level ≡ depth a.thread)

  placed :
      (xs : List Address)
      → ((i d : ℕ) → listed i d xs ≤ (if d == depth i && (ltb i n && b i) then 1 else 0))
      → All Placed xs
  placed [] bound = tt
  placed (a ∷ xs) bound = (
    ground (
      arith,
      bound a.thread a.level,
      ==_refl a.thread,
      ==_refl a.level,
      ==_iff a.level (depth a.thread),
    ),
    placed xs (λ i d. ground (arith, bound i d)),
  )

  entries-listed :
      (i : ℕ) (xs : List Address) → All Placed xs → entries i xs ≡ listed i (depth i) xs
  unfolding entries
  entries-listed i [] p = refl
  entries-listed i (a ∷ xs) ((lt, at), rest) =
      ground (arith, entries-listed i xs rest, ==_iff i a.thread, ==_iff (depth i) a.level, at)

  length-le : (xs : List Address) → All Placed xs → length xs ≤ first_entries n xs
  length-le [] p = omega arith
  length-le (a ∷ xs) ((lt, at), rest) =
      ground (arith, length-le xs rest, first_entries-cons n a xs, lt)

-- In every state that a pool of any number of threads can reach, no more threads are in the list
-- than the pool has, so that every write to the array is in bounds.
pub waiters_fit : {n : ℕ} {s : Pool} → Reach n s → length s.waiters ≤ n
waiters_fit {n} {s} r = omega (
  arith,
  length-le n s.depth (λ j. in_bed (top s j).pc) s.waiters in_place,
  first_entries-le n s.waiters once,
)
  where
    in_place : All (Placed n s.depth (λ j. in_bed (top s j).pc)) s.waiters
    in_place = placed n s.depth (λ j. in_bed (top s j).pc) s.waiters (Reach-Kept r).waiting.bound

    once : (i : ℕ) → i < n → entries i s.waiters ≤ 1
    once i lt = ground (
      arith,
      entries-listed n s.depth (λ j. in_bed (top s j).pc) i s.waiters in_place,
      (Reach-Kept r).waiting.bound i (s.depth i),
    )
