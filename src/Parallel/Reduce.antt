-- ===== src/Parallel/Reduce.antt =====
-- The reduction: the parts give what the loop over the whole range gives.
use asyncplusplus_1_1_annota.Base.{
  ℕ, zero, suc, ◌+◌, ◌-◌, ◌≤◌, ◌<◌, ◌≡◌, Bool, true, false, some, List, [], ◌∷◌, ◌==◌, arith, sym,
  ap, ap₂, ◌∙◌, inl, inr, Bool-cases, ==_iff,
}
use asyncplusplus_1_1_annota.Parallel.{StaticPartitioner, AutoPartitioner}
use asyncplusplus_1_1_annota.Parallel.Split.{
  Partitioner, Splits, static, auto, static-Splits, auto-Splits,
}
use asyncplusplus_1_1_annota.Parallel.Forks.{reduce_loop, internal_parallel_map_reduce}
use asyncplusplus_1_1_annota.Parallel.Calls.{apart}

-- A reduction that does not depend on how its arguments are grouped, and an initial value that
-- changes nothing.
pub record IsMonoid {R : Type 0} (reduce : R → R → R) (init : R) : Type 0 where
  pub assoc : (x y z : R) → reduce (reduce x y) z ≡ reduce x (reduce y z)
  pub left : (x : R) → reduce init x ≡ x
  pub right : (x : R) → reduce x init ≡ x

module _ {R : Type 0} (reduce : R → R → R) (map : ℕ → R) (init : R)
    (monoid : IsMonoid reduce init) where
  loop-init :
      (out : R) (first n : ℕ)
      → reduce_loop reduce map out first n ≡ reduce out (reduce_loop reduce map init first n)
  unfolding reduce_loop
  loop-init out first zero = sym (monoid.right out)
  loop-init out first (suc n) =
      loop-init (reduce out (map first)) (first + 1) n
      ∙ monoid.assoc out (map first) (reduce_loop reduce map init (first + 1) n)
      ∙ ap (reduce out) (
          sym (
            ap (λ x. reduce x (reduce_loop reduce map init (first + 1) n))
              (monoid.left (map first)))
          ∙ sym (loop-init (reduce init (map first)) (first + 1) n))

  loop-add :
      (out : R) (first a b : ℕ)
      → reduce_loop reduce map out first (a + b)
        ≡ reduce_loop reduce map (reduce_loop reduce map out first a) (first + a) b
  unfolding reduce_loop
  loop-add out first zero b =
      let here : first ≡ first + 0 = omega arith in
      let all : 0 + b ≡ b = omega arith in ap₂ (reduce_loop reduce map out) here all
  loop-add out first (suc a) b =
      let sum : suc a + b ≡ suc (a + b) = omega arith in
      let next : first + 1 + a ≡ first + suc a = omega arith in
      ap (reduce_loop reduce map out first) sum
      ∙ loop-add (reduce out (map first)) (first + 1) a b
      ∙ ap
          (λ i.
            reduce_loop reduce map (reduce_loop reduce map (reduce out (map first)) (first + 1) a) i
              b)
          next

  abbrev range : ℕ → ℕ → R
  range first last = reduce_loop reduce map init first (last - first)

  range-split : (a m b : ℕ) → a ≤ m → m ≤ b → reduce (range a m) (range m b) ≡ range a b
  range-split a m b h h' =
      let sum : b - a ≡ (m - a) + (b - m) = omega arith in
      let middle : a + (m - a) ≡ m = omega arith in
      sym (
        ap (reduce_loop reduce map init a) sum
        ∙ loop-add init a (m - a) (b - m)
        ∙ ap (λ i. reduce_loop reduce map (range a m) i (b - m)) middle
        ∙ loop-init (range a m) m (b - m))

  module _ {P : Type 0} (part : Partitioner P) (splits : Splits part)
      (thread_of : List Bool → ℕ) where
    map_reduces :
        (rounds thread : ℕ) (path : List Bool) (p : P)
        → part.begin p ≤ part.end p
        → part.end p - part.begin p < rounds
        → internal_parallel_map_reduce reduce map part thread_of init rounds thread path p
          ≡ some (range (part.begin p) (part.end p))
    unfolding internal_parallel_map_reduce
    map_reduces zero thread path p le lt = absurd (omega (arith, lt))
    map_reduces (suc n) thread path p le lt =
        let (out, this) = part.split thread p in
        let c = splits.cuts thread p le in
        elim (Bool-cases (part.begin out == part.end out)) [
          | inl e ↦ rw e (
              ap some (
                ap₂ range c.starts
                  (c.meets ∙ (==_iff (part.begin out) (part.end out)).0 e ∙ c.ends)))
          | inr e ↦
              let cut = apart part splits thread_of c e in
              let task =
                map_reduces n (thread_of (true ∷ path)) (true ∷ path) out
                  (omega (arith, c.ends, cut)) (omega (arith, c.ends, cut, lt)) in
              let rest =
                map_reduces n thread (false ∷ path) this (omega (arith, c.starts, c.meets, cut))
                  (omega (arith, c.starts, c.meets, cut, lt)) in
              rw (e, task, rest)
                (ap some (
                  ap₂ reduce (ap₂ range c.starts c.meets) (ap (range (part.begin out)) c.ends)
                  ∙ range-split (part.begin p) (part.begin out) (part.end p) (omega (arith, cut))
                      (omega (arith, cut))))
        ]

  -- `parallel_map_reduce` over a static partitioner, with a reduction that may be regrouped and an
  -- initial value that changes nothing: in as many rounds as the range is long, and one, it gives
  -- what one loop over the whole range gives, on whatever threads the parts run.
  pub static_reduce_as_loop :
      (thread_of : List Bool → ℕ) (rounds thread : ℕ) (p : StaticPartitioner)
      → p.iter_begin ≤ p.iter_end
      → p.iter_end - p.iter_begin < rounds
      → internal_parallel_map_reduce reduce map static thread_of init rounds thread [] p
        ≡ some (reduce_loop reduce map init p.iter_begin (p.iter_end - p.iter_begin))
  static_reduce_as_loop thread_of rounds thread p =
      map_reduces static static-Splits thread_of rounds thread [] p

  -- The same over an automatic partitioner, which also looks at the thread that splits it and at
  -- the number of threads.
  pub auto_reduce_as_loop :
      (hardware_concurrency : ℕ) (thread_of : List Bool → ℕ) (rounds thread : ℕ)
      (p : AutoPartitioner)
      → p.iter_begin ≤ p.iter_end
      → p.iter_end - p.iter_begin < rounds
      → internal_parallel_map_reduce reduce map
          (auto hardware_concurrency)
          thread_of
          init
          rounds
          thread
          []
          p
        ≡ some (reduce_loop reduce map init p.iter_begin (p.iter_end - p.iter_begin))
  auto_reduce_as_loop hardware_concurrency thread_of rounds thread p =
      map_reduces (auto hardware_concurrency) (auto-Splits hardware_concurrency) thread_of rounds
        thread [] p
