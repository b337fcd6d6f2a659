-- ===== src/Fifo/Examples.antt =====
-- Tests of the fifo_queue model, and its theorems at concrete queues.
use asyncplusplus_1_1_annota.Base.{
  ℕ, ◌^◌, ◌≤◌, ◌≡◌, refl, Bool, true, none, some, [], ◌∷◌, arith, leb, leb→le,
}
use asyncplusplus_1_1_annota.Ring.{copy}
use asyncplusplus_1_1_annota.Fifo
use asyncplusplus_1_1_annota.Fifo.{FifoQueue, new, drain, destroy}
use asyncplusplus_1_1_annota.Fifo.Rep.{Rep}
use asyncplusplus_1_1_annota.Fifo.Refine.{IsBounded, new-Rep}
use asyncplusplus_1_1_annota.Fifo.Run.{Ran, run_serves}
use asyncplusplus_1_1_annota.Fifo.Spec.{push, pop}

-- 8, then 9, round the end of four cells, and the same queue when it is full.
abbrev wrapped : FifoQueue ℕ
wrapped = record { items = some 9 ∷ none ∷ none ∷ some 8 ∷ []; head = 3; tail = 1 }

abbrev crammed : FifoQueue ℕ
crammed = record { items = some 9 ∷ some 7 ∷ none ∷ some 8 ∷ []; head = 3; tail = 2 }

wrapped-Rep : Rep 2 wrapped (8 ∷ 9 ∷ [])
wrapped-Rep = record {
  size = refl;
  fits = omega arith;
  head_in = omega arith;
  tail_at = refl;
  room = omega arith;
  cells = (refl, (refl, tt));
}

crammed-Rep : Rep 2 crammed (8 ∷ 9 ∷ 7 ∷ [])
crammed-Rep = record {
  size = refl;
  fits = omega arith;
  head_in = omega arith;
  tail_at = refl;
  room = omega arith;
  cells = (refl, (refl, (refl, tt)));
}

abbrev roomy : ℕ → Bool
roomy n = leb n (2 ^ 60)

roomy-IsBounded : IsBounded roomy
roomy-IsBounded n h = leb→le n (2 ^ 60) h

roomy_enough : (n : ℕ) → n ≤ 2 ^ 60 → roomy n ≡ true
roomy_enough n h = ground arith

-- The resize turns the queue to start at index 0, keeps its order, and doubles the array.
grow_runs :
    Fifo.push roomy crammed 6
    ≡ some (record {
      items = some 8 ∷ some 9 ∷ some 7 ∷ some 6 ∷ none ∷ none ∷ none ∷ none ∷ [];
      head = 0;
      tail = 4;
    })
unfolding Fifo.push copy
grow_runs = refl

run_serves_example : Ran roomy (new ℕ) [] (push 1 ∷ pop ∷ pop ∷ push 2 ∷ [])
run_serves_example =
    run_serves roomy roomy_enough roomy-IsBounded 5 (new ℕ) [] (push 1 ∷ pop ∷ pop ∷ push 2 ∷ [])
      (omega arith, (omega arith, (omega arith, (omega arith, omega arith)))) (new-Rep ℕ)
