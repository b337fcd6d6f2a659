-- ===== src/FifoScheduler/Examples.antt =====
-- A scheduler with two handles, of which the first one schedules two more.
use asyncplusplus_1_1_annota.Base.{
  ℕ, suc, ◌^◌, ◌≤◌, ◌≡◌, Bool, true, some, List, [], ◌∷◌, ◌==◌, ==_iff, if◌then◌else◌, refl, arith,
  leb, leb→le, none,
}
use asyncplusplus_1_1_annota.Fifo.Rep.{Rep}
use asyncplusplus_1_1_annota.Fifo.Refine.{IsBounded}
use asyncplusplus_1_1_annota.FifoScheduler.{FifoScheduler}
use asyncplusplus_1_1_annota.FifoScheduler.RunAll.{sum, Done, run_all_in_turn}

abbrev two : FifoScheduler ℕ
two = record {
  queue = record { items = some 9 ∷ none ∷ none ∷ some 8 ∷ []; head = 3; tail = 1 };
  ran = [];
}

two-Rep : Rep 2 (two.queue) (8 ∷ 9 ∷ [])
two-Rep = record {
  size = refl;
  fits = omega arith;
  head_in = omega arith;
  tail_at = refl;
  room = omega arith;
  cells = (refl, (refl, tt));
}

abbrev roomy : ℕ → Bool
roomy n = leb n (2 ^ 60)

roomy-IsBounded : IsBounded roomy
roomy-IsBounded n h = leb→le n (2 ^ 60) h

roomy_enough : (n : ℕ) → n ≤ 2 ^ 60 → roomy n ≡ true
roomy_enough n h = ground arith

abbrev body : ℕ → List ℕ
body x = if x == 8 then 6 ∷ 7 ∷ [] else []

abbrev weight : ℕ → ℕ
weight x = if x == 8 then 3 else 1

costs : (x : ℕ) → suc (sum weight (body x)) ≤ weight x
costs x = ground (arith, ==_iff x 8)

run_all_in_turn_example :
    Done roomy roomy_enough roomy-IsBounded body weight costs 5 two (8 ∷ 9 ∷ [])
run_all_in_turn_example =
    run_all_in_turn roomy roomy_enough roomy-IsBounded body weight costs 5 2 two (8 ∷ 9 ∷ [])
      (omega arith) (omega arith) two-Rep
