-- ===== src/Deque/Examples.antt =====
-- Tests of the deque model, and its theorems at concrete deques.
use asyncplusplus_1_1_annota.Base.{
  ℕ, ◌-◌, ◌^◌, ◌≡◌, refl, Bool, none, some, [], ◌∷◌, arith, leb, leb→le,
}
use asyncplusplus_1_1_annota.Base.Int.{pos, negsuc}
use asyncplusplus_1_1_annota.Ring.{copy}
use asyncplusplus_1_1_annota.Deque.{Deque, to_signed, pop, grow}
use asyncplusplus_1_1_annota.Deque.Rep.{Rep}
use asyncplusplus_1_1_annota.Deque.Refine.{Pushed, push_at_back, pop_at_back}
use asyncplusplus_1_1_annota.Fifo.Refine.{IsBounded}

-- 5, 6 and 7 at the indices 2 ^ 64 - 2, 2 ^ 64 - 1 and 0 of four cells.
abbrev wrapped : Deque ℕ
wrapped = record {
  items = some 7 ∷ none ∷ some 5 ∷ some 6 ∷ [];
  previous = [];
  top = 2 ^ 64 - 2;
  bottom = 1;
}

wrapped-Rep : Rep 2 wrapped (5 ∷ 6 ∷ 7 ∷ [])
wrapped-Rep = record {
  size = refl;
  fits = omega arith;
  top_in = omega arith;
  bottom_at = refl;
  room = omega arith;
  cells = (refl, (refl, (refl, tt)));
}

abbrev lone : Deque ℕ
lone = record { items = some 3 ∷ none ∷ []; previous = []; top = 4; bottom = 5 }

lone-Rep : Rep 1 lone (3 ∷ [])
lone-Rep = record {
  size = refl;
  fits = omega arith;
  top_in = omega arith;
  bottom_at = refl;
  room = omega arith;
  cells = (refl, tt);
}

abbrev roomy : ℕ → Bool
roomy n = leb n (2 ^ 60)

roomy-IsBounded : IsBounded roomy
roomy-IsBounded n h = leb→le n (2 ^ 60) h

to_signed_wraps : (to_signed (2 ^ 64 - 1) ≡ negsuc 0) × (to_signed (2 ^ 63 - 1) ≡ pos (2 ^ 63 - 1))
to_signed_wraps = (refl, refl)

-- The larger array holds the handles at the slots of the same indices.
grow_runs :
    grow {A = ℕ} (some 7 ∷ some 8 ∷ some 5 ∷ some 6 ∷ []) (2 ^ 64 - 2) 2
    ≡ some 7 ∷ some 8 ∷ none ∷ none ∷ none ∷ none ∷ some 5 ∷ some 6 ∷ []
unfolding grow copy
grow_runs = refl

pop_last_runs : pop lone ≡ (some 3, record lone { top = 5 })
unfolding pop
pop_last_runs = refl

push_at_back_example : Pushed roomy wrapped (5 ∷ 6 ∷ 7 ∷ []) 8
push_at_back_example = push_at_back wrapped-Rep roomy 8 roomy-IsBounded

pop_at_back_example : let (out, q') = pop wrapped in (out ≡ some 7) × Rep 2 q' (5 ∷ 6 ∷ [])
pop_at_back_example = pop_at_back wrapped-Rep

pop_at_back_last : let (out, q') = pop lone in (out ≡ some 3) × Rep 1 q' []
pop_at_back_last = pop_at_back lone-Rep
