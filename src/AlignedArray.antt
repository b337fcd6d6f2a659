-- ===== src/AlignedArray.antt =====
-- include/async++/aligned_alloc.h, `aligned_array`: an array whose elements are constructed in place
-- in a block of memory. What it does to the elements is a list of operations.
pub mod Elements
mod Examples
use asyncplusplus_1_1_annota.Base.{
  ℕ, zero, suc, Bool, true, false, Option, none, some, List, [], ◌∷◌, ◌++◌, replicate,
  if◌then◌else◌,
}

pub data Op : Type 0 where
  construct destruct : (index : ℕ) → Op
  free : Op

-- `throws` says which element's constructor throws. `failed` is the index where the loop stopped.
pub record Built : Type 0 where
  pub ops : List Op
  pub failed : Option ℕ

-- The loop of the constructor, from the element `i`.
pub fill : (ℕ → Bool) → ℕ → ℕ → Built
fill throws i zero = record { ops = []; failed = none }
fill throws i (suc n) =
    let rest = fill throws (suc i) n in
    if throws i
    then record { ops = []; failed = some i }
    else record { ops = construct i ∷ rest.ops; failed = rest.failed }

-- The constructor, where the block is allocated: the handler of an exception destroys as many times
-- as there are elements, and each time the one that failed.
pub build : (ℕ → Bool) → ℕ → Built
unfolding fill
build throws length =
    let filled = fill throws 0 length in
    elim filled.failed [
      | none ↦ filled
      | some i ↦ record {
        ops = filled.ops ++ replicate i (destruct i) ++ free ∷ [];
        failed = some i;
      }
    ]

pub destroy_from : ℕ → ℕ → List Op
destroy_from i zero = free ∷ []
destroy_from i (suc n) = destruct i ∷ destroy_from (suc i) n

-- The destructor.
pub destroy : ℕ → List Op
unfolding destroy_from
destroy length = destroy_from 0 length
