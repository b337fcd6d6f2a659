-- ===== src/Fifo/Spec.antt =====
-- What a client sees of a FIFO: the calls and their answers, over a plain list.
use asyncplusplus_1_1_annota.Base.{ℕ, ◌<◌, length, Option, List, [], ◌∷◌, ◌++◌, front, rest}

pub data Op {ℓ} (A : Type ℓ) : Type ℓ where
  push : A → Op A
  pop : Op A

module _ {ℓ} {A : Type ℓ} where
  -- The list never holds as many as `n` elements, before, between and after the calls.
  abbrev pub Keeps : ℕ → List A → List (Op A) → Type 0
  Keeps n xs [] = length xs < n
  Keeps n xs (push x ∷ ops) = (length xs < n) × Keeps n (xs ++ x ∷ []) ops
  Keeps n xs (pop ∷ ops) = (length xs < n) × Keeps n (rest xs) ops

  -- The answers to the `pop` calls in order, and what is left.
  unfoldable pub serve : List A → List (Op A) → List (Option A) × List A
  serve xs [] = ([], xs)
  serve xs (push x ∷ ops) = serve (xs ++ x ∷ []) ops
  serve xs (pop ∷ ops) = let (outs, left) = serve (rest xs) ops in (front xs ∷ outs, left)
