-- ===== src/AlignedArray/Elements.antt =====
-- Which elements an `aligned_array` constructs and destroys.
use asyncplusplus_1_1_annota.Base.{
  ℕ, zero, suc, ◌+◌, ◌≤◌, ◌<◌, ◌≡◌, Bool, true, false, ◌&&◌, none, some, List, [], ◌∷◌, ◌++◌,
  replicate, ltb, leb, ◌==◌, ==_iff, if◌then◌else◌, refl, arith, ap, subst, ◌∙◌, ◌⊎◌, inl, inr,
}
use asyncplusplus_1_1_annota.AlignedArray.{
  Op, construct, destruct, free, fill, build, destroy_from, destroy,
}

abbrev pub is_construct : ℕ → Op → Bool
is_construct j (construct i) = j == i
is_construct j _ = false

abbrev pub is_destruct : ℕ → Op → Bool
is_destruct j (destruct i) = j == i
is_destruct j _ = false

-- How often an operation of a kind is in a list.
abbrev pub times : (Op → Bool) → List Op → ℕ
times p [] = 0
times p (x ∷ xs) = (if p x then 1 else 0) + times p xs

times-append : (p : Op → Bool) (xs ys : List Op) → times p (xs ++ ys) ≡ times p xs + times p ys
times-append p [] ys = omega arith
times-append p (x ∷ xs) ys = omega (arith, times-append p xs ys)

times-replicate :
    (p : Op → Bool) (n : ℕ) (x : Op) → times p (replicate n x) ≡ (if p x then n else 0)
times-replicate p zero x = ground arith
times-replicate p (suc n) x = ground (arith, times-replicate p n x)

-- The loop constructs the elements before the first one that throws.
fill-stops :
    (throws : ℕ → Bool) (i n m : ℕ)
    → m < n
    → ((j : ℕ) → i ≤ j → j < i + m → throws j ≡ false)
    → throws (i + m) ≡ true
    → ((fill throws i n).failed ≡ some (i + m))
      × ((j : ℕ)
          → times (is_construct j) (fill throws i n).ops
            ≡ (if leb i j && ltb j (i + m) then 1 else 0))
      × ((j : ℕ) → times (is_destruct j) (fill throws i n).ops ≡ 0)
unfolding fill
fill-stops throws i zero m lt before at = absurd (omega arith)
fill-stops throws i (suc n) zero lt before at =
    let here : i + 0 ≡ i = omega arith in
    let e : throws i ≡ true = subst (λ k. throws k ≡ true) here at in
    rw e (ap some (omega arith), λ j. ground arith, λ j. refl)
fill-stops throws i (suc n) (suc m) lt before at =
    let first : throws i ≡ false = before i (omega arith) (omega arith) in
    let later : i + suc m ≡ suc i + m = omega arith in
    let ih =
      fill-stops throws (suc i) n m (omega arith) (λ j le l. before j (omega arith) (omega arith))
        (subst (λ k. throws k ≡ true) later at) in
    rw first (
      ih.0 ∙ ap some (omega arith),
      λ j. ground (arith, ih.1 j, ==_iff j i),
      λ j. omega (arith, ih.2 j),
    )

fill-ends :
    (throws : ℕ → Bool) (i n : ℕ)
    → ((j : ℕ) → i ≤ j → j < i + n → throws j ≡ false)
    → ((fill throws i n).failed ≡ none)
      × ((j : ℕ)
          → times (is_construct j) (fill throws i n).ops
            ≡ (if leb i j && ltb j (i + n) then 1 else 0))
      × ((j : ℕ) → times (is_destruct j) (fill throws i n).ops ≡ 0)
unfolding fill
fill-ends throws i zero before = (refl, λ j. ground arith, λ j. refl)
fill-ends throws i (suc n) before =
    let first : throws i ≡ false = before i (omega arith) (omega arith) in
    let ih = fill-ends throws (suc i) n (λ j le l. before j (omega arith) (omega arith)) in
    rw first (ih.0, λ j. ground (arith, ih.1 j, ==_iff j i), λ j. omega (arith, ih.2 j))

destroy_from-once :
    (i n j : ℕ)
    → times (is_destruct j) (destroy_from i n) ≡ (if leb i j && ltb j (i + n) then 1 else 0)
unfolding destroy_from
destroy_from-once i zero j = ground arith
destroy_from-once i (suc n) j = ground (arith, destroy_from-once (suc i) n j, ==_iff j i)

-- Where the elements below `i` are constructed without an exception, and either `i` is the length
-- or the constructor of the element `i` throws: the elements below `i` are constructed once; in the
-- first case the array is built, and its destructor destroys every element once; in the second one
-- the handler destroys none of them, and the element `i`, which was not constructed, `i` times.
pub build_outcome :
    (throws : ℕ → Bool) (length i : ℕ)
    → ((j : ℕ) → j < i → throws j ≡ false)
    → (i ≡ length) ⊎ ((i < length) × (throws i ≡ true))
    → ((build throws length).failed ≡ (if ltb i length then some i else none))
      × ((j : ℕ) → times (is_construct j) (build throws length).ops ≡ (if ltb j i then 1 else 0))
      × ((j : ℕ)
          → times (is_destruct j) (build throws length).ops
            ≡ (if ltb i length && (j == i) then i else 0))
      × ((j : ℕ) → times (is_destruct j) (destroy length) ≡ (if ltb j length then 1 else 0))
unfolding build destroy
build_outcome throws length i before (inl all) =
    let done = fill-ends throws 0 length (λ j le lt. before j (omega arith)) in
    rw (done.0, build)
      (
        ground (arith, done.0, all),
        λ j. ground (arith, done.1 j, all),
        λ j. ground (arith, done.2 j, all),
        λ j. ground (arith, destroy_from-once 0 length j),
      )
build_outcome throws length i before (inr (lt, at)) =
    let here : i ≡ 0 + i = omega arith in
    let stop =
      fill-stops throws 0 length i lt (λ j le l. before j (omega arith))
        (subst (λ k. throws k ≡ true) here at) in
    let stopped : (fill throws 0 length).failed ≡ some i = stop.0 ∙ ap some (omega arith) in
    rw (stopped, build)
      (
        ground (arith, lt),
        λ j. ground (
          arith,
          stop.1 j,
          times-append (is_construct j) ((fill throws 0 length).ops ++ replicate i (destruct i))
              (free ∷ []),
          times-append (is_construct j) (fill throws 0 length).ops (replicate i (destruct i)),
          times-replicate (is_construct j) i (destruct i),
        ),
        λ j. ground (
          arith,
          lt,
          stop.2 j,
          times-append (is_destruct j) ((fill throws 0 length).ops ++ replicate i (destruct i))
              (free ∷ []),
          times-append (is_destruct j) (fill throws 0 length).ops (replicate i (destruct i)),
          times-replicate (is_destruct j) i (destruct i),
        ),
        λ j. ground (arith, destroy_from-once 0 length j),
      )
