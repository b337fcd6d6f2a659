-- ===== src/Fifo/Refine.antt =====
-- A fifo_queue behaves as the list of the handles that it holds.
use native.Mathlib.Nat.{pow-suc}
use asyncplusplus_1_1_annota.Base.{
  ℕ, zero, suc, ◌+◌, ◌^◌, ◌≤◌, ◌≡◌, refl, sym, ap₂, ◌∙◌, ◌⊎◌, inl, inr, Bool, true, false, none,
  some, List, [], ◌∷◌, ◌++◌, map, arith, length, front, rest, Bool-cases,
}
use asyncplusplus_1_1_annota.Base.Words.{add_size, mul_size}
use asyncplusplus_1_1_annota.Ring.{slot}
use asyncplusplus_1_1_annota.Fifo.{FifoQueue, is_full, grow, put, push, pop, drain, destroy, new}
use asyncplusplus_1_1_annota.Fifo.Rep.{
  Rep, full, not_full, Rep-put, Rep-grow, Rep-next, head-eq-tail, head-ne-tail, head_cell,
}

-- The allocator has no room for more than `2 ^ 60` pointers.
abbrev pub IsBounded : (ℕ → Bool) → Type 0
IsBounded alloc = (n : ℕ) → alloc n ≡ true → n ≤ 2 ^ 60

-- What `push` may do to a queue that holds `xs`.
abbrev pub Pushed {ℓ} : {A : Type ℓ} → (ℕ → Bool) → FifoQueue A → List A → A → Type ℓ
Pushed {A} alloc q xs x =
    ((k' : ℕ) × (q' : FifoQueue A) × (push alloc q x ≡ some q') × Rep k' q' (xs ++ x ∷ []))
    ⊎ ((push alloc q x ≡ none)
        × (length xs + 1 ≡ length q.items)
        × (alloc (mul_size (length q.items) 2) ≡ false))

module _ {ℓ} {A : Type ℓ} {k : ℕ} {q : FifoQueue A} {xs : List A} where
  -- With an allocator that has no room for more than `2 ^ 60` pointers, `push` appends the handle;
  -- or it throws, and then the array was full and twice its size could not be had.
  pub push_at_tail : (alloc : ℕ → Bool) (x : A) → IsBounded alloc → Rep k q xs → Pushed alloc q xs x
  unfolding push
  push_at_tail alloc x bounded r = elim (Bool-cases (is_full q)) [
    | inl e ↦ elim (Bool-cases (alloc (mul_size (length q.items) 2))) [
      | inl have ↦ inl (
        suc k,
        put (grow q) x,
        rw (e, have) refl,
        Rep-put (Rep-grow r (full r e) (bounded _ have)) x (omega (arith, r.room, pow-suc 2 k)),
      )
      | inr refused ↦ inr (rw (e, refused) refl, full r e ∙ sym r.size, refused)
    ]
    | inr e ↦ inl (k, put q x, rw e refl, Rep-put r x (not_full r e))
  ]

  -- `pop` returns the oldest handle, or an empty one from an empty queue, and leaves the rest.
  pub pop_at_head : Rep k q xs → let (out, q') = pop q in (out ≡ front xs) × Rep k q' (rest xs)
  pop_at_head = pop_cases xs
    where
      pop_cases :
          (ys : List A)
          → Rep k q ys
          → let (out, q') = pop q in (out ≡ front ys) × Rep k q' (rest ys)
      pop_cases [] r = unfold pop in rw (head-eq-tail r) (refl, r)
      pop_cases (y ∷ ys) r = unfold pop in rw (head-ne-tail r) (head_cell r, Rep-next r)

module _ {ℓ} {A : Type ℓ} {k : ℕ} where
  drain_refines :
      (q : FifoQueue A) (rounds : ℕ) (xs : List A)
      → length xs ≤ rounds
      → Rep k q xs
      → drain q.items q.tail rounds q.head ≡ map some xs
  unfolding drain
  drain_refines q zero [] le r = refl
  drain_refines q zero (x ∷ xs) le r = absurd (omega arith)
  drain_refines q (suc n) [] le r = rw (head-eq-tail r) refl
  drain_refines q (suc n) (x ∷ xs) le r = rw (head-ne-tail r) (
      ap₂ ◌∷◌ (head_cell r) (
        drain_refines (record q { head = slot q.items (add_size q.head 1) }) n xs (omega arith)
          (Rep-next r)))

  -- The destructor drops every handle that is still queued, once each and oldest first.
  pub destroy_in_order : (q : FifoQueue A) (xs : List A) → Rep k q xs → destroy q ≡ map some xs
  unfolding destroy
  destroy_in_order q xs r = drain_refines q (length q.items) xs (omega (arith, r.room, r.size)) r

-- The constructor makes an empty queue.
pub new-Rep : (A : Type 0) → Rep {A = A} 5 (new A) []
unfolding new
new-Rep A = record {
  size = refl;
  fits = omega arith;
  head_in = omega arith;
  tail_at = refl;
  room = omega arith;
  cells = tt;
}
