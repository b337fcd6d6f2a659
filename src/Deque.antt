-- ===== src/Deque.antt =====
-- src/work_steal_queue.h: the deque of a worker thread, in the calls of one thread at a time.
-- Indices are `std::size_t` and wrap round; an array slot is an index modulo the array's size.
pub mod Rep
pub mod Refine
mod Examples
use asyncplusplus_1_1_annota.Base.{
  ℕ, zero, suc, ◌+◌, ◌-◌, ◌%◌, ◌^◌, Bool, Option, none, some, List, [], ◌∷◌, length, get_or, set,
  replicate, ltb, ◌==◌, if◌then◌else◌,
}
use asyncplusplus_1_1_annota.Base.Words.{add_size, sub_size, mul_size}
use asyncplusplus_1_1_annota.Base.Int.{ℤ, pos, negsuc, sub_ℕ, leb_ℤ, ltb_ℤ}
use asyncplusplus_1_1_annota.Ring.{slot, copy}

-- `items` is the current `circular_array`, `previous` the chain of the arrays it replaced.
pub record Deque {ℓ} (A : Type ℓ) : Type ℓ where
  pub items : List (Option A)
  pub previous : List (List (Option A))
  pub top : ℕ
  pub bottom : ℕ

-- `to_signed`: PTRDIFF_MAX is 2 ^ 63 - 1, and PTRDIFF_MIN is -2 ^ 63.
abbrev pub to_signed : ℕ → ℤ
to_signed x = if ltb (2 ^ 63 - 1) x then sub_ℕ (x - 2 ^ 63) (2 ^ 63) else pos x

module _ {ℓ} {A : Type ℓ} where
  -- `circular_array::get` and `circular_array::put`.
  abbrev pub get : List (Option A) → ℕ → Option A
  get items i = get_or items (slot items i) none

  abbrev pub array_put : List (Option A) → ℕ → Option A → List (Option A)
  array_put items i x = set items (slot items i) x

  -- `circular_array::grow`: the loop from `top` comes to `bottom` in `bottom - top` rounds.
  unfoldable pub grow : List (Option A) → ℕ → ℕ → List (Option A)
  grow items top bottom =
      let bigger = replicate (mul_size (length items) 2) none in
      copy none (slot bigger) (slot items) items (sub_size bottom top) top bigger

  -- The tests `to_signed(b - t) >= to_signed(size)` of `push` and `to_signed(b - t) <= 0` of `pop`
  -- and `steal`.
  pub is_full : Deque A → Bool
  is_full q = leb_ℤ (to_signed (length q.items)) (to_signed (sub_size q.bottom q.top))

  pub is_empty : Deque A → Bool
  is_empty q = leb_ℤ (to_signed (sub_size q.bottom q.top)) (pos 0)

  -- The first half of `push`: `none` if the array is full and no larger one can be had.
  pub make_room : (ℕ → Bool) → Deque A → Option (Deque A)
  make_room alloc q =
      if is_full q
      then (if alloc (mul_size (length q.items) 2)
          then some
              (record q { items = grow q.items q.top q.bottom; previous = q.items ∷ q.previous })
          else none)
      else some q

  -- `put` and the store to `bottom`.
  pub append : Deque A → A → Deque A
  append q x = record q {
    items = array_put q.items q.bottom (some x);
    bottom = add_size q.bottom 1;
  }

  -- `none` is the `std::bad_alloc` that leaves `push` before the deque is touched.
  unfoldable pub push : (ℕ → Bool) → Deque A → A → Option (Deque A)
  unfolding is_full make_room append
  push alloc q x = elim (make_room alloc q) [ none ↦ none | some q' ↦ some (append q' x) ]

  -- The race for the last task, at index `b`, which is also `t`.
  pub take_last : Deque A → ℕ → ℕ → Option A → Option A × Deque A
  take_last q b t x =
      if q.top == t
      then (x, record q { top = add_size t 1; bottom = add_size b 1 })
      else (none, record q { bottom = add_size b 1 })

  -- `pop` after the store of `b` to `bottom`.
  pub pop_stored : Deque A → ℕ → ℕ → Option A × Deque A
  pop_stored q b t =
      if ltb_ℤ (to_signed (sub_size b t)) (pos 0)
      then (none, record q { bottom = add_size b 1 })
      else if b == t
      then take_last q b t (get q.items b)
      else (get q.items b, q)

  unfoldable pub pop : Deque A → Option A × Deque A
  unfolding is_empty pop_stored take_last
  pop q =
      if is_empty q
      then (none, q)
      else let b = sub_size q.bottom 1 in let q' = record q { bottom = b } in pop_stored q' b q'.top

  -- One round of `steal`; nobody else moves `top`, so its compare-exchange does not fail.
  unfoldable pub steal : Deque A → Option A × Deque A
  unfolding is_empty
  steal q =
      if is_empty q then (none, q) else (get q.items q.top, record q { top = add_size q.top 1 })

  -- The loop of the destructor over the tasks from `top` to `bottom`.
  pub drain : List (Option A) → ℕ → ℕ → List (Option A)
  drain items zero i = []
  drain items (suc rounds) i = get items i ∷ drain items rounds (add_size i 1)

  pub destroy : Deque A → List (Option A)
  unfolding drain
  destroy q = drain q.items (sub_size q.bottom q.top) q.top

unfoldable pub new {ℓ} : (A : Type ℓ) → Deque A
new A = record { items = replicate 32 none; previous = []; top = 0; bottom = 0 }
