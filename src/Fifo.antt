-- ===== src/Fifo.antt =====
-- src/fifo_queue.h: the growing circular queue of task handles behind the thread pool's public
-- queue and the FIFO scheduler. Its client holds a lock, so the operations run one at a time.
pub mod Rep
pub mod Spec
pub mod Refine
pub mod Run
mod Examples
use asyncplusplus_1_1_annota.Base.{
  ℕ, zero, suc, ◌-◌, Bool, Option, none, some, List, [], ◌∷◌, length, get_or, set, replicate, ◌==◌,
  if◌then◌else◌,
}
use asyncplusplus_1_1_annota.Base.Words.{add_size, mul_size}
use asyncplusplus_1_1_annota.Ring.{slot, copy}

-- `none` is a cell that was never written. A handle is never null.
pub record FifoQueue {ℓ} (A : Type ℓ) : Type ℓ where
  pub items : List (Option A)
  pub head : ℕ
  pub tail : ℕ

module _ {ℓ} {A : Type ℓ} where
  pub is_full : FifoQueue A → Bool
  is_full q = q.head == slot q.items (add_size q.tail 1)

  -- The resize: every cell of the old array in queue order, into an array of twice the size.
  pub grow : FifoQueue A → FifoQueue A
  grow q = record {
    items =
        copy none (λ i. i) (λ i. slot q.items (add_size i q.head)) q.items (length q.items) 0
          (replicate (mul_size (length q.items) 2) none);
    head = 0;
    tail = length q.items - 1;
  }

  pub put : FifoQueue A → A → FifoQueue A
  put q x = record q {
    items = set q.items q.tail (some x);
    tail = slot q.items (add_size q.tail 1);
  }

  -- `alloc n` says whether an array of `n` cells can be had. `none` is the `std::bad_alloc` that
  -- leaves `push` before the queue is touched.
  unfoldable pub push : (ℕ → Bool) → FifoQueue A → A → Option (FifoQueue A)
  unfolding is_full grow put
  push alloc q x =
      if is_full q
      then (if alloc (mul_size (length q.items) 2) then some (put (grow q) x) else none)
      else some (put q x)

  unfoldable pub pop : FifoQueue A → Option A × FifoQueue A
  pop q =
      if q.head == q.tail
      then (none, q)
      else (get_or q.items q.head none, record q { head = slot q.items (add_size q.head 1) })

  -- The loop of the destructor from index `i`: the handles that it drops.
  pub drain : List (Option A) → ℕ → ℕ → ℕ → List (Option A)
  drain items tail zero i = []
  drain items tail (suc rounds) i =
      let rest = get_or items i none ∷ drain items tail rounds (slot items (add_size i 1)) in
      if i == tail then [] else rest

  -- `~fifo_queue`; an index comes round after `items.size()` rounds.
  pub destroy : FifoQueue A → List (Option A)
  unfolding drain
  destroy q = drain q.items q.tail (length q.items) q.head

-- The constructor.
unfoldable pub new {ℓ} : (A : Type ℓ) → FifoQueue A
new A = record { items = replicate 32 none; head = 0; tail = 0 }
