-- ===== src/Ring.antt =====
-- Circular storage: an array whose size is a power of two, indexed by `i & (size - 1)`.
-- Both queues of the library keep their tasks in one.
pub mod Cells
pub mod Copy
use asyncplusplus_1_1_annota.Base.{ℕ, zero, suc, ◌-◌, List, get_or, set, length, bit_and}
use asyncplusplus_1_1_annota.Base.Words.{add_size}

-- `i & (size - 1)`.
abbrev pub slot {ℓ} : {A : Type ℓ} → List A → ℕ → ℕ
slot items i = bit_and i (length items - 1)

-- `for (i = from; ...; i++) dst[to_slot i] = src[from_slot i]`, by the rounds that are left.
unfoldable pub copy {ℓ} : {A : Type ℓ} → A → (ℕ → ℕ) → (ℕ → ℕ) → List A → ℕ → ℕ → List A → List A
copy d to_slot from_slot src zero i dst = dst
copy d to_slot from_slot src (suc n) i dst =
    copy d to_slot from_slot src n (add_size i 1) (set dst (to_slot i) (get_or src (from_slot i) d))
