-- ===== src/RefCount.antt =====
-- include/async++/ref_count.h: reference counts, and the pointers that keep them. Operations run one
-- at a time, each count being one atomic variable.
pub mod Keeps
pub mod Uses
mod Examples
use asyncplusplus_1_1_annota.Base.{
  ℕ, ◌+◌, ◌-◌, Option, none, some, List, [], ◌∷◌, ◌++◌, length, get_or, set, ◌==◌, if◌then◌else◌,
}

-- The counts of the objects by address, 0 for one that has been deleted, and the `ref_count_ptr`s
-- that there are, `none` for a null one. Operations are `none` on an object that has been deleted.
pub record Refs : Type 0 where
  pub counts : ℕ → ℕ
  pub ptrs : List (Option ℕ)

abbrev pub set_count : Refs → ℕ → ℕ → Refs
set_count s a n = record s { counts = λ b. if b == a then n else s.counts b }

-- The `p` of the pointer `i`.
abbrev pub get : Refs → ℕ → Option ℕ
get s i = get_or s.ptrs i none

abbrev pub put : Refs → ℕ → Option ℕ → Refs
put s i p = record s { ptrs = set s.ptrs i p }

unfoldable pub add_ref : Refs → ℕ → Option Refs
add_ref s a = if s.counts a == 0 then none else some (set_count s a (s.counts a + 1))

-- `remove_ref` deletes the object at the last reference.
unfoldable pub remove_ref : Refs → ℕ → Option Refs
remove_ref s a = if s.counts a == 0 then none else some (set_count s a (s.counts a - 1))

-- `if (p) { p->remove_ref(); p = nullptr; }`.
unfoldable pub drop : Refs → ℕ → Option Refs
drop s i = elim (get s i) [
  | none ↦ some s
  | some a ↦ elim (remove_ref s a) [ none ↦ none | some s' ↦ some (put s' i none) ]
]

-- `p = other.p; if (p) p->add_ref();`.
unfoldable pub share : Refs → ℕ → ℕ → Option Refs
share s i other = elim (get s other) [
  | none ↦ some (put s i none)
  | some a ↦ add_ref (put s i (some a)) a
]

-- `p = other.p; other.p = nullptr;`.
abbrev pub take : Refs → ℕ → ℕ → Refs
take s i other = put (put s i (get s other)) other none

-- The copy assignment and the move assignment, in the order of the source.
unfoldable pub assign_copy : Refs → ℕ → ℕ → Option Refs
assign_copy s i other = elim (drop s i) [ none ↦ none | some s' ↦ share s' i other ]

unfoldable pub assign_move : Refs → ℕ → ℕ → Option Refs
assign_move s i other = elim (drop s i) [ none ↦ none | some s' ↦ some (take s' i other) ]

-- A pointer that is new, and null: the last of the list.
abbrev pub new_null : Refs → Refs
new_null s = record s { ptrs = s.ptrs ++ none ∷ [] }

-- A new object, whose count starts at 1, with the pointer that takes it over.
abbrev pub new_object : Refs → ℕ → Refs
new_object s a = record (set_count s a 1) { ptrs = s.ptrs ++ some a ∷ [] }

-- The copy constructor and the move constructor.
unfoldable pub construct_copy : Refs → ℕ → Option Refs
construct_copy s other = share (new_null s) (length s.ptrs) other

abbrev pub construct_move : Refs → ℕ → Refs
construct_move s other = take (new_null s) (length s.ptrs) other

-- The assignment of `nullptr`; after the destructor, the list still has the pointer, as a null one.
abbrev pub assign_null : Refs → ℕ → Option Refs
assign_null s i = drop s i

abbrev pub destruct : Refs → ℕ → Option Refs
destruct s i = drop s i

-- `release` leaves the reference to a raw pointer, which the list has, too; the constructor from a
-- raw pointer takes it over from there.
abbrev pub release : Refs → ℕ → Refs
release s i = take (new_null s) (length s.ptrs) i

abbrev pub adopt : Refs → ℕ → Refs
adopt s raw = take (new_null s) (length s.ptrs) raw
