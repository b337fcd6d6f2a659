-- ===== src/RefCount/Examples.antt =====
-- Three pointers: two to object 7, and one to object 9.
use asyncplusplus_1_1_annota.Base.{
  ℕ, ◌<◌, ◌≢◌, length, ◌+◌, ◌≡◌, ◌==◌, none, some, [], ◌∷◌, if◌then◌else◌, arith, refl,
}
use asyncplusplus_1_1_annota.RefCount.{
  Refs, get, put, set_count, share, add_ref, assign_copy, assign_move, new_null, new_object,
  construct_copy, destruct,
}
use asyncplusplus_1_1_annota.RefCount.Uses.{
  no_pointers, Reach, here, next, object, copied, counts_pointers,
}
use asyncplusplus_1_1_annota.RefCount.Keeps.{IsCounted, self_assign_drops}

abbrev three : Refs
three = record {
  counts = λ a.
      (if a == 7 then 1 else 0) + ((if a == 7 then 1 else 0) + ((if a == 9 then 1 else 0) + 0));
  ptrs = some 7 ∷ some 7 ∷ some 9 ∷ [];
}

three-IsCounted : IsCounted three
three-IsCounted a = refl

self_assign_drops_example :
    (s' : Refs) × (assign_copy three 2 2 ≡ some s')
    × (get s' 2 ≡ none)
    × (s'.counts 9 + 1 ≡ three.counts 9)
self_assign_drops_example = self_assign_drops three 2 9 three-IsCounted (omega arith) refl

-- One object with two pointers, and another one.
abbrev one : Refs
one = new_object no_pointers 7

abbrev two : Refs
two = set_count (put (new_null one) 1 (some 7)) 7 2

two_copied : construct_copy one 0 ≡ some two
unfolding construct_copy share add_ref
two_copied = refl

abbrev shared : Refs
shared = new_object two 9

shared-Reach : Reach shared
shared-Reach =
    next (next (next here (object 7 refl)) (copied 0 (omega arith) two_copied)) (object 9 refl)

counts_pointers_example :
    IsCounted shared
    × ((i j : ℕ)
        → i < length shared.ptrs
        → j < length shared.ptrs
        → i ≢ j
        → ((t : Refs) × (construct_copy shared j ≡ some t))
          × ((t : Refs) × (destruct shared i ≡ some t))
          × ((t : Refs) × (assign_copy shared i j ≡ some t))
          × ((t : Refs) × (assign_move shared i j ≡ some t)))
counts_pointers_example = counts_pointers shared-Reach
