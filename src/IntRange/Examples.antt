-- ===== src/IntRange/Examples.antt =====
-- Tests of the ranges of integers, and their theorems at concrete ranges.
use asyncplusplus_1_1_annota.Base.{◌-◌, ◌^◌, ◌≡◌, true, some, [], ◌∷◌, arith, refl}
use asyncplusplus_1_1_annota.Base.Int.{pos, negsuc}
use asyncplusplus_1_1_annota.IntRange.{
  Iterator, irange, begin, end, increment, decrement, advance, retreat, plus, distance, lower,
}
use asyncplusplus_1_1_annota.IntRange.Visit.{visit, visits_in_order}
use asyncplusplus_1_1_annota.IntRange.Access.{random_access, narrow_distance}

abbrev seven : Iterator
seven = record { current = 7 }

abbrev nine : Iterator
nine = record { current = 9 }

distance_runs : distance 64 seven nine ≡ negsuc 1
distance_runs = refl

-- From the last two integers round to 1.
round_runs :
    visit 32 5 (begin (irange (2 ^ 32 - 2) 1)) (end (irange (2 ^ 32 - 2) 1))
    ≡ some (4294967294 ∷ 4294967295 ∷ 0 ∷ [])
unfolding visit
round_runs = refl

visits_in_order_example : visit 32 5 (begin (irange 7 9)) (end (irange 7 9)) ≡ some (7 ∷ 8 ∷ [])
visits_in_order_example = visits_in_order 32 7 9 5 (omega arith) (omega arith) (omega arith)

random_access_example :
    (plus 64 nine (distance 64 seven nine) ≡ seven)
    × (decrement 64 (increment 64 seven) ≡ seven)
    × (increment 64 (decrement 64 seven) ≡ seven)
    × (retreat 64 (advance 64 seven (negsuc 9)) (negsuc 9) ≡ seven)
random_access_example =
    random_access 64 7 9 (negsuc 9) (omega arith) (omega arith) (omega arith) (omega arith)

narrow_distance_example :
    (lower seven nine ≡ true)
    × (distance 32 nine seven ≡ pos 2)
    × (distance 32 seven nine ≡ pos (2 ^ 32 - 2))
narrow_distance_example =
    narrow_distance 32 7 9 (omega arith) (omega arith) (omega arith) (omega arith)
