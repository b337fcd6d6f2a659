-- ===== src/AlignedArray/Examples.antt =====
-- An array of four elements, of which the third one throws.
use asyncplusplus_1_1_annota.Base.{
  ℕ, ◌<◌, ◌≡◌, inr, Bool, false, ◌&&◌, some, none, ltb, ◌==◌, ==_iff, if◌then◌else◌, refl, arith,
}
use asyncplusplus_1_1_annota.AlignedArray.{build, destroy}
use asyncplusplus_1_1_annota.AlignedArray.Elements.{is_construct, is_destruct, times, build_outcome}

abbrev third : ℕ → Bool
third j = j == 2

below : (j : ℕ) → j < 2 → third j ≡ false
below j lt = ground (arith, ==_iff j 2)

build_outcome_example :
    ((build third 4).failed ≡ (if ltb 2 4 then some 2 else none))
    × ((j : ℕ) → times (is_construct j) (build third 4).ops ≡ (if ltb j 2 then 1 else 0))
    × ((j : ℕ) → times (is_destruct j) (build third 4).ops ≡ (if ltb 2 4 && (j == 2) then 2 else 0))
    × ((j : ℕ) → times (is_destruct j) (destroy 4) ≡ (if ltb j 4 then 1 else 0))
build_outcome_example = build_outcome third 4 2 below (inr (omega arith, refl))
