-- ===== src/IntRange/Access.antt =====
-- The iterators of a range of integers as random-access iterators.
use asyncplusplus_1_1_annota.Base.{
  ℕ, suc, ◌+◌, ◌-◌, ◌%◌, ◌^◌, ◌≤◌, ◌<◌, ◌≡◌, true, arith, ap, sym, subst, ◌∙◌, inl, inr, dec_lt,
  lt→ltb,
}
use native.Mathlib.Nat.{mod-eq_of_lt, mod-lt, add-mod-mod, add-mod_right}
use asyncplusplus_1_1_annota.Base.Int.{ℤ, pos, negsuc}
use asyncplusplus_1_1_annota.Base.Masks.{two-pow-le, two-pow-pos}
use asyncplusplus_1_1_annota.Deque.{to_signed}
use asyncplusplus_1_1_annota.IntRange.{
  Iterator, increment, decrement, plus, advance, retreat, distance, lower, add_offset, sub_offset,
}
use asyncplusplus_1_1_annota.IntRange.Modulo.{mod-cases, gap-le, gap-gt}

up-down : (m x d : ℕ) → x < m → d < m → ((x + d) % m + m - d) % m ≡ x
up-down m x d lx ld = elim (mod-cases m (x + d) (omega arith)) [
  | inl (small, e) ↦ rw e (gap-le m d (x + d) (omega arith) small ∙ omega arith)
  | inr (big, e) ↦ rw e (gap-gt m d (x + d - m) (omega arith) ld ∙ omega arith)
]

down-up : (m x d : ℕ) → x < m → d < m → ((x + m - d) % m + d) % m ≡ x
down-up m x d lx ld = elim (mod-cases m (x + m - d) (omega arith)) [
  | inl (small, e) ↦ rw e (ap (λ n. n % m) (omega arith) ∙ add-mod_right x m ∙ mod-eq_of_lt lx)
  | inr (big, e) ↦ rw e (ap (λ n. n % m) (omega arith) ∙ mod-eq_of_lt lx)
]

minus-plus : (w x : ℕ) (offset : ℤ) → x < 2 ^ w → sub_offset w (add_offset w x offset) offset ≡ x
minus-plus w x (pos n) lt =
    rw (← add-mod-mod x n (2 ^ w)) (up-down (2 ^ w) x (n % 2 ^ w) lt (mod-lt n (two-pow-pos w)))
minus-plus w x (negsuc n) lt =
    let d = suc n % 2 ^ w in
    sym (add-mod-mod ((x + 2 ^ w - d) % 2 ^ w) (suc n) (2 ^ w))
    ∙ down-up (2 ^ w) x d lt (mod-lt (suc n) (two-pow-pos w))

to_signed-small : (n : ℕ) → n < 2 ^ 63 → to_signed n ≡ pos n
to_signed-small n lt = ground arith

to_signed-big : (n : ℕ) → 2 ^ 63 ≤ n → n < 2 ^ 64 → to_signed n ≡ negsuc (2 ^ 64 - n - 1)
to_signed-big n le lt = ground arith

plus-small :
    (w a b : ℕ)
    → a < 2 ^ w
    → b < 2 ^ w
    → (a + 2 ^ w - b) % 2 ^ w < 2 ^ 63
    → add_offset w b (to_signed ((a + 2 ^ w - b) % 2 ^ w)) ≡ a
plus-small w a b la lb lt =
    rw (to_signed-small ((a + 2 ^ w - b) % 2 ^ w) lt)
      (ap (λ n. n % 2 ^ w) (omega arith) ∙ down-up (2 ^ w) a b la lb)

plus-distance_64 :
    (a b : ℕ)
    → a < 2 ^ 64
    → b < 2 ^ 64
    → add_offset 64 b (to_signed ((a + 2 ^ 64 - b) % 2 ^ 64)) ≡ a
plus-distance_64 a b la lb = ground arith

plus-distance :
    (w a b : ℕ)
    → w ≤ 64
    → a < 2 ^ w
    → b < 2 ^ w
    → add_offset w b (to_signed ((a + 2 ^ w - b) % 2 ^ w)) ≡ a
plus-distance w a b le la lb = elim (dec_lt w 64) [
  | yes small ↦
      plus-small w a b la lb
        (omega (arith, mod-lt (a + 2 ^ w - b) (two-pow-pos w), two-pow-le w 63 (omega arith)))
  | no big ↦
      let e : 64 ≡ w = omega arith in
      subst (λ v. a < 2 ^ v → b < 2 ^ v → add_offset v b (to_signed ((a + 2 ^ v - b) % 2 ^ v)) ≡ a)
        e (plus-distance_64 a b) la lb
]

-- For integers of 32 to 64 bits, the iterators of a range lead back: `b + (a - b)` is `a`, `--`
-- undoes `++` and the other way round, and `-=` undoes `+=` for any offset.
pub random_access :
    (w a b : ℕ) (offset : ℤ)
    → 32 ≤ w
    → w ≤ 64
    → a < 2 ^ w
    → b < 2 ^ w
    → let it : Iterator = record { current = a } in
      let other : Iterator = record { current = b } in
      (plus w other (distance w it other) ≡ it)
      × (decrement w (increment w it) ≡ it)
      × (increment w (decrement w it) ≡ it)
      × (retreat w (advance w it offset) offset ≡ it)
random_access w a b offset wide le la lb = (
  ap (λ n. record { current = n }) (plus-distance w a b le la lb),
  ap (λ n. record { current = n }) (up-down (2 ^ w) a 1 la one),
  ap (λ n. record { current = n }) (down-up (2 ^ w) a 1 la one),
  ap (λ n. record { current = n }) (minus-plus w a offset la),
)
  where
    one : 1 < 2 ^ w
    one = omega (arith, two-pow-le 32 w wide)

-- The difference of iterators over integers of 32 to 63 bits is never negative: where `a` is
-- below `b`, and so are the iterators, `a - b` is `2 ^ w` too large.
pub narrow_distance :
    (w a b : ℕ)
    → 32 ≤ w
    → w < 64
    → a < b
    → b < 2 ^ w
    → let it : Iterator = record { current = a } in
      let other : Iterator = record { current = b } in
      (lower it other ≡ true)
      × (distance w other it ≡ pos (b - a))
      × (distance w it other ≡ pos (2 ^ w - (b - a)))
narrow_distance w a b wide le lt lb =
    let bound : 2 ^ w ≤ 2 ^ 63 = two-pow-le w 63 (omega arith) in
    (
      lt→ltb a b lt,
      ap to_signed (gap-le (2 ^ w) a b (omega arith) lb) ∙ to_signed-small (b - a) (omega arith),
      ap to_signed (gap-gt (2 ^ w) b a lt lb)
          ∙ to_signed-small (a + 2 ^ w - b) (omega arith)
          ∙ ap pos (omega arith),
    )
