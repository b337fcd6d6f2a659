-- ===== src/IntRange/Modulo.antt =====
-- Remainders of numbers below twice the modulus.
use asyncplusplus_1_1_annota.Base.{
  ℕ, ◌+◌, ◌-◌, ◌%◌, ◌≤◌, ◌<◌, ◌≡◌, arith, ◌⊎◌, inl, inr, dec_lt, ◌∙◌,
}
use native.Mathlib.Nat.{mod-eq_of_lt, mod-eq-sub-mod}

pub mod-cases : (m x : ℕ) → x < m + m → ((x < m) × (x % m ≡ x)) ⊎ ((m ≤ x) × (x % m ≡ x - m))
mod-cases m x lt = elim (dec_lt x m) [
  | yes small ↦ inl (small, mod-eq_of_lt small)
  | no big ↦ inr (
    omega arith,
    omega (
      arith,
      mod-eq-sub-mod {n = x} {m = m} (omega arith),
      mod-eq_of_lt {n = x - m} {m = m} (omega arith),
    ),
  )
]

-- The distance from `a` up to `b`, round the end of the integers if need be.
pub gap-le : (m a b : ℕ) → a ≤ b → b < m → (b + m - a) % m ≡ b - a
gap-le m a b le lt = elim (mod-cases m (b + m - a) (omega arith)) [
  | inl (small, e) ↦ omega arith
  | inr (big, e) ↦ omega arith
]

pub gap-gt : (m a b : ℕ) → b < a → a < m → (b + m - a) % m ≡ b + m - a
gap-gt m a b le lt = elim (mod-cases m (b + m - a) (omega arith)) [
  | inl (small, e) ↦ e
  | inr (big, e) ↦ absurd (omega arith)
]

-- One step brings `b` nearer, unless it is there.
pub gap-step :
    (m a b n : ℕ) → a < m → b < m → (b + m - a) % m ≡ n + 1 → (b + m - (a + 1) % m) % m ≡ n
gap-step m a b n la lb e = elim (dec_lt b a) [
  | yes above ↦ elim (mod-cases m (a + 1) (omega arith)) [
    | inl (small, e') ↦
        rw e' (gap-gt m (a + 1) b (omega arith) small ∙ omega (arith, gap-gt m a b above la))
    | inr (big, e') ↦
        let z : (a + 1) % m ≡ 0 = omega arith in
        rw z (gap-le m 0 b (omega arith) lb ∙ omega (arith, gap-gt m a b above la))
  ]
  | no below ↦
      let d : b - a ≡ n + 1 = omega (arith, gap-le m a b (omega arith) lb) in
      rw (mod-eq_of_lt {n = a + 1} {m = m} (omega arith))
        (gap-le m (a + 1) b (omega arith) lb ∙ omega arith)
]

pub gap-zero : (m a b : ℕ) → a < m → b < m → (b + m - a) % m ≡ 0 → a ≡ b
gap-zero m a b la lb e = elim (dec_lt b a) [
  | yes above ↦ absurd (omega (arith, gap-gt m a b above la))
  | no below ↦ omega (arith, gap-le m a b (omega arith) lb)
]
