-- ===== src/IntRange/Visit.antt =====
-- The loop over a range of integers comes to an end, and visits each integer in turn.
use asyncplusplus_1_1_annota.Base.{
  ℕ, zero, suc, ◌+◌, ◌-◌, ◌%◌, ◌^◌, ◌≤◌, ◌<◌, ◌≡◌, Option, none, some, List, [], ◌∷◌, arith, refl,
  ap, ◌∙◌, if◌then◌else◌, ==_refl, ==_ne, ◌==◌, true, false,
}
use native.Mathlib.Nat.{mod-eq_of_lt, mod-lt}
use asyncplusplus_1_1_annota.Base.Masks.{two-pow-pos}
use asyncplusplus_1_1_annota.IntRange.Modulo.{gap-le, gap-step, gap-zero}
use asyncplusplus_1_1_annota.Parallel.Forks.{positions}
use asyncplusplus_1_1_annota.IntRange.{
  Iterator, IntRange, irange, begin, end, deref, not_equal, increment,
}

-- `for (auto it = first; it != last; ++it)`, in so many rounds, with the values `*it`.
abbrev pub prepend : ℕ → Option (List ℕ) → Option (List ℕ)
prepend x none = none
prepend x (some l) = some (x ∷ l)

unfoldable pub visit : (w : ℕ) → ℕ → Iterator → Iterator → Option (List ℕ)
visit w zero it last = none
visit w (suc rounds) it last =
    let rest = visit w rounds (increment w it) last in
    if not_equal it last then prepend (deref it) rest else some []

-- `n` integers from `x` on, each the next one modulo `2 ^ w`.
pub cycle : (w : ℕ) → ℕ → ℕ → List ℕ
cycle w x zero = []
cycle w x (suc n) = x ∷ cycle w ((x + 1) % 2 ^ w) n

-- With `n` steps to go.
visit-cycle :
    (w rounds n a b : ℕ)
    → a < 2 ^ w
    → b < 2 ^ w
    → (b + 2 ^ w - a) % 2 ^ w ≡ n
    → n < rounds
    → visit w rounds (record { current = a }) (record { current = b }) ≡ some (cycle w a n)
unfolding visit cycle
visit-cycle w zero n a b la lb e lt = absurd (omega arith)
visit-cycle w (suc rounds) zero a b la lb e lt =
    let same : (a == b) ≡ true = rw (gap-zero (2 ^ w) a b la lb e) (==_refl b) in rw same refl
visit-cycle w (suc rounds) (suc n) a b la lb e lt =
    let other : (a == b) ≡ false =
      ==_ne (λ q. omega (arith, gap-le (2 ^ w) a b (omega arith) lb, e)) in
    rw
      (
        other,
        visit-cycle w rounds n ((a + 1) % 2 ^ w) b (mod-lt (a + 1) (two-pow-pos w)) lb
            (gap-step (2 ^ w) a b n la lb (omega (arith, e))) (omega arith),
      )
      refl

-- The loop over a range of integers ends after as many rounds as there are steps from its begin to
-- its end, and visits the integers from its begin on, in turn, up to the one before its end: where
-- the end is below the begin, round the end of the integers.
pub visits_all :
    (w rounds : ℕ) (r : IntRange)
    → r.value_begin < 2 ^ w
    → r.value_end < 2 ^ w
    → (r.value_end + 2 ^ w - r.value_begin) % 2 ^ w < rounds
    → visit w rounds (begin r) (end r)
      ≡ some (cycle w r.value_begin ((r.value_end + 2 ^ w - r.value_begin) % 2 ^ w))
visits_all w rounds r lb le lt = visit-cycle w rounds _ r.value_begin r.value_end lb le refl lt

cycle-positions : (w x n : ℕ) → x + n < 2 ^ w → cycle w x n ≡ positions x n
unfolding cycle
cycle-positions w x zero lt = refl
cycle-positions w x (suc n) lt =
    rw (mod-eq_of_lt {n = x + 1} {m = 2 ^ w} (omega arith))
      (ap (λ l. x ∷ l) (cycle-positions w (x + 1) n (omega arith)))

-- In `irange(a, b)` with `a` not above `b`, the loop ends, and visits the integers from `a` up to the
-- one before `b`, once each and in that order, like the positions that a loop of a parallel
-- algorithm goes through.
pub visits_in_order :
    (w a b rounds : ℕ)
    → a ≤ b
    → b < 2 ^ w
    → b - a < rounds
    → visit w rounds (begin (irange a b)) (end (irange a b)) ≡ some (positions a (b - a))
visits_in_order w a b rounds le lt more =
    let e : (b + 2 ^ w - a) % 2 ^ w ≡ b - a = gap-le (2 ^ w) a b le lt in
    visit-cycle w rounds (b - a) a b (omega arith) lt e more
    ∙ ap some (cycle-positions w a (b - a) (omega arith))
