-- ===== src/WorkSteal/Inv.antt =====
-- What holds between the steps, as long as fewer than 2 ^ 62 handles have been pushed, so that no
-- index has come round: what each thread has loaded is still true, in part.
use asyncplusplus_1_1_annota.Base.{
  ℕ, ◌+◌, ◌-◌, ◌^◌, ◌≤◌, ◌<◌, ◌≡◌, true, false, Option, none, some, List, length, arith,
  length-replicate,
}
use asyncplusplus_1_1_annota.Deque.{get}
use asyncplusplus_1_1_annota.WorkSteal.{
  Owner, idle, pushing, room, put, popping, stored, racing, won, restoring, Thief, out, saw,
  some_left, has_array, has_task, State, start, items, none_left, overtaken, is_full,
}
use asyncplusplus_1_1_annota.WorkSteal.Linear.{end}

-- The cells from index `from` up to `to` have the handles that were put there.
pub record Holds (array : List (Option ℕ)) (values : ℕ → ℕ) (from to : ℕ) : Type 0 where
  pub at : (p : ℕ) → from ≤ p → p < to → get array p ≡ some (values p)

-- What the owner has loaded, on an array of `2 ^ k` cells.
abbrev pub Kept : Owner → ℕ → List (Option ℕ) → (ℕ → ℕ) → ℕ → ℕ → Type 0
Kept idle k array values top bottom = Unit
Kept (pushing x b t) k array values top bottom =
    (b ≡ bottom) × (t ≤ top) × (b ≤ t + 2 ^ k) × Holds array values t b
Kept (room x b) k array values top bottom = (b ≡ bottom) × (b < top + 2 ^ k)
Kept (put x b) k array values top bottom =
    (b ≡ bottom) × (b < top + 2 ^ k) × (get array b ≡ some (values b)) × (values b ≡ x)
Kept (popping b) k array values top bottom = b + 1 ≡ bottom
Kept (stored b) k array values top bottom = b ≡ bottom
Kept (racing b t x) k array values top bottom =
    (b ≡ bottom) × (t ≡ b) × (t ≤ top) × (x ≡ some (values b))
Kept (won b x) k array values top bottom = (b ≡ bottom) × (top ≡ b + 1)
Kept (restoring b) k array values top bottom = (b ≡ bottom) × (top ≡ b + 1)

-- What a thief has loaded: only if `top` is still what it saw does the rest count.
abbrev pub Seen : Thief → (ℕ → List (Option ℕ)) → ℕ → (ℕ → ℕ) → ℕ → ℕ → Type 0
Seen out arrays array values top last = Unit
Seen (saw t) arrays array values top last = t ≤ top
Seen (some_left t) arrays array values top last = (t ≤ top) × (top ≡ t → t < last)
Seen (has_array t a) arrays array values top last =
    (a ≤ array) × (t ≤ top) × (top ≡ t → (t < last) × (get (arrays a) t ≡ some (values t)))
Seen (has_task t x) arrays array values top last =
    (t ≤ top) × (top ≡ t → (t < last) × (x ≡ some (values t)))

pub record Inv (s : State) : Type 0 where
  pub k : ℕ
  pub size : length (items s) ≡ 2 ^ k
  pub fits : k ≤ 62
  pub order : s.top ≤ end s.owner s.bottom
  pub near : end s.owner s.bottom ≤ s.top + 2 ^ k
  pub few : end s.owner s.bottom ≤ length s.pushed
  pub cells : Holds (items s) s.values s.top (end s.owner s.bottom)
  pub kept : Kept s.owner k (items s) s.values s.top s.bottom
  pub seen : (i : ℕ) → Seen (s.thief i) s.arrays s.array s.values s.top (end s.owner s.bottom)

pub start-Inv : Inv start
start-Inv = record {
  k = 5;
  size = length-replicate {A = Option ℕ} 32 none;
  fits = omega arith;
  order = omega arith;
  near = omega arith;
  few = omega arith;
  cells = record { at = λ p le lt. absurd (omega arith) };
  kept = tt;
  seen = λ i. tt;
}

-- The tests at indices that have not come round.
pub none_left-true : (b t : ℕ) → b < 2 ^ 62 → t < 2 ^ 62 → none_left b t ≡ true → b ≤ t
none_left-true b t lb lt e = ground arith

pub none_left-false : (b t : ℕ) → b < 2 ^ 62 → t < 2 ^ 62 → none_left b t ≡ false → t < b
none_left-false b t lb lt e = ground arith

pub overtaken-true : (b t : ℕ) → b < 2 ^ 62 → t < 2 ^ 62 → overtaken b t ≡ true → b < t
overtaken-true b t lb lt e = ground arith

pub overtaken-false : (b t : ℕ) → b < 2 ^ 62 → t < 2 ^ 62 → overtaken b t ≡ false → t ≤ b
overtaken-false b t lb lt e = ground arith

pub is_full-true :
    (b t : ℕ) (array : List (Option ℕ))
    → t ≤ b
    → b < 2 ^ 62
    → length array ≤ 2 ^ 62
    → is_full b t array ≡ true
    → length array ≤ b - t
is_full-true b t array le lb s e = ground arith

pub is_full-false :
    (b t : ℕ) (array : List (Option ℕ))
    → t ≤ b
    → b < 2 ^ 62
    → length array ≤ 2 ^ 62
    → is_full b t array ≡ false
    → b - t < length array
is_full-false b t array le lb s e = ground arith
