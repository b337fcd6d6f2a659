-- ===== src/Parallel/Split.antt =====
-- What the parallel algorithms need of a partitioner, and that both partitioners have it.
use asyncplusplus_1_1_annota.Base.{
  ℕ, ◌+◌, ◌-◌, ◌/◌, ◌≤◌, ◌<◌, ◌≡◌, ◌≢◌, false, leb, arith, refl, inl, inr, Bool-cases,
}
use asyncplusplus_1_1_annota.Parallel.{
  StaticPartitioner, AutoPartitioner, auto_grain_size, static_split, auto_split, threads_for,
}

-- A range with `split`, which may look at the thread that calls it.
pub record Partitioner (P : Type 0) : Type 0 where
  pub begin : P → ℕ
  pub end : P → ℕ
  pub split : ℕ → P → P × P

-- The range is cut in two, and where a part was split off, both parts are shorter.
pub record IsSplit (first last cut cut_end from to : ℕ) : Type 0 where
  pub starts : from ≡ first
  pub meets : to ≡ cut
  pub ends : cut_end ≡ last
  pub inside : cut ≤ last
  pub shrinks : cut ≢ cut_end → (first < cut) × (cut < last)

pub record Splits {P : Type 0} (part : Partitioner P) : Type 0 where
  pub cuts :
      (thread : ℕ) (p : P)
      → part.begin p ≤ part.end p
      → let (out, this) = part.split thread p in
        IsSplit
          (part.begin p)
          (part.end p)
          (part.begin out)
          (part.end out)
          (part.begin this)
          (part.end this)

abbrev pub static : Partitioner StaticPartitioner
static = record {
  begin = λ p. p.iter_begin;
  end = λ p. p.iter_end;
  split = λ thread p. static_split p;
}

abbrev pub auto : ℕ → Partitioner AutoPartitioner
auto hardware_concurrency = record {
  begin = λ p. p.iter_begin;
  end = λ p. p.iter_end;
  split = auto_split hardware_concurrency;
}

whole : (a b : ℕ) → a ≤ b → IsSplit a b b b a b
whole a b le = record {
  starts = refl;
  meets = refl;
  ends = refl;
  inside = omega arith;
  shrinks = λ ne. absurd (ne refl);
}

halves :
    (a b grain : ℕ)
    → a ≤ b
    → leb (b - a) grain ≡ false
    → let m = a + (b - a + 1) / 2 in IsSplit a b m b a m
halves a b grain le long = record {
  starts = refl;
  meets = refl;
  ends = refl;
  inside = ground arith;
  shrinks = λ ne. (ground arith, ground arith);
}

pub static-Splits : Splits static
unfolding static_split
static-Splits = record {
  cuts = λ thread p le. elim (Bool-cases (leb (p.iter_end - p.iter_begin) p.grain)) [
    | inl e ↦ rw e (whole p.iter_begin p.iter_end le)
    | inr e ↦ rw e (halves p.iter_begin p.iter_end p.grain le e)
  ];
}

pub auto-Splits : (hardware_concurrency : ℕ) → Splits (auto hardware_concurrency)
unfolding auto_split
auto-Splits hardware_concurrency = record {
  cuts = λ thread p le. elim (Bool-cases (leb (p.iter_end - p.iter_begin) p.grain)) [
    | inl e ↦ rw e (whole p.iter_begin p.iter_end le)
    | inr e ↦ elim (Bool-cases (leb (threads_for hardware_concurrency thread p) 1)) [
      | inl e' ↦ rw (e, e') (whole p.iter_begin p.iter_end le)
      | inr e' ↦ rw (e, e') (halves p.iter_begin p.iter_end p.grain le e)
    ]
  ];
}

-- The grain size that is chosen for a range of any length, on any number of threads, is at least 1
-- and at most 2048.
pub auto_grain_size-bounds :
    (hardware_concurrency dist : ℕ)
    → let g = auto_grain_size hardware_concurrency dist in (1 ≤ g) × (g ≤ 2048)
unfolding auto_grain_size
auto_grain_size-bounds hardware_concurrency dist = (ground arith, ground arith)
