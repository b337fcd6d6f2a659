-- ===== src/Ring/Copy.antt =====
-- The copying loop carries a window of one circular array over to another.
use asyncplusplus_1_1_annota.Base.{
  ℕ, zero, suc, ◌+◌, ◌%◌, ◌^◌, ◌≤◌, ◌<◌, ◌≡◌, refl, ap, ◌∙◌, List, [], ◌∷◌, ◌++◌, arith, length,
  length-append, get_or, set, length-set, append-nil, append_assoc,
}
use asyncplusplus_1_1_annota.Base.Words.{add_size}
use asyncplusplus_1_1_annota.Ring.{copy}
use asyncplusplus_1_1_annota.Ring.Cells.{Cells, Cells-set}

-- In `n` rounds from `i`, round `m` visits slot `at + m` of `2 ^ k`.
pub record Tracks (slot_of : ℕ → ℕ) (k i at n : ℕ) : Type 0 where
  pub track : (m : ℕ) → m < n → slot_of (add_size i m) ≡ (at + m) % 2 ^ k

Tracks-first :
    (slot_of : ℕ → ℕ) (k i at n : ℕ)
    → i < 2 ^ 64
    → Tracks slot_of k i at (suc n)
    → slot_of i ≡ at % 2 ^ k
Tracks-first slot_of k i at n lt t =
    ap slot_of (omega arith) ∙ t.track 0 (omega arith) ∙ ap (λ p. p % 2 ^ k) (omega arith)

Tracks-next :
    (slot_of : ℕ → ℕ) (k i at n : ℕ)
    → Tracks slot_of k i at (suc n)
    → Tracks slot_of k (add_size i 1) (at + 1) n
Tracks-next slot_of k i at n t = record {
  track = λ m lt.
      ap slot_of (omega arith) ∙ t.track (suc m) (omega arith) ∙ ap (λ p. p % 2 ^ k) (omega arith);
}

module _ {ℓ} {A : Type ℓ} (d : A) (to_slot from_slot : ℕ → ℕ) (src : List A) where
  pub length-copy :
      (n i : ℕ) (dst : List A) → length (copy d to_slot from_slot src n i dst) ≡ length dst
  unfolding copy
  length-copy zero i dst = refl
  length-copy (suc n) i dst =
      length-copy n (add_size i 1) (set dst (to_slot i) (get_or src (from_slot i) d))
      ∙ length-set dst (to_slot i) (get_or src (from_slot i) d)

  module _ (kd ks : ℕ) where
    pub copy-Cells :
        (rest done dst : List A) (at from i : ℕ)
        → length dst ≡ 2 ^ kd
        → length done + length rest ≤ 2 ^ kd
        → i < 2 ^ 64
        → Tracks to_slot kd i (at + length done) (length rest)
        → Tracks from_slot ks i from (length rest)
        → Cells d kd dst at done
        → Cells d ks src from rest
        → Cells d kd (copy d to_slot from_slot src (length rest) i dst) at (done ++ rest)
    unfolding copy
    copy-Cells [] done dst at from i s fit lt to fr c r = rw append-nil c
    copy-Cells (x ∷ rest) done dst at from i s fit lt to fr c r =
        rw (← append_assoc done (x ∷ []) rest) (
          copy-Cells rest (done ++ x ∷ []) (set dst (to_slot i) (get_or src (from_slot i) d)) at
            (from + 1) (add_size i 1) (length-set dst (to_slot i) _ ∙ s) (omega (arith, more))
            (omega arith)
            (rw more (rw (← shift) (Tracks-next to_slot kd i (at + length done) (length rest) to)))
            (Tracks-next from_slot ks i from (length rest) fr) written r.1)
      where
        more : length (done ++ x ∷ []) ≡ length done + 1
        more = omega (arith, length-append done (x ∷ []))

        shift : at + length done + 1 ≡ at + (length done + 1)
        shift = omega arith

        read : get_or src (from_slot i) d ≡ x
        read = rw (Tracks-first from_slot ks i from (length rest) lt fr) r.0

        written : Cells d kd (set dst (to_slot i) (get_or src (from_slot i) d)) at (done ++ x ∷ [])
        written = rw read (
            Cells-set d kd dst at (to_slot i) done x s (omega arith)
              (Tracks-first to_slot kd i (at + length done) (length rest) lt to) c)
