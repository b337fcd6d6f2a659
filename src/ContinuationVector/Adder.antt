-- ===== src/ContinuationVector/Adder.antt =====
-- A step of a thread that adds a continuation keeps the invariant.
use asyncplusplus_1_1_annota.Base.{
  ℕ, ◌≡◌, true, false, Option, none, some, [], ◌∷◌, ==_iff, refl, arith, sym, ◌∙◌,
}
use asyncplusplus_1_1_annota.ContinuationVector.{
  Slot, null, task, vector, adder, Pc, start, cas, checking, pushing, refused, State, go,
}
use asyncplusplus_1_1_annota.ContinuationVector.Inv.{
  is_added, is_pushing, is_done, holds, seen, cache, Grown, Inv, Grown-refl, not_past-not_done,
}

module _ {s : State} (inv : Inv s) (i : ℕ) where
  open inv use {counted, owner, view, cached, held, not_late}

  -- A step that only moves the thread: it relies on no more than before, or than is true now.
  pub go-Inv :
      (p : Pc)
      → is_added p ≡ is_added (s.pc i)
      → Grown (seen p) s.slot
      → ((b : ℕ) → cache p ≡ some b → (s.vectors i ≡ b ∷ i ∷ []) × Grown (task b) s.slot)
      → ((v : ℕ) → holds p ≡ some v → s.mutex v ≡ some (adder i))
      → (is_pushing p ≡ true → is_done s.flush ≡ false)
      → Inv (go s i p)
  go-Inv p same grown fresh mine late = record {
    counted = λ j. ground (arith, counted j, ==_iff j i);
    phase = inv.phase;
    owner = λ v e. ground (arith, owner v e, ==_iff v i);
    view = λ j. ground (arith, view j, ==_iff j i);
    flush_view = inv.flush_view;
    given = inv.given;
    cached = λ j b e. ground (arith, cached j b, ==_iff j i, fresh b);
    held = λ j v e. ground (arith, held j v, mine v, ==_iff j i);
    flush_held = inv.flush_held;
    not_late = λ j e. ground (arith, not_late j, ==_iff j i);
    emptied = inv.emptied;
  }

  pub load-Inv : s.pc i ≡ start → Inv (go s i (Pc.loaded s.slot s.locked none))
  load-Inv e =
      go-Inv (Pc.loaded s.slot s.locked none) (rw e refl) (Grown-refl s.slot) (λ b h. cc)
        (λ v h. cc) (λ h. cc)

  pub lose-Inv :
      {sl : Slot} {c : Option ℕ} → s.pc i ≡ cas sl c → Inv (go s i (Pc.loaded s.slot s.locked c))
  lose-Inv {sl} {c} e =
      go-Inv (Pc.loaded s.slot s.locked c) (rw e refl) (Grown-refl s.slot)
        (λ b h. cached i b (rw e h)) (λ v h. cc) (λ h. cc)

  pub refuse-Inv : {sl : Slot} {c : Option ℕ} → s.pc i ≡ Pc.loaded sl true c → Inv (go s i refused)
  refuse-Inv e = go-Inv refused (rw e refl) tt (λ b h. cc) (λ v h. cc) (λ h. cc)

  pub use_vector-Inv :
      {v : ℕ} {c : Option ℕ} → s.pc i ≡ Pc.loaded (vector v) false c → Inv (go s i (Pc.want v))
  use_vector-Inv {v} e =
      go-Inv (Pc.want v) (rw e refl) (rw e at (view i)) (λ b h. cc) (λ v h. cc) (λ h. cc)

  pub first-Inv : {c : Option ℕ} → s.pc i ≡ Pc.loaded null false c → Inv (go s i (cas null c))
  first-Inv {c} e =
      go-Inv (cas null c) (rw e refl) tt (λ b h. cached i b (rw e h)) (λ v h. cc) (λ h. cc)

  pub second_again-Inv :
      {t b : ℕ} → s.pc i ≡ Pc.loaded (task t) false (some b) → Inv (go s i (cas (task t) (some b)))
  second_again-Inv {t} {b} e =
      go-Inv (cas (task t) (some b)) (rw e refl) (rw e at (view i)) (λ b h. cached i b (rw e h))
        (λ v h. cc) (λ h. cc)

  pub in_time-Inv : {v : ℕ} → s.pc i ≡ checking v → s.locked ≡ false → Inv (go s i (pushing v))
  in_time-Inv {v} e open_still =
      go-Inv (pushing v) (rw e refl) (rw e at (view i)) (λ b h. cc) (λ v h. held i v (rw e h))
        (λ h. not_past-not_done s.flush (sym inv.phase ∙ open_still))
