-- ===== src/ThreadPool/Inv/Emptied.antt =====
-- The steps of a pool keep what holds of its queues.
use asyncplusplus_1_1_annota.Base.{
  ℕ, zero, suc, ◌+◌, ◌≤◌, ◌<◌, ◌≡◌, inl, inr, Bool, true, false, List, [], count, ◌==◌, ==_iff,
  refl, arith, sym, ◌∙◌, ap, Bool-cases,
}
use asyncplusplus_1_1_annota.WaitEvent.{is_set}
use asyncplusplus_1_1_annota.ThreadPool.State.{Call, Pool, update, top}
use asyncplusplus_1_1_annota.ThreadPool.Inv.{idle, stuck, Local, Drained, total}

-- A thread that runs a task, or is about to look for one in its own queue.
pub busy-Local : {down : Bool} {ps qs : List ℕ} (c : Call) → idle c.pc ≡ false → Local down ps qs c
busy-Local c busy = record {
  own = λ e. ground (arith, busy, e);
  gone = λ e. ground (arith, busy, e);
  gone_public = λ e. ground (arith, busy, e);
  shut = λ down at waits. ground (arith, busy, at);
}

-- A step of the thread `i`.
pub step-Drained :
    {n : ℕ} {s t : Pool} (i : ℕ)
    → Drained n s
    → i < n
    → ((j : ℕ) → (j == i) ≡ false → top t j ≡ top s j)
    → ((j : ℕ) → (j == i) ≡ false → s.queue j ≡ [] → t.queue j ≡ [])
    → t.shutdown ≡ s.shutdown
    → (s.public_queue ≡ [] → t.public_queue ≡ [])
    → Local t.shutdown t.public_queue (t.queue i) (top t i)
    → (stuck (top t i) ≡ true → t.public_queue ≡ [])
    → Drained n t
step-Drained {n} {s} {t} i d lt others queues shutdown public_queue mine sleeps = record {
  each = λ j below. elim (Bool-cases (j == i)) [
    | inl same ↦ rw ((==_iff j i).0 same) mine
    | inr other ↦ other_one j below other
  ];
  lost = λ all. sleeps (all i lt);
}
  where
    other_one :
        (j : ℕ) → j < n → (j == i) ≡ false → Local t.shutdown t.public_queue (t.queue j) (top t j)
    other_one j below other =
        let l : Local s.shutdown s.public_queue (s.queue j) (top s j) = d.each j below in
        rw (others j other) (record {
          own = λ e. queues j other (l.own e);
          gone = λ e. shutdown ∙ l.gone e;
          gone_public = λ e. public_queue (l.gone_public e);
          shut = λ down. l.shut (sym shutdown ∙ down);
        })

-- A step that changes no thread but for events that are signalled.
pub signal-Drained :
    {n : ℕ} {s t : Pool}
    → Drained n s
    → ((j : ℕ) → (top t j).pc ≡ (top s j).pc)
    → ((j : ℕ) → (top t j).wait_task ≡ (top s j).wait_task)
    → ((j : ℕ) → is_set (top t j).event ≡ false → is_set (top s j).event ≡ false)
    → ((j : ℕ) → t.queue j ≡ s.queue j)
    → t.shutdown ≡ s.shutdown
    → t.public_queue ≡ s.public_queue
    → Drained n t
signal-Drained {n} {s} {t} d pcs waits sets queues shutdown public_queue = record {
  each = λ j below. one j (d.each j below);
  lost = λ all. public_queue ∙ d.lost (λ j below. ground (arith, all j below, pcs j, sets j));
}
  where
    one :
        (j : ℕ)
        → Local s.shutdown s.public_queue (s.queue j) (top s j)
        → Local t.shutdown t.public_queue (t.queue j) (top t j)
    one j l = record {
      own = λ e. queues j ∙ l.own (ap idle (sym (pcs j)) ∙ e);
      gone = λ e. shutdown ∙ l.gone (sym (pcs j) ∙ e);
      gone_public = λ e. public_queue ∙ l.gone_public (sym (pcs j) ∙ e);
      shut = λ down at w.
          ground
            (arith, sets j, l.shut (sym shutdown ∙ down) (sym (pcs j) ∙ at) (sym (waits j) ∙ w));
    }

module _ (h : ℕ) (queue : ℕ → List ℕ) (i : ℕ) (xs : List ℕ) where
  total-outside : (n : ℕ) → n ≤ i → total h n (update queue i xs) ≡ total h n queue
  total-outside zero le = refl
  total-outside (suc n) le = ground (arith, total-outside n (omega arith), ==_iff n i)

  -- One queue changes.
  pub total-update :
      (n : ℕ)
      → i < n
      → total h n (update queue i xs) + count h (queue i) ≡ total h n queue + count h xs
  total-update zero lt = absurd (omega arith)
  total-update (suc n) lt = elim (Bool-cases (n == i)) [
    | inl same ↦
        let e : n ≡ i = (==_iff n i).0 same in
        ground (arith, total-outside n (omega arith), e, same)
    | inr other ↦ ground (arith, total-update n (ground (arith, ==_iff n i)), other)
  ]
