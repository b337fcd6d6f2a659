-- ===== src/WhenAny/First.antt =====
-- The event of `when_any` is set by the first task that finishes.
use asyncplusplus_1_1_annota.Base.{
  ℕ, suc, ◌≤◌, ◌<◌, ◌≡◌, true, false, Option, none, some, List, [], set, length, length-set,
  length-replicate, get_or, get_or-set_self, get_or-set_ne, ◌==◌, ==_iff, refl, arith, ◌∙◌,
  some_inj, Bool-cases, Option-cases, inl, inr, subst, ==_refl,
}
use asyncplusplus_1_1_annota.WhenAny.{
  WhenAnyResult, WhenAny, set_first, Step, add, call, new, Reach, here, next,
}

module _ (count : ℕ) (tasks : ℕ → ℕ) where
  -- A list that has the tasks that were added.
  abbrev Lists : ℕ → List (Option ℕ) → Type 0
  Lists n r = (length r ≡ count) × ((j : ℕ) → j < n → get_or r j none ≡ some (tasks j))

  abbrev Moved : WhenAny → WhenAnyResult → Type 0
  Moved s first = (s.result ≡ []) × (s.called first.index ≡ true) × Lists s.next_index first.tasks

  pub record Inv (s : WhenAny) : Type 0 where
    pub in_range : s.next_index ≤ count
    pub waiting : s.event ≡ none → Lists s.next_index s.result × ((i : ℕ) → s.called i ≡ false)
    pub moved : (first : WhenAnyResult) → s.event ≡ some first → Moved s first

  Lists-add :
      (n : ℕ) (r : List (Option ℕ))
      → n < length r
      → Lists n r
      → Lists (suc n) (set r n (some (tasks n)))
  Lists-add n r lt (size, have) = (
    length-set r n (some (tasks n)) ∙ size,
    λ j le. elim (Bool-cases (j == n)) [
      | inl same ↦
          let e : j ≡ n = (==_iff j n).0 same in rw e (get_or-set_self r n (some (tasks n)) none lt)
      | inr other ↦
          get_or-set_ne r (some (tasks n)) none (λ e. ground (arith, other, ==_iff j n))
          ∙ have j (ground (arith, other, ==_iff j n))
    ],
  )

  Step-Inv : {s t : WhenAny} → Inv s → Step count tasks s t → Inv t
  Step-Inv {s} inv (add lt cell) = record {
    in_range = omega arith;
    waiting = λ e.
        let (lists, uncalled) = inv.waiting e in
        (Lists-add s.next_index s.result cell lists, uncalled);
    moved = λ first e. absurd (let m = inv.moved first e in ground (arith, m.0, cell));
  }
  Step-Inv {s} inv (call i lt uncalled) = record {
    in_range = inv.in_range;
    waiting = λ e. absurd (ground (arith, e));
    moved = λ first e. elim (Option-cases s.event) [
      | inl unset ↦
          let same : record { index = i; tasks = s.result } ≡ first = some_inj (rw unset at e) in
          subst (λ f. Moved (set_first s i) f) same
            (refl, rw (==_refl i) refl, (inv.waiting unset).0)
      | inr (one, already) ↦
          let same : one ≡ first = some_inj (rw already at e) in
          let m : Moved s one = inv.moved one already in
          subst (λ f. Moved (set_first s i) f) same (refl, ground (arith, m.1), m.2)
    ];
  }

  new-Inv : Inv (new count tasks)
  new-Inv = record {
    in_range = omega arith;
    waiting = λ e. ((length-replicate count none, λ j lt. absurd (omega arith)), λ i. refl);
    moved = λ first e. cc;
  }

  Reach-Inv : {s : WhenAny} → Reach count tasks s → Inv s
  Reach-Inv here = new-Inv
  Reach-Inv (next r st) = Step-Inv (Reach-Inv r) st

-- Where the continuation of a task has run before the loop of `when_any` ends, the list that the
-- next turn of the loop writes to is empty, so the write is out of bounds.
pub early_finish_overruns :
    (count : ℕ) (tasks : ℕ → ℕ) {s : WhenAny} (i : ℕ)
    → Reach count tasks s
    → s.called i ≡ true
    → (s.result ≡ []) × (length s.result ≤ s.next_index)
early_finish_overruns count tasks {s} i r ran =
    let empty : s.result ≡ [] = moved_out in (empty, ground (arith, empty))
  where
    moved_out : s.result ≡ []
    moved_out = elim (Option-cases s.event) [
      | inl unset ↦
          absurd (let w = (Reach-Inv count tasks r).waiting unset in ground (arith, w.1 i, ran))
      | inr (first, e) ↦ let m = (Reach-Inv count tasks r).moved first e in m.0
    ]
