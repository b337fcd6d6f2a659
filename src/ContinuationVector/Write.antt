-- ===== src/ContinuationVector/Write.antt =====
-- A step of a thread that adds a continuation and writes to what the threads share.
use asyncplusplus_1_1_annota.Base.{
  ℕ, ◌+◌, ◌≡◌, ◌≢◌, true, false, Option, none, some, [], ◌∷◌, ◌++◌, count, count-append, ◌==◌,
  ==_iff, ==_refl, if◌then◌else◌, refl, arith, sym, ◌∙◌, Bool-cases, inl, inr,
}
use asyncplusplus_1_1_annota.ContinuationVector.{
  null, task, vector, adder, Pc, cas, checking, pushing, added, refused, State, update, go,
}
use asyncplusplus_1_1_annota.ContinuationVector.Inv.{
  is_added, is_done, seen, flush_seen, conts, Inv, Grown-first, Grown-second, not_past-not_done,
  kept-write,
}

module _ {s : State} (inv : Inv s) (i : ℕ) where
  open inv use {counted, owner, view, cached, held, not_late}

  -- The vector that is in use is not the thread's own before it has added its task.
  not_own : is_added (s.pc i) ≡ false → s.slot ≢ vector i
  not_own e h = ground (arith, owner i h)

  module _ {t : ℕ} (at : s.pc i ≡ Pc.loaded (task t) false none) where
    abbrev pub wrote : State
    wrote = record (go s i (cas (task t) (some t))) { vectors = update s.vectors i (t ∷ i ∷ []) }

    conts-wrote : conts wrote ≡ conts s
    conts-wrote = kept-write s.slot s.vectors s.flush i (t ∷ i ∷ []) (not_own (rw at refl))

    pub second-Inv : Inv wrote
    second-Inv = record {
      counted = λ j. rw conts-wrote (ground (arith, counted j, ==_iff j i));
      phase = inv.phase;
      owner = λ v e. ground (arith, owner v e, ==_iff v i);
      view = λ j. ground (arith, view j, view i, ==_iff j i);
      flush_view = inv.flush_view;
      given = inv.given;
      cached = λ j b e. ground (arith, cached j b, view i, ==_iff j i);
      held = λ j v e. ground (arith, held j v, ==_iff j i);
      flush_held = inv.flush_held;
      not_late = λ j e. ground (arith, not_late j, ==_iff j i);
      emptied = λ e. conts-wrote ∙ inv.emptied e;
    }

  module _ {c : Option ℕ} (at : s.pc i ≡ cas null c) (empty : s.slot ≡ null)
      (open_still : s.locked ≡ false) where
    not_done : is_done s.flush ≡ false
    not_done = not_past-not_done s.flush (sym inv.phase ∙ open_still)

    pub win_first-Inv : Inv (record (go s i added) { slot = task i })
    win_first-Inv = record {
      counted = λ j. rw not_done (ground (arith, counted j, ==_iff j i));
      phase = inv.phase;
      owner = λ v e. cc;
      view = λ j. elim (Bool-cases (j == i)) [
        | inl same ↦ rw same tt
        | inr other ↦ rw other (Grown-first (seen (s.pc j)) (task i) (rw empty at (view j)))
      ];
      flush_view = Grown-first (flush_seen s.flush) (task i) (rw empty at inv.flush_view);
      given = λ t e. ground (arith, inv.phase, e);
      cached = λ j b e. ground (arith, cached j b, ==_iff j i);
      held = λ j v e. ground (arith, held j v, ==_iff j i);
      flush_held = inv.flush_held;
      not_late = λ j e. ground (arith, not_late j, ==_iff j i);
      emptied = λ e. absurd (let both : true ≡ false = sym e ∙ not_done in cc);
    }

  module _ {t b : ℕ} (at : s.pc i ≡ cas (task t) (some b)) (one : s.slot ≡ task t)
      (open_still : s.locked ≡ false) where
    was_open : is_done s.flush ≡ false
    was_open = not_past-not_done s.flush (sym inv.phase ∙ open_still)

    own_vector : s.vectors i ≡ t ∷ i ∷ []
    own_vector = ground (arith, cached i b)

    pub win_second-Inv : Inv (record (go s i added) { slot = vector i })
    win_second-Inv = record {
      counted = λ j. rw own_vector (ground (arith, counted j, was_open, ==_iff j i));
      phase = inv.phase;
      owner = λ v e. ground (arith, ==_iff v i);
      view = λ j. elim (Bool-cases (j == i)) [
        | inl same ↦ rw same tt
        | inr other ↦ rw other (Grown-second (seen (s.pc j)) t i (rw one at (view j)))
      ];
      flush_view = Grown-second (flush_seen s.flush) t i (rw one at inv.flush_view);
      given = λ u e. ground (arith, inv.phase, e);
      cached = λ j c e. ground (arith, cached j c, ==_iff j i);
      held = λ j v e. ground (arith, held j v, ==_iff j i);
      flush_held = inv.flush_held;
      not_late = λ j e. ground (arith, not_late j, ==_iff j i);
      emptied = λ e. absurd (let both : true ≡ false = sym e ∙ was_open in cc);
    }

  module _ {v : ℕ} (at : s.pc i ≡ Pc.want v) (free : s.mutex v ≡ none) where
    pub take-Inv : Inv (record (go s i (checking v)) { mutex = update s.mutex v (some (adder i)) })
    take-Inv = record {
      counted = λ j. ground (arith, counted j, ==_iff j i);
      phase = inv.phase;
      owner = λ u e. ground (arith, owner u e, ==_iff u i);
      view = λ j. ground (arith, view j, view i, ==_iff j i);
      flush_view = inv.flush_view;
      given = inv.given;
      cached = λ j b e. ground (arith, cached j b, ==_iff j i);
      held = λ j u e. ground (arith, held j u, ==_iff j i, ==_iff u v);
      flush_held = λ u e. ground (arith, inv.flush_held u, ==_iff u v);
      not_late = λ j e. ground (arith, not_late j, ==_iff j i);
      emptied = inv.emptied;
    }

  module _ {v : ℕ} (at : s.pc i ≡ checking v) where
    pub too_late-Inv : Inv (record (go s i refused) { mutex = update s.mutex v none })
    too_late-Inv = record {
      counted = λ j. ground (arith, counted j, ==_iff j i);
      phase = inv.phase;
      owner = λ u e. ground (arith, owner u e, ==_iff u i);
      view = λ j. ground (arith, view j, ==_iff j i);
      flush_view = inv.flush_view;
      given = inv.given;
      cached = λ j b e. ground (arith, cached j b, ==_iff j i);
      held = λ j u e. ground (arith, held j u, held i v, ==_iff j i, ==_iff u v);
      flush_held = λ u e. ground (arith, inv.flush_held u, held i v, ==_iff u v);
      not_late = λ j e. ground (arith, not_late j, ==_iff j i);
      emptied = inv.emptied;
    }

  module _ {v : ℕ} (at : s.pc i ≡ pushing v) where
    used : s.slot ≡ vector v
    used = ground (arith, view i)

    abbrev pub pushed : State
    pushed = record (go s i added) {
      vectors = update s.vectors v (s.vectors v ++ i ∷ []);
      mutex = update s.mutex v none;
    }

    conts_before : conts s ≡ s.vectors v
    conts_before = rw used refl

    conts_after : conts pushed ≡ s.vectors v ++ i ∷ []
    conts_after = rw used (rw (==_refl v) refl)

    count_after : (j : ℕ) → count j (conts pushed) ≡ count j (conts s) + (if j == i then 1 else 0)
    count_after j =
        rw conts_after (rw conts_before (rw (count-append j (s.vectors v) (i ∷ [])) (ground arith)))

    pub push-Inv : Inv pushed
    push-Inv = record {
      counted = λ j. ground (arith, count_after j, counted j, ==_iff j i);
      phase = inv.phase;
      owner = λ u e. ground (arith, owner u e, ==_iff u i);
      view = λ j. ground (arith, view j, ==_iff j i);
      flush_view = inv.flush_view;
      given = inv.given;
      cached = λ j b e. ground (arith, cached j b, owner v used, ==_iff j i, ==_iff j v);
      held = λ j u e. ground (arith, held j u, held i v, ==_iff j i, ==_iff u v);
      flush_held = λ u e. ground (arith, inv.flush_held u, held i v, ==_iff u v);
      not_late = λ j e. ground (arith, not_late j, ==_iff j i);
      emptied = λ e. absurd (let both : true ≡ false = sym e ∙ not_late i (rw at refl) in cc);
    }
