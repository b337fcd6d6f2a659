-- ===== src/ContinuationVector/Flusher.antt =====
-- A step of `flush_and_lock` keeps the invariant.
use asyncplusplus_1_1_annota.Base.{
  ℕ, ◌≡◌, Bool, true, false, none, some, List, [], ◌∷◌, ◌++◌, count-append, ==_iff, ==_refl, refl,
  arith, sym, ◌∙◌,
}
use asyncplusplus_1_1_annota.ContinuationVector.{
  Slot, null, task, vector, flusher, Flush, idle, giving, flushing, done, State, update, after_lock,
}
use asyncplusplus_1_1_annota.ContinuationVector.Inv.{
  is_pushing, is_done, is_past, flush_seen, Grown, kept, conts, Inv,
}

-- As long as the flush is not done, the tasks that are kept do not depend on where it stands.
kept-flush :
    (sl : Slot) (vectors : ℕ → List ℕ) (f g : Flush)
    → is_done f ≡ is_done g
    → kept sl vectors f ≡ kept sl vectors g
kept-flush sl vectors f g e = ground (arith, e)

after_lock-is_past : (sl : Slot) → is_past (after_lock sl) ≡ true
after_lock-is_past sl = ground arith

after_lock-Grown : (sl : Slot) → Grown (flush_seen (after_lock sl)) sl
after_lock-Grown null = tt
after_lock-Grown (task t) = refl
after_lock-Grown (vector v) = refl

after_lock-giving : (sl : Slot) {t : ℕ} → after_lock sl ≡ giving t → sl ≡ task t
after_lock-giving sl {t} e = ground (arith, e)

module _ {s : State} (inv : Inv s) where
  open inv use {counted, owner, view, cached, held, not_late}

  -- A step that only moves the flush.
  moved-Inv :
      (f : Flush)
      → is_done f ≡ is_done s.flush
      → is_past f ≡ is_past s.flush
      → Grown (flush_seen f) s.slot
      → ((t : ℕ) → f ≡ giving t → s.slot ≡ task t)
      → ((v : ℕ) → f ≡ flushing v → s.mutex v ≡ some flusher)
      → Inv (record s { flush = f })
  moved-Inv f same past grown given mine = record {
    counted = λ j. rw (kept-flush s.slot s.vectors f s.flush same) (counted j);
    phase = inv.phase ∙ sym past;
    owner = owner;
    view = view;
    flush_view = grown;
    given = given;
    cached = cached;
    held = held;
    flush_held = mine;
    not_late = λ j e. same ∙ not_late j e;
    emptied = λ e. kept-flush s.slot s.vectors f s.flush same ∙ inv.emptied (sym same ∙ e);
  }

  pub flush_load-Inv : s.flush ≡ idle → Inv (record s { flush = Flush.loaded s.slot s.locked })
  flush_load-Inv at =
      moved-Inv (Flush.loaded s.slot s.locked) (rw at refl) (rw at refl) tt (λ t e. cc) (λ v e. cc)

  pub flush_lose-Inv :
      {sl : Slot} {lk : Bool}
      → s.flush ≡ Flush.loaded sl lk
      → Inv (record s { flush = Flush.loaded s.slot s.locked })
  flush_lose-Inv at =
      moved-Inv (Flush.loaded s.slot s.locked) (rw at refl) (rw at refl) tt (λ t e. cc) (λ v e. cc)

  module _ {sl : Slot} {lk : Bool} (at : s.flush ≡ Flush.loaded sl lk) (same : s.slot ≡ sl) where
    kept-lock : (sl' : Slot) → s.slot ≡ sl' → kept s.slot s.vectors (after_lock sl') ≡ conts s
    kept-lock null e = rw e refl
    kept-lock (task t) e = rw e (rw at refl)
    kept-lock (vector v) e = rw e refl

    empty-lock :
        (sl' : Slot) → is_done (after_lock sl') ≡ true → kept sl' s.vectors (after_lock sl') ≡ []
    empty-lock sl' e = ground (arith, e)

    late-lock : (j : ℕ) → is_pushing (s.pc j) ≡ true → is_done (after_lock sl) ≡ false
    late-lock j e = ground (arith, view j, same, e)

    pub flush_win-Inv : Inv (record s { locked = true; flush = after_lock sl })
    flush_win-Inv = record {
      counted = λ j. rw (kept-lock sl same) (counted j);
      phase = sym (after_lock-is_past sl);
      owner = owner;
      view = view;
      flush_view = rw same (after_lock-Grown sl);
      given = λ t e. same ∙ after_lock-giving sl e;
      cached = cached;
      held = held;
      flush_held = λ v e. ground (arith, e);
      not_late = late-lock;
      emptied = λ e. rw same (empty-lock sl e);
    }

  module _ {t : ℕ} (at : s.flush ≡ giving t) where
    one : s.slot ≡ task t
    one = inv.given t at

    pub give-Inv : Inv (record s { flush = done; flushed = s.flushed ++ t ∷ [] })
    give-Inv = record {
      counted =
          λ j. rw one (rw (count-append j s.flushed (t ∷ [])) (ground (arith, counted j, one)));
      phase = inv.phase ∙ rw at refl;
      owner = owner;
      view = view;
      flush_view = tt;
      given = λ u e. cc;
      cached = cached;
      held = held;
      flush_held = λ v e. cc;
      not_late = λ j e. ground (arith, view j, one, e);
      emptied = λ e. rw one refl;
    }

  module _ {v : ℕ} (at : s.flush ≡ Flush.want v) (free : s.mutex v ≡ none) where
    pub flush_take-Inv :
        Inv (record s { flush = flushing v; mutex = update s.mutex v (some flusher) })
    flush_take-Inv = record {
      counted = λ j. rw (kept-flush s.slot s.vectors (flushing v) s.flush (rw at refl)) (counted j);
      phase = inv.phase ∙ rw at refl;
      owner = owner;
      view = view;
      flush_view = rw at at inv.flush_view;
      given = λ t e. cc;
      cached = cached;
      held = λ j u e. ground (arith, held j u, e, ==_iff u v);
      flush_held = λ u e. ground (arith, e, ==_iff u v);
      not_late = λ j e. refl;
      emptied = λ e. cc;
    }

  module _ {v : ℕ} (at : s.flush ≡ flushing v) where
    used : s.slot ≡ vector v
    used = ground (arith, inv.flush_view)

    abbrev pub flushed_all : State
    flushed_all = record s {
      flush = done;
      flushed = s.flushed ++ s.vectors v;
      vectors = update s.vectors v [];
      mutex = update s.mutex v none;
    }

    conts_before : conts s ≡ s.vectors v
    conts_before = rw used refl

    conts_after : conts flushed_all ≡ []
    conts_after = rw used (rw (==_refl v) refl)

    pub flush_all-Inv : Inv flushed_all
    flush_all-Inv = record {
      counted = λ j.
          rw conts_after
            (rw (count-append j s.flushed (s.vectors v)) (ground (arith, counted j, conts_before)));
      phase = inv.phase ∙ rw at refl;
      owner = owner;
      view = view;
      flush_view = tt;
      given = λ u e. cc;
      cached = λ j b e. ground (arith, cached j b, owner v used, ==_iff j v);
      held = λ j u e. ground (arith, held j u, inv.flush_held v, ==_iff u v);
      flush_held = λ u e. cc;
      not_late = λ j e. ground (arith, view j, held j v, inv.flush_held v at, used, e);
      emptied = λ e. conts_after;
    }
