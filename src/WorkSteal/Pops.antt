-- ===== src/WorkSteal/Pops.antt =====
-- A step of `pop` keeps the invariant, and takes the end of the deque when no thief can any more.
use asyncplusplus_1_1_annota.Base.{
  ℕ, suc, ◌+◌, ◌-◌, ◌^◌, ◌≤◌, ◌<◌, ◌≡◌, true, false, Option, some, [], ◌∷◌, ◌++◌, length, arith,
  refl, sym, ◌∙◌, ==_iff, ap, ◌==◌,
}
use asyncplusplus_1_1_annota.Base.Words.{add_size, sub_size}
use asyncplusplus_1_1_annota.Deque.{get}
use asyncplusplus_1_1_annota.WorkSteal.{
  idle, popping, stored, racing, won, restoring, State, to_owner, items, collect, Pop, empty, begin,
  store, late, take, race, win, lose, keep, restore, restored, popped, none_left, overtaken,
}
use asyncplusplus_1_1_annota.WorkSteal.Linear.{
  end, window, window-snoc, view, pops, Change, Change-pop_back,
}
use asyncplusplus_1_1_annota.WorkSteal.Inv.{Inv, none_left-false, overtaken-true, overtaken-false}
use asyncplusplus_1_1_annota.WorkSteal.Thieves.{Seen-later}
use asyncplusplus_1_1_annota.WorkSteal.Moves.{
  Seen-end, kept-here, end-here, hand-here, stored-Inv, stored-Change, moved-Inv, moved-Change,
}

module _ {s : State} (inv : Inv s) (small : length s.pushed < 2 ^ 62) where
  open inv use {k, order, near, few, cells, seen}

  begin-Inv :
      s.owner ≡ idle
      → none_left s.bottom s.top ≡ false
      → Inv (to_owner s (popping (sub_size s.bottom 1)))
  begin-Inv e more =
      let bottom_small : s.bottom < 2 ^ 62 = omega (arith, few, end-here inv e, small) in
      let left : s.top < s.bottom =
        none_left-false s.bottom s.top bottom_small (omega (arith, order, end-here inv e)) more in
      moved-Inv inv (popping (sub_size s.bottom 1)) (end-here inv e) (omega arith)

  store-Inv : {b : ℕ} → s.owner ≡ popping b → Inv (record s { bottom = b; owner = stored b })
  store-Inv {b} e =
      stored-Inv inv (stored b) b s.taken (end-here inv e ∙ sym (kept-here inv e)) refl

  -- The end of the deque is one above the `bottom` of an undecided `pop`.
  module _ {b : ℕ} (e : s.owner ≡ stored b) where
    b-small : b < 2 ^ 62
    b-small = omega (arith, kept-here inv e, few, end-here inv e, small)

    top-small : s.top < 2 ^ 62
    top-small = omega (arith, order, few, small)

    late-Inv : overtaken b s.top ≡ true → Inv (to_owner s (restoring b))
    late-Inv over = moved-Inv inv (restoring b) (end-here inv e) (
      kept-here inv e,
      omega (
        arith,
        overtaken-true b s.top b-small top-small over,
        order,
        end-here inv e,
        kept-here inv e,
      ),
    )

    module _ (not_over : overtaken b s.top ≡ false) where
      top-le : s.top ≤ b
      top-le = overtaken-false b s.top b-small top-small not_over

      handle : get (items s) b ≡ some (s.values b)
      handle = cells.at b top-le (omega (arith, end-here inv e, kept-here inv e))

      race-Inv : (b == s.top) ≡ true → Inv (to_owner s (racing b s.top (get (items s) b)))
      race-Inv last =
          moved-Inv inv (racing b s.top (get (items s) b)) (end-here inv e)
            (kept-here inv e, sym ((==_iff b s.top).0 last), omega arith, handle)

      module _ (more : (b == s.top) ≡ false) where
        top-lt : s.top < b
        top-lt = ground (arith, top-le, ==_iff b s.top)

        take-Inv : Inv (popped s (get (items s) b))
        take-Inv = record {
          k = k;
          size = inv.size;
          fits = inv.fits;
          order = omega (arith, top-lt, kept-here inv e);
          near = omega (arith, near, end-here inv e);
          few = omega (arith, few, end-here inv e);
          cells = record { at = λ p from to. cells.at p from (omega (arith, end-here inv e)) };
          kept = tt;
          seen = λ i.
              Seen-end (s.thief i) s.arrays s.array s.values s.top (end s.owner s.bottom) s.bottom
                (λ lt. omega (arith, top-lt, kept-here inv e)) (seen i);
        }

        take-Change : Change (view s) pops (view (popped s (get (items s) b)))
        take-Change =
            let one_more : end s.owner s.bottom - s.top ≡ suc (s.bottom - s.top) =
              omega (arith, top-lt, end-here inv e, kept-here inv e) in
            let last : s.top + (s.bottom - s.top) ≡ b = omega (arith, top-lt, kept-here inv e) in
            Change-pop_back (s.values b)
              (ap (window s.values s.top) one_more
                ∙ window-snoc s.values s.top (s.bottom - s.top)
                ∙ ap (λ p. window s.values s.top (s.bottom - s.top) ++ s.values p ∷ []) last)
              (ap (λ x. collect x s.taken) handle
                ∙ ap (λ l. s.values b ∷ l) (sym (hand-here inv e)))

  module _ {b t : ℕ} {x : Option ℕ} (e : s.owner ≡ racing b t x) where
    lose-Inv : (s.top == t) ≡ false → Inv (to_owner s (restoring b))
    lose-Inv moved =
        let (at, same, le, got) = kept-here inv e in
        moved-Inv inv (restoring b) (end-here inv e)
          (at, ground (arith, order, end-here inv e, ==_iff s.top t))

    module _ (same_top : (s.top == t) ≡ true) where
      top-here : s.top ≡ b
      top-here = let (at, same, le, got) = kept-here inv e in (==_iff s.top t).0 same_top ∙ same

      next_top : add_size t 1 ≡ s.top + 1
      next_top =
          let (at, same, le, got) = kept-here inv e in omega (arith, top-here, few, order, small)

      win-Inv : Inv (record s { top = add_size t 1; owner = won b x })
      win-Inv =
          let (at, same, le, got) = kept-here inv e in
          rw next_top (record {
            k = k;
            size = inv.size;
            fits = inv.fits;
            order = omega (arith, top-here);
            near = omega (arith, near, end-here inv e);
            few = omega (arith, few, end-here inv e);
            cells = record { at = λ p from to. absurd (omega (arith, top-here)) };
            kept = (at, omega (arith, top-here));
            seen = λ i.
                Seen-later (s.thief i) s.arrays s.array s.values s.top (s.top + 1)
                  (end s.owner s.bottom) (s.bottom + 1) (omega arith) (seen i);
          })

      win-Change : Change (view s) pops (view (record s { top = add_size t 1; owner = won b x }))
      win-Change =
          let (at, same, le, got) = kept-here inv e in
          let one : end s.owner s.bottom - s.top ≡ 1 = omega (arith, top-here, end-here inv e) in
          let over : s.bottom + 1 - add_size t 1 ≡ 0 = omega (arith, next_top, top-here) in
          Change-pop_back (s.values b)
            (ap (window s.values s.top) one
              ∙ ap (λ p. s.values p ∷ []) top-here
              ∙ ap (λ n. window s.values (add_size t 1) n ++ s.values b ∷ []) (sym over))
            (ap (λ y. collect y s.taken) got ∙ ap (λ l. s.values b ∷ l) (sym (hand-here inv e)))

  -- `bottom` goes back to where it was before the call.
  module _ {b : ℕ} where
    restore-end : b ≡ s.bottom → s.bottom < 2 ^ 62 → end (restoring b) s.bottom ≡ add_size b 1
    restore-end at lt = omega arith

    restore-Inv : s.owner ≡ restoring b → Inv (restored s b)
    restore-Inv e =
        let (at, over) = kept-here inv e in
        stored-Inv inv idle (add_size b 1) s.taken
          (end-here inv e ∙ restore-end at (omega (arith, few, end-here inv e))) tt

    keep-Inv : {x : Option ℕ} → s.owner ≡ won b x → Inv (popped (restored s b) x)
    keep-Inv {x} e =
        let (at, over) = kept-here inv e in
        stored-Inv inv idle (add_size b 1) (collect x s.taken)
          (end-here inv e ∙ restore-end at (omega (arith, few, end-here inv e))) tt

  pub Pop-Inv : {s' : State} → Pop s s' → Inv s'
  Pop-Inv (empty e over) = inv
  Pop-Inv (begin e more) = begin-Inv e more
  Pop-Inv (store e) = store-Inv e
  Pop-Inv (late e over) = late-Inv e over
  Pop-Inv (take e not_over more) = take-Inv e not_over more
  Pop-Inv (race e not_over last) = race-Inv e not_over last
  Pop-Inv (win e same) = win-Inv e same
  Pop-Inv (lose e moved) = lose-Inv e moved
  Pop-Inv (keep e) = keep-Inv e
  Pop-Inv (restore e) = restore-Inv e

  pub Pop-Change : {s' : State} → Pop s s' → Change (view s) pops (view s')
  Pop-Change (empty e over) = Change.none
  Pop-Change (begin e more) =
      moved-Change inv (popping (sub_size s.bottom 1)) (end-here inv e) (hand-here inv e)
  Pop-Change (store {b} e) =
      stored-Change inv (stored b) b s.taken (end-here inv e ∙ sym (kept-here inv e))
        (hand-here inv e)
  Pop-Change (late {b} e over) = moved-Change inv (restoring b) (end-here inv e) (hand-here inv e)
  Pop-Change (take e not_over more) = take-Change e not_over more
  Pop-Change (race {b} e not_over last) =
      moved-Change inv (racing b s.top (get (items s) b)) (end-here inv e) (hand-here inv e)
  Pop-Change (win e same) = win-Change e same
  Pop-Change (lose {b} e moved) = moved-Change inv (restoring b) (end-here inv e) (hand-here inv e)
  Pop-Change (keep {b} {x} e) =
      let (at, over) = kept-here inv e in
      stored-Change inv idle (add_size b 1) (collect x s.taken)
        (end-here inv e ∙ restore-end at (omega (arith, few, end-here inv e))) (hand-here inv e)
  Pop-Change (restore {b} e) =
      let (at, over) = kept-here inv e in
      stored-Change inv idle (add_size b 1) s.taken
        (end-here inv e ∙ restore-end at (omega (arith, few, end-here inv e))) (hand-here inv e)
