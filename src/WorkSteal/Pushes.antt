-- ===== src/WorkSteal/Pushes.antt =====
-- A step of `push` keeps the invariant, and adds the handle to the end when it stores `bottom`.
use asyncplusplus_1_1_annota.Base.{
  ℕ, suc, ◌+◌, ◌-◌, ◌^◌, ◌≤◌, ◌<◌, ◌≡◌, true, false, Bool-cases, inl, inr, Option, some, List, [],
  ◌∷◌, ◌++◌, length, arith, refl, sym, dec_lt, ◌∙◌, ==_iff, ==_refl, ==_ne, ap, ◌==◌, subst,
  length-set,
}
use native.Mathlib.Nat.{pow-suc}
use asyncplusplus_1_1_annota.Base.Masks.{two-pow-le, two-pow-pos}
use asyncplusplus_1_1_annota.Base.Words.{add_size}
use asyncplusplus_1_1_annota.Deque.{array_put}
use asyncplusplus_1_1_annota.WorkSteal.{
  idle, pushing, room, put, Thief, out, saw, some_left, has_array, has_task, State, to_owner,
  update, Push, load, fits, fails, grows, write, publish, items, replaced, written, published,
  is_full,
}
use asyncplusplus_1_1_annota.WorkSteal.Linear.{
  end, window, window-snoc, window-update, view, pushes, Change, Change-none, Change-push_back,
}
use asyncplusplus_1_1_annota.WorkSteal.Inv.{Inv, Seen, Holds, is_full-true, is_full-false}
use asyncplusplus_1_1_annota.WorkSteal.Array.{get-put_self, get-put_ne, length-grow, grow-Holds}
use asyncplusplus_1_1_annota.WorkSteal.Moves.{
  Seen-end, kept-here, end-here, hand-here, moved-Inv, moved-Change,
}

-- A new array is at an address that no thief has loaded.
Seen-grow :
    (p : Thief) (arrays : ℕ → List (Option ℕ)) (array : ℕ) (new : List (Option ℕ)) (values : ℕ → ℕ)
    (top last : ℕ)
    → Seen p arrays array values top last
    → Seen p (update arrays (array + 1) new) (array + 1) values top last
Seen-grow out arrays array new values top last h = tt
Seen-grow (saw t) arrays array new values top last h = h
Seen-grow (some_left t) arrays array new values top last h = h
Seen-grow (has_array t a) arrays array new values top last (old, le, left) =
    let other : (a == array + 1) ≡ false = ==_ne (λ e. omega arith) in
    (omega arith, le, rw other left)
Seen-grow (has_task t x) arrays array new values top last h = h

-- The cell that is written is not the one that a thief may still take.
Seen-put :
    (p : Thief) (arrays : ℕ → List (Option ℕ)) (array : ℕ) (values : ℕ → ℕ) (k top b x : ℕ)
    → length (arrays array) ≡ 2 ^ k
    → b < top + 2 ^ k
    → Seen p arrays array values top b
    → Seen p
        (update arrays array (array_put (arrays array) b (some x)))
        array
        (update values b x)
        top
        b
Seen-put out arrays array values k top b x size near h = tt
Seen-put (saw t) arrays array values k top b x size near h = h
Seen-put (some_left t) arrays array values k top b x size near h = h
Seen-put (has_array t a) arrays array values k top b x size near (old, le, left) = (
  old,
  le,
  λ e. (
    (left e).0,
    elim (Bool-cases (a == array)) [
      | inl same ↦
          let here : a ≡ array = (==_iff a array).0 same in
          let other : (t == b) ≡ false = ==_ne (λ e'. omega (arith, (left e).0)) in
          rw (same, other)
            (get-put_ne k (arrays array) size b t (some x) (left e).0 (omega arith)
              ∙ rw (← here) (left e).1)
      | inr differs ↦
          let other : (t == b) ≡ false = ==_ne (λ e'. omega (arith, (left e).0)) in
          rw (differs, other) (left e).1
    ],
  ),
)
Seen-put (has_task t y) arrays array values k top b x size near (le, left) = (
  le,
  λ e.
      let other : (t == b) ≡ false = ==_ne (λ e'. omega (arith, (left e).0)) in
      ((left e).0, rw other (left e).1),
)

module _ {s : State} (inv : Inv s) (small : length s.pushed < 2 ^ 62) where
  open inv use {k, order, near, few, cells, kept, seen}

  load-Inv : (x : ℕ) → s.owner ≡ idle → Inv (to_owner s (pushing x s.bottom s.top))
  load-Inv x e = moved-Inv inv (pushing x s.bottom s.top) (end-here inv e) (
    refl,
    omega arith,
    omega (arith, near, end-here inv e),
    subst (Holds (items s) s.values s.top) (end-here inv e) cells,
  )

  module _ {x b t : ℕ} (e : s.owner ≡ pushing x b t) where
    t-le : t ≤ b
    t-le = omega (arith, kept-here inv e, order, end-here inv e)

    b-small : b < 2 ^ 62
    b-small = omega (arith, kept-here inv e, few, end-here inv e, small)

    size-small : length (items s) ≤ 2 ^ 62
    size-small = omega (arith, inv.size, two-pow-le k 62 inv.fits)

    fits-Inv : is_full b t (items s) ≡ false → Inv (to_owner s (room x b))
    fits-Inv free =
        let (same, le, more, held) = kept-here inv e in
        moved-Inv inv (room x b) (end-here inv e)
          (same, omega (arith, is_full-false b t (items s) t-le b-small size-small free, inv.size))

    module _ (full : is_full b t (items s) ≡ true) where
      k-lt : k < 62
      k-lt = elim (dec_lt k 62) [
        | yes lt ↦ lt
        | no ge ↦ absurd (
            omega (
              arith,
              two-pow-le 62 k (omega arith),
              inv.size,
              b-small,
              is_full-true b t (items s) t-le b-small size-small full,
            ))
      ]

      grows-Inv : Inv (replaced s x b t)
      grows-Inv =
          let (same, le, more, held) = kept-here inv e in
          record {
            k = suc k;
            size = rw (==_refl (s.array + 1)) (length-grow k (items s) inv.size k-lt t b);
            fits = omega (arith, k-lt);
            order = omega (arith, order, end-here inv e);
            near = omega (arith, near, end-here inv e, pow-suc 2 k);
            few = omega (arith, few, end-here inv e);
            cells = record {
              at = λ p from to. rw (==_refl (s.array + 1)) (
                  (grow-Holds k (items s) inv.size k-lt s.values t b t-le more b-small held).at p
                    (omega arith) (omega (arith, same)));
            };
            kept = (same, omega (arith, pow-suc 2 k, two-pow-pos k));
            seen = λ i. Seen-grow (s.thief i) s.arrays s.array _ s.values s.top s.bottom (
                subst (Seen (s.thief i) s.arrays s.array s.values s.top) (end-here inv e) (seen i));
          }

  module _ {x b : ℕ} (e : s.owner ≡ room x b) where
    write-Inv : Inv (written s x b)
    write-Inv =
        let (same, more) = kept-here inv e in
        record {
          k = k;
          size = rw (==_refl s.array) (length-set (items s) _ (some x) ∙ inv.size);
          fits = inv.fits;
          order = omega (arith, order, end-here inv e);
          near = omega (arith, near, end-here inv e);
          few = omega (arith, few, end-here inv e);
          cells = record {
            at = λ p from to.
                let other : (p == b) ≡ false = ==_ne (λ q. omega arith) in
                rw (==_refl s.array, other)
                  (get-put_ne k (items s) inv.size b p (some x) (omega arith) (omega arith)
                    ∙ cells.at p from (omega (arith, end-here inv e)));
          };
          kept = (
            same,
            more,
            rw (==_refl s.array, ==_refl b) (get-put_self k (items s) inv.size b (some x)),
            rw (==_refl b) refl,
          );
          seen = λ i.
              subst (Seen (s.thief i) (written s x b).arrays s.array (written s x b).values s.top)
                same
                (Seen-put (s.thief i) s.arrays s.array s.values k s.top b x inv.size more (
                  subst (Seen (s.thief i) s.arrays s.array s.values s.top)
                    (end-here inv e ∙ sym same) (seen i)));
        }

    write-Change : Change (view s) pushes (view (written s x b))
    write-Change =
        let (same, more) = kept-here inv e in
        Change-none
          (window-update s.values b x s.top (s.bottom - s.top)
              (omega (arith, order, end-here inv e))
            ∙ ap (λ n. window s.values s.top (n - s.top)) (sym (end-here inv e)))
          (sym (hand-here inv e))

  module _ {x b : ℕ} (e : s.owner ≡ put x b) where
    next_bottom : add_size b 1 ≡ s.bottom + 1
    next_bottom = omega (arith, kept-here inv e, few, end-here inv e, small)

    publish-Inv : Inv (published s x b)
    publish-Inv =
        let (same, more, got, is) = kept-here inv e in
        rw next_bottom (record {
          k = k;
          size = inv.size;
          fits = inv.fits;
          order = omega (arith, order, end-here inv e);
          near = omega arith;
          few = omega (arith, few, end-here inv e);
          cells = record {
            at = λ p from to. elim (Bool-cases (p == b)) [
              | inl here ↦ let q : p ≡ b = (==_iff p b).0 here in rw q got
              | inr other ↦ cells.at p from (ground (arith, end-here inv e, ==_iff p b))
            ];
          };
          kept = tt;
          seen = λ i.
              Seen-end (s.thief i) s.arrays s.array s.values s.top (end s.owner s.bottom)
                (s.bottom + 1) (λ lt. omega (arith, end-here inv e)) (seen i);
        })

    publish-Change : Change (view s) pushes (view (published s x b))
    publish-Change =
        let (same, more, got, is) = kept-here inv e in
        let one_more : add_size b 1 - s.top ≡ suc (end s.owner s.bottom - s.top) =
          omega (arith, next_bottom, order, end-here inv e) in
        let last : s.top + (end s.owner s.bottom - s.top) ≡ b =
          omega (arith, order, end-here inv e) in
        Change-push_back x
          (ap (window s.values s.top) one_more
            ∙ window-snoc s.values s.top (end s.owner s.bottom - s.top)
            ∙ ap (λ y. window s.values s.top (end s.owner s.bottom - s.top) ++ y ∷ [])
                (ap s.values last ∙ is))
          (sym (hand-here inv e))

  pub Push-Inv : {s' : State} → Push s s' → Inv s'
  Push-Inv (load x e) = load-Inv x e
  Push-Inv (fits e free) = fits-Inv e free
  Push-Inv (fails e full) = moved-Inv inv idle (end-here inv e) tt
  Push-Inv (grows e full) = grows-Inv e full
  Push-Inv (write e) = write-Inv e
  Push-Inv (publish e) = publish-Inv e

  pub Push-Change : {s' : State} → Push s s' → Change (view s) pushes (view s')
  Push-Change (load x e) =
      moved-Change inv (pushing x s.bottom s.top) (end-here inv e) (hand-here inv e)
  Push-Change (fits {x} {b} e free) = moved-Change inv (room x b) (end-here inv e) (hand-here inv e)
  Push-Change (fails e full) = moved-Change inv idle (end-here inv e) (hand-here inv e)
  Push-Change (grows {x} {b} e full) =
      moved-Change inv (room x b) (end-here inv e) (hand-here inv e)
  Push-Change (write e) = write-Change e
  Push-Change (publish e) = publish-Change e
