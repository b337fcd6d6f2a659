-- ===== src/WorkSteal/Thieves.antt =====
-- A step of a thief keeps the invariant, and either leaves the deque as it is or takes its front.
use asyncplusplus_1_1_annota.Base.{
  ℕ, suc, ◌+◌, ◌-◌, ◌^◌, ◌≤◌, ◌<◌, ◌≡◌, true, Bool-cases, inl, inr, Option, some, List, ◌∷◌, length,
  arith, refl, ==_iff, ap, ◌==◌, subst,
}
use asyncplusplus_1_1_annota.Base.Words.{add_size}
use asyncplusplus_1_1_annota.Deque.{get}
use asyncplusplus_1_1_annota.WorkSteal.{
  Owner, idle, pushing, room, put, popping, stored, racing, won, restoring, Thief, out, saw,
  some_left, has_array, has_task, State, to_thief, collect, Steal, load_top, leave, load_bottom,
  load_array, fetch, steal, again, items,
}
use asyncplusplus_1_1_annota.WorkSteal.Linear.{
  end, in_hand, window, view, steals, Change, pop_front,
}
use asyncplusplus_1_1_annota.WorkSteal.Inv.{Inv, Kept, Seen, none_left-false}

bottom-le-end : (o : Owner) (b : ℕ) → b ≤ end o b
bottom-le-end idle b = omega arith
bottom-le-end (pushing x c t) b = omega arith
bottom-le-end (room x c) b = omega arith
bottom-le-end (put x c) b = omega arith
bottom-le-end (popping c) b = omega arith
bottom-le-end (stored c) b = omega arith
bottom-le-end (racing c t x) b = omega arith
bottom-le-end (won c x) b = omega arith
bottom-le-end (restoring c) b = omega arith

-- `top` moves past what the other threads have seen.
pub Seen-later :
    (p : Thief) (arrays : ℕ → List (Option ℕ)) (array : ℕ) (values : ℕ → ℕ)
    (top top' last last' : ℕ)
    → top < top'
    → Seen p arrays array values top last
    → Seen p arrays array values top' last'
Seen-later out arrays array values top top' last last' lt h = tt
Seen-later (saw t) arrays array values top top' last last' lt h = omega (arith, h)
Seen-later (some_left t) arrays array values top top' last last' lt h =
    (omega (arith, h.0), λ e. absurd (omega (arith, h.0)))
Seen-later (has_array t a) arrays array values top top' last last' lt h =
    (h.0, omega (arith, h.1), λ e. absurd (omega (arith, h.1)))
Seen-later (has_task t x) arrays array values top top' last last' lt h =
    (omega (arith, h.0), λ e. absurd (omega (arith, h.0)))

Kept-later :
    (o : Owner) (k : ℕ) (array : List (Option ℕ)) (values : ℕ → ℕ) (top bottom : ℕ)
    → top < end o bottom
    → Kept o k array values top bottom
    → Kept o k array values (top + 1) bottom
Kept-later idle k array values top bottom lt h = tt
Kept-later (pushing x b t) k array values top bottom lt (e, le, near, at) =
    (e, omega arith, near, at)
Kept-later (room x b) k array values top bottom lt (e, near) = (e, omega arith)
Kept-later (put x b) k array values top bottom lt (e, near, got, same) = (e, omega arith, got, same)
Kept-later (popping b) k array values top bottom lt h = h
Kept-later (stored b) k array values top bottom lt h = h
Kept-later (racing b t x) k array values top bottom lt (e, same, le, got) =
    (e, same, omega arith, got)
Kept-later (won b x) k array values top bottom lt (e, same) = absurd (omega arith)
Kept-later (restoring b) k array values top bottom lt (e, same) = absurd (omega arith)

-- The owner holds nothing that it has won while a handle is left.
in_hand-collect :
    (o : Owner) (x : ℕ) (taken : List ℕ) (k : ℕ) (array : List (Option ℕ)) (values : ℕ → ℕ)
    (top bottom : ℕ)
    → top < end o bottom
    → Kept o k array values top bottom
    → in_hand o (x ∷ taken) ≡ x ∷ in_hand o taken
in_hand-collect (won b y) x taken k array values top bottom lt (e, same) = absurd (omega arith)
in_hand-collect idle x taken k array values top bottom lt h = refl
in_hand-collect (pushing y b t) x taken k array values top bottom lt h = refl
in_hand-collect (room y b) x taken k array values top bottom lt h = refl
in_hand-collect (put y b) x taken k array values top bottom lt h = refl
in_hand-collect (popping b) x taken k array values top bottom lt h = refl
in_hand-collect (stored b) x taken k array values top bottom lt h = refl
in_hand-collect (racing b t y) x taken k array values top bottom lt h = refl
in_hand-collect (restoring b) x taken k array values top bottom lt h = refl

module _ {s : State} (inv : Inv s) (few : length s.pushed < 2 ^ 62) (i : ℕ) where
  open inv use {k, order, cells, kept, seen}

  last : ℕ
  last = end s.owner s.bottom

  seen-here :
      (p : Thief) → s.thief i ≡ p → Seen p s.arrays s.array s.values s.top (end s.owner s.bottom)
  seen-here p e =
      subst (λ q. Seen q s.arrays s.array s.values s.top (end s.owner s.bottom)) e (seen i)

  moved-Inv :
      (p : Thief)
      → Seen p s.arrays s.array s.values s.top (end s.owner s.bottom)
      → Inv (to_thief s i p)
  moved-Inv p h = record {
    k = k;
    size = inv.size;
    fits = inv.fits;
    order = order;
    near = inv.near;
    few = inv.few;
    cells = cells;
    kept = kept;
    seen = λ j. elim (Bool-cases (j == i)) [ inl same ↦ rw same h | inr other ↦ rw other (seen j) ];
  }

  load_bottom-Inv : {t : ℕ} → s.thief i ≡ saw t → t < s.bottom → Inv (to_thief s i (some_left t))
  load_bottom-Inv {t} e lt =
      moved-Inv (some_left t)
        (seen-here (saw t) e, λ same. omega (arith, bottom-le-end s.owner s.bottom))

  load_array-Inv : {t : ℕ} → s.thief i ≡ some_left t → Inv (to_thief s i (has_array t s.array))
  load_array-Inv {t} e =
      let (le, left) = seen-here (some_left t) e in
      moved-Inv (has_array t s.array)
        (omega arith, le, λ same. (left same, cells.at t (omega arith) (left same)))

  fetch-Inv :
      {t a : ℕ} → s.thief i ≡ has_array t a → Inv (to_thief s i (has_task t (get (s.arrays a) t)))
  fetch-Inv {t} {a} e =
      let (old, le, got) = seen-here (has_array t a) e in
      moved-Inv (has_task t (get (s.arrays a) t)) (le, got)

  module _ {t : ℕ} {x : Option ℕ} (e : s.thief i ≡ has_task t x) (same : (s.top == t) ≡ true) where
    top-here : s.top ≡ t
    top-here = (==_iff s.top t).0 same

    left : s.top < end s.owner s.bottom
    left = omega (arith, ((seen-here (has_task t x) e).1 top-here).0, top-here)

    handle : x ≡ some (s.values s.top)
    handle = rw top-here (((seen-here (has_task t x) e).1 top-here).1)

    pub next_top : add_size t 1 ≡ s.top + 1
    next_top = omega (arith, top-here, left, few, inv.few)

    steal-Inv : Inv (record (to_thief s i out) { top = add_size t 1; taken = collect x s.taken })
    steal-Inv = rw next_top (record {
      k = k;
      size = inv.size;
      fits = inv.fits;
      order = omega (arith, left);
      near = omega (arith, inv.near);
      few = inv.few;
      cells = record { at = λ p le lt. cells.at p (omega arith) lt };
      kept = Kept-later s.owner k (items s) s.values s.top s.bottom left kept;
      seen = λ j. elim (Bool-cases (j == i)) [
        | inl here ↦ rw here tt
        | inr other ↦ rw other (
            Seen-later (s.thief j) s.arrays s.array s.values s.top (s.top + 1)
              (end s.owner s.bottom) (end s.owner s.bottom) (omega arith) (seen j))
      ];
    })

    steal-Change :
        Change
          (view s)
          steals
          (view (record (to_thief s i out) { top = add_size t 1; taken = collect x s.taken }))
    steal-Change =
        rw
          (
            next_top,
            handle,
            in_hand-collect s.owner (s.values s.top) s.taken k (items s) s.values s.top s.bottom
                left kept,
          )
          (pop_front (s.values s.top)
            (window s.values (s.top + 1) (end s.owner s.bottom - (s.top + 1))) front)
      where
        front :
            window s.values s.top (end s.owner s.bottom - s.top)
            ≡ s.values s.top ∷ window s.values (s.top + 1) (end s.owner s.bottom - (s.top + 1))
        front =
            let one_more : end s.owner s.bottom - s.top ≡ suc (end s.owner s.bottom - (s.top + 1)) =
              omega (arith, left) in
            ap (window s.values s.top) one_more

  pub Steal-Inv : {s' : State} → Steal i s s' → Inv s'
  Steal-Inv (load_top e) = moved-Inv (saw s.top) (omega arith)
  Steal-Inv (leave e over) = moved-Inv out tt
  Steal-Inv (load_bottom {t} e more) = load_bottom-Inv e (
      none_left-false s.bottom t (omega (arith, bottom-le-end s.owner s.bottom, few, inv.few))
        (omega (arith, seen-here (saw t) e, order, few, inv.few)) more)
  Steal-Inv (load_array e) = load_array-Inv e
  Steal-Inv (fetch e) = fetch-Inv e
  Steal-Inv (steal e same) = steal-Inv e same
  Steal-Inv (again e) = moved-Inv out tt

  pub Steal-Change : {s' : State} → Steal i s s' → Change (view s) steals (view s')
  Steal-Change (load_top e) = Change.none
  Steal-Change (leave e over) = Change.none
  Steal-Change (load_bottom e more) = Change.none
  Steal-Change (load_array e) = Change.none
  Steal-Change (fetch e) = Change.none
  Steal-Change (steal e same) = steal-Change e same
  Steal-Change (again e) = Change.none
