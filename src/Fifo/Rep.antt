-- ===== src/Fifo/Rep.antt =====
-- What a fifo_queue holds: a list of handles, oldest first.
use native.Mathlib.Nat.{mod-eq_of_lt, mod-lt, mod-mod, mod-add-mod, add-mod_right, pow-suc}
use asyncplusplus_1_1_annota.Base.{
  dec_lt, ◌==◌, ==_iff, ==_ne, ℕ, suc, ◌+◌, ◌%◌, ◌^◌, ◌≤◌, ◌<◌, ◌≡◌, ◌≢◌, sym, ap, ◌∙◌, subst,
  Option, none, some, List, [], ◌∷◌, ◌++◌, true, false, length-map, map-append_one, map, arith,
  length, length-append, get_or, length-set, length-replicate, replicate,
}
use asyncplusplus_1_1_annota.Base.Words.{add_size, mul_size}
use asyncplusplus_1_1_annota.Base.Masks.{two-pow-pos}
use asyncplusplus_1_1_annota.Ring.{slot, copy}
use asyncplusplus_1_1_annota.Ring.Cells.{
  Cells, Cells-set, Cells-extend, Cells-mod, Cells-prefix, slot-mod, slot-next, add-mod-ne,
}
use asyncplusplus_1_1_annota.Ring.Copy.{copy-Cells, length-copy}
use asyncplusplus_1_1_annota.Fifo.{FifoQueue, is_full, grow, put}

-- The queue is an array of `2 ^ k` cells, at most `2 ^ 60`, that holds `xs` from `head` on, with
-- one cell at least left free.
pub record Rep {ℓ} {A : Type ℓ} (k : ℕ) (q : FifoQueue A) (xs : List A) : Type ℓ where
  pub size : length q.items ≡ 2 ^ k
  pub fits : 2 ^ k ≤ 2 ^ 60
  pub head_in : q.head < 2 ^ k
  pub tail_at : q.tail ≡ (q.head + length xs) % 2 ^ k
  pub room : length xs < 2 ^ k
  pub cells : Cells none k q.items q.head (map some xs)

module _ {ℓ} {A : Type ℓ} {k : ℕ} {q : FifoQueue A} {xs : List A} (r : Rep k q xs) where
  open r use {size, fits, head_in, tail_at, room, cells}

  abbrev cells_list : List (Option A)
  cells_list = map some xs

  length-cells : length cells_list ≡ length xs
  length-cells = length-map some xs

  next_tail : slot q.items (add_size q.tail 1) ≡ (q.head + length xs + 1) % 2 ^ k
  next_tail = slot-next none k q.items q.tail (q.head + length xs) size fits tail_at

  pub not_full : is_full q ≡ false → length xs + 1 < 2 ^ k
  unfolding is_full
  not_full e = elim (dec_lt (length xs + 1) (2 ^ k)) [
    | yes lt ↦ lt
    | no ge ↦ absurd (differs (next_tail ∙ round (omega arith)))
  ]
    where
      differs : slot q.items (add_size q.tail 1) ≢ q.head
      differs h = ground arith

      round : length xs + 1 ≡ 2 ^ k → (q.head + length xs + 1) % 2 ^ k ≡ q.head
      round all =
          ap (λ t. t % 2 ^ k) (omega arith) ∙ add-mod_right q.head (2 ^ k) ∙ mod-eq_of_lt head_in

  pub full : is_full q ≡ true → length xs + 1 ≡ 2 ^ k
  unfolding is_full
  full e = elim (dec_lt (length xs + 1) (2 ^ k)) [
    | no ge ↦ omega arith
    | yes lt ↦ absurd (
        add-mod-ne (2 ^ k) q.head (length xs + 1) (omega arith) lt
          (ap (λ t. t % 2 ^ k) (omega arith) ∙ sym next_tail ∙ same ∙ sym (mod-eq_of_lt head_in)))
  ]
    where
      same : slot q.items (add_size q.tail 1) ≡ q.head
      same = ground arith

  pub Rep-put : (x : A) → length xs + 1 < 2 ^ k → Rep k (put q x) (xs ++ x ∷ [])
  unfolding put
  Rep-put x lt = record {
    size = length-set q.items q.tail (some x) ∙ size;
    fits = fits;
    head_in = head_in;
    tail_at = next_tail ∙ ap (λ t. t % 2 ^ k) (omega (arith, length-append xs (x ∷ [])));
    room = omega (arith, length-append xs (x ∷ []));
    cells = rw (map-append_one some xs x) (
        Cells-set none k q.items q.head q.tail cells_list (some x) size (rw length-cells room)
          (rw length-cells tail_at) cells);
  }

  pub Rep-grow :
      length xs + 1 ≡ 2 ^ k → mul_size (length q.items) 2 ≤ 2 ^ 60 → Rep (suc k) (grow q) xs
  unfolding grow
  Rep-grow e le = record {
    size = length-copy none _ _ q.items _ _ _ ∙ length-replicate _ none ∙ doubled;
    fits = omega (arith, doubled);
    head_in = two-pow-pos (suc k);
    tail_at = omega (
      arith,
      size,
      pow-suc 2 k,
      mod-eq_of_lt {n = 0 + length xs} {m = 2 ^ suc k} (omega (arith, pow-suc 2 k)),
    );
    room = omega (arith, pow-suc 2 k);
    cells =
        subst
          (λ n. Cells none (suc k) (copy none (λ i. i) from_slot q.items n 0 fresh) 0 cells_list)
          whole (Cells-prefix none (suc k) _ 0 cells_list (oldest ∷ []) copied);
  }
    where
      doubled : mul_size (length q.items) 2 ≡ 2 ^ suc k
      doubled = omega (arith, size, pow-suc 2 k)

      oldest : Option A
      oldest = get_or q.items ((q.head + length cells_list) % 2 ^ k) none

      ys : List (Option A)
      ys = cells_list ++ oldest ∷ []

      whole : length ys ≡ length q.items
      whole = omega (arith, length-append cells_list (oldest ∷ []), length-cells, size)

      from_slot : ℕ → ℕ
      from_slot i = slot q.items (add_size i q.head)

      fresh : List (Option A)
      fresh = replicate (mul_size (length q.items) 2) none

      copied : Cells none (suc k) (copy none (λ i. i) from_slot q.items (length ys) 0 fresh) 0 ys
      copied =
          copy-Cells none (λ i. i) from_slot q.items (suc k) k ys [] fresh 0 q.head 0
            (length-replicate _ none ∙ doubled) (omega (arith, whole, size, pow-suc 2 k))
            (omega arith) (record { track = to_track }) (record { track = from_track }) tt
            (Cells-extend none k q.items q.head cells_list cells)
        where
          to_track : (m : ℕ) → m < length ys → add_size 0 m ≡ (0 + 0 + m) % 2 ^ suc k
          to_track m lt = omega (
            arith,
            whole,
            size,
            pow-suc 2 k,
            mod-eq_of_lt {n = 0 + 0 + m} {m = 2 ^ suc k} (omega (arith, whole, size, pow-suc 2 k)),
          )

          from_track : (m : ℕ) → m < length ys → from_slot (add_size 0 m) ≡ (q.head + m) % 2 ^ k
          from_track m lt =
              slot-mod none k q.items (add_size (add_size 0 m) q.head) size
              ∙ ap (λ t. t % 2 ^ k) (omega (arith, whole, size))

module _ {ℓ} {A : Type ℓ} {k : ℕ} {q : FifoQueue A} where
  pub head-eq-tail : Rep k q [] → (q.head == q.tail) ≡ true
  head-eq-tail r =
      let e : q.tail ≡ q.head =
        r.tail_at ∙ ap (λ t. t % 2 ^ k) (omega arith) ∙ mod-eq_of_lt r.head_in in
      (==_iff q.head q.tail).1 (sym e)

  pub head-ne-tail : {x : A} {xs : List A} → Rep k q (x ∷ xs) → (q.head == q.tail) ≡ false
  head-ne-tail {xs} r = ==_ne (λ e.
      add-mod-ne (2 ^ k) q.head (suc (length xs)) (omega arith) r.room
        (sym r.tail_at ∙ sym e ∙ sym (mod-eq_of_lt r.head_in)))

  pub head_cell : {x : A} {xs : List A} → Rep k q (x ∷ xs) → get_or q.items q.head none ≡ some x
  head_cell r = ap (λ p. get_or q.items p none) (sym (mod-eq_of_lt r.head_in)) ∙ r.cells.0

  pub Rep-next :
      {x : A} {xs : List A}
      → Rep k q (x ∷ xs)
      → Rep k (record q { head = slot q.items (add_size q.head 1) }) xs
  Rep-next {x} {xs} r = record {
    size = r.size;
    fits = r.fits;
    head_in = rw next (mod-lt (q.head + 1) (two-pow-pos k));
    tail_at = rw next (
        r.tail_at
        ∙ ap (λ t. t % 2 ^ k) (omega arith)
        ∙ sym (mod-add-mod (q.head + 1) (2 ^ k) (length xs)));
    room = omega (arith, r.room);
    cells =
        Cells-mod none k q.items (q.head + 1) (slot q.items (add_size q.head 1)) (map some xs)
          (sym (ap (λ t. t % 2 ^ k) next ∙ mod-mod (q.head + 1) (2 ^ k))) r.cells.1;
  }
    where
      next : slot q.items (add_size q.head 1) ≡ (q.head + 1) % 2 ^ k
      next = slot-next none k q.items q.head q.head r.size r.fits (sym (mod-eq_of_lt r.head_in))
