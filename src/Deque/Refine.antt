-- ===== src/Deque/Refine.antt =====
-- A deque behaves as the list of the handles that it holds: the owner works at its back, thieves
-- take from its front.
use native.Mathlib.Nat.{pow-suc}
use asyncplusplus_1_1_annota.Base.{
  ℕ, suc, ◌+◌, ◌*◌, ◌%◌, ◌^◌, ◌≤◌, ◌<◌, ◌≡◌, refl, sym, ap, ap₂, subst, ◌∙◌, ◌⊎◌, inl, inr, Bool,
  false, none, some, List, [], ◌∷◌, ◌++◌, map, arith, length, length-append, length-map, front,
  rest, back, but_last, snoc-cases, Bool-cases, leb, leb→le, dec_lt, ◌==◌, ==_iff, ==_refl, get_or,
  map-append_one,
}
use asyncplusplus_1_1_annota.Base.Words.{add_size, sub_size, mul_size}
use asyncplusplus_1_1_annota.Base.Int.{pos, ltb_ℤ}
use asyncplusplus_1_1_annota.Base.Masks.{two-pow-pos, two-pow-le, mod-word-mod}
use asyncplusplus_1_1_annota.Ring.Cells.{Cells, Cells-prefix, Cells-last, Cells-mod, slot-mod}
use asyncplusplus_1_1_annota.Deque.{
  Deque, to_signed, get, grow, is_full, is_empty, append, push, take_last, pop_stored, pop, steal,
  drain, destroy, new,
}
use asyncplusplus_1_1_annota.Deque.Rep.{
  Rep, Rep-append, Rep-grow, bottom-sub-top, to_signed-count, to_signed_small, slot_word,
}
use asyncplusplus_1_1_annota.Fifo.Refine.{IsBounded}

-- What `push` may do to a deque that holds `xs`.
abbrev pub Pushed {ℓ} : {A : Type ℓ} → (ℕ → Bool) → Deque A → List A → A → Type ℓ
Pushed {A} alloc q xs x =
    ((k' : ℕ) × (q' : Deque A) × (push alloc q x ≡ some q') × Rep k' q' (xs ++ x ∷ []))
    ⊎ ((push alloc q x ≡ none)
        × (length xs ≡ length q.items)
        × (alloc (mul_size (length q.items) 2) ≡ false))

nil_of_length {ℓ} : {A : Type ℓ} (xs : List A) → length xs ≡ 0 → xs ≡ []
nil_of_length [] e = refl
nil_of_length (x ∷ xs) e = absurd (omega arith)

doubles : (k : ℕ) → k ≤ 60 → mul_size (2 ^ k) 2 ≤ 2 ^ 60 → suc k ≤ 60
doubles k le fit = elim (dec_lt k 60) [
  | yes lt ↦ lt
  | no ge ↦
      let e : k ≡ 60 = omega arith in absurd (big (subst (λ n. mul_size (2 ^ n) 2 ≤ 2 ^ 60) e fit))
]
  where
    big : ¬ (2 ^ 60 * 2 % 2 ^ 64 ≤ 2 ^ 60)
    big h = omega arith

module _ {ℓ} {A : Type ℓ} {k : ℕ} {q : Deque A} {xs : List A} (r : Rep k q xs) where
  open r use {size, fits, room}

  small : 2 ^ k ≤ 2 ^ 60
  small = two-pow-le k 60 fits

  is_full-eq : is_full q ≡ leb (2 ^ k) (length xs)
  unfolding is_full
  is_full-eq =
      rw (to_signed-count r, to_signed_small (length q.items) (omega (arith, size, small)), size)
        (ground arith)

  -- The deque is seen empty exactly when it is.
  pub is_empty-eq : is_empty q ≡ leb (length xs) 0
  unfolding is_empty
  is_empty-eq = rw (to_signed-count r) (ground arith)

  pub not_empty : 0 < length xs → is_empty q ≡ false
  not_empty lt = is_empty-eq ∙ ground arith

  -- With an allocator that has no room for more than `2 ^ 60` pointers, `push` appends the handle
  -- at the owner's end; or it throws, and then the array was full and twice its size could not be
  -- had.
  pub push_at_back : (alloc : ℕ → Bool) (x : A) → IsBounded alloc → Pushed alloc q xs x
  unfolding push
  push_at_back alloc x bounded = elim (Bool-cases (is_full q)) [
    | inl e ↦ elim (Bool-cases (alloc (mul_size (length q.items) 2))) [
      | inl have ↦ inl (
        suc k,
        append (record q { items = grow q.items q.top q.bottom; previous = q.items ∷ q.previous })
            x,
        rw (e, have, push) refl,
        Rep-append
            (Rep-grow r (q.items ∷ q.previous)
              (doubles k fits (subst (λ n. mul_size n 2 ≤ 2 ^ 60) size (bounded _ have))))
            x (omega (arith, room, pow-suc 2 k, two-pow-pos k)),
      )
      | inr refused ↦ inr (
        rw (e, refused, push) refl,
        omega (arith, size, room, leb→le _ _ (sym is_full-eq ∙ e)),
        refused,
      )
    ]
    | inr e ↦ inl (k, append q x, rw (e, push) refl, Rep-append r x (ground (arith, is_full-eq)))
  ]

module _ {ℓ} {A : Type ℓ} {k : ℕ} {q : Deque A} where
  Rep-front :
      {x : A} {xs : List A}
      → Rep k q (x ∷ xs)
      → (get q.items q.top ≡ some x) × Rep k (record q { top = add_size q.top 1 }) xs
  Rep-front {x} {xs} r = (
    ap (λ p. get_or q.items p none) (slot-mod none k q.items q.top r.size) ∙ r.cells.0,
    record {
      size = r.size;
      fits = r.fits;
      top_in = omega arith;
      bottom_at = omega (arith, r.bottom_at);
      room = omega (arith, r.room);
      cells =
          Cells-mod none k q.items (q.top + 1) (add_size q.top 1) (map some xs)
            (sym (mod-word-mod k (q.top + 1) (omega (arith, r.fits)))) r.cells.1;
    },
  )

  -- `steal` takes the handle at the front, the oldest one, or none from an empty deque, and leaves
  -- the rest.
  pub steal_at_front :
      {xs : List A} → Rep k q xs → let (out, q') = steal q in (out ≡ front xs) × Rep k q' (rest xs)
  steal_at_front {xs} = cases xs
    where
      cases :
          (ys : List A)
          → Rep k q ys
          → let (out, q') = steal q in (out ≡ front ys) × Rep k q' (rest ys)
      cases [] r = unfold steal in rw (is_empty-eq r) (refl, r)
      cases (y ∷ ys) r = unfold steal in rw (not_empty r (omega arith)) (Rep-front r)

-- A deque of `ys` and, at the owner's end, `y`.
module _ {ℓ} {A : Type ℓ} {k : ℕ} {q : Deque A} (ys : List A) (y : A)
    (r : Rep k q (ys ++ y ∷ [])) where
  abbrev b : ℕ
  b = sub_size q.bottom 1

  len : length (ys ++ y ∷ []) ≡ length ys + 1
  len = length-append ys (y ∷ [])

  b_at : b ≡ (q.top + length ys) % 2 ^ 64
  b_at = omega (arith, len, small r, r.bottom_at, r.room)

  b-sub-top : sub_size b q.top ≡ length ys
  b-sub-top = omega (arith, len, small r, r.bottom_at, r.room, r.top_in)

  not_less : ltb_ℤ (to_signed (sub_size b q.top)) (pos 0) ≡ false
  not_less =
      rw (b-sub-top, to_signed_small (length ys) (omega (arith, len, small r, r.room)))
        (ground arith)

  newest : get q.items b ≡ some y
  newest = rw b_at (
      ap (λ p. get_or q.items p none)
        (slot_word k q.items (q.top + length ys) r.size (omega (arith, r.fits)))
      ∙ ap (λ n. get_or q.items ((q.top + n) % 2 ^ k) none)
          (sym (length-map (λ (a : A). some a) ys))
      ∙ Cells-last none k q.items q.top (map some ys) (some y)
          (subst (Cells none k q.items q.top) (map-append_one some ys y) r.cells))

  older : Rep k (record q { bottom = b }) ys
  older = record {
    size = r.size;
    fits = r.fits;
    top_in = r.top_in;
    bottom_at = b_at;
    room = omega (arith, len, r.room);
    cells =
        Cells-prefix none k q.items q.top (map some ys) (some y ∷ [])
          (subst (Cells none k q.items q.top) (map-append_one some ys y) r.cells);
  }

  none_older : b ≡ q.top → Rep k (record q { top = add_size q.top 1; bottom = add_size b 1 }) ys
  none_older e = rw (nil_of_length ys (omega (arith, b-sub-top, e))) (record {
    size = r.size;
    fits = r.fits;
    top_in = omega arith;
    bottom_at = omega arith;
    room = omega arith;
    cells = tt;
  })

  pop_stored_refines :
      let (out, q') = pop_stored (record q { bottom = b }) b q.top in (out ≡ some y) × Rep k q' ys
  unfolding pop_stored take_last
  pop_stored_refines = elim (Bool-cases (b == q.top)) [
    | inl e ↦ rw (not_less, e, ==_refl q.top) (newest, none_older ((==_iff b q.top).0 e))
    | inr e ↦ rw (not_less, e) (newest, older)
  ]

  pop_back : ((pop q).0 ≡ some y) × Rep k (pop q).1 ys
  unfolding pop
  pop_back = rw (not_empty r (omega (arith, len))) pop_stored_refines

module _ {ℓ} {A : Type ℓ} {k : ℕ} {q : Deque A} where
  -- `pop` takes the handle at the owner's end, the newest one, or none from an empty deque, and
  -- leaves the rest.
  pub pop_at_back :
      {xs : List A} → Rep k q xs → let (out, q') = pop q in (out ≡ back xs) × Rep k q' (but_last xs)
  pop_at_back {xs} = cases xs
    where
      cases :
          (ys : List A)
          → Rep k q ys
          → let (out, q') = pop q in (out ≡ back ys) × Rep k q' (but_last ys)
      cases [] r = unfold pop in rw (is_empty-eq r) (refl, r)
      cases (x ∷ xs') r =
          let (ys, y, whole, last, init) = snoc-cases x xs' in
          rw (last, init) (pop_back ys y (subst (Rep k q) whole r))

module _ {ℓ} {A : Type ℓ} {k : ℕ} where
  drain_refines :
      (q : Deque A) (xs : List A) → Rep k q xs → drain q.items (length xs) q.top ≡ map some xs
  unfolding drain
  drain_refines q [] r = refl
  drain_refines q (x ∷ xs) r =
      let f = Rep-front r in
      ap₂ ◌∷◌ f.0 (drain_refines (record q { top = add_size q.top 1 }) xs f.1)

  -- The destructor drops every handle that is still there, once each and oldest first.
  pub destroy_all : (q : Deque A) (xs : List A) → Rep k q xs → destroy q ≡ map some xs
  unfolding destroy
  destroy_all q xs r = rw (bottom-sub-top r) (drain_refines q xs r)

-- The constructor makes an empty deque.
pub new-Rep : (A : Type 0) → Rep {A = A} 5 (new A) []
unfolding new
new-Rep A = record {
  size = refl;
  fits = omega arith;
  top_in = omega arith;
  bottom_at = refl;
  room = omega arith;
  cells = tt;
}
