-- ===== src/Ring/Cells.antt =====
-- What a circular array holds from an index on.
use native.Mathlib.Nat.{mod-lt, mod-eq_of_lt, mod-add-mod, mod-eq-sub-mod}
use asyncplusplus_1_1_annota.Base.{
  ℕ, suc, ◌+◌, ◌-◌, ◌%◌, ◌^◌, ◌≤◌, ◌<◌, ◌≡◌, sym, ap, ◌∙◌, ◌≢◌, List, [], ◌∷◌, ◌++◌, arith, length,
  get_or, set, get_or-set_self, get_or-set_ne, dec_lt,
}
use asyncplusplus_1_1_annota.Base.Masks.{two-pow-pos, bit_and-mask}
use asyncplusplus_1_1_annota.Base.Words.{add_size}
use asyncplusplus_1_1_annota.Ring.{slot}

-- Fewer than `n` steps round a ring of `n` do not come back to the start.
pub add-mod-ne : (n h j : ℕ) → 0 < j → j < n → (h + j) % n ≢ h % n
add-mod-ne n h j pos lt e = elim (dec_lt (h % n + j) n) [
  | yes small ↦ omega (arith, mod-add-mod h n j, mod-eq_of_lt small)
  | no big ↦ omega (
    arith,
    mod-add-mod h n j,
    mod-lt h {m = n} (omega arith),
    mod-eq-sub-mod {n = h % n + j} {m = n} (omega arith),
    mod-eq_of_lt {n = h % n + j - n} {m = n} (omega (arith, mod-lt h {m = n} (omega arith))),
  )
]

mod-add-congr : (n h h' j : ℕ) → h % n ≡ h' % n → (h + j) % n ≡ (h' + j) % n
mod-add-congr n h h' j e = sym (mod-add-mod h n j) ∙ ap (λ t. (t + j) % n) e ∙ mod-add-mod h' n j

module _ {ℓ} {A : Type ℓ} (d : A) (k : ℕ) where
  -- The cells from index `h` on, modulo `2 ^ k`, are those of the list.
  abbrev pub Cells : List A → ℕ → List A → Type ℓ
  Cells items h [] = Unit
  Cells items h (x ∷ xs) = (get_or items (h % 2 ^ k) d ≡ x) × Cells items (h + 1) xs

  pub slot-mod : (items : List A) (i : ℕ) → length items ≡ 2 ^ k → slot items i ≡ i % 2 ^ k
  slot-mod items i e = rw e (bit_and-mask k i)

  -- `(i + 1) & (size - 1)` at an index that stands for `p`.
  pub slot-next :
      (items : List A) (i p : ℕ)
      → length items ≡ 2 ^ k
      → 2 ^ k ≤ 2 ^ 60
      → i ≡ p % 2 ^ k
      → slot items (add_size i 1) ≡ (p + 1) % 2 ^ k
  slot-next items i p s fits e =
      slot-mod items (add_size i 1) s
      ∙ ap (λ t. t % 2 ^ k) (omega (arith, mod-lt p (two-pow-pos k)))
      ∙ ap (λ t. (t + 1) % 2 ^ k) e
      ∙ mod-add-mod p (2 ^ k) 1

  -- Only the index modulo the size counts.
  pub Cells-mod :
      (items : List A) (h h' : ℕ) (xs : List A)
      → h % 2 ^ k ≡ h' % 2 ^ k
      → Cells items h xs
      → Cells items h' xs
  Cells-mod items h h' [] e c = tt
  Cells-mod items h h' (x ∷ xs) e c =
      (rw (← e) c.0, Cells-mod items (h + 1) (h' + 1) xs (mod-add-congr (2 ^ k) h h' 1 e) c.1)

  pub Cells-prefix :
      (items : List A) (h : ℕ) (xs ys : List A) → Cells items h (xs ++ ys) → Cells items h xs
  Cells-prefix items h [] ys c = tt
  Cells-prefix items h (x ∷ xs) ys c = (c.0, Cells-prefix items (h + 1) xs ys c.1)

  -- The window extends to the next cell, whatever it holds.
  pub Cells-extend :
      (items : List A) (h : ℕ) (xs : List A)
      → Cells items h xs
      → Cells items h (xs ++ get_or items ((h + length xs) % 2 ^ k) d ∷ [])
  Cells-extend items h [] c = (ap (λ p. get_or items (p % 2 ^ k) d) (omega arith), tt)
  Cells-extend items h (x ∷ xs) c =
      let e : h + suc (length xs) ≡ h + 1 + length xs = omega arith in
      (c.0, rw e (Cells-extend items (h + 1) xs c.1))

  pub Cells-last :
      (items : List A) (h : ℕ) (xs : List A) (x : A)
      → Cells items h (xs ++ x ∷ [])
      → get_or items ((h + length xs) % 2 ^ k) d ≡ x
  Cells-last items h [] x c = ap (λ p. get_or items (p % 2 ^ k) d) (omega arith) ∙ c.0
  Cells-last items h (y ∷ xs) x c =
      ap (λ p. get_or items (p % 2 ^ k) d) (omega arith) ∙ Cells-last items (h + 1) xs x c.1

  -- A write outside the window leaves it alone.
  pub Cells-set_ne :
      (items : List A) (h i j : ℕ) (xs : List A) (v : A)
      → length xs ≤ j
      → j < 2 ^ k
      → i ≡ (h + j) % 2 ^ k
      → Cells items h xs
      → Cells (set items i v) h xs
  Cells-set_ne items h i j [] v le lt e c = tt
  Cells-set_ne items h i j (x ∷ xs) v le lt e c = (
    get_or-set_ne items v d (λ q. add-mod-ne (2 ^ k) h j (omega arith) lt (sym e ∙ q)) ∙ c.0,
    Cells-set_ne items (h + 1) i (j - 1) xs v (omega arith) (omega arith)
        (e ∙ ap (λ t. t % 2 ^ k) (omega arith)) c.1,
  )

  -- A write at the end of the window extends it.
  pub Cells-set :
      (items : List A) (h i : ℕ) (xs : List A) (v : A)
      → length items ≡ 2 ^ k
      → length xs < 2 ^ k
      → i ≡ (h + length xs) % 2 ^ k
      → Cells items h xs
      → Cells (set items i v) h (xs ++ v ∷ [])
  Cells-set items h i [] v s lt e c =
      let here : i ≡ h % 2 ^ k = e ∙ ap (λ t. t % 2 ^ k) (omega arith) in
      (rw (← here) (get_or-set_self items i v d (rw here (omega (arith, s, mod-lt h lt)))), tt)
  Cells-set items h i (x ∷ xs) v s lt e c = (
    get_or-set_ne items v d
          (λ q. add-mod-ne (2 ^ k) h (suc (length xs)) (omega arith) lt (sym e ∙ q))
        ∙ c.0,
    Cells-set items (h + 1) i xs v s (omega arith) (e ∙ ap (λ t. t % 2 ^ k) (omega arith)) c.1,
  )
