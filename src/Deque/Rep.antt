-- ===== src/Deque/Rep.antt =====
-- What a deque holds: a list of handles, from the end where thieves take to the owner's end.
use native.Mathlib.Nat.{pow-suc}
use asyncplusplus_1_1_annota.Base.{
  ℕ, suc, ◌+◌, ◌%◌, ◌^◌, ◌≤◌, ◌<◌, ◌≡◌, sym, ap, ◌∙◌, subst, Option, none, some, List, [], ◌∷◌,
  ◌++◌, map, arith, length, length-append, length-map, length-set, length-replicate, map-append_one,
  replicate,
}
use asyncplusplus_1_1_annota.Base.Words.{sub_size, mul_size}
use asyncplusplus_1_1_annota.Base.Int.{pos}
use asyncplusplus_1_1_annota.Base.Masks.{two-pow-le, mod-word-mod}
use asyncplusplus_1_1_annota.Ring.{slot, copy}
use asyncplusplus_1_1_annota.Ring.Cells.{Cells, Cells-set, slot-mod}
use asyncplusplus_1_1_annota.Ring.Copy.{copy-Cells, length-copy}
use asyncplusplus_1_1_annota.Deque.{Deque, to_signed, grow, append}

-- The array has `2 ^ k` cells, at most `2 ^ 60`, and holds `xs` from index `top` to `bottom`.
pub record Rep {ℓ} {A : Type ℓ} (k : ℕ) (q : Deque A) (xs : List A) : Type ℓ where
  pub size : length q.items ≡ 2 ^ k
  pub fits : k ≤ 60
  pub top_in : q.top < 2 ^ 64
  pub bottom_at : q.bottom ≡ (q.top + length xs) % 2 ^ 64
  pub room : length xs ≤ 2 ^ k
  pub cells : Cells none k q.items q.top (map some xs)

pub slot_word {ℓ} :
    {A : Type ℓ} (k : ℕ) (items : List (Option A)) (p : ℕ)
    → length items ≡ 2 ^ k
    → k ≤ 61
    → slot items (p % 2 ^ 64) ≡ p % 2 ^ k
slot_word k items p s le = slot-mod none k items (p % 2 ^ 64) s ∙ mod-word-mod k p (omega arith)

pub to_signed_small : (n : ℕ) → n < 2 ^ 63 → to_signed n ≡ pos n
to_signed_small n lt = ground arith

module _ {ℓ} {A : Type ℓ} {k : ℕ} {q : Deque A} {xs : List A} (r : Rep k q xs) where
  open r use {size, fits, top_in, bottom_at, room, cells}

  small : 2 ^ k ≤ 2 ^ 60
  small = two-pow-le k 60 fits

  -- `bottom - top` is the number of handles.
  pub bottom-sub-top : sub_size q.bottom q.top ≡ length xs
  bottom-sub-top = omega (arith, small)

  pub to_signed-count : to_signed (sub_size q.bottom q.top) ≡ pos (length xs)
  to_signed-count = rw bottom-sub-top (to_signed_small (length xs) (omega (arith, small)))

  pub Rep-append : (x : A) → length xs < 2 ^ k → Rep k (append q x) (xs ++ x ∷ [])
  unfolding append
  Rep-append x lt = record {
    size = length-set q.items (slot q.items q.bottom) (some x) ∙ size;
    fits = fits;
    top_in = top_in;
    bottom_at = omega (arith, length-append xs (x ∷ []), small);
    room = omega (arith, length-append xs (x ∷ []));
    cells = rw (map-append_one some xs x) (
        Cells-set none k q.items q.top (slot q.items q.bottom) (map some xs) (some x) size
          (omega (arith, length-map (λ (a : A). some a) xs)) at_bottom cells);
  }
    where
      at_bottom : slot q.items q.bottom ≡ (q.top + length (map (λ (a : A). some a) xs)) % 2 ^ k
      at_bottom =
          ap (slot q.items) bottom_at
          ∙ slot_word k q.items (q.top + length xs) size (omega arith)
          ∙ ap (λ n. (q.top + n) % 2 ^ k) (sym (length-map (λ (a : A). some a) xs))

  -- The copy into the larger array keeps the handles, at the same indices.
  pub Rep-grow :
      (older : List (List (Option A)))
      → suc k ≤ 60
      → Rep (suc k) (record q { items = grow q.items q.top q.bottom; previous = older }) xs
  unfolding grow
  Rep-grow older le = record {
    size = length-copy none _ _ q.items _ _ _ ∙ length-replicate _ none ∙ doubled;
    fits = le;
    top_in = top_in;
    bottom_at = bottom_at;
    room = omega (arith, pow-suc 2 k);
    cells =
        subst
          (λ n.
            Cells none (suc k) (copy none (slot bigger) (slot q.items) q.items n q.top bigger) q.top
              (map some xs))
          (length-map _ xs ∙ sym bottom-sub-top) copied;
  }
    where
      doubled : mul_size (length q.items) 2 ≡ 2 ^ suc k
      doubled = omega (arith, size, pow-suc 2 k, small)

      bigger : List (Option A)
      bigger = replicate (mul_size (length q.items) 2) none

      bigger_size : length bigger ≡ 2 ^ suc k
      bigger_size = length-replicate _ none ∙ doubled

      copied :
          Cells none
            (suc k)
            (copy none
              (slot bigger)
              (slot q.items)
              q.items
              (length (map (λ (a : A). some a) xs))
              q.top
              bigger)
            q.top
            (map some xs)
      copied =
          copy-Cells none (slot bigger) (slot q.items) q.items (suc k) k (map some xs) [] bigger
            q.top q.top q.top bigger_size
            (omega (arith, length-map (λ (a : A). some a) xs, pow-suc 2 k)) top_in
            (record {
              track = λ m lt.
                  slot_word (suc k) bigger (q.top + m) bigger_size (omega arith)
                  ∙ ap (λ t. t % 2 ^ suc k) (omega arith);
            })
            (record { track = λ m lt. slot_word k q.items (q.top + m) size (omega arith) }) tt cells
