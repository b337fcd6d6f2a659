-- ===== src/WorkSteal/Array.antt =====
-- The circular array: a put leaves the other cells alone, and a larger array has the same handles.
use native.Mathlib.Nat.{pow-suc, mod-lt}
use asyncplusplus_1_1_annota.Base.{
  ℕ, zero, suc, ◌+◌, ◌-◌, ◌%◌, ◌^◌, ◌≤◌, ◌<◌, ◌≡◌, ◌≢◌, sym, ap, ◌∙◌, subst, Option, none, some,
  List, [], map, Bool-cases, inl, inr, ◌==◌, ==_iff, arith, length, length-map, length-set,
  length-replicate, replicate, get_or-set_self, get_or-set_ne, set, get_or,
}
use asyncplusplus_1_1_annota.Base.Masks.{two-pow-pos, two-pow-le}
use asyncplusplus_1_1_annota.Base.Words.{sub_size, mul_size, add_size}
use asyncplusplus_1_1_annota.Ring.{slot, copy}
use asyncplusplus_1_1_annota.Ring.Cells.{Cells, slot-mod, add-mod-ne}
use asyncplusplus_1_1_annota.Ring.Copy.{copy-Cells, length-copy}
use asyncplusplus_1_1_annota.Deque.{get, array_put, grow}
use asyncplusplus_1_1_annota.WorkSteal.Linear.{window}
use asyncplusplus_1_1_annota.WorkSteal.Inv.{Holds}

module _ (k : ℕ) (array : List (Option ℕ)) (size : length array ≡ 2 ^ k) where
  pub get-put_self : (b : ℕ) (x : Option ℕ) → get (array_put array b x) b ≡ x
  get-put_self b x =
      ap (λ n. get_or (set array (slot array b) x) n none) same_slot
      ∙ get_or-set_self array (slot array b) x none
          (omega (arith, size, slot-mod none k array b size, mod-lt b (two-pow-pos k)))
    where
      same_slot : slot (array_put array b x) b ≡ slot array b
      same_slot =
          slot-mod none k (array_put array b x) b (length-set array (slot array b) x ∙ size)
          ∙ sym (slot-mod none k array b size)

  pub get-put_ne :
      (b p : ℕ) (x : Option ℕ) → p < b → b < p + 2 ^ k → get (array_put array b x) p ≡ get array p
  get-put_ne b p x lt near =
      ap (λ n. get_or (set array (slot array b) x) n none) same_slot
      ∙ get_or-set_ne array x none other
    where
      same_slot : slot (array_put array b x) p ≡ slot array p
      same_slot =
          slot-mod none k (array_put array b x) p (length-set array (slot array b) x ∙ size)
          ∙ sym (slot-mod none k array p size)

      other : slot array b ≢ slot array p
      other e =
          let at : (p + (b - p)) % 2 ^ k ≡ p % 2 ^ k =
            ap (λ n. n % 2 ^ k) (omega arith)
            ∙ sym (slot-mod none k array b size)
            ∙ e
            ∙ slot-mod none k array p size in
          add-mod-ne (2 ^ k) p (b - p) (omega arith) (omega arith) at

  pub Holds-Cells :
      (values : ℕ → ℕ) (p n : ℕ)
      → Holds array values p (p + n)
      → Cells none k array p (map some (window values p n))
  Holds-Cells values p zero h = tt
  Holds-Cells values p (suc n) h = (
    ap (λ i. get_or array i none) (sym (slot-mod none k array p size))
        ∙ h.at p (omega arith) (omega arith),
    Holds-Cells values (p + 1) n (record { at = λ q le lt. h.at q (omega arith) (omega arith) }),
  )

  pub Cells-Holds :
      (values : ℕ → ℕ) (p n : ℕ)
      → Cells none k array p (map some (window values p n))
      → Holds array values p (p + n)
  Cells-Holds values p zero c = record { at = λ q le lt. absurd (omega arith) }
  Cells-Holds values p (suc n) c = record {
    at = λ q le lt. elim (Bool-cases (q == p)) [
      | inl same ↦
          let e : q ≡ p = (==_iff q p).0 same in
          rw e (ap (λ i. get_or array i none) (slot-mod none k array p size) ∙ c.0)
      | inr other ↦
          let later : p + 1 ≤ q = ground (arith, ==_iff q p) in
          (Cells-Holds values (p + 1) n c.1).at q later (omega arith)
    ];
  }

pub length-window : (values : ℕ → ℕ) (p n : ℕ) → length (window values p n) ≡ n
length-window values p zero = omega arith
length-window values p (suc n) = omega (arith, length-window values (p + 1) n)

module _ (k : ℕ) (array : List (Option ℕ)) (size : length array ≡ 2 ^ k) (lt : k < 62) where
  doubled : mul_size (length array) 2 ≡ 2 ^ suc k
  doubled = omega (arith, size, pow-suc 2 k, two-pow-le k 61 (omega arith))

  abbrev bigger : List (Option ℕ)
  bigger = replicate (mul_size (length array) 2) none

  bigger_size : length bigger ≡ 2 ^ suc k
  bigger_size = length-replicate _ none ∙ doubled

  pub length-grow : (t b : ℕ) → length (grow array t b) ≡ 2 ^ suc k
  unfolding grow
  length-grow t b =
      length-copy none (slot bigger) (slot array) array (sub_size b t) t bigger ∙ bigger_size

  -- `grow` copies the handles from `t` up to `b`.
  pub grow-Holds :
      (values : ℕ → ℕ) (t b : ℕ)
      → t ≤ b
      → b ≤ t + 2 ^ k
      → b < 2 ^ 62
      → Holds array values t b
      → Holds (grow array t b) values t b
  unfolding grow
  grow-Holds values t b le near small h =
      subst (λ e. Holds (grow array t b) values t e) upto
        (Cells-Holds (suc k) (grow array t b) (length-grow t b) values t (b - t) copied)
    where
      upto : t + (b - t) ≡ b
      upto = omega arith

      handles : List (Option ℕ)
      handles = map some (window values t (b - t))

      length-handles : length handles ≡ b - t
      length-handles = length-map _ (window values t (b - t)) ∙ length-window values t (b - t)

      rounds : length handles ≡ sub_size b t
      rounds = omega (arith, length-handles)

      source : Cells none k array t handles
      source =
          Holds-Cells k array size values t (b - t)
            (subst (λ e. Holds array values t e) (sym upto) h)

      copied : Cells none (suc k) (grow array t b) t handles
      copied =
          subst
            (λ n.
              Cells none (suc k) (copy none (slot bigger) (slot array) array n t bigger) t handles)
            rounds
            (copy-Cells none (slot bigger) (slot array) array (suc k) k handles [] bigger t t t
              bigger_size (omega (arith, length-handles, pow-suc 2 k)) (omega arith)
              (record {
                track = λ m more.
                    slot-mod none (suc k) bigger (add_size t m) bigger_size
                    ∙ ap (λ n. n % 2 ^ suc k) (omega (arith, length-handles));
              })
              (record {
                track = λ m more.
                    slot-mod none k array (add_size t m) size
                    ∙ ap (λ n. n % 2 ^ k) (omega (arith, length-handles));
              })
              tt source)
