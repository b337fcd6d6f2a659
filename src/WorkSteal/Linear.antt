-- ===== src/WorkSteal/Linear.antt =====
-- The deque that the threads see: a list of handles, at whose end the owner pushes and pops, and
-- from whose front thieves take.
use asyncplusplus_1_1_annota.Base.{
  ℕ, suc, zero, ◌+◌, ◌-◌, ◌≤◌, ◌≡◌, List, [], ◌∷◌, ◌++◌, count, count-append, arith, ap, refl,
  ==_ne, ◌==◌, false,
}
use asyncplusplus_1_1_annota.WorkSteal.{
  Owner, stored, racing, won, restoring, State, update, collect,
}

-- `gone` are the handles that have left the deque, the last one first.
pub record View : Type 0 where
  pub here : List ℕ
  pub gone : List ℕ
  pub added : List ℕ

-- What a step belongs to.
pub data Operation : Type 0 where
  pushes pops steals : Operation

-- What one step of an operation may do to the deque: only a push appends, only a pop takes the newest
-- handle, and only a steal takes the oldest one.
pub data Change (v : View) : Operation → View → Type 0 where
  none : {o : Operation} → Change v o v
  push_back :
      (x : ℕ)
      → Change v pushes (record { here = v.here ++ x ∷ []; gone = v.gone; added = x ∷ v.added })
  pop_back :
      (xs : List ℕ) (x : ℕ)
      → v.here ≡ xs ++ x ∷ []
      → Change v pops (record { here = xs; gone = x ∷ v.gone; added = v.added })
  pop_front :
      (x : ℕ) (xs : List ℕ)
      → v.here ≡ x ∷ xs
      → Change v steals (record { here = xs; gone = x ∷ v.gone; added = v.added })

-- The end of the deque: from the first store of `pop` to `bottom` on, the handle there is still in
-- the deque until `pop` has found that no thief can take it.
abbrev pub end : Owner → ℕ → ℕ
end (stored b) bottom = bottom + 1
end (racing b t x) bottom = bottom + 1
end (won b x) bottom = bottom + 1
end (restoring b) bottom = bottom + 1
end _ bottom = bottom

-- The handle that `pop` has won and is about to return.
abbrev pub in_hand : Owner → List ℕ → List ℕ
in_hand (won b x) taken = collect x taken
in_hand _ taken = taken

-- `n` handles from index `p` on.
abbrev pub window : (ℕ → ℕ) → ℕ → ℕ → List ℕ
window values p zero = []
window values p (suc n) = values p ∷ window values (p + 1) n

abbrev pub view : State → View
view s = record {
  here = window s.values s.top (end s.owner s.bottom - s.top);
  gone = in_hand s.owner s.taken;
  added = s.pushed;
}

pub window-update :
    (values : ℕ → ℕ) (b x p n : ℕ) → p + n ≤ b → window (update values b x) p n ≡ window values p n
window-update values b x p zero le = refl
window-update values b x p (suc n) le =
    let ne : (p == b) ≡ false = ==_ne (λ e. omega arith) in
    rw (ne, window-update values b x (p + 1) n (omega arith)) refl

pub window-snoc :
    (values : ℕ → ℕ) (p n : ℕ) → window values p (suc n) ≡ window values p n ++ values (p + n) ∷ []
window-snoc values p zero = ap (λ q. values q ∷ []) (omega arith)
window-snoc values p (suc n) =
    let e : p + suc n ≡ p + 1 + n = omega arith in
    rw e (ap (λ r. values p ∷ r) (window-snoc values (p + 1) n))

-- The changes, up to equal parts.
module _ {here here' gone gone' added : List ℕ} where
  pub Change-none :
      {o : Operation}
      → here' ≡ here
      → gone' ≡ gone
      → Change
          (record { here = here; gone = gone; added = added })
          o
          (record { here = here'; gone = gone'; added = added })
  Change-none h g = rw (h, g) none

  pub Change-push_back :
      (x : ℕ)
      → here' ≡ here ++ x ∷ []
      → gone' ≡ gone
      → Change
          (record { here = here; gone = gone; added = added })
          pushes
          (record { here = here'; gone = gone'; added = x ∷ added })
  Change-push_back x h g = rw (h, g) (push_back x)

  pub Change-pop_back :
      (x : ℕ)
      → here ≡ here' ++ x ∷ []
      → gone' ≡ x ∷ gone
      → Change
          (record { here = here; gone = gone; added = added })
          pops
          (record { here = here'; gone = gone'; added = added })
  Change-pop_back x h g = rw g (pop_back here' x h)

-- A change keeps the handles: each one added is still there, or has left.
pub Change-count :
    {v w : View} {o : Operation} (x : ℕ)
    → Change v o w
    → count x v.here + count x v.gone ≡ count x v.added
    → count x w.here + count x w.gone ≡ count x w.added
Change-count x none e = e
Change-count {v} x (push_back y) e = omega (arith, count-append x v.here (y ∷ []), e)
Change-count x (pop_back xs y same) e =
    omega (arith, count-append x xs (y ∷ []), e, ap (count x) same)
Change-count x (pop_front y xs same) e = omega (arith, e, ap (count x) same)
