-- ===== src/WorkSteal/Moves.antt =====
-- What the owner's steps have in common.
use asyncplusplus_1_1_annota.Base.{ℕ, ◌-◌, ◌<◌, ◌≡◌, Option, List, sym, ap, subst}
use asyncplusplus_1_1_annota.WorkSteal.{
  Owner, Thief, out, saw, some_left, has_array, has_task, State, to_owner, items,
}
use asyncplusplus_1_1_annota.WorkSteal.Linear.{
  end, in_hand, window, view, Operation, Change, Change-none,
}
use asyncplusplus_1_1_annota.WorkSteal.Inv.{Inv, Kept, Seen}

-- The end of the deque moves, but not in front of `top`.
pub Seen-end :
    (p : Thief) (arrays : ℕ → List (Option ℕ)) (array : ℕ) (values : ℕ → ℕ) (top last last' : ℕ)
    → (top < last → top < last')
    → Seen p arrays array values top last
    → Seen p arrays array values top last'
Seen-end out arrays array values top last last' more h = tt
Seen-end (saw t) arrays array values top last last' more h = h
Seen-end (some_left t) arrays array values top last last' more (le, left) =
    (le, λ e. rw (← e) (more (rw e (left e))))
Seen-end (has_array t a) arrays array values top last last' more (old, le, left) =
    (old, le, λ e. (rw (← e) (more (rw e (left e).0)), (left e).1))
Seen-end (has_task t x) arrays array values top last last' more (le, left) =
    (le, λ e. (rw (← e) (more (rw e (left e).0)), (left e).1))

module _ {s : State} (inv : Inv s) where
  open inv use {k, order, near, few, cells, kept, seen}

  pub kept-here : {o : Owner} → s.owner ≡ o → Kept o k (items s) s.values s.top s.bottom
  kept-here e = subst (λ p. Kept p k (items s) s.values s.top s.bottom) e kept

  pub end-here : {o : Owner} → s.owner ≡ o → end s.owner s.bottom ≡ end o s.bottom
  end-here e = ap (λ o. end o s.bottom) e

  pub hand-here : {o : Owner} → s.owner ≡ o → in_hand s.owner s.taken ≡ in_hand o s.taken
  hand-here e = ap (λ o. in_hand o s.taken) e

  -- A step that moves the owner and stores `bottom`, but not the end of the deque.
  pub stored-Inv :
      (o : Owner) (bottom : ℕ) (taken : List ℕ)
      → end s.owner s.bottom ≡ end o bottom
      → Kept o k (items s) s.values s.top bottom
      → Inv (record s { bottom = bottom; owner = o; taken = taken })
  stored-Inv o bottom taken same h = record {
    k = k;
    size = inv.size;
    fits = inv.fits;
    order = rw (← same) order;
    near = rw (← same) near;
    few = rw (← same) few;
    cells = rw (← same) cells;
    kept = h;
    seen = rw (← same) seen;
  }

  pub stored-Change :
      {op : Operation} (o : Owner) (bottom : ℕ) (taken : List ℕ)
      → end s.owner s.bottom ≡ end o bottom
      → in_hand s.owner s.taken ≡ in_hand o taken
      → Change (view s) op (view (record s { bottom = bottom; owner = o; taken = taken }))
  stored-Change o bottom taken same hand =
      Change-none (ap (λ n. window s.values s.top (n - s.top)) (sym same)) (sym hand)

  -- A step that only moves the owner.
  pub moved-Inv :
      (o : Owner)
      → end s.owner s.bottom ≡ end o s.bottom
      → Kept o k (items s) s.values s.top s.bottom
      → Inv (to_owner s o)
  moved-Inv o same h = stored-Inv o s.bottom s.taken same h

  pub moved-Change :
      {op : Operation} (o : Owner)
      → end s.owner s.bottom ≡ end o s.bottom
      → in_hand s.owner s.taken ≡ in_hand o s.taken
      → Change (view s) op (view (to_owner s o))
  moved-Change o same hand = stored-Change o s.bottom s.taken same hand
