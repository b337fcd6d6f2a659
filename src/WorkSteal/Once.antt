-- ===== src/WorkSteal/Once.antt =====
-- The owner and the thieves see one deque, and no handle is taken twice or lost.
use asyncplusplus_1_1_annota.Base.{
  ℕ, ◌+◌, ◌-◌, ◌^◌, ◌≤◌, ◌<◌, ◌≡◌, ◌⊎◌, inl, inr, true, [], length, count, arith, refl, ap,
}
use asyncplusplus_1_1_annota.WorkSteal.{
  idle, restoring, none_left, State, Push, load, fits, fails, grows, write, publish, Pop, empty,
  begin, store, late, take, race, win, lose, keep, restore, Steal, load_top, leave, load_bottom,
  load_array, fetch, steal, again, Step, push, pop, thief, Reach, here, next,
}
use asyncplusplus_1_1_annota.WorkSteal.Linear.{
  end, window, view, Operation, pushes, pops, steals, Change, Change-count,
}
use asyncplusplus_1_1_annota.WorkSteal.Inv.{Inv, start-Inv, none_left-true}
use asyncplusplus_1_1_annota.WorkSteal.Thieves.{Steal-Inv, Steal-Change}
use asyncplusplus_1_1_annota.WorkSteal.Moves.{kept-here, end-here}
use asyncplusplus_1_1_annota.WorkSteal.Pushes.{Push-Inv, Push-Change}
use asyncplusplus_1_1_annota.WorkSteal.Pops.{Pop-Inv, Pop-Change}

Push-pushed : {s t : State} → Push s t → length s.pushed ≤ length t.pushed
Push-pushed (load x e) = omega arith
Push-pushed (fits e free) = omega arith
Push-pushed (fails e full) = omega arith
Push-pushed (grows e full) = omega arith
Push-pushed (write e) = omega arith
Push-pushed (publish e) = omega arith

Pop-pushed : {s t : State} → Pop s t → s.pushed ≡ t.pushed
Pop-pushed (empty e over) = refl
Pop-pushed (begin e more) = refl
Pop-pushed (store e) = refl
Pop-pushed (late e over) = refl
Pop-pushed (take e not_over more) = refl
Pop-pushed (race e not_over last) = refl
Pop-pushed (win e same) = refl
Pop-pushed (lose e moved) = refl
Pop-pushed (keep e) = refl
Pop-pushed (restore e) = refl

Steal-pushed : {i : ℕ} {s t : State} → Steal i s t → s.pushed ≡ t.pushed
Steal-pushed (load_top e) = refl
Steal-pushed (leave e over) = refl
Steal-pushed (load_bottom e more) = refl
Steal-pushed (load_array e) = refl
Steal-pushed (fetch e) = refl
Steal-pushed (steal e same) = refl
Steal-pushed (again e) = refl

Step-pushed : {s t : State} → Step s t → length s.pushed ≤ length t.pushed
Step-pushed (push st) = Push-pushed st
Step-pushed (pop st) = omega (arith, ap length (Pop-pushed st))
Step-pushed (thief i st) = omega (arith, ap length (Steal-pushed st))

Step-Inv : {s t : State} → Inv s → length s.pushed < 2 ^ 62 → Step s t → Inv t
Step-Inv inv small (push st) = Push-Inv inv small st
Step-Inv inv small (pop st) = Pop-Inv inv small st
Step-Inv inv small (thief i st) = Steal-Inv inv small i st

-- The operation that a step belongs to.
abbrev pub operation : {s t : State} → Step s t → Operation
operation (push st) = pushes
operation (pop st) = pops
operation (thief i st) = steals

Step-Change :
    {s t : State}
    → Inv s
    → length s.pushed < 2 ^ 62
    → (st : Step s t) → Change (view s) (operation st) (view t)
Step-Change inv small (push st) = Push-Change inv small st
Step-Change inv small (pop st) = Pop-Change inv small st
Step-Change inv small (thief i st) = Steal-Change inv small i st

small-before : {s t : State} → Step s t → length t.pushed < 2 ^ 62 → length s.pushed < 2 ^ 62
small-before st small = omega (arith, Step-pushed st)

pub Reach-Inv : {s : State} → Reach s → length s.pushed < 2 ^ 62 → Inv s
Reach-Inv here small = start-Inv
Reach-Inv (next r st) small =
    Step-Inv (Reach-Inv r (small-before st small)) (small-before st small) st

-- In every state that the threads can reach before 2 ^ 62 handles have been pushed, a step leaves the
-- deque that the threads see as it is, or, where it is a step of `push`, puts the handle being pushed
-- at its end, where it is one of `pop`, takes the handle at its end, the newest, and where it is one
-- of `steal`, takes the one at its front, the oldest.
pub reachable_step-Change :
    {s t : State}
    → Reach s
    → length s.pushed < 2 ^ 62
    → (st : Step s t) → Change (view s) (operation st) (view t)
reachable_step-Change r small st = Step-Change (Reach-Inv r small) small st

-- In every state that the threads can reach before 2 ^ 62 handles have been pushed, each pushed
-- handle is either in the deque or has been taken by one `pop` or `steal`, as often as it was
-- pushed.
pub taken_once :
    {s : State}
    → Reach s
    → length s.pushed < 2 ^ 62
    → (x : ℕ) → count x (view s).here + count x (view s).gone ≡ count x s.pushed
taken_once here small x = omega arith
taken_once (next r st) small x =
    Change-count x (reachable_step-Change r (small-before st small) st)
      (taken_once r (small-before st small) x)

-- When `pop` is about to return a null handle, before its first store or after the race for the
-- last handle, nothing is in the deque.
pub null_if_none :
    {s : State}
    → Reach s
    → length s.pushed < 2 ^ 62
    → (((s.owner ≡ idle) × (none_left s.bottom s.top ≡ true)) ⊎ ((b : ℕ) × (s.owner ≡ restoring b)))
    → (view s).here ≡ []
null_if_none {s} r small over = ap (window s.values s.top) none_here
  where
    none_here : end s.owner s.bottom - s.top ≡ 0
    none_here =
        let inv = Reach-Inv r small in
        elim over [
          | inl (e, test) ↦
              let le =
                none_left-true s.bottom s.top (omega (arith, inv.few, end-here inv e))
                  (omega (arith, inv.few, inv.order)) test in
              omega (arith, end-here inv e)
          | inr (b, e) ↦ omega (arith, end-here inv e, kept-here inv e)
        ]
