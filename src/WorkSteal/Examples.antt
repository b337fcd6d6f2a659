-- ===== src/WorkSteal/Examples.antt =====
-- The owner pushes one handle, and races a thief for it.
use asyncplusplus_1_1_annota.Base.{◌+◌, ◌≡◌, inr, [], ◌∷◌, count, refl, arith}
use asyncplusplus_1_1_annota.WorkSteal.{
  State, load, fits, write, publish, begin, store, race, lose, load_top, load_bottom, load_array,
  fetch, steal, push, pop, thief, Reach, here, next,
}
use asyncplusplus_1_1_annota.WorkSteal.Linear.{view, steals, Change}
use asyncplusplus_1_1_annota.WorkSteal.Once.{reachable_step-Change, taken_once, null_if_none}

abbrev one_pushed : (s : State) × Reach s
one_pushed = (
  _,
  next (next (next (next here (push (load 5 refl))) (push (fits refl refl))) (push (write refl)))
      (push (publish refl)),
)

-- Thread 1 has fetched the handle that the owner races for.
abbrev both_at : (s : State) × Reach s
both_at = (
  _,
  next
      (next
        (next
          (next
            (next
              (next (next (one_pushed.1) (thief 1 (load_top refl)))
                (thief 1 (load_bottom refl refl)))
              (thief 1 (load_array refl)))
            (thief 1 (fetch refl)))
          (pop (begin refl refl)))
        (pop (store refl)))
      (pop (race refl refl refl)),
)

abbrev stolen : (s : State) × Reach s
stolen = (_, next (both_at.1) (thief 1 (steal refl refl)))

abbrev lost : (s : State) × Reach s
lost = (_, next (stolen.1) (pop (lose refl refl)))

test_taken : (lost.0).taken ≡ 5 ∷ []
test_taken = refl

reachable_step-Change_example : Change (view (both_at.0)) steals (view (stolen.0))
reachable_step-Change_example =
    reachable_step-Change (both_at.1) (omega arith) (thief 1 (steal refl refl))

taken_once_example : count 5 (view (lost.0)).here + count 5 (view (lost.0)).gone ≡ 1
taken_once_example = taken_once (lost.1) (omega arith) 5

null_if_none_example : (view (lost.0)).here ≡ []
null_if_none_example = null_if_none (lost.1) (omega arith) (inr (0, refl))
