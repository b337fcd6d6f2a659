-- ===== src/ContinuationVector/Once.antt =====
-- Every continuation that `try_add` accepts is passed to `flush_and_lock` once, and none after it.
use asyncplusplus_1_1_annota.Base.{ℕ, ◌+◌, ◌≡◌, [], count, if◌then◌else◌, refl, arith}
use asyncplusplus_1_1_annota.ContinuationVector.{
  try_add, flush_and_lock, done, State, Step, load, refuse, use_vector, first, second, second_again,
  win_first, win_second, lose, take, too_late, in_time, push, flush_load, flush_win, flush_lose,
  give, flush_take, flush_all, Reach, here, next,
}
use asyncplusplus_1_1_annota.ContinuationVector.Inv.{is_added, conts, Inv, new-Inv}
use asyncplusplus_1_1_annota.ContinuationVector.Adder.{
  load-Inv, lose-Inv, refuse-Inv, use_vector-Inv, first-Inv, second_again-Inv, in_time-Inv,
}
use asyncplusplus_1_1_annota.ContinuationVector.Write.{
  second-Inv, win_first-Inv, win_second-Inv, take-Inv, too_late-Inv, push-Inv,
}
use asyncplusplus_1_1_annota.ContinuationVector.Flusher.{
  flush_load-Inv, flush_win-Inv, flush_lose-Inv, give-Inv, flush_take-Inv, flush_all-Inv,
}

Step-Inv : {s t : State} → Inv s → Step s t → Inv t
Step-Inv inv (try_add (load i e)) = load-Inv inv i e
Step-Inv inv (try_add (refuse i e)) = refuse-Inv inv i e
Step-Inv inv (try_add (use_vector i e)) = use_vector-Inv inv i e
Step-Inv inv (try_add (first i e)) = first-Inv inv i e
Step-Inv inv (try_add (second i e)) = second-Inv inv i e
Step-Inv inv (try_add (second_again i e)) = second_again-Inv inv i e
Step-Inv inv (try_add (win_first i e n o)) = win_first-Inv inv i e n o
Step-Inv inv (try_add (win_second i e n o)) = win_second-Inv inv i e n o
Step-Inv inv (try_add (lose i e)) = lose-Inv inv i e
Step-Inv inv (try_add (take i e f)) = take-Inv inv i e f
Step-Inv inv (try_add (too_late i e l)) = too_late-Inv inv i e
Step-Inv inv (try_add (in_time i e o)) = in_time-Inv inv i e o
Step-Inv inv (try_add (push i e)) = push-Inv inv i e
Step-Inv inv (flush_and_lock (flush_load e)) = flush_load-Inv inv e
Step-Inv inv (flush_and_lock (flush_win e n l)) = flush_win-Inv inv e n
Step-Inv inv (flush_and_lock (flush_lose e)) = flush_lose-Inv inv e
Step-Inv inv (flush_and_lock (give e)) = give-Inv inv e
Step-Inv inv (flush_and_lock (flush_take e f)) = flush_take-Inv inv e f
Step-Inv inv (flush_and_lock (flush_all e)) = flush_all-Inv inv e

pub Reach-Inv : {s : State} → Reach s → Inv s
Reach-Inv here = new-Inv
Reach-Inv (next r st) = Step-Inv (Reach-Inv r) st

-- In every state that the threads can reach, a continuation is either kept for `flush_and_lock` or
-- was passed to its function, once in all, if its `try_add` has returned true; and neither if it
-- has not.
pub accepted_once :
    {s : State}
    → Reach s
    → (i : ℕ) → count i (conts s) + count i s.flushed ≡ (if is_added (s.pc i) then 1 else 0)
accepted_once r i = (Reach-Inv r).counted i

-- Once `flush_and_lock` has returned, nothing is kept, and its function has received every
-- continuation whose `try_add` has returned true, once.
pub flush_gives_all :
    {s : State}
    → Reach s
    → s.flush ≡ done
    → (conts s ≡ []) × ((i : ℕ) → count i s.flushed ≡ (if is_added (s.pc i) then 1 else 0))
flush_gives_all {s} r over = (empty, λ i. ground (arith, accepted_once r i, empty))
  where
    empty : conts s ≡ []
    empty = (Reach-Inv r).emptied (rw over refl)

-- No step of another thread undoes the flush.
done-stays : {s t : State} → s.flush ≡ done → Step s t → (t.flush ≡ done) × (t.flushed ≡ s.flushed)
done-stays over (try_add (load i e)) = (over, refl)
done-stays over (try_add (refuse i e)) = (over, refl)
done-stays over (try_add (use_vector i e)) = (over, refl)
done-stays over (try_add (first i e)) = (over, refl)
done-stays over (try_add (second i e)) = (over, refl)
done-stays over (try_add (second_again i e)) = (over, refl)
done-stays over (try_add (win_first i e n o)) = (over, refl)
done-stays over (try_add (win_second i e n o)) = (over, refl)
done-stays over (try_add (lose i e)) = (over, refl)
done-stays over (try_add (take i e f)) = (over, refl)
done-stays over (try_add (too_late i e l)) = (over, refl)
done-stays over (try_add (in_time i e o)) = (over, refl)
done-stays over (try_add (push i e)) = (over, refl)
done-stays over (flush_and_lock (flush_load e)) = ground arith
done-stays over (flush_and_lock (flush_win e n l)) = ground arith
done-stays over (flush_and_lock (flush_lose e)) = ground arith
done-stays over (flush_and_lock (give e)) = ground arith
done-stays over (flush_and_lock (flush_take e f)) = ground arith
done-stays over (flush_and_lock (flush_all e)) = ground arith

-- Once `flush_and_lock` has returned, no step of any thread makes another `try_add` return true,
-- or passes another continuation to the function.
pub late_refused :
    {s t : State}
    → Reach s
    → s.flush ≡ done
    → Step s t
    → (t.flushed ≡ s.flushed) × ((i : ℕ) → is_added (t.pc i) ≡ is_added (s.pc i))
late_refused {s} {t} r over st =
    let (over', same) = done-stays over st in
    (
      same,
      λ i.
          ground
            (arith, same, (flush_gives_all r over).1 i, (flush_gives_all (next r st) over').1 i),
    )
