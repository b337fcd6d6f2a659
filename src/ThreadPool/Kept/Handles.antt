-- ===== src/ThreadPool/Kept/Handles.antt =====
-- Every handle that is scheduled stays in one queue until a thread takes it to run it.
use asyncplusplus_1_1_annota.Base.{
  ℕ, zero, suc, ◌+◌, ◌≡◌, none, some, List, [], ◌∷◌, ◌++◌, back, but_last, ◌==◌, if◌then◌else◌,
  refl, arith, sym, ◌∙◌, ap, count, count-append, snoc-cases, some_inj,
}
use asyncplusplus_1_1_annota.ThreadPool.State.{running, Pool, top, put, wake_last}
use asyncplusplus_1_1_annota.ThreadPool.Steps.{
  steal_task, loop, schedule, wait_handler, destructor, finish, Step, done_ready, done_signaled,
  not_done, pop_some, pop_none, shuffle, skip_self, steal_none, steal_some, no_victim, fetch_some,
  exit, fall_asleep, wake, woken_done, woken_again, returned, schedule_push, no_waiters,
  some_waiters, schedule_wake, wait_for, schedule_outside, destroy, task_finishes, signal_finished,
  Reach, here, next,
}
use asyncplusplus_1_1_annota.ThreadPool.Inv.{Counted, total}
use asyncplusplus_1_1_annota.ThreadPool.Inv.Emptied.{total-update}
use asyncplusplus_1_1_annota.ThreadPool.Kept.{wake_last-cases}

count-back :
    (h x : ℕ) (xs : List ℕ)
    → back xs ≡ some x
    → count h xs ≡ (if h == x then 1 else 0) + count h (but_last xs)
count-back h x [] e = absurd (let both : none ≡ some x = e in cc)
count-back h x (y ∷ ys) e =
    let (front_part, z, whole, last, init) = snoc-cases y ys in
    let same_one : z ≡ x = some_inj (sym last ∙ e) in
    ground
      (arith, ap (count h) whole, ap (count h) init, count-append h front_part (z ∷ []), same_one)

wake_last-Counted : (n : ℕ) (s : Pool) → Counted n s → Counted n (wake_last s)
wake_last-Counted n s c = wake_last-cases (Counted n) s (λ e. c) (λ z last. c)

Step-Counted : {n : ℕ} {s t : Pool} → Counted n s → Step n s t → Counted n t
Step-Counted {n} {s} c (loop (pop_some i x lt at e)) = λ h.
    ground (
      arith,
      c h,
      count-back h x (s.queue i) e,
      total-update h s.queue i (but_last (s.queue i)) n lt,
    )
Step-Counted {n} {s} c (steal_task (steal_some i x {j} {hs} lt at ne below e)) =
    λ h. ground (arith, c h, e, total-update h s.queue j hs n below)
Step-Counted {n} {s} c (loop (fetch_some i x {hs} lt at e)) = λ h. ground (arith, c h, e)
Step-Counted {n} {s} c (schedule (schedule_push i x lt at)) = λ h. ground (
  arith,
  c h,
  count-append h (s.queue i) (x ∷ []),
  total-update h s.queue i (s.queue i ++ x ∷ []) n lt,
)
Step-Counted {n} {s} c (schedule (schedule_outside x up)) =
    wake_last-Counted n
      (record s { public_queue = s.public_queue ++ x ∷ []; accepted = x ∷ s.accepted })
      (λ h. ground (arith, c h, count-append h s.public_queue (x ∷ [])))
Step-Counted {n} {s} c (schedule (schedule_wake i lt at)) =
    wake_last-Counted n
      (record s { call = put s.call i (s.depth i) (record (top s i) { pc = running }) }) c
Step-Counted c (loop (done_ready i w e lt at waits fresh over deep)) = c
Step-Counted c (loop (done_signaled i w e lt at waits old over deep)) = c
Step-Counted c (loop (not_done i lt at going)) = c
Step-Counted c (loop (pop_none i lt at e)) = c
Step-Counted c (steal_task (shuffle i victims lt at perm)) = c
Step-Counted c (steal_task (skip_self i lt at)) = c
Step-Counted c (steal_task (steal_none i lt at)) = c
Step-Counted c (steal_task (no_victim i lt at)) = c
Step-Counted c (loop (exit i lt at e down)) = c
Step-Counted c (loop (fall_asleep i lt at e up)) = c
Step-Counted c (loop (wake i lt at on)) = c
Step-Counted c (loop (woken_done i w e lt at waits over deep)) = c
Step-Counted c (loop (woken_again i lt at going)) = c
Step-Counted c (loop (returned i lt at)) = c
Step-Counted c (schedule (no_waiters i lt at e)) = c
Step-Counted c (schedule (some_waiters i lt at e)) = c
Step-Counted c (wait_handler (wait_for i w lt at)) = c
Step-Counted c (destructor (destroy up)) = c
Step-Counted c (finish (task_finishes w)) = c
Step-Counted c (finish (signal_finished i e w on waits over)) = c

total-new : (h n : ℕ) → total h n (λ _. []) ≡ 0
total-new h zero = refl
total-new h (suc n) = omega (arith, total-new h n)

pub Reach-Counted : {n : ℕ} {s : Pool} → Reach n s → Counted n s
Reach-Counted {n} here = λ h. omega (arith, total-new h n)
Reach-Counted (next r st) = Step-Counted (Reach-Counted r) st
