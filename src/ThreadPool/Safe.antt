-- ===== src/ThreadPool/Safe.antt =====
-- What the threads of a pool and its users rely on.
use asyncplusplus_1_1_annota.Base.{
  ℕ, zero, suc, ◌+◌, ◌≤◌, ◌<◌, ◌≡◌, ◌⊎◌, Bool, true, false, none, some, List, [], ◌∷◌, ◌++◌, ◌==◌,
  ==_iff, refl, arith, ap, count, ◌≢◌, Bool-cases, inl, inr,
}
use asyncplusplus_1_1_annota.WaitEvent.{is_set}
use asyncplusplus_1_1_annota.ThreadPool.State.{asleep, running, left, Pool, top, go, wake_last}
use asyncplusplus_1_1_annota.ThreadPool.Steps.{
  steal_task, loop, schedule, wait_handler, destructor, finish, Step, done_ready, done_signaled,
  not_done, pop_some, pop_none, shuffle, skip_self, steal_none, steal_some, no_victim, fetch_some,
  exit, fall_asleep, wake, woken_done, woken_again, returned, schedule_push, no_waiters,
  some_waiters, schedule_wake, wait_for, schedule_outside, destroy, task_finishes, signal_finished,
  Reach,
}
use asyncplusplus_1_1_annota.ThreadPool.Inv.{idle, stuck, listed, Drained, total}
use asyncplusplus_1_1_annota.ThreadPool.Kept.{wake_last-cases, Reach-Kept}
use asyncplusplus_1_1_annota.ThreadPool.Kept.Drains.{Reach-Drained}
use asyncplusplus_1_1_annota.ThreadPool.Kept.Handles.{Reach-Counted}

-- In every state that a pool can reach, every handle that was scheduled is in one queue, the public
-- one or that of a thread, or a thread has taken it to run it: once in all.
pub scheduled_once :
    {n : ℕ} {s : Pool}
    → Reach n s
    → (h : ℕ) → count h s.public_queue + total h n s.queue + count h s.ran ≡ count h s.accepted
scheduled_once r = Reach-Counted r

total-empty :
    (h n : ℕ) (queue : ℕ → List ℕ) → ((i : ℕ) → i < n → queue i ≡ []) → total h n queue ≡ 0
total-empty h zero queue empty = refl
total-empty h (suc n) queue empty =
    ground (arith, empty n, total-empty h n queue (λ i lt. empty i (omega arith)))

-- When every thread of a pool has returned from its loop, so that the destructor ends, the pool was
-- shut down, and every handle that was ever scheduled was run, once.
pub joined_all_run :
    {n : ℕ} {s : Pool}
    → 0 < n
    → Reach n s
    → ((i : ℕ) → i < n → (top s i).pc ≡ left)
    → (s.shutdown ≡ true) × ((h : ℕ) → count h s.ran ≡ count h s.accepted)
joined_all_run {n} {s} pos r all =
    let d : Drained n s = Reach-Drained pos r in
    (
      (d.each 0 pos).gone (all 0 pos),
      λ h. omega (
        arith,
        Reach-Counted r h,
        ap (count h) ((d.each 0 pos).gone_public (all 0 pos)),
        total-empty h n s.queue (λ i lt. (d.each i lt).own (ap idle (all i lt))),
      ),
    )

-- The event of a call of `thread_task_loop` is there, and is initialized, as long as it is in the
-- list of sleeping threads, or the task that is waited for has the continuation that signals it.
pub event_alive :
    {n : ℕ} {s : Pool}
    → Reach n s
    → (i d : ℕ) → ((s.call i d).registered ≡ true) ⊎ (0 < listed i d s.waiters)
    → (d ≤ s.depth i) × ((s.call i d).event.initialized ≡ true)
event_alive r i d (inl on) =
    let f = (Reach-Kept r).frames in (f.alive i d on, f.ready i d (f.added i d on))
event_alive {s} r i d (inr there) =
    let k = Reach-Kept r in
    ground (arith, k.waiting.bound i d, k.frames.ready_bed i d, there, ==_iff d (s.depth i))

wake_last-depth : (s : Pool) (i : ℕ) → (wake_last s).depth i ≡ s.depth i
wake_last-depth s i = wake_last-cases (λ t. t.depth i ≡ s.depth i) s (λ e. refl) (λ z e. refl)

-- When a call of `thread_task_loop` in `threadpool_wait_handler` returns, the task that it waits
-- for has finished.
pub wait_returns_finished :
    {n : ℕ} {s t : Pool}
    → Reach n s
    → Step n s t
    → (i : ℕ) → t.depth i < s.depth i
    → (w : ℕ) × ((top s i).wait_task ≡ some w) × (s.finished w ≡ true)
wait_returns_finished {s} r (loop (done_ready i w e lt at waits fresh over deep)) m lt' =
    elim (Bool-cases (m == i)) [
      | inl same ↦ let e' : m ≡ i = (==_iff m i).0 same in rw e' (w, waits, over)
      | inr other ↦ absurd (ground (arith, other, lt'))
    ]
wait_returns_finished {s} r (loop (done_signaled i w e lt at waits old over deep)) m lt' =
    elim (Bool-cases (m == i)) [
      | inl same ↦
          let e' : m ≡ i = (==_iff m i).0 same in
          rw e' (w, waits, (Reach-Kept r).frames.heard i (s.depth i) w (ground (arith, over)) waits)
      | inr other ↦ absurd (ground (arith, other, lt'))
    ]
wait_returns_finished r (loop (not_done i lt at going)) m lt' = absurd (omega arith)
wait_returns_finished r (loop (pop_some i h lt at e)) m lt' = absurd (omega arith)
wait_returns_finished r (loop (pop_none i lt at e)) m lt' = absurd (omega arith)
wait_returns_finished r (steal_task (shuffle i victims lt at perm)) m lt' = absurd (omega arith)
wait_returns_finished r (steal_task (skip_self i {vs} lt at)) m lt' = absurd (omega arith)
wait_returns_finished r (steal_task (steal_none i {vs} lt at)) m lt' = absurd (omega arith)
wait_returns_finished r (steal_task (steal_some i h {j} {hs} lt at ne below e)) m lt' =
    absurd (omega arith)
wait_returns_finished r (steal_task (no_victim i lt at)) m lt' = absurd (omega arith)
wait_returns_finished r (loop (fetch_some i h {hs} lt at e)) m lt' = absurd (omega arith)
wait_returns_finished r (loop (exit i lt at e down)) m lt' = absurd (omega arith)
wait_returns_finished r (loop (fall_asleep i lt at e up)) m lt' = absurd (omega arith)
wait_returns_finished r (loop (wake i lt at on)) m lt' = absurd (omega arith)
wait_returns_finished {s} r (loop (woken_done i w e lt at waits over deep)) m lt' =
    elim (Bool-cases (m == i)) [
      | inl same ↦
          let e' : m ≡ i = (==_iff m i).0 same in
          rw e'
            (w, waits, (Reach-Kept r).frames.heard i (s.depth i) w (ground (arith, at, over)) waits)
      | inr other ↦ absurd (ground (arith, other, lt'))
    ]
wait_returns_finished r (loop (woken_again i lt at going)) m lt' = absurd (omega arith)
wait_returns_finished r (loop (returned i lt at)) m lt' = absurd (omega arith)
wait_returns_finished r (schedule (schedule_push i h lt at)) m lt' = absurd (omega arith)
wait_returns_finished r (schedule (no_waiters i lt at e)) m lt' = absurd (omega arith)
wait_returns_finished r (schedule (some_waiters i lt at e)) m lt' = absurd (omega arith)
wait_returns_finished {s} r (schedule (schedule_wake i lt at)) m lt' =
    absurd (omega (arith, wake_last-depth (go s i running) m))
wait_returns_finished r (wait_handler (wait_for i w lt at)) m lt' =
    absurd (ground (arith, lt', ==_iff m i))
wait_returns_finished {s} r (schedule (schedule_outside h up)) m lt' = absurd (
    omega (
      arith,
      wake_last-depth
          (record s { public_queue = s.public_queue ++ h ∷ []; accepted = h ∷ s.accepted }) m,
    ))
wait_returns_finished r (destructor (destroy up)) m lt' = absurd (omega arith)
wait_returns_finished r (finish (task_finishes w)) m lt' = absurd (omega arith)
wait_returns_finished r (finish (signal_finished i e w on waits over)) m lt' = absurd (omega arith)

all-or-one :
    (b : ℕ → Bool) (n : ℕ) → ((i : ℕ) → i < n → b i ≡ true) ⊎ ((i : ℕ) × (i < n) × (b i ≡ false))
all-or-one b zero = inl (λ i lt. absurd (omega arith))
all-or-one b (suc n) = elim (Bool-cases (b n)) [
  | inr other ↦ inr (n, omega arith, other)
  | inl yes' ↦ elim (all-or-one b n) [
    | inr (i, lt, other) ↦ inr (i, omega arith, other)
    | inl all ↦ inl (λ i lt. elim (Bool-cases (i == n)) [
      | inl same ↦ let e : i ≡ n = (==_iff i n).0 same in rw e yes'
      | inr other ↦ all i (ground (arith, other, ==_iff i n))
    ])
  ]
]

-- A pool with a handle in its public queue has a thread that neither has returned from its loop
-- nor sleeps with no event pending.
pub public_has_thread :
    {n : ℕ} {s : Pool}
    → 0 < n
    → Reach n s
    → s.public_queue ≢ []
    → (i : ℕ) × (i < n) × (stuck (top s i) ≡ false)
public_has_thread {n} {s} pos r some_handle = elim (all-or-one (λ i. stuck (top s i)) n) [
  | inl all ↦ absurd (some_handle ((Reach-Drained pos r).lost all))
  | inr one ↦ one
]

-- In a pool that is shut down, a worker that sleeps outside any task has an event pending.
pub shutdown_wakes :
    {n : ℕ} {s : Pool}
    → 0 < n
    → Reach n s
    → s.shutdown ≡ true
    → (i : ℕ) → i < n
    → (top s i).pc ≡ asleep
    → (top s i).wait_task ≡ none
    → is_set (top s i).event ≡ true
shutdown_wakes pos r down i lt = ((Reach-Drained pos r).each i lt).shut down
