-- ===== src/ThreadPool/Steps.antt =====
-- src/threadpool_scheduler.cpp: what each function does, in steps that no other thread interrupts.
use asyncplusplus_1_1_annota.Base.{
  ℕ, suc, ◌<◌, ◌≡◌, ◌≢◌, true, false, some, List, [], ◌∷◌, ◌++◌, back, count, ltb, but_last,
  if◌then◌else◌,
}
use asyncplusplus_1_1_annota.WaitEvent.{Mask, task_finished, is_set, clear, signal}
use asyncplusplus_1_1_annota.ThreadPool.State.{
  is_over, ends, Pool, asleep, begin_steal, check, exits, fetch, go, left, new, new_call, notify,
  notify_locked, popping, running, set_call, set_top, signal_all, sleep, stealing, top, unlist,
  update, wake_last, woken,
}

-- `steal_task`, with the victims in the order of the shuffle. A steal also finds nothing when the
-- queue's owner or another thief is in the midst of taking the last handle.
pub data StealTask (n : ℕ) (s : Pool) : Pool → Type 0 where
  shuffle :
      (i : ℕ) (victims : List ℕ)
      → i < n
      → (top s i).pc ≡ begin_steal
      → ((j : ℕ) → count j victims ≡ (if ltb j n then 1 else 0))
      → StealTask n s (go s i (stealing victims))
  skip_self :
      (i : ℕ) {vs : List ℕ}
      → i < n
      → (top s i).pc ≡ stealing (i ∷ vs)
      → StealTask n s (go s i (stealing vs))
  steal_none :
      (i : ℕ) {j : ℕ} {vs : List ℕ}
      → i < n
      → (top s i).pc ≡ stealing (j ∷ vs)
      → StealTask n s (go s i (stealing vs))
  steal_some :
      (i h : ℕ) {j : ℕ} {vs hs : List ℕ}
      → i < n
      → (top s i).pc ≡ stealing (j ∷ vs)
      → j ≢ i
      → j < n
      → s.queue j ≡ h ∷ hs
      → StealTask n s (record (go s i running) { queue = update s.queue j hs; ran = h ∷ s.ran })
  no_victim : (i : ℕ) → i < n → (top s i).pc ≡ stealing [] → StealTask n s (go s i fetch)

-- `thread_task_loop`: the check at the top, the local queue, the two sections under the lock, and
-- the return of the task that is run.
pub data ThreadTaskLoop (n : ℕ) (s : Pool) : Pool → Type 0 where
  done_ready :
      (i w d : ℕ)
      → i < n
      → (top s i).pc ≡ check
      → (top s i).wait_task ≡ some w
      → (top s i).added_continuation ≡ false
      → s.finished w ≡ true
      → s.depth i ≡ suc d
      → ThreadTaskLoop n s (record s { depth = update s.depth i d })
  done_signaled :
      (i w d : ℕ)
      → i < n
      → (top s i).pc ≡ check
      → (top s i).wait_task ≡ some w
      → (top s i).added_continuation ≡ true
      → (top s i).event.event_mask.finished ≡ true
      → s.depth i ≡ suc d
      → ThreadTaskLoop n s (record s { depth = update s.depth i d })
  not_done :
      (i : ℕ)
      → i < n
      → (top s i).pc ≡ check
      → is_over s.finished (top s i) ≡ false
      → ThreadTaskLoop n s (go s i popping)
  pop_some :
      (i h : ℕ)
      → i < n
      → (top s i).pc ≡ popping
      → back (s.queue i) ≡ some h
      → ThreadTaskLoop n s (record (go s i running) {
        queue = update s.queue i (but_last (s.queue i));
        ran = h ∷ s.ran;
      })
  pop_none :
      (i : ℕ)
      → i < n
      → (top s i).pc ≡ popping
      → s.queue i ≡ []
      → ThreadTaskLoop n s (go s i begin_steal)
  fetch_some :
      (i h : ℕ) {hs : List ℕ}
      → i < n
      → (top s i).pc ≡ fetch
      → s.public_queue ≡ h ∷ hs
      → ThreadTaskLoop n s (record (go s i running) { public_queue = hs; ran = h ∷ s.ran })
  exit :
      (i : ℕ)
      → i < n
      → (top s i).pc ≡ fetch
      → s.public_queue ≡ []
      → exits (top s i).wait_task s.shutdown ≡ true
      → ThreadTaskLoop n s (go s i left)
  fall_asleep :
      (i : ℕ)
      → i < n
      → (top s i).pc ≡ fetch
      → s.public_queue ≡ []
      → exits (top s i).wait_task s.shutdown ≡ false
      → ThreadTaskLoop n s (sleep s i)
  wake :
      (i : ℕ)
      → i < n
      → (top s i).pc ≡ asleep
      → is_set (top s i).event ≡ true
      → ThreadTaskLoop n s (
          set_top s i (record (top s i) {
            event = clear (top s i).event;
            pc = woken (top s i).event.event_mask;
          }))
  woken_done :
      (i w d : ℕ) {events : Mask}
      → i < n
      → (top s i).pc ≡ woken events
      → (top s i).wait_task ≡ some w
      → events.finished ≡ true
      → s.depth i ≡ suc d
      → ThreadTaskLoop n s (record (unlist s i) { depth = update s.depth i d })
  woken_again :
      (i : ℕ) {events : Mask}
      → i < n
      → (top s i).pc ≡ woken events
      → ends (top s i).wait_task events ≡ false
      → ThreadTaskLoop n s (unlist (go s i begin_steal) i)
  returned : (i : ℕ) → i < n → (top s i).pc ≡ running → ThreadTaskLoop n s (go s i check)

-- `schedule`, called by the task that a thread of the pool runs, or from outside. Once the pool is
-- being destroyed, it is not called from outside.
pub data Schedule (n : ℕ) (s : Pool) : Pool → Type 0 where
  schedule_push :
      (i h : ℕ)
      → i < n
      → (top s i).pc ≡ running
      → Schedule n s (record (go s i notify) {
        queue = update s.queue i (s.queue i ++ h ∷ []);
        accepted = h ∷ s.accepted;
      })
  no_waiters :
      (i : ℕ) → i < n → (top s i).pc ≡ notify → s.waiters ≡ [] → Schedule n s (go s i running)
  some_waiters :
      (i : ℕ) → i < n → (top s i).pc ≡ notify → s.waiters ≢ [] → Schedule n s (go s i notify_locked)
  schedule_wake :
      (i : ℕ) → i < n → (top s i).pc ≡ notify_locked → Schedule n s (wake_last (go s i running))
  schedule_outside :
      (h : ℕ)
      → s.shutdown ≡ false
      → Schedule n s (
          wake_last
            (record s { public_queue = s.public_queue ++ h ∷ []; accepted = h ∷ s.accepted }))

-- A task waits for another one: `threadpool_wait_handler`.
pub data WaitHandler (n : ℕ) (s : Pool) : Pool → Type 0 where
  wait_for :
      (i w : ℕ)
      → i < n
      → (top s i).pc ≡ running
      → WaitHandler n s (record (set_call s i (suc (s.depth i)) (new_call (some w))) {
        depth = update s.depth i (suc (s.depth i));
      })

-- The destructor, up to the joins.
pub data Destroy (n : ℕ) (s : Pool) : Pool → Type 0 where
  destroy :
      s.shutdown ≡ false
      → Destroy n s (record s { shutdown = true; call = signal_all s.call s.waiters; waiters = [] })

-- A task finishes, and its continuation signals the event of the call that waits for it.
pub data Finish (n : ℕ) (s : Pool) : Pool → Type 0 where
  task_finishes : (w : ℕ) → Finish n s (record s { finished = update s.finished w true })
  signal_finished :
      (i d w : ℕ)
      → (s.call i d).registered ≡ true
      → (s.call i d).wait_task ≡ some w
      → s.finished w ≡ true
      → Finish n s (
          set_call s i d (record (s.call i d) {
            event = signal (s.call i d).event task_finished;
            registered = false;
          }))

-- A step of the pool's `n` threads, of a thread outside, or of a task that finishes.
pub data Step (n : ℕ) (s : Pool) : Pool → Type 0 where
  steal_task : {t : Pool} → StealTask n s t → Step n s t
  loop : {t : Pool} → ThreadTaskLoop n s t → Step n s t
  schedule : {t : Pool} → Schedule n s t → Step n s t
  wait_handler : {t : Pool} → WaitHandler n s t → Step n s t
  destructor : {t : Pool} → Destroy n s t → Step n s t
  finish : {t : Pool} → Finish n s t → Step n s t

pub data Reach (n : ℕ) : Pool → Type 0 where
  here : Reach n new
  next : {s t : Pool} → Reach n s → Step n s t → Reach n t
