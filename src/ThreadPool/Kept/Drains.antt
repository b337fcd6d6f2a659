-- ===== src/ThreadPool/Kept/Drains.antt =====
-- Every step of a pool keeps what holds of its queues, by the kind of the step.
use asyncplusplus_1_1_annota.Base.{
  ℕ, ◌<◌, ◌≡◌, none, [], ◌∷◌, ◌++◌, but_last, ==_iff, refl, arith, sym, ◌∙◌,
}
use asyncplusplus_1_1_annota.WaitEvent.{clear}
use asyncplusplus_1_1_annota.ThreadPool.State.{
  check, popping, begin_steal, stealing, fetch, asleep, running, notify, notify_locked, woken, Pool,
  update, top, prepare, remove, new_call,
}
use asyncplusplus_1_1_annota.ThreadPool.Steps.{
  steal_task, loop, schedule, wait_handler, destructor, finish, Step, done_ready, done_signaled,
  not_done, pop_some, pop_none, shuffle, skip_self, steal_none, steal_some, no_victim, fetch_some,
  exit, fall_asleep, wake, woken_done, woken_again, returned, schedule_push, no_waiters,
  some_waiters, schedule_wake, wait_for, schedule_outside, destroy, task_finishes, signal_finished,
  Reach, here, next,
}
use asyncplusplus_1_1_annota.ThreadPool.Inv.{Drained}
use asyncplusplus_1_1_annota.ThreadPool.Inv.Emptied.{busy-Local, signal-Drained}
use asyncplusplus_1_1_annota.ThreadPool.Kept.{Kept, Reach-Kept}
use asyncplusplus_1_1_annota.ThreadPool.Kept.Queues.{
  go-Drained, back-Drained, busy_on, idle_on, wait_for-Drained, exit-Drained, outside-Drained,
  wake_last-Drained, destroy-Drained,
}

-- A step that leaves the queues as they are, or takes handles.
Step-Drained : {n : ℕ} {s t : Pool} → 0 < n → Kept n s → Drained n s → Step n s t → Drained n t
Step-Drained {s} pos k d (loop (done_ready i w e lt at waits fresh over deep)) =
    back-Drained d i lt e s.waiters (k.frames.below i e (omega arith))
Step-Drained {s} pos k d (loop (done_signaled i w e lt at waits old over deep)) =
    back-Drained d i lt e s.waiters (k.frames.below i e (omega arith))
Step-Drained {s} pos k d (loop (not_done i lt at going)) =
    go-Drained d i lt (record (top s i) { pc = popping }) s.queue s.public_queue s.ran s.accepted
      s.waiters (λ j ne q. q) (λ q. q) (λ e. cc) refl (λ e. cc)
Step-Drained {s} pos k d (loop (pop_some i h lt at e)) =
    go-Drained d i lt (record (top s i) { pc = running }) (update s.queue i (but_last (s.queue i)))
      s.public_queue (h ∷ s.ran) s.accepted s.waiters (λ j ne q. rw ne q) (λ q. q) (λ e. cc) refl
      (λ e. cc)
Step-Drained {s} pos k d (loop (pop_none i lt at e)) =
    go-Drained d i lt (record (top s i) { pc = begin_steal }) s.queue s.public_queue s.ran
      s.accepted s.waiters (λ j ne q. q) (λ q. q) (λ u. e) refl (λ e. cc)
Step-Drained {s} pos k d (steal_task (shuffle i victims lt at perm)) =
    idle_on d i lt (stealing victims) (rw at refl) refl refl
Step-Drained {s} pos k d (steal_task (skip_self i {vs} lt at)) =
    idle_on d i lt (stealing vs) (rw at refl) refl refl
Step-Drained {s} pos k d (steal_task (steal_none i {vs} lt at)) =
    idle_on d i lt (stealing vs) (rw at refl) refl refl
Step-Drained {s} pos k d (steal_task (steal_some i h {j} {hs} lt at ne below e)) =
    go-Drained d i lt (record (top s i) { pc = running }) (update s.queue j hs) s.public_queue
      (h ∷ s.ran) s.accepted s.waiters (λ m other q. ground (arith, ==_iff m j, e, q)) (λ q. q)
      (λ e. cc) refl (λ e. cc)
Step-Drained {s} pos k d (steal_task (no_victim i lt at)) =
    idle_on d i lt fetch (rw at refl) refl refl
Step-Drained {s} pos k d (loop (fetch_some i h {hs} lt at e)) =
    go-Drained d i lt (record (top s i) { pc = running }) s.queue hs (h ∷ s.ran) s.accepted
      s.waiters (λ j ne q. q) (λ q. absurd (let both : [] ≡ h ∷ hs = sym q ∙ e in cc)) (λ e. cc)
      refl (λ e. cc)
Step-Drained {s} pos k d (loop (exit i lt at e down)) = exit-Drained d i lt at e down
Step-Drained {s} pos k d (loop (fall_asleep i lt at e up)) =
    go-Drained d i lt (record (prepare s.finished (top s i)) { pc = asleep }) s.queue s.public_queue
      s.ran s.accepted (s.waiters ++ record { thread = i; level = s.depth i } ∷ []) (λ j ne q. q)
      (λ q. q) (λ u. (d.each i lt).own (rw at refl)) refl
      (λ a. (e, λ down w. ground (arith, up, down, w)))
Step-Drained {s} pos k d (loop (wake i lt at on)) =
    go-Drained d i lt
      (record (top s i) { event = clear (top s i).event; pc = woken (top s i).event.event_mask })
      s.queue s.public_queue s.ran s.accepted s.waiters (λ j ne q. q) (λ q. q)
      (λ u. (d.each i lt).own (rw at refl)) refl (λ e. cc)
Step-Drained {s} pos k d (loop (woken_done i w e lt at waits over deep)) =
    back-Drained d i lt e (remove (record { thread = i; level = s.depth i }) s.waiters)
      (k.frames.below i e (omega arith))
Step-Drained {s} pos k d (loop (woken_again i lt at going)) =
    go-Drained d i lt (record (top s i) { pc = begin_steal }) s.queue s.public_queue s.ran
      s.accepted (remove (record { thread = i; level = s.depth i }) s.waiters) (λ j ne q. q)
      (λ q. q) (λ u. (d.each i lt).own (rw at refl)) refl (λ e. cc)
Step-Drained {s} pos k d (loop (returned i lt at)) = busy_on d i lt check refl
Step-Drained {s} pos k d (schedule (schedule_push i h lt at)) =
    go-Drained d i lt (record (top s i) { pc = notify }) (update s.queue i (s.queue i ++ h ∷ []))
      s.public_queue s.ran (h ∷ s.accepted) s.waiters (λ j ne q. rw ne q) (λ q. q) (λ e. cc) refl
      (λ e. cc)
Step-Drained {s} pos k d (schedule (no_waiters i lt at e)) = busy_on d i lt running refl
Step-Drained {s} pos k d (schedule (some_waiters i lt at e)) = busy_on d i lt notify_locked refl
Step-Drained {s} pos k d (schedule (schedule_wake i lt at)) =
    wake_last-Drained _ (busy_on d i lt running refl)
Step-Drained {s} pos k d (wait_handler (wait_for i w lt at)) = wait_for-Drained d i lt w
Step-Drained {s} pos k d (schedule (schedule_outside h up)) = outside-Drained pos s h k.waiting d up
Step-Drained {s} pos k d (destructor (destroy up)) = destroy-Drained s k.waiting d
Step-Drained {s} pos k d (finish (task_finishes w)) =
    signal-Drained d (λ j. refl) (λ j. refl) (λ j e. e) (λ j. refl) refl refl
Step-Drained {s} pos k d (finish (signal_finished i e w on waits over)) =
    signal-Drained d (λ j. ground (arith, ==_iff j i, ==_iff (s.depth j) e))
      (λ j. ground (arith, ==_iff j i, ==_iff (s.depth j) e))
      (λ j u. ground (arith, u, ==_iff j i, ==_iff (s.depth j) e)) (λ j. refl) refl refl

pub Reach-Drained : {n : ℕ} {s : Pool} → 0 < n → Reach n s → Drained n s
Reach-Drained pos here = record {
  each = λ i lt. busy-Local (new_call none) refl;
  lost = λ all. refl;
}
Reach-Drained pos (next r st) = Step-Drained pos (Reach-Kept r) (Reach-Drained pos r) st
