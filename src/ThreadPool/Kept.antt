-- ===== src/ThreadPool/Kept.antt =====
-- Every step of a pool keeps what holds between the steps.
pub mod Queues
pub mod Drains
pub mod Handles
use asyncplusplus_1_1_annota.Base.{
  ℕ, zero, suc, ◌+◌, ◌≤◌, ◌<◌, ◌≡◌, Bool, true, false, ◌||◌, Option, none, some, List, [], ◌∷◌,
  ◌++◌, back, but_last, ◌==◌, ==_iff, ==_refl, if◌then◌else◌, refl, arith, sym, ◌∙◌, ap,
  Option-cases, inl, inr,
}
use asyncplusplus_1_1_annota.WaitEvent.{Mask, is_set, clear, signal, task_finished, task_available}
use asyncplusplus_1_1_annota.ThreadPool.State.{
  Pc, check, popping, begin_steal, stealing, fetch, asleep, running, notify, notify_locked, left,
  woken, Call, Address, Pool, update, top, put, prepare, signal_at, signal_all, wake_last, new_call,
}
use asyncplusplus_1_1_annota.ThreadPool.Steps.{
  steal_task, loop, schedule, wait_handler, destructor, finish, Step, done_ready, done_signaled,
  not_done, pop_some, pop_none, shuffle, skip_self, steal_none, steal_some, no_victim, fetch_some,
  exit, fall_asleep, wake, woken_done, woken_again, returned, schedule_push, no_waiters,
  some_waiters, schedule_wake, wait_for, schedule_outside, destroy, task_finishes, signal_finished,
  Reach, here, next,
}
use asyncplusplus_1_1_annota.ThreadPool.Inv.{in_bed, told, Depths, Calls, Frames, Listed}
use asyncplusplus_1_1_annota.ThreadPool.Inv.Nested.{
  go-Frames, back-Frames, wake-Frames, signal-Frames, told-Frames, finish-Frames, wait_for-Frames,
  sleep-Frames, new-Frames,
}
use asyncplusplus_1_1_annota.ThreadPool.Inv.Asleep.{
  go-Listed, back-Listed, wait_for-Listed, wake-Listed, sleep-Listed, woken_again-Listed,
  woken_done-Listed, signal-Listed, wake_last-Listed, destroy-Listed, new-Listed,
}

-- What holds of the calls and of the list.
pub record Kept (n : ℕ) (s : Pool) : Type 0 where
  pub frames : Frames s.depth s.call s.finished
  pub waiting : Listed n s.depth s.call s.waiters

signal_all-Frames :
    {depth : Depths} {finished : ℕ → Bool} (call : Calls) (xs : List Address)
    → Frames depth call finished
    → Frames depth (signal_all call xs) finished
signal_all-Frames call [] f = f
signal_all-Frames call (a ∷ xs) f =
    signal_all-Frames (signal_at call a) xs (signal-Frames f a.thread a.level)

-- `wake_last` takes the last thread of the list, if there is one.
pub wake_last-cases {ℓ} :
    (P : Pool → Type ℓ) (s : Pool)
    → (back s.waiters ≡ none → P s)
    → ((z : Address)
        → back s.waiters ≡ some z
        → P (record s { call = signal_at s.call z; waiters = but_last s.waiters }))
    → P (wake_last s)
wake_last-cases P s nobody somebody = elim (Option-cases (back s.waiters)) [
  | inl e ↦ rw (e, wake_last) (nobody e)
  | inr (z, e) ↦ rw (e, wake_last) (somebody z e)
]

wake_last-Kept : {n : ℕ} (s : Pool) → Kept n s → Kept n (wake_last s)
wake_last-Kept {n} s k =
    wake_last-cases (Kept n) s (λ e. k)
      (λ z last. record {
        frames = signal-Frames k.frames z.thread z.level;
        waiting = wake_last-Listed k.waiting last;
      })

module _ {n : ℕ} {s : Pool} (k : Kept n s) (i : ℕ) where
  open k use {frames, waiting}

  -- The thread goes on, and neither was nor is in the list.
  go-Kept :
      (p : Pc)
      → in_bed (top s i).pc ≡ false
      → in_bed p ≡ false
      → Kept n (record s { call = put s.call i (s.depth i) (record (top s i) { pc = p }) })
  go-Kept p out up = record {
    frames = go-Frames frames i p (ground (arith, up)) up;
    waiting = go-Listed waiting i (record (top s i) { pc = p }) out up;
  }

  -- The thread returns to the call below.
  back-Kept :
      (d : ℕ)
      → in_bed (top s i).pc ≡ false
      → s.depth i ≡ suc d
      → (top s i).registered ≡ false
      → Kept n (record s { depth = update s.depth i d })
  back-Kept d out at gone = record {
    frames = back-Frames frames i d at (rw (sym at) gone);
    waiting = back-Listed waiting i d out (frames.below i d (omega arith));
  }

Step-Kept : {n : ℕ} {s t : Pool} → Kept n s → Step n s t → Kept n t
Step-Kept {s} k (loop (done_ready i w d lt at waits fresh over deep)) =
    back-Kept k i d (rw at refl) deep (ground (arith, k.frames.added i (s.depth i), fresh))
Step-Kept {s} k (loop (done_signaled i w d lt at waits old over deep)) =
    back-Kept k i d (rw at refl) deep (ground (arith, k.frames.quiet i (s.depth i), over))
Step-Kept k (loop (not_done i lt at going)) = go-Kept k i popping (rw at refl) refl
Step-Kept k (loop (pop_some i h lt at e)) =
    let g = go-Kept k i running (rw at refl) refl in
    record { frames = g.frames; waiting = g.waiting }
Step-Kept k (loop (pop_none i lt at e)) = go-Kept k i begin_steal (rw at refl) refl
Step-Kept k (steal_task (shuffle i victims lt at perm)) =
    go-Kept k i (stealing victims) (rw at refl) refl
Step-Kept k (steal_task (skip_self i {vs} lt at)) = go-Kept k i (stealing vs) (rw at refl) refl
Step-Kept k (steal_task (steal_none i {vs} lt at)) = go-Kept k i (stealing vs) (rw at refl) refl
Step-Kept k (steal_task (steal_some i h lt at ne below e)) =
    let g = go-Kept k i running (rw at refl) refl in
    record { frames = g.frames; waiting = g.waiting }
Step-Kept k (steal_task (no_victim i lt at)) = go-Kept k i fetch (rw at refl) refl
Step-Kept k (loop (fetch_some i h lt at e)) =
    let g = go-Kept k i running (rw at refl) refl in
    record { frames = g.frames; waiting = g.waiting }
Step-Kept k (loop (exit i lt at e down)) = go-Kept k i left (rw at refl) refl
Step-Kept {s} k (loop (fall_asleep i lt at e up)) = record {
  frames = sleep-Frames k.frames i (rw at refl);
  waiting =
      sleep-Listed k.waiting i (record (prepare s.finished (top s i)) { pc = asleep }) lt
        (rw at refl) refl;
}
Step-Kept {s} k (loop (wake i lt at on)) = record {
  frames = wake-Frames k.frames i at;
  waiting =
      wake-Listed k.waiting i
        (record (top s i) { event = clear (top s i).event; pc = woken (top s i).event.event_mask })
        (top s i).event.event_mask at refl;
}
Step-Kept {s} k (loop (woken_done i w d {events} lt at waits over deep)) = record {
  frames =
      back-Frames k.frames i d deep
        (rw (sym deep) (ground (arith, k.frames.quiet i (s.depth i), at, over)));
  waiting = woken_done-Listed k.waiting i d events at (k.frames.below i d (omega arith));
}
Step-Kept {s} k (loop (woken_again i {events} lt at going)) = record {
  frames = go-Frames k.frames i begin_steal refl refl;
  waiting = woken_again-Listed k.waiting i (record (top s i) { pc = begin_steal }) events at refl;
}
Step-Kept k (loop (returned i lt at)) = go-Kept k i check (rw at refl) refl
Step-Kept k (schedule (schedule_push i h lt at)) =
    let g = go-Kept k i notify (rw at refl) refl in
    record { frames = g.frames; waiting = g.waiting }
Step-Kept k (schedule (no_waiters i lt at e)) = go-Kept k i running (rw at refl) refl
Step-Kept k (schedule (some_waiters i lt at e)) = go-Kept k i notify_locked (rw at refl) refl
Step-Kept {s} k (schedule (schedule_wake i lt at)) =
    wake_last-Kept _ (go-Kept k i running (rw at refl) refl)
Step-Kept {s} k (wait_handler (wait_for i w lt at)) = record {
  frames = wait_for-Frames k.frames i w at;
  waiting = wait_for-Listed k.waiting i (suc (s.depth i)) (new_call (some w)) (rw at refl) refl;
}
Step-Kept k (schedule (schedule_outside h up)) =
    wake_last-Kept _ (record { frames = k.frames; waiting = k.waiting })
Step-Kept {s} k (destructor (destroy up)) = record {
  frames = signal_all-Frames s.call s.waiters k.frames;
  waiting = destroy-Listed k.waiting;
}
Step-Kept k (finish (task_finishes w)) = record {
  frames = finish-Frames k.frames w;
  waiting = k.waiting;
}
Step-Kept {s} k (finish (signal_finished i d w on waits over)) = record {
  frames = told-Frames k.frames i d w on waits over;
  waiting =
      signal-Listed k.waiting i d
        (record (s.call i d) {
          event = signal (s.call i d).event task_finished;
          registered = false;
        })
        refl (λ e. cc);
}

pub Reach-Kept : {n : ℕ} {s : Pool} → Reach n s → Kept n s
Reach-Kept {n} here = record { frames = new-Frames; waiting = new-Listed n }
Reach-Kept (next r st) = Step-Kept (Reach-Kept r) st
