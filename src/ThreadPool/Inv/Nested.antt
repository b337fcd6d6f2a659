-- ===== src/ThreadPool/Inv/Nested.antt =====
-- The steps of a pool keep what holds of the calls of its threads.
use asyncplusplus_1_1_annota.Base.{ℕ, suc, ◌≡◌, Bool, true, false, none, some, ==_iff, refl, arith}
use asyncplusplus_1_1_annota.WaitEvent.{clear, signal, task_finished, task_available}
use asyncplusplus_1_1_annota.ThreadPool.State.{
  Pc, asleep, running, woken, Call, update, new_call, prepare, put,
}
use asyncplusplus_1_1_annota.ThreadPool.Inv.{in_bed, woken_finished, told, Depths, Calls, Frames}

module _ {depth : Depths} {call : Calls} {finished : ℕ → Bool}
    (f : Frames depth call finished) where
  open f use {below, base, nested, alive, quiet, added, added_told, ready, ready_bed, heard}

  -- The last call of a thread goes on.
  pub go-Frames :
      (i : ℕ) (p : Pc)
      → woken_finished p ≡ false
      → in_bed p ≡ false
      → Frames depth (put call i (depth i) (record (call i (depth i)) { pc = p })) finished
  go-Frames i p unwoken up = record {
    below = λ j e lt. ground (arith, below j e lt, ==_iff j i, ==_iff e (depth i));
    base = λ j. ground (arith, base j, ==_iff j i);
    nested = λ j e lt. ground (arith, nested j e lt, ==_iff j i);
    alive = λ j e r. ground (arith, alive j e, ==_iff j i);
    quiet = λ j e r. ground (arith, quiet j e, ==_iff j i);
    added = λ j e r. ground (arith, added j e, ==_iff j i);
    added_told = λ j e r. ground (arith, added_told j e, ==_iff j i);
    ready = λ j e r. ground (arith, ready j e, ==_iff j i);
    ready_bed = λ j e r. ground (arith, ready_bed j e, ==_iff j i);
    heard = λ j e w r t. ground (arith, heard j e w, ==_iff j i);
  }

  -- The last call returns.
  pub back-Frames :
      (i d : ℕ)
      → depth i ≡ suc d
      → (call i (suc d)).registered ≡ false
      → Frames (update depth i d) call finished
  back-Frames i d at gone = record {
    below = λ j e lt. ground (arith, below j e, ==_iff j i, at);
    base = base;
    nested = λ j e lt. ground (arith, nested j e, ==_iff j i, at);
    alive = λ j e r. ground (arith, alive j e, ==_iff j i, at, gone, ==_iff e (suc d));
    quiet = quiet;
    added = added;
    added_told = added_told;
    ready = ready;
    ready_bed = ready_bed;
    heard = heard;
  }

  -- The last call has its event cleared when it wakes.
  pub wake-Frames :
      (i : ℕ)
      → (call i (depth i)).pc ≡ asleep
      → Frames depth
          (put call i (depth i) (record (call i (depth i)) {
            event = clear (call i (depth i)).event;
            pc = woken (call i (depth i)).event.event_mask;
          }))
          finished
  wake-Frames i at = record {
    below = λ j e lt. ground (arith, below j e lt, ==_iff j i, ==_iff e (depth i));
    base = λ j. ground (arith, base j, ==_iff j i);
    nested = λ j e lt. ground (arith, nested j e lt, ==_iff j i);
    alive = λ j e r. ground (arith, alive j e, ==_iff j i);
    quiet = λ j e r. ground (arith, quiet j e, ==_iff j i);
    added = λ j e r. ground (arith, added j e, ==_iff j i);
    added_told = λ j e r. ground (arith, added_told j e, ==_iff j i);
    ready = λ j e r. ground (arith, ready j e, ==_iff j i);
    ready_bed = λ j e r. ground (arith, ready_bed j e, ready_bed i (depth i), at, ==_iff j i);
    heard = λ j e w r t. ground (arith, heard j e w, ==_iff j i);
  }

  pub signal-Frames :
      (i d : ℕ)
      → Frames depth
          (put call i d (record (call i d) { event = signal (call i d).event task_available }))
          finished
  signal-Frames i d = record {
    below = λ j e lt. ground (arith, below j e lt, ==_iff j i);
    base = λ j. ground (arith, base j, ==_iff j i);
    nested = λ j e lt. ground (arith, nested j e lt, ==_iff j i);
    alive = λ j e r. ground (arith, alive j e, ==_iff j i);
    quiet = λ j e r. ground (arith, quiet j e, ==_iff j i);
    added = λ j e r. ground (arith, added j e, ==_iff j i);
    added_told = λ j e r. ground (arith, added_told j e, ==_iff j i);
    ready = λ j e r. ground (arith, ready j e, ==_iff j i);
    ready_bed = λ j e r. ground (arith, ready_bed j e, ==_iff j i);
    heard = λ j e w r t. ground (arith, heard j e w, ==_iff j i);
  }

  pub told-Frames :
      (i d w : ℕ)
      → (call i d).registered ≡ true
      → (call i d).wait_task ≡ some w
      → finished w ≡ true
      → Frames depth
          (put call i d (record (call i d) {
            event = signal (call i d).event task_finished;
            registered = false;
          }))
          finished
  told-Frames i d w on waits over = record {
    below = λ j e lt. ground (arith, below j e lt, ==_iff j i);
    base = λ j. ground (arith, base j, ==_iff j i);
    nested = λ j e lt. ground (arith, nested j e lt, ==_iff j i);
    alive = λ j e r. ground (arith, alive j e, ==_iff j i);
    quiet = λ j e r. ground (arith, quiet j e, ==_iff j i);
    added = λ j e r. ground (arith, added j e, ==_iff j i);
    added_told = λ j e r. ground (arith, added_told j e, added i d, on, ==_iff j i, ==_iff e d);
    ready = λ j e r. ground (arith, ready j e, ==_iff j i);
    ready_bed = λ j e r. ground (arith, ready_bed j e, ==_iff j i);
    heard = λ j e v r t. ground (arith, heard j e v, ==_iff j i, ==_iff e d);
  }

  pub finish-Frames : (w : ℕ) → Frames depth call (update finished w true)
  finish-Frames w = record {
    below = below;
    base = base;
    nested = nested;
    alive = alive;
    quiet = quiet;
    added = added;
    added_told = added_told;
    ready = ready;
    ready_bed = ready_bed;
    heard = λ j e v r t. ground (arith, heard j e v r t, ==_iff v w);
  }

  pub wait_for-Frames :
      (i w : ℕ)
      → (call i (depth i)).pc ≡ running
      → Frames
          (update depth i (suc (depth i)))
          (put call i (suc (depth i)) (new_call (some w)))
          finished
  wait_for-Frames i w at = record {
    below = λ j e lt.
        ground (arith, below j e, at, ==_iff j i, ==_iff e (depth i), ==_iff e (suc (depth i)));
    base = λ j. ground (arith, base j, ==_iff j i);
    nested = λ j e lt. ground (arith, nested j e, ==_iff j i, ==_iff (suc e) (suc (depth i)));
    alive = λ j e r. ground (arith, alive j e, ==_iff j i);
    quiet = λ j e r. ground (arith, quiet j e, ==_iff j i);
    added = λ j e r. ground (arith, added j e, ==_iff j i);
    added_told = λ j e r. ground (arith, added_told j e, ==_iff j i);
    ready = λ j e r. ground (arith, ready j e, ==_iff j i);
    ready_bed = λ j e r. ground (arith, ready_bed j e, ==_iff j i);
    heard = λ j e v r t. ground (arith, heard j e v, ==_iff j i);
  }

  module _ (i : ℕ) (up : in_bed (call i (depth i)).pc ≡ false) where
    abbrev slept : Call
    slept = record (prepare finished (call i (depth i))) { pc = asleep }

    same_wait : slept.wait_task ≡ (call i (depth i)).wait_task
    same_wait = ground arith

    slept_init : slept.event.initialized ≡ true
    slept_init = ground arith

    slept_quiet : slept.registered ≡ true → told slept ≡ false
    slept_quiet r = ground (arith, r, quiet i (depth i), added_told i (depth i), added i (depth i))

    slept_added : slept.registered ≡ true → slept.added_continuation ≡ true
    slept_added r = ground (arith, r, added i (depth i))

    slept-told : told slept ≡ true → slept.added_continuation ≡ true
    slept-told r = ground (arith, r, added_told i (depth i))

    slept_heard : (w : ℕ) → told slept ≡ true → slept.wait_task ≡ some w → finished w ≡ true
    slept_heard w r t = ground (arith, r, t, heard i (depth i) w)

    pub sleep-Frames : Frames depth (put call i (depth i) slept) finished
    sleep-Frames = record {
      below = λ j e lt. ground (arith, below j e lt, ==_iff j i, ==_iff e (depth i));
      base = λ j. ground (arith, base j, same_wait, ==_iff j i);
      nested = λ j e lt. ground (arith, nested j e lt, same_wait, ==_iff j i);
      alive = λ j e r. ground (arith, alive j e, ==_iff j i, ==_iff e (depth i));
      quiet = λ j e r. ground (arith, quiet j e, slept_quiet, ==_iff j i);
      added = λ j e r. ground (arith, added j e, slept_added, ==_iff j i);
      added_told = λ j e r. ground (arith, added_told j e, slept-told, ==_iff j i);
      ready = λ j e r. ground (arith, ready j e, slept_init, ==_iff j i);
      ready_bed = λ j e r. ground (arith, ready_bed j e, slept_init, ==_iff j i);
      heard = λ j e w r t. ground (arith, heard j e w, slept_heard w, ==_iff j i);
    }

pub new-Frames : Frames (λ _. 0) (λ _ _. new_call none) (λ _. false)
new-Frames = record {
  below = λ i d lt. absurd (omega arith);
  base = λ i. refl;
  nested = λ i d lt. absurd (omega arith);
  alive = λ i d r. cc;
  quiet = λ i d r. refl;
  added = λ i d r. cc;
  added_told = λ i d r. cc;
  ready = λ i d r. cc;
  ready_bed = λ i d r. cc;
  heard = λ i d w r t. cc;
}
