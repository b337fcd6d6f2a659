-- ===== src/ThreadPool/Inv.antt =====
-- What holds between the steps of a pool: of the calls of `thread_task_loop`, of the list of the
-- sleeping threads, and of the queues.
pub mod Nested
pub mod Asleep
pub mod Emptied
use asyncplusplus_1_1_annota.Base.{
  ℕ, zero, suc, ◌+◌, ◌≤◌, ◌<◌, ◌≡◌, Bool, true, false, ◌&&◌, ◌||◌, not, Option, none, some, List,
  [], ◌∷◌, count, ltb, ◌==◌, if◌then◌else◌,
}
use asyncplusplus_1_1_annota.WaitEvent.{Mask, is_set}
use asyncplusplus_1_1_annota.ThreadPool.State.{
  Pc, begin_steal, top, stealing, fetch, asleep, running, left, woken, Call, Address, Pool, same,
}

abbrev pub is_some : Option ℕ → Bool
is_some none = false
is_some (some w) = true

abbrev pub in_bed : Pc → Bool
in_bed asleep = true
in_bed (woken _) = true
in_bed _ = false

abbrev pub is_asleep : Pc → Bool
is_asleep asleep = true
is_asleep _ = false

abbrev pub is_left : Pc → Bool
is_left left = true
is_left _ = false

abbrev pub woken_finished : Pc → Bool
woken_finished (woken m) = m.finished
woken_finished _ = false

-- The continuation has signalled the call's event.
abbrev pub told : Call → Bool
told c = c.event.event_mask.finished || woken_finished c.pc

abbrev pub Depths : Type 0
Depths = ℕ → ℕ

abbrev pub Calls : Type 0
Calls = ℕ → ℕ → Call

-- The calls of each thread: those below the last one run a task, and the event of a call is used
-- only while the call is there and the event is initialized.
pub record Frames (depth : Depths) (call : Calls) (finished : ℕ → Bool) : Type 0 where
  pub below : (i d : ℕ) → d < depth i → (call i d).pc ≡ running
  pub base : (i : ℕ) → (call i 0).wait_task ≡ none
  pub nested : (i d : ℕ) → d < depth i → is_some (call i (suc d)).wait_task ≡ true
  pub alive : (i d : ℕ) → (call i d).registered ≡ true → d ≤ depth i
  pub quiet : (i d : ℕ) → (call i d).registered ≡ true → told (call i d) ≡ false
  pub added : (i d : ℕ) → (call i d).registered ≡ true → (call i d).added_continuation ≡ true
  pub added_told : (i d : ℕ) → told (call i d) ≡ true → (call i d).added_continuation ≡ true
  pub ready : (i d : ℕ) → (call i d).added_continuation ≡ true → (call i d).event.initialized ≡ true
  pub ready_bed : (i d : ℕ) → in_bed (call i d).pc ≡ true → (call i d).event.initialized ≡ true
  pub heard :
      (i d w : ℕ) → told (call i d) ≡ true → (call i d).wait_task ≡ some w → finished w ≡ true

abbrev pub is_at : ℕ → ℕ → Address → Bool
is_at i d a = (i == a.thread) && (d == a.level)

-- How often an event is in the list.
abbrev pub listed : ℕ → ℕ → List Address → ℕ
listed i d [] = 0
listed i d (a ∷ as') = (if is_at i d a then 1 else 0) + listed i d as'

-- The list has the events of threads that sleep or have just been woken, each once, and every
-- thread that sleeps with no event pending is in it.
pub record Listed (n : ℕ) (depth : Depths) (call : Calls) (waiters : List Address) : Type 0 where
  pub bound :
      (i d : ℕ)
      → listed i d waiters
        ≤ (if d == depth i && (ltb i n && in_bed (call i (depth i)).pc) then 1 else 0)
  pub unset :
      (i : ℕ)
      → (call i (depth i)).pc ≡ asleep
      → is_set (call i (depth i)).event ≡ false
      → listed i (depth i) waiters ≡ 1

-- The thread has found its own queue empty.
abbrev pub idle : Pc → Bool
idle begin_steal = true
idle (stealing _) = true
idle fetch = true
idle asleep = true
idle (woken _) = true
idle left = true
idle _ = false

-- The thread does nothing until its event is signalled, or for good.
abbrev pub stuck : Call → Bool
stuck c = (is_asleep c.pc && not (is_set c.event)) || is_left c.pc

-- A thread that looks for handles elsewhere has none in its own queue, one that has returned from
-- its loop has done so at the end, and no thread of a pool that is shut down sleeps for good.
pub record Local (down : Bool) (public_queue queue : List ℕ) (c : Call) : Type 0 where
  pub own : idle c.pc ≡ true → queue ≡ []
  pub gone : c.pc ≡ left → down ≡ true
  pub gone_public : c.pc ≡ left → public_queue ≡ []
  pub shut : down ≡ true → c.pc ≡ asleep → c.wait_task ≡ none → is_set c.event ≡ true

-- A handle in the public queue has a thread awake.
pub record Drained (n : ℕ) (s : Pool) : Type 0 where
  pub each : (i : ℕ) → i < n → Local s.shutdown s.public_queue (s.queue i) (top s i)
  pub lost : ((i : ℕ) → i < n → stuck (top s i) ≡ true) → s.public_queue ≡ []

-- The handles in the queues of the first threads.
abbrev pub total : ℕ → ℕ → (ℕ → List ℕ) → ℕ
total h zero queue = 0
total h (suc n) queue = count h (queue n) + total h n queue

-- Every handle that was scheduled is in one queue, or was run, once.
abbrev pub Counted : ℕ → Pool → Type 0
Counted n s =
    (h : ℕ) → count h s.public_queue + total h n s.queue + count h s.ran ≡ count h s.accepted
