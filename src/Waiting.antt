-- ===== src/Waiting.antt =====
-- src/scheduler.cpp: how a thread waits for a task, and how many threads the default pool has. The
-- handlers are those of include/async++/scheduler.h.
pub mod Handlers
pub mod Generic
mod Examples
use asyncplusplus_1_1_annota.Base.{
  ℕ, ◌≡◌, Bool, true, false, Option, none, some, ltb, ◌==◌, if◌then◌else◌,
}
use asyncplusplus_1_1_annota.WaitEvent.{TaskWaitEvent, Mask, task_finished, new, init, wait, signal}

-- `std::thread::hardware_concurrency` is the parameter; its value is cached.
abbrev pub hardware_concurrency : ℕ → ℕ
hardware_concurrency value = if value == 0 then 1 else value

-- `strtoul` in base 10, and what `getenv` gives for LIBASYNC_NUM_THREADS.
abbrev pub get_num_threads {ℓ} : {S : Type ℓ} → (S → ℕ) → Option S → ℕ → ℕ
get_num_threads strtoul env value =
    let num_threads : ℕ = elim env [ none ↦ hardware_concurrency value | some s ↦ strtoul s ] in
    if ltb num_threads 1 then 1 else num_threads

-- A `wait_handler`: the generic one, or another one by its address.
pub data WaitHandler : Type 0 where
  generic_wait_handler : WaitHandler
  handler_at : ℕ → WaitHandler

-- What each thread keeps under its key; `none` is the null pointer of a thread that has set nothing.
abbrev pub Keys : Type 0
Keys = ℕ → Option WaitHandler

abbrev pub get_thread_wait_handler : Keys → ℕ → WaitHandler
get_thread_wait_handler keys thread = elim (keys thread) [
  | none ↦ generic_wait_handler
  | some handler ↦ handler
]

abbrev pub set_key : Keys → ℕ → WaitHandler → Keys
set_key keys thread handler j = if j == thread then some handler else keys j

-- The public function, which also returns the handler that was there.
abbrev pub set_thread_wait_handler : Keys → ℕ → WaitHandler → WaitHandler × Keys
set_thread_wait_handler keys thread handler =
    (get_thread_wait_handler keys thread, set_key keys thread handler)

-- `run` is what the task does to the handlers.
abbrev pub run_with_wait_handler : (Keys → Keys) → Keys → ℕ → WaitHandler → Keys
run_with_wait_handler run keys thread handler =
    let (old, set) = set_thread_wait_handler keys thread handler in
    let (last, reset) = set_thread_wait_handler (run set) thread old in reset

-- The call of the handler is the parameter.
abbrev pub wait_for_task {ℓ} : {A : Type ℓ} → (WaitHandler → A) → Keys → ℕ → A
wait_for_task call keys thread = call (get_thread_wait_handler keys thread)

-- Where the call of `generic_wait_handler` stands.
pub data Pc : Type 0 where
  start ready waiting returned : Pc

-- Its event, whether the task has finished, and whether the task has the continuation that signals
-- the event, to be run when it has finished.
pub record Call : Type 0 where
  pub event : TaskWaitEvent
  pub pc : Pc
  pub finished : Bool
  pub continuation : Bool

abbrev pub new_call : Bool → Call
new_call finished = record { event = new; pc = start; finished = finished; continuation = false }

abbrev pub signalled : Call → Call
signalled s = record s { event = signal s.event task_finished; continuation = false }

-- `on_finish`: the continuation of a task that has finished runs at once.
abbrev pub on_finish : Call → Call
on_finish s = if s.finished then signalled s else record s { continuation = true }

pub data GenericWait (s : Call) : Call → Type 0 where
  init_event : s.pc ≡ start → GenericWait s (record s { event = init s.event; pc = ready })
  add : s.pc ≡ ready → GenericWait s (record (on_finish s) { pc = waiting })
  leave :
      {mask : Mask} {event : TaskWaitEvent}
      → s.pc ≡ waiting
      → wait s.event ≡ some (mask, event)
      → GenericWait s (record s { event = event; pc = returned })

-- The thread on which the task runs.
pub data Runs (s : Call) : Call → Type 0 where
  finish : Runs s (record s { finished = true })
  signals : s.finished ≡ true → s.continuation ≡ true → Runs s (signalled s)

pub data Step (s : Call) : Call → Type 0 where
  waiter : {t : Call} → GenericWait s t → Step s t
  runner : {t : Call} → Runs s t → Step s t

pub data Reach : Call → Type 0 where
  here : (finished : Bool) → Reach (new_call finished)
  next : {s t : Call} → Reach s → Step s t → Reach t
