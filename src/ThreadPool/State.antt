-- ===== src/ThreadPool/State.antt =====
-- src/threadpool_scheduler.cpp: what the threads of a pool share, and the calls that each is in.
use asyncplusplus_1_1_annota.Base.{
  ℕ, Bool, true, false, Option, none, some, List, [], ◌∷◌, ◌++◌, back, but_last, ◌==◌, ◌&&◌,
  if◌then◌else◌,
}
use asyncplusplus_1_1_annota.WaitEvent
use asyncplusplus_1_1_annota.WaitEvent.{
  Mask, TaskWaitEvent, task_finished, task_available, init, is_set, clear, signal,
}

-- Where a call of `thread_task_loop` stands. In `running` the thread runs a task; in `notify` the
-- task has pushed a handle in `schedule`, and in `notify_locked` it goes on to the lock.
pub data Pc : Type 0 where
  check popping begin_steal fetch asleep running notify notify_locked left : Pc
  stealing : (victims : List ℕ) → Pc
  woken : (events : Mask) → Pc

-- A call of `thread_task_loop`. `registered` says that the task that is waited for still has the
-- continuation that signals `event`.
pub record Call : Type 0 where
  pub wait_task : Option ℕ
  pub added_continuation : Bool
  pub event : TaskWaitEvent
  pub registered : Bool
  pub pc : Pc

-- The address of the event of a call: the calls of one thread are nested, and the call at depth 0
-- is the one of `worker_thread`.
pub record Address : Type 0 where
  pub thread : ℕ
  pub level : ℕ

-- `queue i` is the queue of the thread `i`, oldest first. `waiters` are the first `num_waiters`
-- cells of the array. `ran` and `accepted` keep the handles that were run and scheduled.
pub record Pool : Type 0 where
  pub queue : ℕ → List ℕ
  pub public_queue : List ℕ
  pub shutdown : Bool
  pub waiters : List Address
  pub depth : ℕ → ℕ
  pub call : ℕ → ℕ → Call
  pub finished : ℕ → Bool
  pub ran : List ℕ
  pub accepted : List ℕ

abbrev pub update {ℓ} : {A : Type ℓ} → (ℕ → A) → ℕ → A → ℕ → A
update f i a j = if j == i then a else f j

abbrev pub put : (ℕ → ℕ → Call) → ℕ → ℕ → Call → ℕ → ℕ → Call
put call i d c = update call i (update (call i) d c)

abbrev pub set_call : Pool → ℕ → ℕ → Call → Pool
set_call s i d c = record s { call = put s.call i d c }

-- The call that the thread is in.
abbrev pub top : Pool → ℕ → Call
top s i = s.call i (s.depth i)

abbrev pub set_top : Pool → ℕ → Call → Pool
set_top s i c = set_call s i (s.depth i) c

abbrev pub go : Pool → ℕ → Pc → Pool
go s i p = set_top s i (record (top s i) { pc = p })

abbrev pub signal_at : (ℕ → ℕ → Call) → Address → ℕ → ℕ → Call
signal_at call a =
    put call a.thread a.level (record (call a.thread a.level) {
      event = signal (call a.thread a.level).event task_available;
    })

-- Pop a thread from the list and wake it up.
abbrev pub wake_last : Pool → Pool
wake_last s = elim (back s.waiters) [
  | none ↦ s
  | some a ↦ record s { call = signal_at s.call a; waiters = but_last s.waiters }
]

abbrev pub signal_all : (ℕ → ℕ → Call) → List Address → ℕ → ℕ → Call
signal_all call [] = call
signal_all call (a ∷ rest) = signal_all (signal_at call a) rest

abbrev pub same : Address → Address → Bool
same a b = (a.thread == b.thread) && (a.level == b.level)

-- The loop that takes an event out of the list: the last one takes its place.
unfoldable pub remove : Address → List Address → List Address
remove a [] = []
remove a (x ∷ []) = if same x a then [] else x ∷ []
remove a (x ∷ y ∷ ys) =
    let rest = remove a (y ∷ ys) in
    if same x a
    then (elim (back (y ∷ ys)) [ none ↦ [] | some z ↦ z ∷ but_last (y ∷ ys) ])
    else x ∷ rest

-- What the wait has left when `thread_task_loop` is called.
abbrev pub new_call : Option ℕ → Call
new_call w = record {
  wait_task = w;
  added_continuation = false;
  event = WaitEvent.new;
  registered = false;
  pc = check;
}

abbrev pub exits : Option ℕ → Bool → Bool
exits none shut = shut
exits (some w) shut = false

-- `event.init()`, and `on_finish` if it has not been called: the continuation of a task that has
-- finished runs at once.
abbrev pub prepare : (ℕ → Bool) → Call → Call
prepare done c = elim c.wait_task [
  | none ↦ record c { event = init c.event }
  | some w ↦
      if c.added_continuation
      then record c { event = init c.event }
      else if done w
      then record c { event = signal (init c.event) task_finished; added_continuation = true }
      else record c { event = init c.event; added_continuation = true; registered = true }
]

-- The lines up to `event.wait()`, the call's own included.
abbrev pub sleep : Pool → ℕ → Pool
sleep s i = record (set_top s i (record (prepare s.finished (top s i)) { pc = asleep })) {
  waiters = s.waiters ++ record { thread = i; level = s.depth i } ∷ [];
}

abbrev pub unlist : Pool → ℕ → Pool
unlist s i = record s { waiters = remove (record { thread = i; level = s.depth i }) s.waiters }

-- Whether the task that is waited for has finished, as far as the call is told.
abbrev pub is_over : (ℕ → Bool) → Call → Bool
is_over done c = elim c.wait_task [
  | none ↦ false
  | some w ↦ if c.added_continuation then c.event.event_mask.finished else done w
]

-- Whether the events with which a call wakes end it.
abbrev pub ends : Option ℕ → Mask → Bool
ends none events = false
ends (some w) events = events.finished

-- The constructor, and the threads that it starts.
abbrev pub new : Pool
new = record {
  queue = λ _. [];
  public_queue = [];
  shutdown = false;
  waiters = [];
  depth = λ _. 0;
  call = λ _ _. new_call none;
  finished = λ _. false;
  ran = [];
  accepted = [];
}
