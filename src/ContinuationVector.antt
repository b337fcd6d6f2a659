-- ===== src/ContinuationVector.antt =====
-- include/async++/continuation_vector.h: the continuations of a task, which any number of threads
-- add while the task may finish on another one. Each step is one access to what they share.
pub mod Inv
pub mod Adder
pub mod Write
pub mod Flusher
pub mod Once
pub mod Destroyed
mod Examples
use asyncplusplus_1_1_annota.Base.{
  ℕ, ◌≡◌, Bool, true, false, Option, none, some, List, [], ◌∷◌, ◌++◌, ◌==◌, if◌then◌else◌,
}

-- What the pointer of `internal_data` points to, with `flags::is_vector`. The thread `i` adds the
-- task `i`, and the `vector_data` that it allocates has the address `i`.
pub data Slot : Type 0 where
  null : Slot
  task : ℕ → Slot
  vector : ℕ → Slot

pub data Holder : Type 0 where
  adder : ℕ → Holder
  flusher : Holder

-- Where a call of `try_add` stands, with its `data`, its `new_data` and what its own `vector_data`
-- starts with.
pub data Pc : Type 0 where
  start : Pc
  loaded : (data_slot : Slot) (data_locked : Bool) (cached : Option ℕ) → Pc
  cas : (data_slot : Slot) (cached : Option ℕ) → Pc
  want : (v : ℕ) → Pc
  checking : (v : ℕ) → Pc
  pushing : (v : ℕ) → Pc
  added refused : Pc

-- Where the one call of `flush_and_lock` stands.
pub data Flush : Type 0 where
  idle : Flush
  loaded : (data_slot : Slot) (data_locked : Bool) → Flush
  giving : (t : ℕ) → Flush
  want : (v : ℕ) → Flush
  flushing : (v : ℕ) → Flush
  done : Flush

-- `slot` and `locked` are `atomic_data`, `locked` being `flags::is_locked`. `flushed` has the tasks
-- that were passed to the function of `flush_and_lock`.
pub record State : Type 0 where
  pub slot : Slot
  pub locked : Bool
  pub vectors : ℕ → List ℕ
  pub mutex : ℕ → Option Holder
  pub pc : ℕ → Pc
  pub flush : Flush
  pub flushed : List ℕ

abbrev pub update {ℓ} : {A : Type ℓ} → (ℕ → A) → ℕ → A → ℕ → A
update f i a j = if j == i then a else f j

abbrev pub go : State → ℕ → Pc → State
go s i p = record s { pc = update s.pc i p }

-- Once the vector is locked, what `flush_and_lock` goes on to.
abbrev pub after_lock : Slot → Flush
after_lock null = done
after_lock (task t) = giving t
after_lock (vector v) = Flush.want v

-- `try_add` of the thread `i`.
pub data TryAdd (s : State) : State → Type 0 where
  -- The first load, and the branches of the loop on `data`.
  load : (i : ℕ) → s.pc i ≡ start → TryAdd s (go s i (Pc.loaded s.slot s.locked none))
  refuse :
      (i : ℕ) {sl : Slot} {c : Option ℕ} → s.pc i ≡ Pc.loaded sl true c → TryAdd s (go s i refused)
  use_vector :
      (i : ℕ) {v : ℕ} {c : Option ℕ}
      → s.pc i ≡ Pc.loaded (vector v) false c
      → TryAdd s (go s i (Pc.want v))
  first : (i : ℕ) {c : Option ℕ} → s.pc i ≡ Pc.loaded null false c → TryAdd s (go s i (cas null c))
  second :
      (i : ℕ) {t : ℕ}
      → s.pc i ≡ Pc.loaded (task t) false none
      → TryAdd s
          (record (go s i (cas (task t) (some t))) { vectors = update s.vectors i (t ∷ i ∷ []) })
  second_again :
      (i : ℕ) {t b : ℕ}
      → s.pc i ≡ Pc.loaded (task t) false (some b)
      → TryAdd s (go s i (cas (task t) (some b)))
  -- The compare-exchange, which may also fail for no reason.
  win_first :
      (i : ℕ) {c : Option ℕ}
      → s.pc i ≡ cas null c
      → s.slot ≡ null
      → s.locked ≡ false
      → TryAdd s (record (go s i added) { slot = task i })
  win_second :
      (i : ℕ) {t b : ℕ}
      → s.pc i ≡ cas (task t) (some b)
      → s.slot ≡ task t
      → s.locked ≡ false
      → TryAdd s (record (go s i added) { slot = vector i })
  lose :
      (i : ℕ) {sl : Slot} {c : Option ℕ}
      → s.pc i ≡ cas sl c
      → TryAdd s (go s i (Pc.loaded s.slot s.locked c))
  -- The branch under the mutex.
  take :
      (i : ℕ) {v : ℕ}
      → s.pc i ≡ Pc.want v
      → s.mutex v ≡ none
      → TryAdd s (record (go s i (checking v)) { mutex = update s.mutex v (some (adder i)) })
  too_late :
      (i : ℕ) {v : ℕ}
      → s.pc i ≡ checking v
      → s.locked ≡ true
      → TryAdd s (record (go s i refused) { mutex = update s.mutex v none })
  in_time : (i : ℕ) {v : ℕ} → s.pc i ≡ checking v → s.locked ≡ false → TryAdd s (go s i (pushing v))
  push :
      (i : ℕ) {v : ℕ}
      → s.pc i ≡ pushing v
      → TryAdd s (record (go s i added) {
        vectors = update s.vectors v (s.vectors v ++ i ∷ []);
        mutex = update s.mutex v none;
      })

-- `flush_and_lock`, which is called once.
pub data FlushAndLock (s : State) : State → Type 0 where
  flush_load : s.flush ≡ idle → FlushAndLock s (record s { flush = Flush.loaded s.slot s.locked })
  flush_win :
      {sl : Slot} {lk : Bool}
      → s.flush ≡ Flush.loaded sl lk
      → s.slot ≡ sl
      → s.locked ≡ lk
      → FlushAndLock s (record s { locked = true; flush = after_lock sl })
  flush_lose :
      {sl : Slot} {lk : Bool}
      → s.flush ≡ Flush.loaded sl lk
      → FlushAndLock s (record s { flush = Flush.loaded s.slot s.locked })
  give :
      {t : ℕ}
      → s.flush ≡ giving t
      → FlushAndLock s (record s { flush = done; flushed = s.flushed ++ t ∷ [] })
  flush_take :
      {v : ℕ}
      → s.flush ≡ Flush.want v
      → s.mutex v ≡ none
      → FlushAndLock s (record s { flush = flushing v; mutex = update s.mutex v (some flusher) })
  flush_all :
      {v : ℕ}
      → s.flush ≡ flushing v
      → FlushAndLock s (record s {
        flush = done;
        flushed = s.flushed ++ s.vectors v;
        vectors = update s.vectors v [];
        mutex = update s.mutex v none;
      })

pub data Step (s : State) : State → Type 0 where
  try_add : {t : State} → TryAdd s t → Step s t
  flush_and_lock : {t : State} → FlushAndLock s t → Step s t

-- The constructor, before any call.
abbrev pub new : State
new = record {
  slot = null;
  locked = false;
  vectors = λ _. [];
  mutex = λ _. none;
  pc = λ _. start;
  flush = idle;
  flushed = [];
}

pub data Reach : State → Type 0 where
  here : Reach new
  next : {s t : State} → Reach s → Step s t → Reach t

-- The continuations whose references the destructor gives up. A task that was kept in the pointer
-- is gone where the data is locked.
abbrev pub destroy : State → List ℕ
destroy s = elim s.slot [
  | null ↦ []
  | task t ↦ if s.locked then [] else t ∷ []
  | vector v ↦ s.vectors v
]
