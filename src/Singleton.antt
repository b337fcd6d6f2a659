-- ===== src/Singleton.antt =====
-- src/singleton.h, where the compiler has no thread-safe statics: `get_instance` on any number of
-- threads, each with one call. Each step is one access to the flag, the mutex or the storage.
pub mod Once
mod Examples
use asyncplusplus_1_1_annota.Base.{
  ℕ, ◌+◌, ◌≡◌, Bool, true, false, Option, none, some, ◌==◌, if◌then◌else◌,
}

-- Where a call stands: at its first test, before the mutex, under it before the second test, under
-- it with the object built, about to give the mutex back, or over. A call that throws is one that
-- ends with the exception of the object's constructor.
pub data Pc : Type 0 where
  start want locked built leaving done throwing threw : Pc

-- `init_flag`, `lock`, and how many objects were built in `storage`.
pub record Singleton : Type 0 where
  pub init_flag : Bool
  pub lock : Option ℕ
  pub built_count : ℕ
  pub pc : ℕ → Pc

abbrev pub new : Singleton
new = record { init_flag = false; lock = none; built_count = 0; pc = λ i. start }

abbrev pub at : (ℕ → Pc) → ℕ → Pc → ℕ → Pc
at pc i p j = if j == i then p else pc j

abbrev pub move : Singleton → ℕ → Pc → Singleton
move s i p = record s { pc = at s.pc i p }

-- `get_instance` on the thread `i`.
pub data GetInstance (i : ℕ) (s : Singleton) : Singleton → Type 0 where
  is_set : s.pc i ≡ start → s.init_flag ≡ true → GetInstance i s (move s i done)
  not_set : s.pc i ≡ start → s.init_flag ≡ false → GetInstance i s (move s i want)
  acquire :
      s.pc i ≡ want → s.lock ≡ none → GetInstance i s (record (move s i locked) { lock = some i })
  was_set : s.pc i ≡ locked → s.init_flag ≡ true → GetInstance i s (move s i leaving)
  build :
      s.pc i ≡ locked
      → s.init_flag ≡ false
      → GetInstance i s (record (move s i built) { built_count = s.built_count + 1 })
  fail : s.pc i ≡ locked → s.init_flag ≡ false → GetInstance i s (move s i throwing)
  publish : s.pc i ≡ built → GetInstance i s (record (move s i leaving) { init_flag = true })
  release : s.pc i ≡ leaving → GetInstance i s (record (move s i done) { lock = none })
  unwind : s.pc i ≡ throwing → GetInstance i s (record (move s i threw) { lock = none })

pub data Reach : Singleton → Type 0 where
  here : Reach new
  next : {s t : Singleton} (i : ℕ) → Reach s → GetInstance i s t → Reach t

-- How many objects the destructor of the singleton destroys.
abbrev pub destroy : Singleton → ℕ
destroy s = if s.init_flag then 1 else 0
