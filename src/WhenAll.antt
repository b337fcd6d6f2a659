-- ===== src/WhenAll.antt =====
-- include/async++/when_all_any.h, `when_all`: the state that the continuations of the given tasks
-- share. Each step is one turn of the loop, one call of a continuation, or the end of one.
pub mod Event
mod Examples
use asyncplusplus_1_1_annota.Base.{
  ℕ, suc, ◌-◌, ◌<◌, ◌≡◌, Bool, true, false, Option, none, some, List, set, replicate, ◌==◌,
  if◌then◌else◌,
}

-- `when_all_state`, the loop's index `i`, and whether `then` has thrown in it. `called` are the
-- continuations that have run, and `dropped` those whose function object is destroyed.
pub record WhenAll : Type 0 where
  pub refs : ℕ
  pub result : List (Option ℕ)
  pub event : Option (List (Option ℕ))
  pub next_index : ℕ
  pub failed : Bool
  pub called : ℕ → Bool
  pub dropped : ℕ → Bool

abbrev pub mark : (ℕ → Bool) → ℕ → ℕ → Bool
mark f i j = if j == i then true else f j

-- The count goes down by `k`; from `k`, the state is deleted, and its destructor sets the event.
abbrev pub less : WhenAll → ℕ → WhenAll
less s k = record s { refs = s.refs - k; event = if s.refs == k then some s.result else s.event }

-- `remove_ref`. `none` is the use of a state that is deleted.
abbrev pub remove_refs : WhenAll → ℕ → Option WhenAll
remove_refs s k = if s.refs == 0 then none else some (less s k)

-- `then` has thrown: its function object is destroyed, and the references of the tasks after it are
-- given up.
abbrev pub give_up : ℕ → WhenAll → Option WhenAll
give_up count s = elim (remove_refs s 1) [
  | none ↦ none
  | some t ↦ remove_refs (record t { failed = true }) (count - s.next_index - 1)
]

-- The continuation of the task `i`.
abbrev pub store : (ℕ → ℕ) → WhenAll → ℕ → WhenAll
store tasks s i = record s { result = set s.result i (some (tasks i)); called = mark s.called i }

module _ (count : ℕ) (tasks : ℕ → ℕ) where
  pub data Step (s : WhenAll) : WhenAll → Type 0 where
    add :
        s.failed ≡ false
        → s.next_index < count
        → Step s (record s { next_index = suc s.next_index })
    throws :
        {t : WhenAll}
        → s.failed ≡ false
        → s.next_index < count
        → give_up count s ≡ some t
        → Step s t
    call :
        (i : ℕ)
        → i < s.next_index
        → s.called i ≡ false
        → s.dropped i ≡ false
        → Step s (store tasks s i)
    drop :
        (i : ℕ) {t : WhenAll}
        → i < s.next_index
        → s.dropped i ≡ false
        → remove_refs (record s { dropped = mark s.dropped i }) 1 ≡ some t
        → Step s t

  -- The shared state of a range that is not empty.
  abbrev pub new : WhenAll
  new = record {
    refs = count;
    result = replicate count none;
    event = none;
    next_index = 0;
    failed = false;
    called = λ _. false;
    dropped = λ _. false;
  }

  pub data Reach : WhenAll → Type 0 where
    here : Reach new
    next : {s t : WhenAll} → Reach s → Step s t → Reach t
