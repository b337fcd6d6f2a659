-- ===== src/WhenAny.antt =====
-- include/async++/when_all_any.h, `when_any`: the state that the continuations of the given tasks
-- share. Each step is one turn of the loop or one call of a continuation.
pub mod First
pub mod Variadic
mod Examples
use asyncplusplus_1_1_annota.Base.{
  ℕ, suc, ◌<◌, ◌≡◌, Bool, true, false, Option, none, some, List, [], set, replicate, length, ◌==◌,
  if◌then◌else◌,
}

-- `when_any_result`: the index of the task that finished first, and the list of the tasks.
pub record WhenAnyResult : Type 0 where
  pub index : ℕ
  pub tasks : List (Option ℕ)

-- `when_any_state` and the loop's index `i`; `called` are the continuations that have run.
pub record WhenAny : Type 0 where
  pub result : List (Option ℕ)
  pub event : Option WhenAnyResult
  pub next_index : ℕ
  pub called : ℕ → Bool

-- The continuation of the task `i`. The list is moved out of the state even where the event is set
-- already.
abbrev pub set_first : WhenAny → ℕ → WhenAny
set_first s i = record s {
  event = elim s.event [
    | none ↦ some (record { index = i; tasks = s.result })
    | some first ↦ some first
  ];
  result = [];
  called = λ j. if j == i then true else s.called j;
}

module _ (count : ℕ) (tasks : ℕ → ℕ) where
  -- A turn of the loop writes the task to the list, which must have the cell.
  pub data Step (s : WhenAny) : WhenAny → Type 0 where
    add :
        s.next_index < count
        → s.next_index < length s.result
        → Step s (record s {
          result = set s.result s.next_index (some (tasks s.next_index));
          next_index = suc s.next_index;
        })
    call : (i : ℕ) → i < s.next_index → s.called i ≡ false → Step s (set_first s i)

  -- The shared state of a range that is not empty.
  abbrev pub new : WhenAny
  new = record { result = replicate count none; event = none; next_index = 0; called = λ _. false }

  pub data Reach : WhenAny → Type 0 where
    here : Reach new
    next : {s t : WhenAny} → Reach s → Step s t → Reach t
