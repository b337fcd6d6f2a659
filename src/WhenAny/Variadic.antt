-- ===== src/WhenAny/Variadic.antt =====
-- include/async++/when_all_any.h, `when_any` of separate arguments: the tasks are kept in a tuple,
-- whose cells stay when it is moved out, as null tasks.
use asyncplusplus_1_1_annota.Base.{
  ℕ, suc, ◌≤◌, ◌<◌, ◌≡◌, true, false, Option, none, some, List, set, replicate, length, get_or,
  ◌==◌, if◌then◌else◌,
}
use asyncplusplus_1_1_annota.WhenAny.{WhenAnyResult, WhenAny, new}

-- The continuation of the task `i`. The tuple is moved out also where the event is set already.
abbrev pub set_tuple : WhenAny → ℕ → WhenAny
set_tuple s i = record s {
  event = elim s.event [
    | none ↦ some (record { index = i; tasks = s.result })
    | some first ↦ some first
  ];
  result = replicate (length s.result) none;
  called = λ j. if j == i then true else s.called j;
}

abbrev pub put_task : (ℕ → ℕ) → WhenAny → WhenAny
put_task tasks s = record s {
  result = set s.result s.next_index (some (tasks s.next_index));
  next_index = suc s.next_index;
}

module _ (count : ℕ) (tasks : ℕ → ℕ) where
  -- `when_any_variadic` for the next argument, or a continuation.
  pub data VariadicStep (s : WhenAny) : WhenAny → Type 0 where
    add : s.next_index < count → VariadicStep s (put_task tasks s)
    call : (i : ℕ) → i < s.next_index → s.called i ≡ false → VariadicStep s (set_tuple s i)

  pub data Reach : WhenAny → Type 0 where
    here : Reach (new count tasks)
    next : {s t : WhenAny} → Reach s → VariadicStep s t → Reach t

  -- The states that any number of further steps reach.
  pub data Later (s : WhenAny) : WhenAny → Type 0 where
    same : Later s s
    further : {t u : WhenAny} → Later s t → VariadicStep t u → Later s u

  -- A tuple that has the first `n` tasks, and no others.
  abbrev pub HasFirst : ℕ → List (Option ℕ) → Type 0
  HasFirst n r =
      ((j : ℕ) → j < n → get_or r j none ≡ some (tasks j))
      × ((j : ℕ) → n ≤ j → get_or r j none ≡ none)

  record Inv (s : WhenAny) : Type 0 where
    size : length s.result ≡ count
    waiting : s.event ≡ none → HasFirst s.next_index s.result
    called_set : (first : WhenAnyResult) → s.event ≡ some first → s.called first.index ≡ true
