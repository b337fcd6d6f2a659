-- ===== src/Task/Examples.antt =====
-- A task with the value 3, and a continuation that moves the value out and on.
use asyncplusplus_1_1_annota.Base.{
  true, false, ℕ, List, ◌≡◌, ◌⊎◌, ◌∙◌, none, some, [], ◌∷◌, ◌==◌, if◌then◌else◌, arith, refl,
  some_inj, subst, ap,
}
use asyncplusplus_1_1_annota.Task.Types.{
  completed, canceled, is_finished, Value, Task, Ran, value, returns, Exec, root, root_unwrap,
  value_cont, gives, then_throws, moved_from, after_move, World,
}
use asyncplusplus_1_1_annota.Task.Heap.{
  store, hand, get_result, set_result, set_state, set_exception, cancel_base, destroy_func, finish,
  run_continuations, fresh, add_continuation,
}
use asyncplusplus_1_1_annota.Task.Exec.{
  take_handle, run_task, exec, unwrap, unwrapped_finish, link, with_value, complete, run_handle,
  spawn, then_internal,
}
use asyncplusplus_1_1_annota.Task.Event.{new_event, set_internal, abandon}
use asyncplusplus_1_1_annota.Task.Safety.Event.{
  EndsWith, IsSettled, first_set_wins, abandon_cancels,
}
use asyncplusplus_1_1_annota.Task.Inv.{Inv, count, moves_from, func_at, conts_at, finished_at}
use asyncplusplus_1_1_annota.Task.User
use asyncplusplus_1_1_annota.Task.User.{blocks, rethrows, task_get}
use asyncplusplus_1_1_annota.Task.User.Answers.{emptied, get_answers}
use asyncplusplus_1_1_annota.Task.Steps.{World-ext}
use asyncplusplus_1_1_annota.Task.Safety.Step.{ReturnsTasks}
use asyncplusplus_1_1_annota.Task.System.{
  finished_stays, ran, no_tasks, Reachable, start, created, spawned, chained, Reachable-Inv,
  Reachable-progress, continuation_kept_once,
}

abbrev three : Exec ℕ ℕ
three = root (returns (value 3))

abbrev take_on : Exec ℕ ℕ
take_on = value_cont 0 true returns

abbrev both : World ℕ ℕ
both = record {
  task = λ t.
      if t == 0
      then some (record (fresh (some three)) { conts = 1 ∷ [] })
      else if t == 1
      then some (fresh (some take_on))
      else none;
  next = 2;
  handles = 0 ∷ [];
}

one : World ℕ ℕ
one = spawn no_tasks three

chain : then_internal one 0 take_on ≡ some both
unfolding one spawn then_internal add_continuation
chain = ap some (World-ext (λ c. ground arith) refl refl)

both-Reachable : Reachable both
unfolding one spawn
both-Reachable = chained (spawned start three refl refl) 0 take_on refl refl (λ e. cc) chain

both_live :
    (t : ℕ) (left : List ℕ) (f : Exec ℕ ℕ)
    → take_handle 0 both.handles ≡ some (t, left)
    → func_at both t ≡ some f
    → ReturnsTasks both f
unfolding take_handle
both_live t left f took e =
    let first : 0 ≡ t = ap (λ (x : ℕ × List ℕ). x.0) (some_inj took) in
    let is_three : three ≡ f = some_inj (ap (func_at both) first ∙ e) in
    subst (ReturnsTasks both) is_three tt

Reachable-progress_example : (w' : World ℕ ℕ) × (run_handle both 0 ≡ some w') × Reachable w'
Reachable-progress_example = Reachable-progress both-Reachable 0 (omega arith) both_live

continuation_kept_once_example :
    (count 1 (conts_at both 0) ≡ (if finished_at both 0 then 0 else 1))
    × (count 1 both.handles ≡ (if finished_at both 0 then 1 else 0))
continuation_kept_once_example = continuation_kept_once both-Reachable 1 0 take_on refl refl

abbrev event : World ℕ ℕ
event = new_event no_tasks

first_set_wins_example :
    (w' : World ℕ ℕ) × (set_internal event 0 (returns (value 3)) ≡ some (w', true))
    × Inv w'
    × EndsWith w' 0 (returns (value 3))
    × IsSettled w' 0
first_set_wins_example =
    first_set_wins (Reachable-Inv (created start)) 0 (fresh none) refl refl refl (returns (value 3))

abandon_cancels_example :
    (w' : World ℕ ℕ) × (abandon 7 event 0 false ≡ some w') × Inv w' × EndsWith w' 0 (Ran.throws 7)
abandon_cancels_example =
    abandon_cancels (Reachable-Inv (created start)) 0 (fresh none) refl refl refl 7

-- The heap after the first task has run, and the second after it.
abbrev ended : Task ℕ ℕ
ended = record {
  state = completed;
  event_task_got_task = false;
  func = none;
  result = some (value 3);
  except = none;
  conts = [];
  conts_locked = true;
}

abbrev half_way : World ℕ ℕ
half_way = hand (store (record both { handles = [] }) 0 ended) (1 ∷ [])

abbrev emptied_task : Task ℕ ℕ
emptied_task = record ended { result = some moved_from }

abbrev over : World ℕ ℕ
over = hand (store (store (record half_way { handles = [] }) 0 emptied_task) 1 ended) []

first_runs : run_handle both 0 ≡ some half_way
unfolding take_handle run_handle run_task exec complete set_result destroy_func finish
    run_continuations
first_runs = ap some (World-ext (λ c. ground arith) refl refl)

take_1 : take_handle 0 half_way.handles ≡ some (1, [])
unfolding take_handle
take_1 = refl

half_way_Reachable : Reachable half_way
half_way_Reachable = ran both-Reachable 0 (omega arith) both_live first_runs

second_runs : run_handle half_way 0 ≡ some over
unfolding take_handle run_handle run_task exec with_value get_result complete set_result
    destroy_func finish run_continuations
second_runs = ap some (World-ext (λ c. ground arith) refl refl)

finished_stays_example :
    (over.task 0 ≡ some ended)
    ⊎ ((moves_from take_on ≡ some 0)
        × (v : Value ℕ) × (some (value 3) ≡ some v)
        × (over.task 0 ≡ some (record ended { result = some (after_move v) })))
finished_stays_example =
    finished_stays half_way_Reachable 0 1 [] take_on (omega arith) take_1 refl tt second_runs 0
      ended refl refl

get_answers_example :
    (is_finished completed ≡ false
      → task_get half_way (some 0) (some 5) ≡ some (blocks, some 0, half_way))
    × (completed ≡ completed
        → (v : Value ℕ) × (some (value 3) ≡ some v)
          × (task_get half_way (some 0) none
              ≡ some (User.gives v, none, emptied half_way_Reachable 0 ended refl v))
          × ((x : ℕ)
              → task_get half_way (some 0) (some x)
                ≡ some (rethrows x, none, emptied half_way_Reachable 0 ended refl v)))
    × (completed ≡ canceled
        → (e : ℕ) × (none ≡ some e)
          × (task_get half_way (some 0) (some 5) ≡ some (rethrows e, some 0, half_way)))
get_answers_example = get_answers half_way_Reachable 0 ended refl (some 5)

-- A function that returns an empty task: its task ends with the exception of `then`.
abbrev unwraps : Exec ℕ ℕ
unwraps = root_unwrap (gives (then_throws 9))

abbrev canceled_task : Task ℕ ℕ
canceled_task = record (fresh none) { state = canceled; except = some 9; conts_locked = true }

empty_child_cancels :
    run_handle (spawn no_tasks unwraps) 0
    ≡ some (hand (store (record (spawn no_tasks unwraps) { handles = [] }) 0 canceled_task) [])
unfolding take_handle run_handle run_task exec spawn unwrap unwrapped_finish link set_state
    destroy_func cancel_base set_exception run_continuations
empty_child_cancels = ap some (World-ext (λ c. ground arith) refl refl)
