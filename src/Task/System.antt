-- ===== src/Task/System.antt =====
-- Every way in which a program and its schedulers can go on from an empty heap.
use asyncplusplus_1_1_annota.Base.{
  true, Bool, ℕ, ◌⊎◌, List, ◌<◌, ◌≡◌, ◌≢◌, Option, none, some, [], if◌then◌else◌, refl,
  Option-cases, inl, inr, some_inj, sym, ap, ◌∙◌, subst, length, ==_refl,
}
use asyncplusplus_1_1_annota.Task.Types.{is_finished, Value, after_move, Ran, Task, Exec, World}
use asyncplusplus_1_1_annota.Task.Exec.{take_handle, run_handle, drop_handle, spawn, then_internal}
use asyncplusplus_1_1_annota.Task.Inv.{
  Inv, count, due, waiting, conts_at, finished_at, waits_on, target, moves_from, func_at,
}
use asyncplusplus_1_1_annota.Task.Inv.Alloc.{IsFree}
use asyncplusplus_1_1_annota.Task.Safety.{Safe, Stays}
use asyncplusplus_1_1_annota.Task.Safety.Link.{handed-Inv, linked-at}
use asyncplusplus_1_1_annota.Task.Event.{new_event, set_internal, abandon}
use asyncplusplus_1_1_annota.Task.Safety.Event.{new_event-Inv, set-Inv, abandon-Inv}
use asyncplusplus_1_1_annota.Task.Safety.Got.{task_get-Inv}
use asyncplusplus_1_1_annota.Task.Safety.Made.{make_task-Inv, make_exception_task-Inv}
use asyncplusplus_1_1_annota.Task.User.{TaskPtr, Outcome, task_get, make_task, make_exception_task}
use asyncplusplus_1_1_annota.Task.Safety.Step.{ReturnsTasks, run_handle-Safe, drop_handle-Safe}

module _ {V E : Type 0} where
  abbrev pub no_tasks : World V E
  no_tasks = record { task = λ _. none; next = 0; handles = [] }

  no_tasks-Inv : Inv no_tasks
  no_tasks-Inv = record {
    sound = λ t k e. cc;
    bound = λ t k e. cc;
    handed = λ c. refl;
    kept = λ p c. refl;
    parent = λ c p f e h. cc;
    goal = λ c u f e h. cc;
    one_goal = λ c d u f g e e' h h'. cc;
  }

  -- A user's function object: it finishes its own task only.
  user-IsFree :
      {w : World V E} (f : Exec V E)
      → target f ≡ none
      → ((p : ℕ) → waits_on f ≡ some p → w.task p ≢ none)
      → IsFree w (some f)
  user-IsFree f user there = record {
    held = λ u g e h.
        absurd (let no_goal : none ≡ some u = sym user ∙ ap target (some_inj e) ∙ h in cc);
    alone = λ c u g i e h j l.
        let no_goal : none ≡ some u = sym user ∙ ap target (some_inj e) ∙ h in cc;
    waits = λ p g e h. there p (ap waits_on (some_inj e) ∙ h);
  }

  -- `spawn` gives a handle to the scheduler, and the discipline of the tasks holds after it.
  pub spawn-Inv :
      {w : World V E}
      → Inv w
      → (f : Exec V E) → waits_on f ≡ none
      → target f ≡ none
      → Inv (spawn w f)
  unfolding spawn
  spawn-Inv {w} inv f root user =
      handed-Inv inv f
        (user-IsFree f user (λ p e. let no_wait : none ≡ some p = sym root ∙ e in cc))
        (rw (due, root) refl)

  -- Where the discipline of the tasks holds, adding a user's continuation to a task that is there
  -- is never undefined, before and after the task has finished, the discipline holds after it, and no
  -- task that had finished has changed.
  pub then_internal-Safe :
      {w : World V E}
      → Inv w
      → (p : ℕ) (f : Exec V E) → waits_on f ≡ some p
      → target f ≡ none
      → w.task p ≢ none
      → Safe w (then_internal w p f)
  unfolding then_internal
  then_internal-Safe {w} inv p f waited user there = elim (Option-cases (w.task p)) [
    | inl e ↦ absurd (there e)
    | inr (k, e) ↦
        linked-at inv f
          (user-IsFree f user (λ q h z. let same : p ≡ q = some_inj (sym waited ∙ h) in cc)) p
          waited k e
  ]

  -- The heaps that a program and its schedulers can reach.
  pub data Reachable : World V E → Type 0 where
    start : Reachable no_tasks
    spawned :
        {w : World V E}
        → Reachable w
        → (f : Exec V E) → waits_on f ≡ none
        → target f ≡ none
        → Reachable (spawn w f)
    chained :
        {w w' : World V E}
        → Reachable w
        → (p : ℕ) (f : Exec V E) → waits_on f ≡ some p
        → target f ≡ none
        → w.task p ≢ none
        → then_internal w p f ≡ some w'
        → Reachable w'
    ran :
        {w w' : World V E}
        → Reachable w
        → (i : ℕ) → i < length w.handles
        → ((t : ℕ) (left : List ℕ) (f : Exec V E)
            → take_handle i w.handles ≡ some (t, left)
            → func_at w t ≡ some f
            → ReturnsTasks w f)
        → run_handle w i ≡ some w'
        → Reachable w'
    discarded :
        {w w' : World V E}
        → Reachable w
        → (i : ℕ) (e : E) → i < length w.handles
        → drop_handle e w i ≡ some w'
        → Reachable w'
    created : {w : World V E} → Reachable w → Reachable (new_event w)
    made : {w : World V E} → Reachable w → (v : Value V) → Reachable (make_task w v)
    made_exception : {w : World V E} → Reachable w → (e : E) → Reachable (make_exception_task w e)
    got :
        {w w' : World V E}
        → Reachable w
        → (p p' : TaskPtr) (throws : Option E) (o : Outcome E (Value V))
        → task_get w p throws ≡ some (o, p', w')
        → Reachable w'
    event_set :
        {w w' : World V E}
        → Reachable w
        → (t : ℕ) (k : Task V E) (r : Ran V E) (answer : Bool) → w.task t ≡ some k
        → k.func ≡ none
        → set_internal w t r ≡ some (w', answer)
        → Reachable w'
    abandoned :
        {w w' : World V E}
        → Reachable w
        → (t : ℕ) (k : Task V E) (e : E) (unique : Bool) → w.task t ≡ some k
        → k.func ≡ none
        → abandon e w t unique ≡ some w'
        → Reachable w'

  Safe-Inv :
      (w : World V E) {o : Option (World V E)} {w' : World V E} → Safe w o → o ≡ some w' → Inv w'
  Safe-Inv w (w₁, e, inv, _) e' = subst Inv (some_inj (sym e ∙ e')) inv

  pub Reachable-Inv : {w : World V E} → Reachable w → Inv w
  Reachable-Inv start = no_tasks-Inv
  Reachable-Inv (spawned r f root user) = spawn-Inv (Reachable-Inv r) f root user
  Reachable-Inv (chained {w = w} r p f waited user there e) =
      Safe-Inv w (then_internal-Safe (Reachable-Inv r) p f waited user there) e
  Reachable-Inv (ran {w = w} r i here live e) =
      let (t, left, f, took, owns, (runs, e', inv, stays)) =
        run_handle-Safe (Reachable-Inv r) i here live in
      subst Inv (some_inj (sym e' ∙ e)) inv
  Reachable-Inv (discarded {w = w} r i x here e) =
      Safe-Inv w (drop_handle-Safe (Reachable-Inv r) i here x) e
  Reachable-Inv (created r) = new_event-Inv (Reachable-Inv r)
  Reachable-Inv (made r v) = make_task-Inv (Reachable-Inv r) v
  Reachable-Inv (made_exception r e) = make_exception_task-Inv (Reachable-Inv r) e
  Reachable-Inv (got r p p' throws o e) = task_get-Inv (Reachable-Inv r) p throws e
  Reachable-Inv (event_set {w' = w'} r t k x answer there no_func e) =
      set-Inv (Reachable-Inv r) t k there no_func x w' answer e
  Reachable-Inv (abandoned {w' = w'} r t k x unique there no_func e) =
      abandon-Inv (Reachable-Inv r) t k there no_func x unique w' e

  -- In every heap that a program and its schedulers can reach, running any handle is never
  -- undefined, and reaches another such heap: given that the task which the function object of this
  -- handle returns, if it returns one, is there.
  pub Reachable-progress :
      {w : World V E}
      → Reachable w
      → (i : ℕ) → i < length w.handles
      → ((t : ℕ) (left : List ℕ) (f : Exec V E)
          → take_handle i w.handles ≡ some (t, left)
          → func_at w t ≡ some f
          → ReturnsTasks w f)
      → (w' : World V E) × (run_handle w i ≡ some w') × Reachable w'
  Reachable-progress r i here live =
      let (t, left, f, took, owns, (w', e, inv, stays)) =
        run_handle-Safe (Reachable-Inv r) i here live in
      (w', e, ran r i here live e)

  -- In every heap that a program and its schedulers can reach, a continuation that has yet to run
  -- is not lost and not doubled: until its parent has finished it is once among the parent's
  -- continuations and no scheduler has it, and from then on there is one handle of it.
  pub continuation_kept_once :
      {w : World V E}
      → Reachable w
      → (c p : ℕ) (f : Exec V E) → func_at w c ≡ some f
      → waits_on f ≡ some p
      → (count c (conts_at w p) ≡ (if finished_at w p then 0 else 1))
        × (count c w.handles ≡ (if finished_at w p then 1 else 0))
  continuation_kept_once {w} r c p f has waited =
      let inv = Reachable-Inv r in
      (
        inv.kept p c ∙ rw (has, waiting, waited, ==_refl p) refl,
        inv.handed c ∙ rw (has, due, waited) refl,
      )

  -- In every heap that a program and its schedulers can reach, the run of a handle does not change a
  -- task that has finished, its state, its result and its exception are final: except that the
  -- function object of the handle, where it is one that moves the result of its parent or child out,
  -- may leave that result moved from. Given that the task which the function object returns, if it
  -- returns one, is there.
  pub finished_stays :
      {w w' : World V E}
      → Reachable w
      → (i t : ℕ) (left : List ℕ) (f : Exec V E) → i < length w.handles
      → take_handle i w.handles ≡ some (t, left)
      → func_at w t ≡ some f
      → ReturnsTasks w f
      → run_handle w i ≡ some w'
      → (c : ℕ) (q : Task V E) → w.task c ≡ some q
      → is_finished q.state ≡ true
      → (w'.task c ≡ some q)
        ⊎ ((moves_from f ≡ some c)
            × (v : Value V) × (q.result ≡ some v)
            × (w'.task c ≡ some (record q { result = some (after_move v) })))
  finished_stays {w} r i t left f here took owns live e c q at over =
      let (t₁, left₁, f₁, took₁, owns₁, (w₁, runs, inv, stays)) =
        run_handle-Safe (Reachable-Inv r) i here live_here in
      let same_t : t₁ ≡ t = ap (λ (x : ℕ × List ℕ). x.0) (some_inj (sym took₁ ∙ took)) in
      let same_f : f₁ ≡ f = some_inj (sym owns₁ ∙ ap (func_at w) same_t ∙ owns) in
      let same_w = some_inj (sym runs ∙ e) in
      subst (λ u. Stays f c q u) same_w (subst (λ g. Stays g c q w₁) same_f (stays c q at over))
    where
      live_here :
          (t' : ℕ) (left' : List ℕ) (f' : Exec V E)
          → take_handle i w.handles ≡ some (t', left')
          → func_at w t' ≡ some f'
          → ReturnsTasks w f'
      live_here t' left' f' took' owns' =
          let same_t : t' ≡ t = ap (λ (x : ℕ × List ℕ). x.0) (some_inj (sym took' ∙ took)) in
          let same_f : f ≡ f' = some_inj (sym owns ∙ ap (func_at w) (sym same_t) ∙ owns') in
          subst (ReturnsTasks w) same_f live
