-- ===== src/Task/Safety/Step.antt =====
-- One step of a scheduler, whatever handle it picks and whatever the function object is.
use asyncplusplus_1_1_annota.Base.{
  ℕ, zero, suc, ◌+◌, ◌<◌, ◌≡◌, none, some, List, [], ◌∷◌, ◌==◌, if◌then◌else◌, arith, refl,
  Option-cases, inl, inr, ==_refl, sym, ap, ◌∙◌, subst, length,
}
use asyncplusplus_1_1_annota.Task.Types.{
  pending, canceled, Value, Gave, Final, Exec, root, root_unwrap, task_cont, value_cont, void_cont,
  task_cont_unwrap, value_cont_unwrap, void_cont_unwrap, forward, callback, Task, World,
}
use asyncplusplus_1_1_annota.Task.Heap.{◌>>=◌, store, destroy_func, cancel}
use asyncplusplus_1_1_annota.Task.Exec.{
  take_handle, complete, unwrap, destroy, exec, run_task, run_handle, drop_handle,
}
use asyncplusplus_1_1_annota.Task.Steps.{destroy_func-store, cancel-store, end_with}
use asyncplusplus_1_1_annota.Task.Inv.{Inv, count, waits_on, moves_from, func_at}
use asyncplusplus_1_1_annota.Task.Inv.Drop.{dropped, drop-Inv}
use asyncplusplus_1_1_annota.Task.Safety.{
  keeps, Safe, SafeRun, exactly, running, stored, cancel-run, complete-run, end-Inv,
}
use asyncplusplus_1_1_annota.Task.Safety.Run.{IsThere, unwrap-run}
use asyncplusplus_1_1_annota.Task.Safety.Read.{IsRead, final-defined, with_value-run, with_void-run}
use asyncplusplus_1_1_annota.Task.Safety.Forward.{forward-run}

-- The task that a function object returns, if it returns one, is there.
abbrev pub ReturnsTasks : {V E : Type 0} → World V E → Exec V E → Type 0
ReturnsTasks w (root_unwrap g) = IsThere w g
ReturnsTasks {V} {E} w (task_cont_unwrap p moves g) = (x : Final V E) → IsThere w (g x)
ReturnsTasks {V} w (value_cont_unwrap p moves g) = (v : Value V) → IsThere w (g v)
ReturnsTasks w (void_cont_unwrap p g) = IsThere w g
ReturnsTasks w _ = Unit

module _ {V E : Type 0} {w : World V E} (inv : Inv w) (t : ℕ) (k : Task V E) (f : Exec V E)
    (there : w.task t ≡ some k) (owns : k.func ≡ some f) (left : List ℕ)
    (took : (c : ℕ) → count c w.handles ≡ (if c == t then 1 else 0) + count c left) where
  abbrev now : World V E
  now = running inv t k f there owns left took

  was_pending : k.state ≡ pending
  was_pending = (inv.sound t k there).func_pending (ground arith)

  -- A function object that no other thread has run is destroyed with its task.
  destroy-run : Safe w (destroy now t)
  unfolding destroy
  destroy-run = (
    dropped inv t k f there owns left took pending refl,
    rw (there, was_pending)
        (ap (λ u. destroy_func u t) (sym (stored inv t k f there owns left took))
          ∙ destroy_func-store now t k f owns
          ∙ ap (λ s. some (store now t (record k { state = s; func = none }))) was_pending),
    drop-Inv inv t k f there owns left took pending refl,
    keeps inv t k f there owns left took _,
  )

  cancel-destroy-run : (e : E) → Safe w (cancel now t e >>= λ w₁. destroy w₁ t)
  unfolding destroy
  cancel-destroy-run e = (
    end_with now t (record k { func = none }) canceled none (some e),
    rw
        (ap (λ u. cancel u t e) (sym (stored inv t k f there owns left took))
          ∙ cancel-store now t k f e owns)
        (rw (==_refl t) refl),
    end-Inv inv t k f there owns left took canceled none (some e) (λ h. cc, λ _ h. cc) refl,
    keeps inv t k f there owns left took _,
  )

  IsThere-read :
      {w₁ : World V E} → IsRead w t k f left w₁ → (g : Gave E) → IsThere w g → IsThere w₁ g
  IsThere-read after g live = λ c moves x e. after.lives c (live c moves x e)

  pub exec-run : ReturnsTasks w f → SafeRun w f (exec now t f)
  unfolding exec
  exec-run live = go f refl live
    where
      moved_out : (g : Exec V E) (p : ℕ) → f ≡ g → moves_from g ≡ some p → moves_from f ≡ some p
      moved_out g p same e = ap moves_from same ∙ e

      go : (g : Exec V E) → f ≡ g → ReturnsTasks w g → SafeRun w f (exec now t g)
      go (root r) same live = exactly w f _ (complete-run inv t k f there owns left took r)
      go (root_unwrap g) same live =
          exactly w f _ (unwrap-run inv t k f there owns left took g live)
      go (task_cont p moves g) same live =
          let (x, w₁, got, r) =
            final-defined inv t k f there owns left took p moves (ap waits_on same)
              (λ e. moved_out _ p same (rw e refl)) in
          let (w', e, after, stays) =
            r.safe _ (complete-run {w = w₁} r.inv t k f r.there owns left r.took (g x)) in
          (w', rw got e, after, stays)
      go (value_cont p moves g) same live =
          with_value-run inv t k f there owns left took p moves (λ v w₁. complete w₁ t (g v))
            (ap waits_on same) (λ e. moved_out _ p same (rw e refl))
            (λ v w₁ r. complete-run {w = w₁} r.inv t k f r.there owns left r.took (g v))
      go (void_cont p r) same live = exactly w f _ (
          with_void-run inv t k f there owns left took p (complete now t r) (ap waits_on same)
            (complete-run inv t k f there owns left took r))
      go (task_cont_unwrap p moves g) same live =
          let (x, w₁, got, r) =
            final-defined inv t k f there owns left took p moves (ap waits_on same)
              (λ e. moved_out _ p same (rw e refl)) in
          let (w', e, after, stays) = r.safe _ (
            unwrap-run {w = w₁} r.inv t k f r.there owns left r.took (g x)
              (IsThere-read r (g x) (live x))) in
          (w', rw got e, after, stays)
      go (value_cont_unwrap p moves g) same live =
          with_value-run inv t k f there owns left took p moves (λ v w₁. unwrap w₁ t (g v))
            (ap waits_on same) (λ e. moved_out _ p same (rw e refl))
            (λ v w₁ r.
              unwrap-run {w = w₁} r.inv t k f r.there owns left r.took (g v)
                (IsThere-read r (g v) (live v)))
      go (void_cont_unwrap p g) same live = exactly w f _ (
          with_void-run inv t k f there owns left took p (unwrap now t g) (ap waits_on same)
            (unwrap-run inv t k f there owns left took g live))
      go (forward parent c moves copy_throws) same live =
          subst (λ h. SafeRun w h (exec now t (forward parent c moves copy_throws))) (sym same)
            (forward-run inv t parent c moves copy_throws k there (owns ∙ ap some same) left took)
      go (callback watched none) same live = exactly w f _ destroy-run
      go (callback watched (some e)) same live = exactly w f _ (cancel-destroy-run e)

-- Taking a handle takes one of the handles that are there.
take_handle-defined :
    (i : ℕ) (hs : List ℕ)
    → i < length hs
    → (t : ℕ) × (left : List ℕ) × (take_handle i hs ≡ some (t, left))
      × ((c : ℕ) → count c hs ≡ (if c == t then 1 else 0) + count c left)
unfolding take_handle
take_handle-defined i [] h = absurd (omega (arith, h))
take_handle-defined zero (x ∷ xs) h = (x, xs, refl, λ c. refl)
take_handle-defined (suc i) (x ∷ xs) h =
    let (t, left, e, counts) = take_handle-defined i xs (omega (arith, h)) in
    (t, x ∷ left, rw e refl, λ c. omega (arith, counts c))

module _ {V E : Type 0} {w : World V E} (inv : Inv w) (i : ℕ) (here : i < length w.handles) where
  -- The task of a handle has a function object.
  picked :
      (t : ℕ) × (left : List ℕ) × (k : Task V E) × (f : Exec V E) × (take_handle i w.handles
        ≡ some (t, left))
      × ((c : ℕ) → count c w.handles ≡ (if c == t then 1 else 0) + count c left)
      × (w.task t ≡ some k)
      × (k.func ≡ some f)
  picked =
      let (t, left, e, counts) = take_handle-defined i w.handles here in
      elim (Option-cases (w.task t)) [
        | inl e₁ ↦ absurd (ground (arith, inv.handed t, counts t, ==_refl t))
        | inr (k, there) ↦ elim (Option-cases k.func) [
          | inl e₁ ↦ absurd (ground (arith, inv.handed t, counts t, ==_refl t))
          | inr (f, has) ↦ (t, left, k, f, e, counts, there, has)
        ]
      ]

  -- Where the discipline of the tasks holds, running any handle that a scheduler holds is never
  -- undefined, whatever its function object is, and the discipline holds after it; a task that had
  -- finished has not changed, except that the function object may have moved its result out. Given
  -- that the task which the function object returns, if it returns one, is there.
  pub run_handle-Safe :
      ((t : ℕ) (rest : List ℕ) (f : Exec V E)
        → take_handle i w.handles ≡ some (t, rest)
        → func_at w t ≡ some f
        → ReturnsTasks w f)
      → (t : ℕ) × (rest : List ℕ) × (f : Exec V E) × (take_handle i w.handles ≡ some (t, rest))
        × (func_at w t ≡ some f)
        × SafeRun w f (run_handle w i)
  unfolding run_handle run_task
  run_handle-Safe live =
      let (t, rest, k, f, e, counts, there, has) = picked in
      let owns : func_at w t ≡ some f = rw (func_at, there) has in
      let (w', runs, after, stays) =
        exec-run inv t k f there has rest counts (live t rest f e owns) in
      (t, rest, f, e, owns, (w', rw (e, there, has) runs, after, stays))

  -- Where the discipline of the tasks holds, destroying any handle without running it, which cancels
  -- its task, is never undefined, the discipline holds after it, and no task that had finished has
  -- changed.
  pub drop_handle-Safe : (task_not_executed : E) → Safe w (drop_handle task_not_executed w i)
  unfolding drop_handle
  drop_handle-Safe x =
      let (t, left, k, f, e, counts, there, has) = picked in
      let (w', runs, after, same) = cancel-run inv t k f there has left counts x in
      (w', rw e runs, after, same)
