-- ===== src/Task/Safety/Event.antt =====
-- An event is set once: by the first call, which finishes its task.
use asyncplusplus_1_1_annota.Base.{
  ℕ, ◌≡◌, ◌≢◌, Bool, true, false, Option, none, some, [], arith, refl, Bool-cases, inl, inr,
  ==_refl, some_inj, sym, ap, ◌∙◌, subst, append-nil,
}
use asyncplusplus_1_1_annota.Task.Types.{
  TaskState, locked, unwrapped, completed, canceled, is_finished, is_pending, Value, Ran, returns,
  Exec, Task, World,
}
use asyncplusplus_1_1_annota.Task.Heap.{◌>>=◌, store, finish, set_result, set_state, cancel_base}
use asyncplusplus_1_1_annota.Task.Event.{
  new_event, if_pending, set_internal, set_event_exception, abandon,
}
use asyncplusplus_1_1_annota.Task.Steps.{
  World-ext, store_self, set_state-store, set_result-store, finish-store, cancel_base-store,
  end_with,
}
use asyncplusplus_1_1_annota.Task.Inv.{Inv, target, func_at}
use asyncplusplus_1_1_annota.Task.Inv.Finish.{finish-Inv}
use asyncplusplus_1_1_annota.Task.Inv.Alloc.Handed.{alloc-Inv}

-- The task has ended with what the event was set to.
abbrev pub EndsWith : {V E : Type 0} → World V E → ℕ → Ran V E → Type 0
EndsWith {V} {E} w t (returns v) =
    (k : Task V E) × (w.task t ≡ some k) × (k.state ≡ completed) × (k.result ≡ some v)
EndsWith {V} {E} w t (Ran.throws e) =
    (k : Task V E) × (w.task t ≡ some k) × (k.state ≡ canceled) × (k.except ≡ some e)

-- No call sets the event, and none changes anything.
abbrev pub IsSettled : {V E : Type 0} → World V E → ℕ → Type 0
IsSettled {V} {E} w t =
    ((r : Ran V E) → set_internal w t r ≡ some (w, false))
    × ((e : E) → set_event_exception w t e ≡ some (w, false))

module _ {V E : Type 0} (w : World V E) (t : ℕ) (k : Task V E) (there : w.task t ≡ some k) where
  refused :
      (f : World V E → Option (World V E))
      → is_pending k.state ≡ false
      → if_pending w t f ≡ some (w, false)
  unfolding if_pending
  refused f e = rw (there, e) refl

  set-refused : is_pending k.state ≡ false → (r : Ran V E) → set_internal w t r ≡ some (w, false)
  unfolding set_internal
  set-refused e (returns v) = refused (λ w₁. set_result w₁ t v >>= λ w₂. finish w₂ t) e
  set-refused e (Ran.throws x) = refused (λ w₁. cancel_base w₁ t x) e

  pub not_pending-IsSettled : is_pending k.state ≡ false → IsSettled w t
  unfolding set_event_exception
  not_pending-IsSettled e = (set-refused e, λ x. refused (λ w₁. cancel_base w₁ t x) e)

  stored : store w t k ≡ w
  stored = store_self w t k there

  accepted :
      (f : World V E → Option (World V E)) (w' : World V E)
      → is_pending k.state ≡ true
      → f (store w t (record k { state = locked })) ≡ some w'
      → if_pending w t f ≡ some (w', true)
  unfolding if_pending
  accepted f w' e runs =
      rw (there, e)
        (rw (ap (λ u. set_state u t locked) (sym stored) ∙ set_state-store w t k locked)
          (rw runs refl))

module _ {V E : Type 0} {w : World V E} (inv : Inv w) (t : ℕ) (k : Task V E)
    (there : w.task t ≡ some k) (no_func : k.func ≡ none) (is_set : is_pending k.state ≡ true) where
  open_still : is_finished k.state ≡ false
  open_still = ground arith

  nobody_finishes : (c : ℕ) (f : Exec V E) → func_at w c ≡ some f → target f ≢ some t
  nobody_finishes c f e h =
      let (k', at, un) = inv.goal c t f e h in
      let same : k.state ≡ unwrapped =
        ap (λ (x : Task V E). x.state) (some_inj (sym there ∙ at)) ∙ un in
      let two : is_pending k.state ≡ false = ap is_pending same in
      let both : true ≡ false = sym is_set ∙ two in cc

  pub ended-Inv :
      (s : TaskState) (r : Option (Value V)) (x : Option E)
      → (s ≡ completed → r ≢ none) × (s ≡ canceled → x ≢ none)
      → is_finished s ≡ true
      → Inv (end_with w t k s r x)
  ended-Inv s r x set over =
      finish-Inv inv t k there no_func open_still nobody_finishes s r x set over

  pub ended_task :
      (s : TaskState) (r : Option (Value V)) (x : Option E)
      → (end_with w t k s r x).task t
        ≡ some (record k { state = s; result = r; except = x; conts = []; conts_locked = true })
  ended_task s r x = rw (==_refl t) refl

  ended-IsSettled :
      (s : TaskState) (r : Option (Value V)) (x : Option E)
      → is_pending s ≡ false
      → IsSettled (end_with w t k s r x) t
  ended-IsSettled s r x e =
      not_pending-IsSettled (end_with w t k s r x) t
        (record k { state = s; result = r; except = x; conts = []; conts_locked = true })
        (ended_task s r x) e

  -- The first call of `set` on an event that is not set, where the discipline of the tasks holds: it
  -- answers true, the event's task ends with the result, or with the exception that its copy threw,
  -- the discipline holds after it, and no later call sets the event or changes anything.
  pub first_set_wins :
      (r : Ran V E)
      → (w' : World V E) × (set_internal w t r ≡ some (w', true))
        × Inv w'
        × EndsWith w' t r
        × IsSettled w' t
  unfolding set_internal
  first_set_wins (returns v) = (
    end_with w t k completed (some v) none,
    accepted w t k there (λ w₁. set_result w₁ t v >>= λ w₂. finish w₂ t)
        (end_with w t k completed (some v) none) is_set
        (rw (set_result-store w t (record k { state = locked }) v)
          (finish-store w t (record k { state = locked; result = some v; except = none }))),
    ended-Inv completed (some v) none (λ _ h. cc, λ h. cc) refl,
    (
      record k {
        state = completed;
        result = some v;
        except = none;
        conts = [];
        conts_locked = true;
      },
      ended_task completed (some v) none,
      refl,
      refl,
    ),
    ended-IsSettled completed (some v) none refl,
  )
  first_set_wins (Ran.throws e) = (
    end_with w t k canceled none (some e),
    accepted w t k there (λ w₁. cancel_base w₁ t e) (end_with w t k canceled none (some e)) is_set
        (cancel_base-store w t (record k { state = locked }) e),
    ended-Inv canceled none (some e) (λ h. cc, λ _ h. cc) refl,
    (
      record k {
        state = canceled;
        result = none;
        except = some e;
        conts = [];
        conts_locked = true;
      },
      ended_task canceled none (some e),
      refl,
      refl,
    ),
    ended-IsSettled canceled none (some e) refl,
  )

  -- The destructor of an event that is not set, where some other reference to its task is left and
  -- the discipline of the tasks holds: the task is canceled with `abandoned_event_task`, and the
  -- discipline holds after it.
  pub abandon_cancels :
      (abandoned_event_task : E)
      → (w' : World V E) × (abandon abandoned_event_task w t false ≡ some w')
        × Inv w'
        × EndsWith w' t (Ran.throws abandoned_event_task)
  unfolding abandon set_event_exception
  abandon_cancels e =
      let runs =
        accepted w t k there (λ w₁. cancel_base w₁ t e) (end_with w t k canceled none (some e))
          is_set (cancel_base-store w t (record k { state = locked }) e) in
      (
        end_with w t k canceled none (some e),
        rw (there, open_still, runs) refl,
        ended-Inv canceled none (some e) (λ h. cc, λ _ h. cc) refl,
        (
          record k {
            state = canceled;
            result = none;
            except = some e;
            conts = [];
            conts_locked = true;
          },
          ended_task canceled none (some e),
          refl,
          refl,
        ),
      )

-- A new event's task has no function object, and no handle: the discipline holds with it.
pub new_event-Inv : {V E : Type 0} {w : World V E} → Inv w → Inv (new_event w)
new_event-Inv {w} inv = subst Inv (World-ext (λ c. refl) refl (append-nil w.handles)) (
    alloc-Inv inv none
      (record {
        held = λ u g e h. absurd cc;
        alone = λ c u g h e i j l. cc;
        waits = λ p g e h z. cc;
      })
      [] (λ c. ground arith) (λ q. refl))

module _ {V E : Type 0} {w : World V E} (inv : Inv w) (t : ℕ) (k : Task V E)
    (there : w.task t ≡ some k) (no_func : k.func ≡ none) where
  -- Any call of `set` keeps the discipline of the tasks.
  pub set-Inv :
      (r : Ran V E) (w' : World V E) (answer : Bool)
      → set_internal w t r ≡ some (w', answer)
      → Inv w'
  set-Inv r w' answer e = elim (Bool-cases (is_pending k.state)) [
    | inl first ↦
        let (w₁, runs, after, _, _) = first_set_wins inv t k there no_func first r in
        subst Inv (ap (λ p. p.0) (some_inj (sym runs ∙ e))) after
    | inr late ↦
        subst Inv
          (ap (λ p. p.0) (some_inj (sym ((not_pending-IsSettled w t k there late).0 r) ∙ e))) inv
  ]

  -- So does the destructor of an event.
  pub abandon-Inv :
      (x : E) (unique : Bool) (w' : World V E) → abandon x w t unique ≡ some w' → Inv w'
  unfolding abandon
  abandon-Inv x true w' e = elim (Bool-cases (is_finished k.state)) [
    | inl over ↦ subst Inv (some_inj (rw (there, over) at e)) inv
    | inr open_yet ↦ subst Inv (some_inj (rw (there, open_yet) at e)) inv
  ]
  abandon-Inv x false w' e = elim (Bool-cases (is_pending k.state)) [
    | inl first ↦
        let (w₁, runs, after, _) = abandon_cancels inv t k there no_func first x in
        subst Inv (some_inj (sym runs ∙ e)) after
    | inr late ↦ elim (Bool-cases (is_finished k.state)) [
      | inl over ↦ subst Inv (some_inj (rw (there, over) at e)) inv
      | inr open_yet ↦
          subst Inv
            (some_inj (rw (there, open_yet, (not_pending-IsSettled w t k there late).1 x) at e)) inv
    ]
  ]
