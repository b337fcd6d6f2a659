-- ===== src/Task/Safety.antt =====
-- A task that runs ends: no step of it is undefined, and the discipline holds after it.
pub mod Link
pub mod Run
pub mod Read
pub mod Forward
pub mod Step
pub mod Event
pub mod Made
pub mod Got
use asyncplusplus_1_1_annota.Base.{
  ℕ, ◌+◌, ◌≡◌, ◌≢◌, ◌⊎◌, Bool, true, false, Option, none, some, List, [], ◌++◌, ◌==◌, if◌then◌else◌,
  arith, refl, Bool-cases, inl, inr, ==_iff, ==_refl, subst, some_inj, sym, ap, ◌∙◌,
}
use asyncplusplus_1_1_annota.Task.Types.{
  TaskState, pending, unwrapped, completed, canceled, is_finished, Exec, Task, World, Value,
  after_move, Ran, returns,
}
use asyncplusplus_1_1_annota.Task.Heap.{
  ◌>>=◌, update, store, hand, finish, set_result, destroy_func, cancel,
}
use asyncplusplus_1_1_annota.Task.Exec.{complete}
use asyncplusplus_1_1_annota.Task.Steps.{
  World-ext, store-store, store_self, complete-store, cancel-store, end_with,
}
use asyncplusplus_1_1_annota.Task.Inv.{Inv, count, target, moves_from, func_at}
use asyncplusplus_1_1_annota.Task.Inv.Drop.{dropped, drop-Inv}
use asyncplusplus_1_1_annota.Task.Inv.Finish.{finished, finish-Inv}

-- The operation is defined, the invariant holds after it, and no task that had finished has changed.
abbrev pub Safe : {V E : Type 0} → World V E → Option (World V E) → Type 0
Safe {V} {E} before o =
    (w : World V E) × (o ≡ some w)
    × Inv w
    × ((c : ℕ) (q : Task V E)
        → before.task c ≡ some q
        → is_finished q.state ≡ true
        → w.task c ≡ some q)

-- What a step that may read a result leaves of the finished task `q` at `c`: all of it, except that
-- the function object may have moved its result out.
abbrev pub Stays : {V E : Type 0} → Exec V E → ℕ → Task V E → World V E → Type 0
Stays {V} f c q w =
    (w.task c ≡ some q)
    ⊎ ((moves_from f ≡ some c)
        × (v : Value V) × (q.result ≡ some v)
        × (w.task c ≡ some (record q { result = some (after_move v) })))

abbrev pub SafeRun : {V E : Type 0} → World V E → Exec V E → Option (World V E) → Type 0
SafeRun {V} {E} before f o =
    (w : World V E) × (o ≡ some w)
    × Inv w
    × ((c : ℕ) (q : Task V E) → before.task c ≡ some q → is_finished q.state ≡ true → Stays f c q w)

pub exactly :
    {V E : Type 0} (w : World V E) (f : Exec V E) (o : Option (World V E))
    → Safe w o
    → SafeRun w f o
exactly w f o (w', e, after, same) = (w', e, after, λ c q at over. inl (same c q at over))

pub pending≢unwrapped : pending ≢ unwrapped
pending≢unwrapped e = cc

module _ {V E : Type 0} {w : World V E} (inv : Inv w) (t : ℕ) (k : Task V E) (f : Exec V E)
    (there : w.task t ≡ some k) (owns : k.func ≡ some f) (left : List ℕ)
    (took : (c : ℕ) → count c w.handles ≡ (if c == t then 1 else 0) + count c left) where
  abbrev pub running : World V E
  running = record w { handles = left }

  stored : store running t k ≡ running
  stored = store_self running t k there

  -- A task with a function object is not to be finished by another task.
  pub nobody : (c : ℕ) (g : Exec V E) → func_at w c ≡ some g → target g ≢ some t
  nobody c g e h =
      let (k', at, un) = inv.goal c t g e h in
      let is_pending : k.state ≡ pending = (inv.sound t k there).func_pending (ground arith) in
      pending≢unwrapped
        (sym is_pending ∙ ap (λ (x : Task V E). x.state) (some_inj (sym there ∙ at)) ∙ un)

  nobody_after :
      (c : ℕ) (g : Exec V E)
      → func_at (dropped inv t k f there owns left took pending refl) c ≡ some g
      → target g ≢ some t
  nobody_after c g e = nobody c g (ground arith)

  pub end-Inv :
      (s : TaskState) (r : Option (Value V)) (x : Option E)
      → (s ≡ completed → r ≢ none) × (s ≡ canceled → x ≢ none)
      → is_finished s ≡ true
      → Inv (end_with running t (record k { func = none }) s r x)
  end-Inv s r x set over =
      subst (λ u. Inv (hand u k.conts))
        (store-store running t (record k { state = pending; func = none })
          (record k {
            state = s;
            func = none;
            result = r;
            except = x;
            conts = [];
            conts_locked = true;
          }))
        (finish-Inv (drop-Inv inv t k f there owns left took pending refl) t
          (record k { state = pending; func = none }) (rw (==_refl t) refl) refl refl nobody_after s
          r x set over)

  -- A task with a function object has not finished, so that another task that has is not touched.
  pub keeps :
      (a : Task V E) (c : ℕ) (q : Task V E)
      → w.task c ≡ some q
      → is_finished q.state ≡ true
      → update w.task t (some a) c ≡ some q
  keeps a c q at over = elim (Bool-cases (c == t)) [
    | inl same ↦
        let here : q ≡ k = some_inj (sym at ∙ ap w.task ((==_iff c t).0 same) ∙ there) in
        let not_over : is_finished q.state ≡ false =
          ap (λ (x : Task V E). is_finished x.state) here
          ∙ ap is_finished ((inv.sound t k there).func_pending (ground arith)) in
        absurd (let both : true ≡ false = sym over ∙ not_over in cc)
    | inr other ↦ rw other at
  ]

  pub cancel-run : (e : E) → Safe w (cancel running t e)
  cancel-run e = (
    end_with running t (record k { func = none }) canceled none (some e),
    ap (λ u. cancel u t e) (sym stored) ∙ cancel-store running t k f e owns,
    end-Inv canceled none (some e) (λ h. cc, λ _ h. cc) refl,
    keeps _,
  )

  pub complete-run : (r : Ran V E) → Safe w (complete running t r)
  unfolding complete
  complete-run (returns v) = (
    end_with running t (record k { func = none }) completed (some v) none,
    ap (λ u. complete u t (returns v)) (sym stored) ∙ complete-store running t k f v owns,
    end-Inv completed (some v) none (λ _ h. cc, λ h. cc) refl,
    keeps _,
  )
  complete-run (Ran.throws e) = cancel-run e
