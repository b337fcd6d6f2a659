-- ===== src/Task/Safety/Run.antt =====
-- Running a handle: every execution function of task_base.h, in every case of the parent's end.
use asyncplusplus_1_1_annota.Base.{
  ℕ, ◌+◌, ◌≡◌, ◌≢◌, ◌⊎◌, true, Option, Bool, none, some, List, ◌==◌, if◌then◌else◌, arith, refl,
  Option-cases, inl, inr, ==_refl, sym, ap, ◌∙◌, some_inj,
}
use asyncplusplus_1_1_annota.Task.Types.{
  TaskState, pending, locked, unwrapped, completed, canceled, is_finished, Value, Gave, gives,
  returned, then_throws, Exec, forward, Task, World,
}
use asyncplusplus_1_1_annota.Task.Exec.{link, unwrapped_finish, unwrap}
use asyncplusplus_1_1_annota.Task.Steps.{
  set_state-store, destroy_func-store, cancel_base-store, end_with,
}
use asyncplusplus_1_1_annota.Task.Inv.{Inv, IsSound, count, waits_on, target, func_at}
use asyncplusplus_1_1_annota.Task.Inv.Drop.{dropped, drop-Inv}
use asyncplusplus_1_1_annota.Task.Inv.Alloc.{IsFree}
use asyncplusplus_1_1_annota.Task.Safety.{keeps, Safe, end-Inv, running, nobody, stored, cancel-run}
use asyncplusplus_1_1_annota.Task.Safety.Link.{linked-at}

-- What a finished task left: a result if it completed, and otherwise an exception.
abbrev pub Left : {V E : Type 0} → Task V E → Type 0
Left {V} {E} q =
    ((v : Value V) × (q.state ≡ completed) × (q.result ≡ some v))
    ⊎ ((e : E) × (q.state ≡ canceled) × (q.except ≡ some e))

-- The task that a function returned, if it returned one, is there.
abbrev pub IsThere : {V E : Type 0} → World V E → Gave E → Type 0
IsThere {V} {E} w g =
    (c : ℕ) (moves : Bool) (x : Option E) → g ≡ gives (returned c moves x) → w.task c ≢ none

end-cases :
    {V E : Type 0} (q : Task V E)
    → IsSound q
    → (s : TaskState) → q.state ≡ s
    → is_finished s ≡ true
    → Left q
end-cases q ok completed is over = elim (Option-cases q.result) [
  | inl e ↦ absurd (ok.has_result is e)
  | inr (v, e) ↦ inl (v, is, e)
]
end-cases q ok canceled is over = elim (Option-cases q.except) [
  | inl e ↦ absurd (ok.has_except is e)
  | inr (x, e) ↦ inr (x, is, e)
]
end-cases q ok pending is over = absurd cc
end-cases q ok locked is over = absurd cc
end-cases q ok unwrapped is over = absurd cc

module _ {V E : Type 0} {w : World V E} (inv : Inv w) (t : ℕ) (k : Task V E) (f : Exec V E)
    (there : w.task t ≡ some k) (owns : k.func ≡ some f) (left : List ℕ)
    (took : (c : ℕ) → count c w.handles ≡ (if c == t then 1 else 0) + count c left) where
  abbrev now : World V E
  now = running inv t k f there owns left took

  abbrev unwrapping : World V E
  unwrapping = dropped inv t k f there owns left took unwrapped refl

  unwrapping-Inv : Inv unwrapping
  unwrapping-Inv = drop-Inv inv t k f there owns left took unwrapped refl

  func-unwrapping : (c : ℕ) (g : Exec V E) → func_at unwrapping c ≡ some g → func_at w c ≡ some g
  func-unwrapping c g e = ground arith

  live-unwrapping : (c : ℕ) → w.task c ≢ none → (k' : Task V E) × (unwrapping.task c ≡ some k')
  live-unwrapping c ne = elim (Option-cases (unwrapping.task c)) [
    | inl e ↦ absurd (ne (ground arith))
    | inr s ↦ s
  ]

  module _ (c : ℕ) (moves : Bool) (copy_throws : Option E) where
    abbrev forwards : Exec V E
    forwards = forward t c moves copy_throws

    target-forward : (u : ℕ) (g : Exec V E) → some forwards ≡ some g → target g ≡ some u → t ≡ u
    target-forward u g e h = some_inj (ap target (some_inj e) ∙ h)

    forward-IsFree : w.task c ≢ none → IsFree unwrapping (some forwards)
    forward-IsFree live = record {
      held = λ u g e h. (
        record k { state = unwrapped; func = none },
        rw (target-forward u g e h, ==_refl u) refl,
        refl,
      );
      alone = λ d u g h e i j l.
          nobody inv t k f there owns left took d h (func-unwrapping d h j)
            (l ∙ ap some (sym (target-forward u g e i)));
      waits = λ p g e h z.
          let (k', at) = live-unwrapping c live in
          let is_child : c ≡ p = some_inj (ap waits_on (some_inj e) ∙ h) in cc;
    }

  kept_unwrapping :
      (c : ℕ) (q : Task V E)
      → w.task c ≡ some q
      → is_finished q.state ≡ true
      → unwrapping.task c ≡ some q
  kept_unwrapping =
      keeps inv t k f there owns left took (record k { state = unwrapped; func = none })

  pub unwrap-run : (g : Gave E) → IsThere w g → Safe w (unwrap now t g)
  unfolding unwrap unwrapped_finish link
  unwrap-run (gives (returned d moves x)) live =
      let (k', at) = live-unwrapping d (live d moves x refl) in
      let (w', e, after, same) =
        linked-at unwrapping-Inv (forward t d moves x)
          (forward-IsFree d moves x (live d moves x refl)) d refl k' at in
      (
        w',
        ap (λ u. unwrapped_finish u t (returned d moves x))
              (sym (stored inv t k f there owns left took))
            ∙ rw
                (
                  set_state-store now t k unwrapped,
                  destroy_func-store now t (record k { state = unwrapped }) f owns,
                )
                e,
        after,
        λ c q old over. same c q (kept_unwrapping c q old over) over,
      )
  unwrap-run (gives (then_throws e)) live = (
    end_with now t (record k { func = none }) canceled none (some e),
    ap (λ u. unwrapped_finish u t (then_throws e)) (sym (stored inv t k f there owns left took))
        ∙ rw
            (
              set_state-store now t k unwrapped,
              destroy_func-store now t (record k { state = unwrapped }) f owns,
            )
            (cancel_base-store now t (record k { state = unwrapped; func = none }) e),
    end-Inv inv t k f there owns left took canceled none (some e) (λ h. cc, λ _ h. cc) refl,
    keeps inv t k f there owns left took _,
  )
  unwrap-run (Gave.throws e) live = cancel-run inv t k f there owns left took e

  -- The task that a running one waited for has finished.
  parent_done :
      (p : ℕ)
      → waits_on f ≡ some p
      → (q : Task V E) × (w.task p ≡ some q) × (is_finished q.state ≡ true)
  parent_done p h = elim (Option-cases (w.task p)) [
    | inl e ↦ absurd (inv.parent t p f (ground arith) h e)
    | inr (q, e) ↦ (q, e, ground (arith, inv.handed t, took t, ==_refl t))
  ]

  -- What the parent left.
  pub parent-cases : (p : ℕ) → waits_on f ≡ some p → (q : Task V E) × (w.task p ≡ some q) × Left q
  parent-cases p h =
      let (q, at, over) = parent_done p h in
      (q, at, end-cases q (inv.sound p q at) q.state refl over)
