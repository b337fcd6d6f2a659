-- ===== src/Waiting/Generic.antt =====
-- A thread outside any pool that waits for a task.
use asyncplusplus_1_1_annota.Base.{
  ◌≡◌, Bool, true, false, Option, none, some, Bool-cases, inl, inr, ◌⊎◌, arith, refl, sym, ap, ◌∙◌,
  some_inj,
}
use asyncplusplus_1_1_annota.WaitEvent.{TaskWaitEvent, Mask, is_set, wait, clear, no_event}
use asyncplusplus_1_1_annota.Waiting.{
  Pc, start, ready, waiting, returned, Call, new_call, init_event, add, leave, finish, signals,
  Step, waiter, runner, Reach, here, next, on_finish,
}

abbrev pub is_waiting : Pc → Bool
is_waiting waiting = true
is_waiting _ = false

record Inv (s : Call) : Type 0 where
  available : s.event.event_mask.available ≡ false
  told : s.event.event_mask.finished ≡ true → s.finished ≡ true
  alive : s.continuation ≡ true → s.pc ≡ waiting
  silent : s.continuation ≡ true → s.event.event_mask.finished ≡ false
  comes : s.pc ≡ waiting → (s.continuation ≡ true) ⊎ (s.event.event_mask.finished ≡ true)
  over : s.pc ≡ returned → s.finished ≡ true

new-Inv : (finished : Bool) → Inv (new_call finished)
new-Inv finished = record {
  available = refl;
  told = λ e. cc;
  alive = λ e. cc;
  silent = λ e. cc;
  comes = λ e. cc;
  over = λ e. cc;
}

wait-set : (e : TaskWaitEvent) → is_set e ≡ true → wait e ≡ some (e.event_mask, clear e)
wait-set e set = rw set refl

wait-unset : (e : TaskWaitEvent) → is_set e ≡ false → wait e ≡ none
wait-unset e unset = rw unset refl

none_absurd : {p : Mask × TaskWaitEvent} → Option.none ≡ some p → ⊥
none_absurd e = cc

wait-clear :
    (e e' : TaskWaitEvent) (m : Mask) → wait e ≡ some (m, e') → (e' ≡ clear e) × (is_set e ≡ true)
wait-clear e e' m w = elim (Bool-cases (is_set e)) [
  | inl set ↦
      let w' : some (e.event_mask, clear e) ≡ some (m, e') = sym (wait-set e set) ∙ w in
      (sym (ap (λ p. p.1) (some_inj w')), set)
  | inr unset ↦ absurd (none_absurd (sym (wait-unset e unset) ∙ w))
]

module _ {s : Call} (inv : Inv s) where
  add-Inv : s.pc ≡ ready → Inv (record (on_finish s) { pc = waiting })
  add-Inv e = elim (Bool-cases s.finished) [
    | inl done ↦ rw done (record {
      available = inv.available;
      told = λ f. refl;
      alive = λ c. cc;
      silent = λ c. cc;
      comes = λ p. inr refl;
      over = λ p. cc;
    })
    | inr not_done ↦ rw not_done (record {
      available = inv.available;
      told = λ f. sym not_done ∙ inv.told f;
      alive = λ c. refl;
      silent = λ c. ground (arith, not_done, inv.told);
      comes = λ p. inl refl;
      over = λ p. cc;
    })
  ]

  step-Inv : {t : Call} → Step s t → Inv t
  step-Inv (waiter (init_event e)) = record {
    available = inv.available;
    told = inv.told;
    alive = λ c. absurd (let f : start ≡ waiting = sym e ∙ inv.alive c in cc);
    silent = inv.silent;
    comes = λ p. cc;
    over = λ p. cc;
  }
  step-Inv (waiter (add e)) = add-Inv e
  step-Inv (waiter (leave {mask} {event} e w)) =
      let (cleared, set) = wait-clear s.event event mask w in
      let done : s.finished ≡ true = inv.told (ground (arith, set, inv.available)) in
      let mask_clear : event.event_mask ≡ no_event = ap (λ v. v.event_mask) cleared in
      record {
        available = rw mask_clear refl;
        told = λ f. done;
        alive = λ c. absurd (ground (arith, set, inv.available, inv.silent c));
        silent = λ c. rw mask_clear refl;
        comes = λ p. cc;
        over = λ p. done;
      }
  step-Inv (runner finish) = record {
    available = inv.available;
    told = λ f. refl;
    alive = inv.alive;
    silent = inv.silent;
    comes = inv.comes;
    over = λ p. refl;
  }
  step-Inv (runner (signals f c)) = record {
    available = inv.available;
    told = λ g. f;
    alive = λ g. cc;
    silent = λ g. cc;
    comes = λ p. inr refl;
    over = inv.over;
  }

Reach-Inv : {s : Call} → Reach s → Inv s
Reach-Inv (here finished) = new-Inv finished
Reach-Inv (next r st) = step-Inv (Reach-Inv r) st

-- A thread outside any pool that waits for a task, which may have finished before: it returns only
-- when the task has finished; the continuation that signals its event is run while it has not
-- returned, so that the event is there; and once the task has finished and its continuation has
-- run, the waiting thread finds its event set.
pub generic_wait_returns :
    {s : Call}
    → Reach s
    → (s.pc ≡ returned → s.finished ≡ true)
      × (s.continuation ≡ true → s.pc ≡ waiting)
      × (s.pc ≡ waiting → s.continuation ≡ false → is_set s.event ≡ true)
generic_wait_returns {s} r =
    let inv = Reach-Inv r in (inv.over, inv.alive, λ e c. ground (arith, c, inv.comes e))
