-- ===== src/ContinuationVector/Destroyed.antt =====
-- What the destructor of a continuation_vector finds.
use asyncplusplus_1_1_annota.Base.{
  ℕ, ◌+◌, ◌≡◌, true, false, count, if◌then◌else◌, ◌⊎◌, inl, inr, refl, ◌∙◌, ap,
}
use asyncplusplus_1_1_annota.ContinuationVector.{
  Slot, null, task, vector, idle, done, State, Reach, destroy,
}
use asyncplusplus_1_1_annota.ContinuationVector.Inv.{is_added, is_past, conts}
use asyncplusplus_1_1_annota.ContinuationVector.Once.{accepted_once, Reach-Inv}

destroy-conts :
    (s : State)
    → ((s.flush ≡ idle) × (s.locked ≡ false)) ⊎ ((s.flush ≡ done) × (s.locked ≡ true))
    → (sl : Slot) → s.slot ≡ sl
    → destroy s ≡ conts s
destroy-conts s over null e = rw e refl
destroy-conts s (inl (at, open_still)) (task t) e = rw (e, open_still, at) refl
destroy-conts s (inr (at, over)) (task t) e = rw (e, over, at) refl
destroy-conts s over (vector v) e = rw e refl

-- When no call of `flush_and_lock` is under way, the destructor gives up each continuation whose
-- `try_add` has returned true and that was not passed to the function of `flush_and_lock`, once, and
-- no other one.
pub destroys_rest :
    {s : State}
    → Reach s
    → (s.flush ≡ idle) ⊎ (s.flush ≡ done)
    → (i : ℕ) → count i (destroy s) + count i s.flushed ≡ (if is_added (s.pc i) then 1 else 0)
destroys_rest {s} r over i =
    ap (λ l. count i l + count i s.flushed) (destroy-conts s phase s.slot refl) ∙ accepted_once r i
  where
    phase : ((s.flush ≡ idle) × (s.locked ≡ false)) ⊎ ((s.flush ≡ done) × (s.locked ≡ true))
    phase = elim over [
      | inl e ↦ inl (e, (Reach-Inv r).phase ∙ ap is_past e)
      | inr e ↦ inr (e, (Reach-Inv r).phase ∙ ap is_past e)
    ]
