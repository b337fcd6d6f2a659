-- ===== src/Task/User/Local.antt =====
-- include/async++/task.h: `local_task`, whose task object is a member of an object on the stack, and
-- how its destructor makes sure that nobody uses the task any more; with the run of the task by
-- scheduler.h, and its unwrapping by task_base.h where its function returns a task. Each step is one
-- access to the state or the count of the task.
use asyncplusplus_1_1_annota.Base.{
  ℕ, ◌+◌, ◌-◌, ◌≡◌, Bool, true, false, ◌==◌, if◌then◌else◌, refl, arith, sym, ◌∙◌, ap, ◌≢◌,
}

-- Where the thread of the `local_task` stands: before the destructor, in its `wait`, in the loop
-- behind it, or past it.
pub data Stage : Type 0 where
  alive waiting spinning destroyed : Stage

-- The state of the task: its function has not returned, it waits for the task that its function
-- returned, or it has finished, by a result or by an exception.
pub data Progress : Type 0 where
  pending unwrapped finished : Progress

-- Where the thread that has the `task_run_handle` stands: before the run, in the call of `then` of
-- `unwrapped_finish`, on the way to the catch of it, behind the run, and past the end of the handle.
pub data Run : Type 0 where
  queued linking catching over released : Run

-- Whether the task_run_handle still has its reference.
abbrev pub holds : Run → Bool
holds released = false
holds _ = true

-- `ref_count`, the state, the handle, and whether there is an `unwrapped_func` with a reference to
-- the task. `deleted` is a `remove_ref` that has deleted the object.
pub record LocalTask : Type 0 where
  pub refs : ℕ
  pub state : Progress
  pub handle : Run
  pub forward : Bool
  pub deleted : Bool
  pub stage : Stage

-- The constructor: one reference of the object's own, and one for the handle.
abbrev pub local_spawn : LocalTask
local_spawn = record {
  refs = 2;
  state = pending;
  handle = queued;
  forward = false;
  deleted = false;
  stage = alive;
}

-- The scheduler runs the handle, or destroys it, which cancels the task; then it gives the handle's
-- reference up, which it does too while the task is unwrapped.
pub data Runs (s : LocalTask) : LocalTask → Type 0 where
  finish :
      s.handle ≡ queued → s.state ≡ pending → Runs s (record s { state = finished; handle = over })
  release :
      s.handle ≡ over
      → Runs s (record s { handle = released; refs = s.refs - 1; deleted = s.refs == 1 })

-- `unwrapped_finish`: the task is marked, and a reference is taken for the `unwrapped_func`; `then`
-- keeps it, or throws before it has handed the `unwrapped_func` on, which gives the reference up, and
-- the catch cancels the task.
pub data Unwraps (s : LocalTask) : LocalTask → Type 0 where
  refer :
      s.handle ≡ queued
      → s.state ≡ pending
      → Unwraps s
          (record s { state = unwrapped; refs = s.refs + 1; forward = true; handle = linking })
  linked : s.handle ≡ linking → Unwraps s (record s { handle = over })
  then_throws :
      s.handle ≡ linking
      → s.state ≡ unwrapped
      → s.forward ≡ true
      → Unwraps s (record s {
        handle = catching;
        forward = false;
        refs = s.refs - 1;
        deleted = s.refs == 1;
      })
  catches : s.handle ≡ catching → Unwraps s (record s { state = finished; handle = over })

-- The `unwrapped_func`, which runs as soon as the child has it: it finishes the task, and gives its
-- reference up when it is destroyed. While `then` has not returned, it may do so already.
pub data Forwards (s : LocalTask) : LocalTask → Type 0 where
  settle : s.forward ≡ true → s.state ≡ unwrapped → Forwards s (record s { state = finished })
  drop_ref :
      s.forward ≡ true
      → s.state ≡ finished
      → Forwards s (record s { forward = false; refs = s.refs - 1; deleted = s.refs == 1 })

-- The destructor.
pub data Destructor (s : LocalTask) : LocalTask → Type 0 where
  enter : s.stage ≡ alive → Destructor s (record s { stage = waiting })
  waited : s.stage ≡ waiting → s.state ≡ finished → Destructor s (record s { stage = spinning })
  yields : s.stage ≡ spinning → (s.refs == 1) ≡ false → Destructor s s
  is_unique :
      s.stage ≡ spinning → (s.refs == 1) ≡ true → Destructor s (record s { stage = destroyed })

pub data Reach : LocalTask → Type 0 where
  here : Reach local_spawn
  runs : {s t : LocalTask} → Reach s → Runs s t → Reach t
  unwraps : {s t : LocalTask} → Reach s → Unwraps s t → Reach t
  forwards : {s t : LocalTask} → Reach s → Forwards s t → Reach t
  destructs : {s t : LocalTask} → Reach s → Destructor s t → Reach t

-- The references that are there: the object's own, the handle's, and the unwrapped_func's.
abbrev owners : LocalTask → ℕ
owners s = 1 + (if holds s.handle then 1 else 0) + (if s.forward then 1 else 0)

record Inv (s : LocalTask) : Type 0 where
  counted : s.refs ≡ owners s
  kept : s.deleted ≡ false
  no_forward : s.state ≡ pending → s.forward ≡ false
  waited_for : s.stage ≡ spinning → s.state ≡ finished
  past : s.stage ≡ destroyed → (s.state ≡ finished) × (s.handle ≡ released) × (s.forward ≡ false)

local_spawn-Inv : Inv local_spawn
local_spawn-Inv = record {
  counted = refl;
  kept = refl;
  no_forward = λ e. refl;
  waited_for = λ e. cc;
  past = λ e. absurd cc;
}

holds-released : (h : Run) → holds h ≡ false → h ≡ released
holds-released queued e = cc
holds-released linking e = cc
holds-released catching e = cc
holds-released over e = cc
holds-released released e = refl

-- Only the object's own reference is left.
alone :
    (s : LocalTask)
    → s.refs ≡ owners s
    → (s.refs == 1) ≡ true
    → (s.handle ≡ released) × (s.forward ≡ false)
alone s counted one =
    (holds-released s.handle (ground (arith, counted, one)), ground (arith, counted, one))

Runs-Inv : {s t : LocalTask} → Inv s → Runs s t → Inv t
Runs-Inv {s} inv (finish h p) = record {
  counted = inv.counted ∙ rw h refl;
  kept = inv.kept;
  no_forward = λ e. absurd cc;
  waited_for = λ e. refl;
  past = λ e. let d = inv.past e in absurd (let both : queued ≡ released = sym h ∙ d.1 in cc);
}
Runs-Inv {s} inv (release h) = record {
  counted = ground (arith, inv.counted, h);
  kept = ground (arith, inv.counted, h);
  no_forward = inv.no_forward;
  waited_for = inv.waited_for;
  past = λ e. let d = inv.past e in (d.0, refl, d.2);
}

-- Past the destructor no handle is about to do anything.
not_past : (s : LocalTask) (h : Run) → Inv s → s.handle ≡ h → holds h ≡ true → s.stage ≢ destroyed
not_past s h inv e holding d =
    let past = inv.past d in
    let both : true ≡ false = sym holding ∙ ap holds (sym e ∙ past.1) in absurd cc

-- A state other than the finished one is of a destructor that still waits.
not_waited :
    (s : LocalTask) (p : Progress) → Inv s → s.state ≡ p → p ≢ finished → s.stage ≢ spinning
not_waited s p inv e ne at = ne (sym e ∙ inv.waited_for at)

pending≢finished : pending ≢ finished
pending≢finished e = cc

Unwraps-Inv : {s t : LocalTask} → Inv s → Unwraps s t → Inv t
Unwraps-Inv {s} inv (refer h p) = record {
  counted = ground (arith, inv.counted, h, inv.no_forward p);
  kept = inv.kept;
  no_forward = λ e. absurd cc;
  waited_for = λ e. absurd (not_waited s pending inv p pending≢finished e);
  past = λ e. absurd (not_past s queued inv h refl e);
}
Unwraps-Inv {s} inv (linked h) = record {
  counted = ground (arith, inv.counted, h);
  kept = inv.kept;
  no_forward = inv.no_forward;
  waited_for = inv.waited_for;
  past = λ e. absurd (not_past s linking inv h refl e);
}
Unwraps-Inv {s} inv (then_throws h u f) = record {
  counted = ground (arith, inv.counted, h, f);
  kept = ground (arith, inv.counted, h, f);
  no_forward = λ e. refl;
  waited_for = inv.waited_for;
  past = λ e. absurd (not_past s linking inv h refl e);
}
Unwraps-Inv {s} inv (catches h) = record {
  counted = ground (arith, inv.counted, h);
  kept = inv.kept;
  no_forward = λ e. absurd cc;
  waited_for = λ e. refl;
  past = λ e. absurd (not_past s catching inv h refl e);
}

Forwards-Inv : {s t : LocalTask} → Inv s → Forwards s t → Inv t
Forwards-Inv {s} inv (settle f u) = record {
  counted = inv.counted;
  kept = inv.kept;
  no_forward = λ e. absurd cc;
  waited_for = λ e. refl;
  past = λ e. let d = inv.past e in (refl, d.1, d.2);
}
Forwards-Inv {s} inv (drop_ref f u) = record {
  counted = ground (arith, inv.counted, f);
  kept = ground (arith, inv.counted, f);
  no_forward = λ e. refl;
  waited_for = inv.waited_for;
  past = λ e. let d = inv.past e in (d.0, d.1, refl);
}

Destructor-Inv : {s t : LocalTask} → Inv s → Destructor s t → Inv t
Destructor-Inv inv (enter e) = record {
  counted = inv.counted;
  kept = inv.kept;
  no_forward = inv.no_forward;
  waited_for = λ p. cc;
  past = λ p. absurd cc;
}
Destructor-Inv inv (waited e f) = record {
  counted = inv.counted;
  kept = inv.kept;
  no_forward = inv.no_forward;
  waited_for = λ p. f;
  past = λ p. absurd cc;
}
Destructor-Inv inv (yields e o) = inv
Destructor-Inv {s} inv (is_unique e o) = record {
  counted = inv.counted;
  kept = inv.kept;
  no_forward = inv.no_forward;
  waited_for = λ p. absurd cc;
  past = λ p. let a = alone s inv.counted o in (inv.waited_for e, a.0, a.1);
}

Reach-Inv : {s : LocalTask} → Reach s → Inv s
Reach-Inv here = local_spawn-Inv
Reach-Inv (runs r st) = Runs-Inv (Reach-Inv r) st
Reach-Inv (unwraps r st) = Unwraps-Inv (Reach-Inv r) st
Reach-Inv (forwards r st) = Forwards-Inv (Reach-Inv r) st
Reach-Inv (destructs r st) = Destructor-Inv (Reach-Inv r) st

-- Whatever the scheduler does with the handle of a `local_task`, and also where the task is
-- unwrapped: no reference that is given up deletes the object, which is on the stack; when the
-- destructor looks at the count, the task has finished; and when the destructor has ended, the task
-- has finished, and the references of the handle and of the `unwrapped_func` have been given up.
pub destroyed_unused :
    {s : LocalTask}
    → Reach s
    → (s.deleted ≡ false)
      × (s.stage ≡ spinning → s.state ≡ finished)
      × (s.stage ≡ destroyed → (s.state ≡ finished) × (s.handle ≡ released) × (s.forward ≡ false))
destroyed_unused r = let inv = Reach-Inv r in (inv.kept, inv.waited_for, inv.past)
