-- ===== src/WaitEvent.antt =====
-- src/task_wait_event.h: the event that a thread sleeps on, until the task that it waits for has
-- finished or the scheduler has work for it. Its mutex makes each operation one step.
use asyncplusplus_1_1_annota.Base.{Bool, true, false, ◌||◌, Option, none, some, if◌then◌else◌}

pub data WaitType : Type 0 where
  task_finished task_available : WaitType

-- The bits of `event_mask`.
pub record Mask : Type 0 where
  pub finished : Bool
  pub available : Bool

pub record TaskWaitEvent : Type 0 where
  pub event_mask : Mask
  pub initialized : Bool

abbrev pub no_event : Mask
no_event = record { finished = false; available = false }

abbrev pub new : TaskWaitEvent
new = record { event_mask = no_event; initialized = false }

abbrev pub init : TaskWaitEvent → TaskWaitEvent
init e = record e { initialized = true }

abbrev pub has : Mask → WaitType → Bool
has m task_finished = m.finished
has m task_available = m.available

abbrev pub with_bit : Mask → WaitType → Bool → Mask
with_bit m task_finished b = record m { finished = b }
with_bit m task_available b = record m { available = b }

abbrev pub is_set : TaskWaitEvent → Bool
is_set e = e.event_mask.finished || e.event_mask.available

abbrev pub clear : TaskWaitEvent → TaskWaitEvent
clear e = record e { event_mask = no_event }

-- `none` while the caller sleeps in the condition variable.
abbrev pub wait : TaskWaitEvent → Option (Mask × TaskWaitEvent)
wait e = if is_set e then some (e.event_mask, clear e) else none

abbrev pub try_wait : TaskWaitEvent → WaitType → Bool × TaskWaitEvent
try_wait e w = (has e.event_mask w, record e { event_mask = with_bit e.event_mask w false })

abbrev pub signal : TaskWaitEvent → WaitType → TaskWaitEvent
signal e w = record e { event_mask = with_bit e.event_mask w true }
