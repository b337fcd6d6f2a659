-- ===== src/WhenAll/Examples.antt =====
-- `when_all` of two tasks: the first one finishes before the second one has its continuation.
use asyncplusplus_1_1_annota.Base.{
  ℕ, ◌+◌, ◌<◌, ◌≡◌, inr, true, none, some, get_or, if◌then◌else◌, refl, arith,
}
use asyncplusplus_1_1_annota.WhenAll.{WhenAll, add, call, drop, Reach, here, next}
use asyncplusplus_1_1_annota.WhenAll.Event.{event_gathers, event_comes}

abbrev tasks : ℕ → ℕ
tasks i = i + 10

abbrev finished : (s : WhenAll) × Reach 2 tasks s
finished = (
  _,
  next
      (next
        (next
          (next (next (next here (add refl (omega arith))) (call 0 (omega arith) refl refl))
            (drop 0 (omega arith) refl refl))
          (add refl (omega arith)))
        (call 1 (omega arith) refl refl))
      (drop 1 (omega arith) refl refl),
)

all_dropped : (i : ℕ) → i < 2 → (finished.0).dropped i ≡ true
all_dropped i lt = ground arith

event_gathers_example :
    ((finished.0).dropped 1 ≡ true)
    × (get_or (finished.0).result 1 none ≡ (if (finished.0).called 1 then some (tasks 1) else none))
event_gathers_example = event_gathers 2 tasks (omega arith) (finished.1) refl refl 1 (omega arith)

event_comes_example : (finished.0).event ≡ some (finished.0).result
event_comes_example = event_comes 2 tasks (omega arith) (finished.1) (inr refl) all_dropped
