-- ===== src/Task/User/Examples.antt =====
-- A local task whose destructor waits for the scheduler, and one whose function returns a task, which
-- finishes after the handle is gone.
use asyncplusplus_1_1_annota.Base.{◌≡◌, false, refl}
use asyncplusplus_1_1_annota.Task.User.Local.{
  LocalTask, finished, released, spinning, destroyed, Reach, here, runs, unwraps, forwards,
  destructs, finish, release, refer, linked, settle, drop_ref, enter, waited, is_unique, yields,
  destroyed_unused,
}

abbrev gone : (s : LocalTask) × Reach s
gone = (
  _,
  destructs
      (runs
        (destructs
          (destructs (runs (destructs here (enter refl)) (finish refl refl)) (waited refl refl))
          (yields refl refl))
        (release refl))
      (is_unique refl refl),
)

abbrev unwrapped_gone : (s : LocalTask) × Reach s
unwrapped_gone = (
  _,
  destructs
      (forwards
        (destructs
          (forwards
            (runs (unwraps (unwraps (destructs here (enter refl)) (refer refl refl)) (linked refl))
              (release refl))
            (settle refl refl))
          (waited refl refl))
        (drop_ref refl refl))
      (is_unique refl refl),
)

destroyed_unused_example :
    ((unwrapped_gone.0).deleted ≡ false)
    × ((unwrapped_gone.0).stage ≡ spinning → (unwrapped_gone.0).state ≡ finished)
    × ((unwrapped_gone.0).stage ≡ destroyed
        → ((unwrapped_gone.0).state ≡ finished)
          × ((unwrapped_gone.0).handle ≡ released)
          × ((unwrapped_gone.0).forward ≡ false))
destroyed_unused_example = destroyed_unused (unwrapped_gone.1)

gone_over : (gone.0).stage ≡ destroyed
gone_over = refl
