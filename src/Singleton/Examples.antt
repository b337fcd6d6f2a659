-- ===== src/Singleton/Examples.antt =====
-- Two threads call `get_instance`, and the first one builds the object.
use asyncplusplus_1_1_annota.Base.{ℕ, ◌≤◌, ◌≡◌, refl}
use asyncplusplus_1_1_annota.Singleton.{
  Singleton, done, not_set, acquire, build, publish, release, was_set, Reach, here, next,
}
use asyncplusplus_1_1_annota.Singleton.Once.{built_once}

abbrev both_tested : (s : Singleton) × Reach s
both_tested = (_, next 2 (next 1 here (not_set refl refl)) (not_set refl refl))

abbrev both_done : (s : Singleton) × Reach s
both_done = (
  _,
  next 2
      (next 2
        (next 2
          (next 1
            (next 1 (next 1 (next 1 (both_tested.1) (acquire refl refl)) (build refl refl))
              (publish refl))
            (release refl))
          (acquire refl refl))
        (was_set refl refl))
      (release refl),
)

built_once_example :
    ((both_done.0).built_count ≤ 1)
    × ((i : ℕ) → (both_done.0).pc i ≡ done → (both_done.0).built_count ≡ 1)
built_once_example = built_once (both_done.1)
