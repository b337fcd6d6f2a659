-- ===== src/FifoScheduler.antt =====
-- src/scheduler.cpp, `fifo_scheduler`: one queue under a lock, and a thread that runs what is in it.
-- The task that a handle runs may schedule handles on the same scheduler: `body` says which.
pub mod RunAll
mod Examples
use asyncplusplus_1_1_annota.Base.{
  ℕ, zero, suc, Bool, true, false, Option, none, some, List, [], ◌∷◌, ◌++◌,
}
use asyncplusplus_1_1_annota.Fifo
use asyncplusplus_1_1_annota.Fifo.{FifoQueue}

-- `ran` keeps the handles that were run, oldest first.
pub record FifoScheduler {ℓ} (A : Type ℓ) : Type ℓ where
  pub queue : FifoQueue A
  pub ran : List A

module _ {ℓ} {A : Type ℓ} (alloc : ℕ → Bool) where
  -- `none` is the exception of a `push`.
  pub schedule : FifoScheduler A → A → Option (FifoScheduler A)
  schedule s t = elim (Fifo.push alloc s.queue t) [
    | none ↦ none
    | some q ↦ some (record s { queue = q })
  ]

  pub schedule_all : FifoScheduler A → List A → Option (FifoScheduler A)
  unfolding schedule
  schedule_all s [] = some s
  schedule_all s (t ∷ ts) = elim (schedule s t) [ none ↦ none | some s' ↦ schedule_all s' ts ]

  module _ (body : A → List A) where
    pub try_run_one_task : FifoScheduler A → Option (Bool × FifoScheduler A)
    unfolding schedule_all
    try_run_one_task s =
        let (out, q) = Fifo.pop s.queue in
        elim out [
          | none ↦ some (false, record s { queue = q })
          | some t ↦ elim (schedule_all (record { queue = q; ran = s.ran ++ t ∷ [] }) (body t)) [
            | none ↦ none
            | some s' ↦ some (true, s')
          ]
        ]

    -- `none` is an exception, or that `rounds` turns of the loop are not enough.
    pub run_all_tasks : ℕ → FifoScheduler A → Option (FifoScheduler A)
    unfolding try_run_one_task
    run_all_tasks zero s = none
    run_all_tasks (suc rounds) s = elim (try_run_one_task s) [
      | none ↦ none
      | some (more, s') ↦ elim more [ true ↦ run_all_tasks rounds s' | false ↦ some s' ]
    ]
