-- ===== src/Task/Safety/Read.antt =====
-- A function object that reads the result of the task that it waited for, and may move it out.
use asyncplusplus_1_1_annota.Base.{
  ℕ, ◌+◌, ◌≡◌, ◌≢◌, Bool, true, false, Option, none, some, List, ◌==◌, ==_ne, if◌then◌else◌, arith,
  refl, Bool-cases, inl, inr, ==_iff, ==_refl, sym, ap, ◌∙◌, some_inj, subst,
}
use asyncplusplus_1_1_annota.Task.Types.{
  pending, completed, Value, left_behind, Final, result, exception, Exec, Task, World,
}
use asyncplusplus_1_1_annota.Task.Heap.{◌>>=◌, store, get_result, get_exception}
use asyncplusplus_1_1_annota.Task.Exec.{final, with_value, with_void}
use asyncplusplus_1_1_annota.Task.Inv.{Inv, IsSound, count, waits_on, moves_from}
use asyncplusplus_1_1_annota.Task.Inv.Same.{same-Inv}
use asyncplusplus_1_1_annota.Task.Safety.{Safe, SafeRun, Stays, exactly, running, cancel-run}
use asyncplusplus_1_1_annota.Task.Safety.Run.{parent-cases}

-- A heap that differs from `w` in a result that has been moved out: the discipline holds there too,
-- the running task and its handle are what they were, and what is safe there is safe from `w` on.
pub record IsRead {V E : Type 0} (w : World V E) (t : ℕ) (k : Task V E) (f : Exec V E)
    (left : List ℕ) (w₁ : World V E) : Type 0 where
  pub inv : Inv w₁
  pub there : w₁.task t ≡ some k
  pub took : (c : ℕ) → count c w₁.handles ≡ (if c == t then 1 else 0) + count c left
  pub lives : (c : ℕ) → w.task c ≢ none → w₁.task c ≢ none
  pub safe : (o : Option (World V E)) → Safe w₁ o → SafeRun w f o

module _ {V E : Type 0} {w : World V E} (inv : Inv w) (t : ℕ) (k : Task V E) (f : Exec V E)
    (there : w.task t ≡ some k) (owns : k.func ≡ some f) (left : List ℕ)
    (took : (c : ℕ) → count c w.handles ≡ (if c == t then 1 else 0) + count c left) where
  abbrev now : World V E
  now = running inv t k f there owns left took

  unread-IsRead : IsRead w t k f left w
  unread-IsRead = record {
    inv = inv;
    there = there;
    took = took;
    lives = λ c live. live;
    safe = exactly w f;
  }

  module _ (p : ℕ) (q : Task V E) (at : w.task p ≡ some q) (v : Value V) (is : q.state ≡ completed)
      (has : q.result ≡ some v) (moves : Bool) (reads : moves ≡ true → moves_from f ≡ some p) where
    abbrev read_task : Task V E
    read_task = record q { result = some (left_behind moves v) }

    abbrev pub read : World V E
    read = store w p read_task

    apart : (t == p) ≡ false
    apart = ==_ne {a = t} {b = p} (λ e.
        let same : k ≡ q = some_inj (sym there ∙ ap w.task e ∙ at) in
        let was_pending : k.state ≡ pending = (inv.sound t k there).func_pending (ground arith) in
        let both : pending ≡ completed =
          sym was_pending ∙ ap (λ (x : Task V E). x.state) same ∙ is in
        absurd cc)

    read-Sound : IsSound read_task
    read-Sound =
        let ok = inv.sound p q at in
        record {
          has_result = λ _ e. cc;
          has_except = ok.has_except;
          func_pending = ok.func_pending;
          lock = ok.lock;
        }

    -- What becomes of the task that was read, if the rest of the step leaves it.
    read-Stays : (w' : World V E) → w'.task p ≡ some read_task → Stays f p q w'
    read-Stays w' e = elim (Bool-cases moves) [
      | inl moved ↦ inr (reads moved, v, has, rw moved at e)
      | inr copied ↦
          inl (
            rw copied at e
            ∙ ap (λ (r : Option (Value V)). some (record q { result = r })) (sym has))
    ]

    read-Safe : (o : Option (World V E)) → Safe read o → SafeRun w f o
    read-Safe o (w', e, after, same) = (
      w',
      e,
      after,
      λ c old there_c over. elim (Bool-cases (c == p)) [
        | inl here ↦
            let e_p : c ≡ p = (==_iff c p).0 here in
            let is_q : q ≡ old = some_inj (sym at ∙ ap w.task (sym e_p) ∙ there_c) in
            let read_stays : w'.task p ≡ some read_task =
              same p read_task (rw (==_refl p) refl) (rw is refl) in
            subst (λ x. Stays f x old w') (sym e_p)
              (subst (λ x. Stays f p x w') is_q (read-Stays w' read_stays))
        | inr other ↦ inl (same c old (rw other there_c) over)
      ],
    )

    pub read-IsRead : IsRead w t k f left read
    read-IsRead = record {
      inv = same-Inv inv p q read_task at refl refl refl read-Sound;
      there = rw apart there;
      took = took;
      lives = λ c live. elim (Bool-cases (c == p)) [
        | inl here ↦ rw here (λ z. cc)
        | inr other ↦ rw other live
      ];
      safe = read-Safe;
    }

    pub get_result-read : get_result now p moves ≡ some (v, record read { handles = left })
    unfolding get_result
    get_result-read = rw (at, has) refl

    final-read : final now p moves ≡ some (result v, record read { handles = left })
    unfolding final
    final-read =
        completed_reads
        ∙ ap (λ o. o >>= λ (got : Value V × World V E). some (result got.0, got.1)) get_result-read
      where
        completed_reads :
            final now p moves ≡ (get_result now p moves >>= λ got. some (result got.0, got.1))
        completed_reads = rw (at, is) refl

    with_value-read :
        (run : Value V → World V E → Option (World V E))
        → with_value now t p moves run ≡ run v (record read { handles = left })
    unfolding with_value
    with_value-read run =
        completed_reads
        ∙ ap (λ o. o >>= λ (got : Value V × World V E). run got.0 got.1) get_result-read
      where
        completed_reads :
            with_value now t p moves run ≡ (get_result now p moves >>= λ got. run got.0 got.1)
        completed_reads = rw (at, is) refl

  pub final-defined :
      (p : ℕ) (moves : Bool)
      → waits_on f ≡ some p
      → (moves ≡ true → moves_from f ≡ some p)
      → (x : Final V E) × (w₁ : World V E) × (final now p moves
          ≡ some (x, record w₁ { handles = left }))
        × IsRead w t k f left w₁
  unfolding final get_exception
  final-defined p moves h reads =
      let (q, at, left_by) = parent-cases inv t k f there owns left took p h in
      elim left_by [
        | inl (v, is, has) ↦ (
          result v,
          read p q at v is has moves reads,
          final-read p q at v is has moves reads,
          read-IsRead p q at v is has moves reads,
        )
        | inr (e, is, has) ↦ (exception e, w, rw (at, is, has) refl, unread-IsRead)
      ]

  pub with_value-run :
      (p : ℕ) (moves : Bool) (run : Value V → World V E → Option (World V E))
      → waits_on f ≡ some p
      → (moves ≡ true → moves_from f ≡ some p)
      → ((v : Value V) (w₁ : World V E)
          → IsRead w t k f left w₁
          → Safe w₁ (run v (record w₁ { handles = left })))
      → SafeRun w f (with_value now t p moves run)
  unfolding with_value get_exception
  with_value-run p moves run h reads safe =
      let (q, at, left_by) = parent-cases inv t k f there owns left took p h in
      elim left_by [
        | inl (v, is, has) ↦
            let after = read-IsRead p q at v is has moves reads in
            let (w', e, inv', same) =
              after.safe _ (safe v (read p q at v is has moves reads) after) in
            (w', with_value-read p q at v is has moves reads run ∙ e, inv', same)
        | inr (x, is, has) ↦
            let (w', e, inv', same) = exactly w f _ (cancel-run inv t k f there owns left took x) in
            (w', rw (at, is, has) e, inv', same)
      ]

  pub with_void-run :
      (p : ℕ) (run : Option (World V E))
      → waits_on f ≡ some p
      → Safe w run
      → Safe w (with_void now t p run)
  unfolding with_void get_exception
  with_void-run p run h safe =
      let (q, at, left_by) = parent-cases inv t k f there owns left took p h in
      elim left_by [
        | inl (v, is, has) ↦ let (w', e, after, same) = safe in (w', rw (at, is) e, after, same)
        | inr (x, is, has) ↦
            let (w', e, after, same) = cancel-run inv t k f there owns left took x in
            (w', rw (at, is, has) e, after, same)
      ]
