-- ===== src/Task/Safety/Forward.antt =====
-- The continuation that finishes an unwrapped task, and the one that ends a wait.
use asyncplusplus_1_1_annota.Base.{
  ℕ, ◌+◌, ◌≡◌, ◌≢◌, Bool, true, false, Option, none, some, List, ◌==◌, ==_ne, if◌then◌else◌, arith,
  refl, Bool-cases, Option-cases, inl, inr, ==_iff, ==_refl, sym, ap, ◌∙◌, some_inj, subst,
}
use asyncplusplus_1_1_annota.Task.Types.{
  TaskState, pending, unwrapped, completed, canceled, is_finished, Value, fake_void, returns, Exec,
  forward, Task, World,
}
use asyncplusplus_1_1_annota.Task.Heap.{
  ◌>>=◌, update, store, set_result, cancel_base, get_result, get_exception,
}
use asyncplusplus_1_1_annota.Task.Exec.{complete, copy_to, forward_result, exec}
use asyncplusplus_1_1_annota.Task.Steps.{
  World-ext, store_self, set_result-store, finish-store, complete-store, cancel_base-store,
  end_with,
}
use asyncplusplus_1_1_annota.Task.Inv.{Inv, count, target, moves_from, func_at}
use asyncplusplus_1_1_annota.Task.Inv.Drop.{dropped, drop-Inv}
use asyncplusplus_1_1_annota.Task.Inv.Finish.{finish-Inv}
use asyncplusplus_1_1_annota.Task.Safety.{
  Safe, SafeRun, exactly, running, nobody, pending≢unwrapped,
}
use asyncplusplus_1_1_annota.Task.Safety.Run.{parent-cases}
use asyncplusplus_1_1_annota.Task.Safety.Read.{read, read-IsRead, get_result-read}

module _ {V E : Type 0} {w : World V E} (inv : Inv w) (t parent child : ℕ) (moves : Bool)
    (copy_throws : Option E) (k : Task V E) (there : w.task t ≡ some k)
    (owns : k.func ≡ some (forward parent child moves copy_throws)) (left : List ℕ)
    (took : (c : ℕ) → count c w.handles ≡ (if c == t then 1 else 0) + count c left) where
  abbrev f : Exec V E
  f = forward parent child moves copy_throws

  abbrev now : World V E
  now = running inv t k f there owns left took

  abbrev after_drop : World V E
  after_drop = dropped inv t k f there owns left took pending refl

  goal_there : (p : Task V E) × (w.task parent ≡ some p) × (p.state ≡ unwrapped)
  goal_there = inv.goal t parent f (rw (func_at, there) owns) refl

  abbrev p : Task V E
  p = goal_there.0

  was_pending : k.state ≡ pending
  was_pending = (inv.sound t k there).func_pending (ground arith)

  apart : (parent == t) ≡ false
  apart = ==_ne {a = parent} {b = t} (λ e. pending≢unwrapped (
      sym was_pending
      ∙ ap (λ (x : Task V E). x.state) (some_inj (sym there ∙ ap w.task (sym e) ∙ goal_there.1))
      ∙ goal_there.2))

  apart' : (t == parent) ≡ false
  apart' =
      ==_ne {a = t} {b = parent}
        (λ e. absurd (let both : true ≡ false = sym ((==_iff parent t).1 (sym e)) ∙ apart in cc))

  no_func : p.func ≡ none
  no_func = elim (Option-cases p.func) [
    | inl e ↦ e
    | inr (g, e) ↦ absurd (
        pending≢unwrapped
          (sym ((inv.sound parent p goal_there.1).func_pending (λ h. cc)) ∙ goal_there.2))
  ]

  nobody_parent : (c : ℕ) (g : Exec V E) → func_at after_drop c ≡ some g → target g ≢ some parent
  nobody_parent c g e h = elim (Bool-cases (c == t)) [
    | inl same ↦ cc
    | inr other ↦
        let same : c ≡ t =
          inv.one_goal c t parent g f (rw (func_at, other) at e) (rw (func_at, there) owns) h
            refl in
        let both : true ≡ false = sym ((==_iff c t).1 same) ∙ other in cc
  ]

  module _ (s : TaskState) (r : Option (Value V)) (x : Option E)
      (set : (s ≡ completed → r ≢ none) × (s ≡ canceled → x ≢ none))
      (over : is_finished s ≡ true) where
    abbrev parent_ended : World V E
    parent_ended = end_with after_drop parent p s r x

    parent_ended-Inv : Inv parent_ended
    parent_ended-Inv =
        finish-Inv (drop-Inv inv t k f there owns left took pending refl) parent p
          (rw apart goal_there.1) no_func (rw (goal_there.2) refl) nobody_parent s r x set over

    nobody_here : (c : ℕ) (g : Exec V E) → func_at parent_ended c ≡ some g → target g ≢ some t
    nobody_here c g e = nobody inv t k f there owns left took c g (ground (arith, no_func))

    -- The heap after both tasks have ended.
    both-Inv : Inv (
        end_with
          (end_with now parent p s r x)
          t
          (record k { func = none })
          completed
          (some fake_void)
          none)
    both-Inv = subst Inv (World-ext (λ c. ground arith) refl refl) (
        finish-Inv parent_ended-Inv t (record k { state = pending; func = none })
          (rw (apart', ==_refl t) refl) refl refl nobody_here completed (some fake_void) none
          (λ _ h. cc, λ h. cc) refl)

  after_parent :
      (s : TaskState) (r : Option (Value V)) (x : Option E)
      → complete (end_with now parent p s r x) t (returns fake_void)
        ≡ some (
            end_with
              (end_with now parent p s r x)
              t
              (record k { func = none })
              completed
              (some fake_void)
              none)
  after_parent s r x =
      ap (λ u. complete u t (returns fake_void))
        (sym (store_self (end_with now parent p s r x) t k (rw apart' there)))
      ∙ complete-store (end_with now parent p s r x) t k f fake_void owns

  parent_stored : store now parent p ≡ now
  parent_stored = store_self now parent p goal_there.1

  -- The parent had not finished either.
  kept_both :
      (a b : Task V E) (c : ℕ) (q : Task V E)
      → w.task c ≡ some q
      → is_finished q.state ≡ true
      → update (update w.task parent (some a)) t (some b) c ≡ some q
  kept_both a b c q at over = elim (Bool-cases (c == t)) [
    | inl same ↦
        let here : q ≡ k = some_inj (sym at ∙ ap w.task ((==_iff c t).0 same) ∙ there) in
        let not_over : is_finished q.state ≡ false =
          ap (λ (x : Task V E). is_finished x.state) here ∙ ap is_finished was_pending in
        absurd (let both : true ≡ false = sym over ∙ not_over in cc)
    | inr other ↦ elim (Bool-cases (c == parent)) [
      | inl same ↦
          let here : q ≡ p =
            some_inj (sym at ∙ ap w.task ((==_iff c parent).0 same) ∙ goal_there.1) in
          let not_over : is_finished q.state ≡ false =
            ap (λ (x : Task V E). is_finished x.state) here ∙ ap is_finished goal_there.2 in
          absurd (let both : true ≡ false = sym over ∙ not_over in cc)
      | inr other' ↦ rw (other, other') at
    ]
  ]

  -- The parent is canceled with an exception.
  pub cancel_parent-run :
      (e : E) → Safe w (cancel_base now parent e >>= λ w₁. complete w₁ t (returns fake_void))
  cancel_parent-run e = (
    end_with (end_with now parent p canceled none (some e)) t (record k { func = none }) completed
        (some fake_void) none,
    rw (ap (λ u. cancel_base u parent e) (sym parent_stored) ∙ cancel_base-store now parent p e)
        (after_parent canceled none (some e)),
    both-Inv canceled none (some e) (λ h. cc, λ _ h. cc) refl,
    kept_both _ _,
  )

  -- What is left to do when the result of the child has been read, the catch included.
  pub copy_to-run :
      (v : Value V)
      → Safe w (copy_to now parent copy_throws v >>= λ w₁. complete w₁ t (returns fake_void))
  unfolding copy_to
  copy_to-run v = copied copy_throws
    where
      copied :
          (x : Option E)
          → Safe w (copy_to now parent x v >>= λ w₁. complete w₁ t (returns fake_void))
      copied none = (
        end_with (end_with now parent p completed (some v) none) t (record k { func = none })
            completed (some fake_void) none,
        rw
            (
              ap (λ u. set_result u parent v) (sym parent_stored) ∙ set_result-store now parent p v,
              finish-store now parent (record p { result = some v; except = none }),
            )
            (after_parent completed (some v) none),
        both-Inv completed (some v) none (λ _ h. cc, λ h. cc) refl,
        kept_both _ _,
      )
      copied (some e) = cancel_parent-run e

module _ {V E : Type 0} {w : World V E} (inv : Inv w) (t parent c : ℕ) (moves : Bool)
    (copy_throws : Option E) (k : Task V E) (there : w.task t ≡ some k)
    (owns : k.func ≡ some (forward parent c moves copy_throws)) (left : List ℕ)
    (took : (d : ℕ) → count d w.handles ≡ (if d == t then 1 else 0) + count d left) where
  abbrev g : Exec V E
  g = forward parent c moves copy_throws

  abbrev before : World V E
  before = running inv t k g there owns left took

  reads : moves ≡ true → moves_from g ≡ some c
  reads e = rw e refl

  module _ (q : Task V E) (at : w.task c ≡ some q) (v : Value V) (is : q.state ≡ completed)
      (has : q.result ≡ some v) where
    abbrev after_read : World V E
    after_read = read inv t k g there owns left took c q at v is has moves reads

    completed_reads :
        forward_result before parent c moves copy_throws
        ≡ (get_result before c moves >>= λ got. copy_to got.1 parent copy_throws got.0)
    unfolding forward_result
    completed_reads = rw (at, is) refl

    forward_result-read :
        forward_result before parent c moves copy_throws
        ≡ copy_to (record after_read { handles = left }) parent copy_throws v
    forward_result-read =
        completed_reads
        ∙ ap (λ o. o >>= λ (got : Value V × World V E). copy_to got.1 parent copy_throws got.0)
            (get_result-read inv t k g there owns left took c q at v is has moves reads)

  pub forward-run : SafeRun w g (exec before t g)
  unfolding exec forward_result get_exception
  forward-run =
      let (q, at, left_by) = parent-cases inv t k g there owns left took c refl in
      elim left_by [
        | inl (v, is, has) ↦
            let w₁ = read inv t k g there owns left took c q at v is has moves reads in
            let r = read-IsRead inv t k g there owns left took c q at v is has moves reads in
            let (w', e, after, same) = r.safe _ (
              copy_to-run {w = w₁} r.inv t parent c moves copy_throws k r.there owns left r.took
                v) in
            (
              w',
              ap (λ o. o >>= λ w₂. complete w₂ t (returns fake_void))
                    (forward_result-read q at v is has)
                  ∙ e,
              after,
              same,
            )
        | inr (x, is, has) ↦
            let (w', e, after, same) =
              exactly w g _
                (cancel_parent-run inv t parent c moves copy_throws k there owns left took x) in
            (w', rw (at, is, has) e, after, same)
      ]
