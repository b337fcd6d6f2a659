-- ===== src/ThreadPool/Kept/Queues.antt =====
-- Every step of a pool keeps what holds of its queues.
use asyncplusplus_1_1_annota.Base.{
  ℕ, suc, ◌<◌, ◌≡◌, true, false, none, some, List, [], ◌∷◌, ◌++◌, back, ◌==◌, ==_iff, ==_refl, refl,
  arith, sym, ◌∙◌, ap,
}
use asyncplusplus_1_1_annota.WaitEvent.{is_set}
use asyncplusplus_1_1_annota.ThreadPool.State.{
  Pc, fetch, asleep, running, left, Call, Address, Pool, update, top, put, exits, signal_at,
  signal_all, wake_last, new_call,
}
use asyncplusplus_1_1_annota.ThreadPool.Inv.{
  is_asleep, is_left, idle, stuck, listed, Local, Drained, Listed,
}
use asyncplusplus_1_1_annota.ThreadPool.Inv.Asleep.{
  listed-none, listed-last, signal_at-pc, signal_at-wait_task, signal_at-set, signal_all-pc,
  signal_all-set,
}
use asyncplusplus_1_1_annota.ThreadPool.Inv.Emptied.{busy-Local, step-Drained, signal-Drained}
use asyncplusplus_1_1_annota.ThreadPool.Kept.{wake_last-cases}

module _ {n : ℕ} {s : Pool} (d : Drained n s) (i : ℕ) (lt : i < n) where
  -- The last call of the thread goes on, and another queue may lose handles.
  pub go-Drained :
      (c : Call) (queue : ℕ → List ℕ) (public_queue ran accepted : List ℕ) (waiters : List Address)
      → ((j : ℕ) → (j == i) ≡ false → s.queue j ≡ [] → queue j ≡ [])
      → (s.public_queue ≡ [] → public_queue ≡ [])
      → (idle c.pc ≡ true → queue i ≡ [])
      → is_left c.pc ≡ false
      → (c.pc ≡ asleep
          → (public_queue ≡ []) × (s.shutdown ≡ true → c.wait_task ≡ none → is_set c.event ≡ true))
      → Drained n (record s {
        call = put s.call i (s.depth i) c;
        queue = queue;
        public_queue = public_queue;
        ran = ran;
        accepted = accepted;
        waiters = waiters;
      })
  go-Drained c queue public_queue ran accepted waiters queues publics mine stays sleeps =
      step-Drained i d lt (λ j ne. rw ne refl) queues refl publics
        (rw (==_refl i) (
          rw (==_refl (s.depth i)) (record {
            own = mine;
            gone = λ e. ground (arith, stays, e);
            gone_public = λ e. ground (arith, stays, e);
            shut = λ down at w. (sleeps at).1 down w;
          })))
        (rw (==_refl i) (rw (==_refl (s.depth i)) (λ h. ground (arith, stays, h, sleeps))))

  -- The last call returns.
  pub back-Drained :
      (e : ℕ) (waiters : List Address)
      → (s.call i e).pc ≡ running
      → Drained n (record s { depth = update s.depth i e; waiters = waiters })
  back-Drained e waiters at =
      step-Drained i d lt (λ j ne. rw ne refl) (λ j ne q. q) refl (λ q. q)
        (rw (==_refl i) (busy-Local (s.call i e) (rw at refl)))
        (λ h. ground (arith, at, h, ==_refl i))

  -- The last call goes on and nothing else changes.
  pub busy_on :
      (p : Pc)
      → idle p ≡ false
      → Drained n (record s { call = put s.call i (s.depth i) (record (top s i) { pc = p }) })
  busy_on p busy =
      go-Drained (record (top s i) { pc = p }) s.queue s.public_queue s.ran s.accepted s.waiters
        (λ j ne q. q) (λ q. q) (λ e. ground (arith, busy, e)) (ground (arith, busy))
        (λ e. ground (arith, busy, e))

  pub idle_on :
      (p : Pc)
      → idle (top s i).pc ≡ true
      → is_left p ≡ false
      → is_asleep p ≡ false
      → Drained n (record s { call = put s.call i (s.depth i) (record (top s i) { pc = p }) })
  idle_on p was stays up =
      go-Drained (record (top s i) { pc = p }) s.queue s.public_queue s.ran s.accepted s.waiters
        (λ j ne q. q) (λ q. q) (λ e. (d.each i lt).own was) stays (λ e. ground (arith, up, e))

  pub wait_for-Drained :
      (w : ℕ)
      → Drained n (record s {
        call = put s.call i (suc (s.depth i)) (new_call (some w));
        depth = update s.depth i (suc (s.depth i));
      })
  wait_for-Drained w =
      step-Drained i d lt (λ j ne. rw ne refl) (λ j ne q. q) refl (λ q. q)
        (rw (==_refl i) (rw (==_refl (suc (s.depth i))) (busy-Local (new_call (some w)) refl)))
        (λ h. ground (arith, h, ==_refl i, ==_refl (suc (s.depth i))))

  pub exit-Drained :
      (top s i).pc ≡ fetch
      → s.public_queue ≡ []
      → exits (top s i).wait_task s.shutdown ≡ true
      → Drained n (record s { call = put s.call i (s.depth i) (record (top s i) { pc = left }) })
  exit-Drained at e down =
      step-Drained i d lt (λ j ne. rw ne refl) (λ j ne q. q) refl (λ q. q)
        (rw (==_refl i) (
          rw (==_refl (s.depth i)) (record {
            own = λ u. (d.each i lt).own (rw at refl);
            gone = λ u. ground (arith, down);
            gone_public = λ u. e;
            shut = λ u v. cc;
          })))
        (λ h. e)

pub wake_last-Drained : {n : ℕ} (s : Pool) → Drained n s → Drained n (wake_last s)
wake_last-Drained {n} s d =
    wake_last-cases (Drained n) s (λ e. d)
      (λ z last.
        signal-Drained d (λ j. signal_at-pc s.call z j (s.depth j))
          (λ j. signal_at-wait_task s.call z j (s.depth j))
          (λ j e. ground (arith, signal_at-set s.call z j (s.depth j), e)) (λ j. refl) refl refl)

pub destroy-Drained :
    {n : ℕ} (s : Pool)
    → Listed n s.depth s.call s.waiters
    → Drained n s
    → Drained n (record s { shutdown = true; call = signal_all s.call s.waiters; waiters = [] })
destroy-Drained {n} s l d = record {
  each = λ j below.
      let k : Local s.shutdown s.public_queue (s.queue j) (top s j) = d.each j below in
      record {
        own = λ e. k.own (ap idle (sym (pc j)) ∙ e);
        gone = λ e. refl;
        gone_public = λ e. k.gone_public (sym (pc j) ∙ e);
        shut = λ down at w. ground (arith, l.unset j, sets j, pc j, at);
      };
  lost = λ all. d.lost (λ j below. ground (arith, all j below, pc j, sets j));
}
  where
    pc : (j : ℕ) → (signal_all s.call s.waiters j (s.depth j)).pc ≡ (top s j).pc
    pc j = signal_all-pc s.call s.waiters j (s.depth j)

    sets :
        (j : ℕ)
        → is_set (signal_all s.call s.waiters j (s.depth j)).event ≡ false
        → (is_set (top s j).event ≡ false) × (listed j (s.depth j) s.waiters ≡ 0)
    sets j e = signal_all-set s.call s.waiters j (s.depth j) e

-- A handle from outside: whoever sleeps for good would have been in the list.
module _ {n : ℕ} (some_thread : 0 < n) (s : Pool) (h : ℕ) (l : Listed n s.depth s.call s.waiters)
    (d : Drained n s) (up : s.shutdown ≡ false) where
  abbrev pub pushed : Pool
  pushed = record s { public_queue = s.public_queue ++ h ∷ []; accepted = h ∷ s.accepted }

  not_left : (i : ℕ) → i < n → is_left (top s i).pc ≡ false
  not_left i lt = ground (arith, (d.each i lt).gone, up)

  each_pushed :
      (i : ℕ) (c : Call)
      → i < n
      → c.pc ≡ (top s i).pc
      → Local s.shutdown (s.public_queue ++ h ∷ []) (s.queue i) c
  each_pushed i c lt pc =
      let k : Local s.shutdown s.public_queue (s.queue i) (top s i) = d.each i lt in
      record {
        own = λ e. k.own (ap idle (sym pc) ∙ e);
        gone = λ e. k.gone (sym pc ∙ e);
        gone_public = λ e. ground (arith, not_left i lt, pc, e);
        shut = λ down. absurd (let both : true ≡ false = sym down ∙ up in cc);
      }

  -- The last of the list is awake then.
  signalled :
      (z : Address)
      → back s.waiters ≡ some z
      → (z.thread < n → stuck (signal_at s.call z z.thread (s.depth z.thread)) ≡ true)
      → ⊥
  signalled z last asleep_still = ground (
    arith,
    listed-last z.thread z.level s.waiters last,
    l.bound z.thread z.level,
    signal_at-pc s.call z z.thread (s.depth z.thread),
    signal_at-set s.call z z.thread (s.depth z.thread),
    asleep_still,
    ==_iff z.level (s.depth z.thread),
  )

  pub outside-Drained : Drained n (wake_last pushed)
  outside-Drained =
      wake_last-cases (Drained n) pushed
        (λ nobody. record {
          each = λ i lt. each_pushed i (top s i) lt refl;
          lost = λ all. absurd (
              ground (
                arith,
                all 0 some_thread,
                not_left 0 some_thread,
                l.unset 0,
                listed-none 0 (s.depth 0) s.waiters nobody,
              ));
        })
        (λ z last. record {
          each = λ i lt.
              each_pushed i (signal_at s.call z i (s.depth i)) lt
                (signal_at-pc s.call z i (s.depth i));
          lost = λ all. absurd (signalled z last (all z.thread));
        })
