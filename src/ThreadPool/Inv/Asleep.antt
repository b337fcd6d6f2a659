-- ===== src/ThreadPool/Inv/Asleep.antt =====
-- The steps of a pool keep the list of the sleeping threads right.
use asyncplusplus_1_1_annota.Base.{
  ℕ, ◌+◌, ◌-◌, ◌≤◌, ◌<◌, ◌≡◌, false, ◌&&◌, ◌||◌, not, none, some, List, [], ◌∷◌, ◌++◌, back,
  but_last, snoc-cases, ltb, ◌==◌, ==_iff, lt→ltb, if◌then◌else◌, refl, arith, sym, ◌∙◌, ap,
  some_inj,
}
use asyncplusplus_1_1_annota.WaitEvent.{Mask, is_set, init}
use asyncplusplus_1_1_annota.ThreadPool.State.{
  asleep, running, woken, Call, Address, update, new_call, remove, put, signal_at, signal_all,
}
use asyncplusplus_1_1_annota.ThreadPool.Inv.{in_bed, Depths, Calls, is_at, listed, Listed}

pub listed-append :
    (i d : ℕ) (xs ys : List Address) → listed i d (xs ++ ys) ≡ listed i d xs + listed i d ys
listed-append i d [] ys = omega arith
listed-append i d (x ∷ xs) ys = omega (arith, listed-append i d xs ys)

-- The last one may be listed first.
listed-back :
    (i d : ℕ) (x : Address) (xs : List Address)
    → (z : Address) × (back (x ∷ xs) ≡ some z)
      × (listed i d (x ∷ xs) ≡ (if is_at i d z then 1 else 0) + listed i d (but_last (x ∷ xs)))
listed-back i d x xs =
    let (ys, y, whole, last, init) = snoc-cases x xs in
    (y, last, ap (listed i d) whole ∙ rw init (omega (arith, listed-append i d ys (y ∷ []))))

pub listed-last :
    (i d : ℕ) (xs : List Address) {z : Address}
    → back xs ≡ some z
    → listed i d xs ≡ (if is_at i d z then 1 else 0) + listed i d (but_last xs)
listed-last i d [] e = absurd (let both : none ≡ some _ = e in cc)
listed-last i d (x ∷ xs) {z} e =
    let (y, last, moved) = listed-back i d x xs in
    let same_one : y ≡ z = some_inj (sym last ∙ e) in
    moved ∙ ap (λ t. (if is_at i d t then 1 else 0) + listed i d (but_last (x ∷ xs))) same_one

pub listed-none : (i d : ℕ) (xs : List Address) → back xs ≡ none → listed i d xs ≡ 0
listed-none i d [] e = refl
listed-none i d (x ∷ xs) e =
    let (y, last, moved) = listed-back i d x xs in
    absurd (let both : none ≡ some y = sym e ∙ last in cc)

-- The loop takes one entry of the event out, if there is one.
listed-remove :
    (i d j e : ℕ) (xs : List Address)
    → listed j e (remove (record { thread = i; level = d }) xs)
      ≡ listed j e xs - (if (j == i) && (e == d) then 1 else 0)
unfolding remove
listed-remove i d j e [] = omega arith
listed-remove i d j e (x ∷ []) = ground (
  arith,
  ==_iff j i,
  ==_iff e d,
  ==_iff x.thread i,
  ==_iff x.level d,
  ==_iff j x.thread,
  ==_iff e x.level,
)
listed-remove i d j e (x ∷ y ∷ ys) =
    let (z, last, moved) = listed-back j e y ys in
    rw last (
      ground (
        arith,
        moved,
        listed-remove i d j e (y ∷ ys),
        ==_iff j i,
        ==_iff e d,
        ==_iff x.thread i,
        ==_iff x.level d,
        ==_iff j x.thread,
        ==_iff e x.level,
      ))

module _ {n : ℕ} {depth : Depths} {call : Calls} {ws : List Address}
    (l : Listed n depth call ws) where
  open l use {bound, unset}

  -- The last call of a thread that is not in the list goes on.
  pub go-Listed :
      (i : ℕ) (c : Call)
      → in_bed (call i (depth i)).pc ≡ false
      → in_bed c.pc ≡ false
      → Listed n depth (put call i (depth i) c) ws
  go-Listed i c out up = record {
    bound = λ j e. ground (arith, bound j e, ==_iff j i);
    unset = λ j at e. ground (arith, unset j, ==_iff j i);
  }

  pub back-Listed :
      (i d : ℕ)
      → in_bed (call i (depth i)).pc ≡ false
      → (call i d).pc ≡ running
      → Listed n (update depth i d) call ws
  back-Listed i d out up = record {
    bound = λ j e. ground (arith, bound j e, ==_iff j i);
    unset = λ j at e. ground (arith, unset j, ==_iff j i);
  }

  pub wait_for-Listed :
      (i d : ℕ) (c : Call)
      → in_bed (call i (depth i)).pc ≡ false
      → in_bed c.pc ≡ false
      → Listed n (update depth i d) (put call i d c) ws
  wait_for-Listed i d c out up = record {
    bound = λ j e. ground (arith, bound j e, ==_iff j i);
    unset = λ j at e. ground (arith, unset j, ==_iff j i);
  }

  -- A thread that sleeps wakes, and is in the list still.
  pub wake-Listed :
      (i : ℕ) (c : Call) (m : Mask)
      → (call i (depth i)).pc ≡ asleep
      → c.pc ≡ woken m
      → Listed n depth (put call i (depth i) c) ws
  wake-Listed i c m at up = record {
    bound = λ j e. ground (arith, bound j e, ==_iff j i);
    unset = λ j at e. ground (arith, unset j, ==_iff j i);
  }

  pub sleep-Listed :
      (i : ℕ) (c : Call)
      → i < n
      → in_bed (call i (depth i)).pc ≡ false
      → c.pc ≡ asleep
      → Listed n depth (put call i (depth i) c) (ws ++ record { thread = i; level = depth i } ∷ [])
  sleep-Listed i c lt out at = record {
    bound = λ j e. ground (
      arith,
      bound j e,
      listed-append j e ws (record { thread = i; level = depth i } ∷ []),
      lt→ltb i n lt,
      ==_iff j i,
      ==_iff e (depth i),
    );
    unset = λ j at' e. ground (
      arith,
      bound j (depth j),
      unset j,
      listed-append j (depth j) ws (record { thread = i; level = depth i } ∷ []),
      ==_iff j i,
      ==_iff (depth j) (depth i),
    );
  }

  -- A thread that is woken takes its event out of the list.
  pub unlist-Listed :
      (i : ℕ) (m : Mask)
      → (call i (depth i)).pc ≡ woken m
      → (j e : ℕ)
      → listed j e (remove (record { thread = i; level = depth i }) ws) ≤ (
          if e == depth j && (ltb j n && (in_bed (call j (depth j)).pc && not (j == i)))
          then 1
          else 0)
  unlist-Listed i m at j e =
      ground (arith, bound j e, listed-remove i (depth i) j e ws, ==_iff j i, ==_iff e (depth i))

  pub woken_again-Listed :
      (i : ℕ) (c : Call) (m : Mask)
      → (call i (depth i)).pc ≡ woken m
      → in_bed c.pc ≡ false
      → Listed n depth (put call i (depth i) c) (remove (record { thread = i; level = depth i }) ws)
  woken_again-Listed i c m at up = record {
    bound = λ j e. ground (arith, unlist-Listed i m at j e, ==_iff j i);
    unset = λ j at' e.
        ground (arith, unset j, listed-remove i (depth i) j (depth j) ws, at', e, ==_iff j i);
  }

  pub woken_done-Listed :
      (i d : ℕ) (m : Mask)
      → (call i (depth i)).pc ≡ woken m
      → (call i d).pc ≡ running
      → Listed n (update depth i d) call (remove (record { thread = i; level = depth i }) ws)
  woken_done-Listed i d m at up = record {
    bound = λ j e. ground (arith, unlist-Listed i m at j e, ==_iff j i);
    unset = λ j at' e.
        ground (arith, unset j, listed-remove i (depth i) j (depth j) ws, at', e, ==_iff j i);
  }

  -- An event gets another bit.
  pub signal-Listed :
      (i d : ℕ) (c : Call)
      → c.pc ≡ (call i d).pc
      → (is_set c.event ≡ false → is_set (call i d).event ≡ false)
      → Listed n depth (put call i d c) ws
  signal-Listed i d c same_pc more = record {
    bound = λ j e. ground (arith, bound j e, same_pc, ==_iff j i, ==_iff (depth j) d);
    unset = λ j at e. ground (arith, unset j, same_pc, more, ==_iff j i, ==_iff (depth j) d);
  }

module _ (call : Calls) (a : Address) (j e : ℕ) where
  pub signal_at-pc : (signal_at call a j e).pc ≡ (call j e).pc
  signal_at-pc = ground (arith, ==_iff j a.thread, ==_iff e a.level)

  pub signal_at-wait_task : (signal_at call a j e).wait_task ≡ (call j e).wait_task
  signal_at-wait_task = ground (arith, ==_iff j a.thread, ==_iff e a.level)

  -- What the mask has afterwards.
  pub signal_at-set : is_set (signal_at call a j e).event ≡ is_set (call j e).event || is_at j e a
  signal_at-set = ground (arith, ==_iff j a.thread, ==_iff e a.level)

pub signal_all-pc :
    (call : Calls) (xs : List Address) (j e : ℕ) → (signal_all call xs j e).pc ≡ (call j e).pc
signal_all-pc call [] j e = refl
signal_all-pc call (a ∷ xs) j e = signal_all-pc (signal_at call a) xs j e ∙ signal_at-pc call a j e

pub signal_all-wait_task :
    (call : Calls) (xs : List Address) (j e : ℕ)
    → (signal_all call xs j e).wait_task ≡ (call j e).wait_task
signal_all-wait_task call [] j e = refl
signal_all-wait_task call (a ∷ xs) j e =
    signal_all-wait_task (signal_at call a) xs j e ∙ signal_at-wait_task call a j e

pub signal_all-set :
    (call : Calls) (xs : List Address) (j e : ℕ)
    → is_set (signal_all call xs j e).event ≡ false
    → (is_set (call j e).event ≡ false) × (listed j e xs ≡ 0)
signal_all-set call [] j e h = (h, refl)
signal_all-set call (a ∷ xs) j e h =
    let (unset, out) = signal_all-set (signal_at call a) xs j e h in
    ground (arith, unset, out, signal_at-set call a j e)

-- The last thread of the list is signalled, and is out of it.
pub wake_last-Listed :
    {n : ℕ} {depth : Depths} {call : Calls} {ws : List Address} {z : Address}
    → Listed n depth call ws
    → back ws ≡ some z
    → Listed n depth (signal_at call z) (but_last ws)
wake_last-Listed {n} {depth} {call} {ws} {z} l last = record {
  bound = λ j e.
      rw (signal_at-pc call z j (depth j)) (ground (arith, l.bound j e, listed-last j e ws last));
  unset = λ j at e. ground (
    arith,
    l.unset j,
    listed-last j (depth j) ws last,
    signal_at-pc call z j (depth j),
    signal_at-set call z j (depth j),
    at,
    e,
  );
}

pub destroy-Listed :
    {n : ℕ} {depth : Depths} {call : Calls} {ws : List Address}
    → Listed n depth call ws
    → Listed n depth (signal_all call ws) []
destroy-Listed {depth} {call} {ws} l = record {
  bound = λ j e. ground arith;
  unset = λ j at e. ground (
    arith,
    l.unset j,
    signal_all-pc call ws j (depth j),
    signal_all-set call ws j (depth j) e,
    at,
  );
}

pub new-Listed : (n : ℕ) → Listed n (λ _. 0) (λ _ _. new_call none) []
new-Listed n = record { bound = λ i d. ground arith; unset = λ i at e. cc }
