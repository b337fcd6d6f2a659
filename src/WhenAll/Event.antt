-- ===== src/WhenAll/Event.antt =====
-- The event of `when_all` is set when the last continuation is gone, with what they stored.
use asyncplusplus_1_1_annota.Base.{
  ℕ, zero, suc, ◌+◌, ◌-◌, ◌≤◌, ◌<◌, ◌≡◌, Bool, true, false, Option, none, some, List, replicate,
  length, length-set, length-replicate, get_or, get_or-set_self, get_or-set_ne, ◌==◌, ==_iff,
  ==_refl, if◌then◌else◌, refl, arith, sym, ◌∙◌, some_inj, Bool-cases, inl, inr, subst, ◌⊎◌,
}
use asyncplusplus_1_1_annota.WhenAll.{
  WhenAll, mark, less, remove_refs, give_up, store, Step, add, throws, call, drop, new, Reach, here,
  next,
}

-- How many of the first continuations are there.
abbrev pub left_of : ℕ → (ℕ → Bool) → ℕ
left_of zero dropped = 0
left_of (suc n) dropped = (if dropped n then 0 else 1) + left_of n dropped

left_of-outside :
    (n i : ℕ) (dropped : ℕ → Bool) → n ≤ i → left_of n (mark dropped i) ≡ left_of n dropped
left_of-outside zero i dropped le = refl
left_of-outside (suc n) i dropped le = ground (arith, left_of-outside n i dropped, ==_iff n i)

left_of-mark :
    (n i : ℕ) (dropped : ℕ → Bool)
    → i < n
    → dropped i ≡ false
    → left_of n dropped ≡ 1 + left_of n (mark dropped i)
left_of-mark zero i dropped lt there = absurd (omega arith)
left_of-mark (suc n) i dropped lt there = elim (Bool-cases (n == i)) [
  | inl same ↦
      let e : n ≡ i = (==_iff n i).0 same in
      ground (arith, left_of-outside n i dropped (omega arith), e, there, same)
  | inr other ↦ ground (arith, left_of-mark n i dropped (ground (arith, ==_iff n i)) there, other)
]

left_of-none :
    (n : ℕ) (dropped : ℕ → Bool) → ((i : ℕ) → i < n → dropped i ≡ true) → left_of n dropped ≡ 0
left_of-none zero dropped all = refl
left_of-none (suc n) dropped all =
    ground (arith, all n, left_of-none n dropped (λ i lt. all i (omega arith)))

left_of-all :
    (n : ℕ) (dropped : ℕ → Bool) → left_of n dropped ≡ 0 → (i : ℕ) → i < n → dropped i ≡ true
left_of-all zero dropped e i lt = absurd (omega arith)
left_of-all (suc n) dropped e i lt = elim (Bool-cases (i == n)) [
  | inl same ↦ let at : i ≡ n = (==_iff i n).0 same in ground (arith, e, at)
  | inr other ↦ left_of-all n dropped (ground (arith, e)) i (ground (arith, other, ==_iff i n))
]

removed :
    (s : WhenAll) (k : ℕ) {t : WhenAll} → remove_refs s k ≡ some t → (less s k ≡ t) × (0 < s.refs)
removed s k {t} e = elim (Bool-cases (s.refs == 0)) [
  | inl nothing ↦ absurd (ground (arith, e, nothing))
  | inr some_left ↦ (some_inj (rw some_left at e), ground (arith, some_left))
]

none-replicate : (n i : ℕ) → get_or (replicate {A = Option ℕ} n none) i none ≡ none
none-replicate zero i = refl
none-replicate (suc n) zero = refl
none-replicate (suc n) (suc i) = none-replicate n i

module _ (count : ℕ) (tasks : ℕ → ℕ) where
  pub record Inv (s : WhenAll) : Type 0 where
    pub counted :
        s.refs ≡ left_of s.next_index s.dropped + (if s.failed then 0 else count - s.next_index)
    pub in_range : s.next_index ≤ count
    pub fresh : (i : ℕ) → s.next_index ≤ i → (s.dropped i ≡ false) × (s.called i ≡ false)
    pub signalled : s.refs ≡ 0 → s.event ≡ some s.result
    pub unsignalled : 0 < s.refs → s.event ≡ none
    pub size : length s.result ≡ count
    pub stored : (i : ℕ) → get_or s.result i none ≡ (if s.called i then some (tasks i) else none)

  module _ {s : WhenAll} (inv : Inv s) where
    open inv use {counted, in_range, fresh, signalled, unsignalled, size, stored}

    add-Inv :
        s.failed ≡ false → s.next_index < count → Inv (record s { next_index = suc s.next_index })
    add-Inv alive lt = record {
      counted = ground (arith, counted, alive, fresh s.next_index);
      in_range = omega arith;
      fresh = λ i le. fresh i (omega arith);
      signalled = signalled;
      unsignalled = unsignalled;
      size = size;
      stored = stored;
    }

    call-Inv : (i : ℕ) → i < s.next_index → 0 < s.refs → Inv (store tasks s i)
    call-Inv i lt pos = record {
      counted = counted;
      in_range = in_range;
      fresh = λ j le. ground (arith, fresh j le, ==_iff j i);
      signalled = λ e. absurd (omega arith);
      unsignalled = unsignalled;
      size = length-set s.result i (some (tasks i)) ∙ size;
      stored = λ j. elim (Bool-cases (j == i)) [
        | inl same ↦
            let e : j ≡ i = (==_iff j i).0 same in
            rw e (
              rw (==_refl i)
                (get_or-set_self s.result i (some (tasks i)) none (omega (arith, size, in_range))))
        | inr other ↦ rw other (
            get_or-set_ne s.result (some (tasks i)) none (λ e. ground (arith, other, ==_iff j i))
            ∙ stored j)
      ];
    }

    drop-Inv :
        (i : ℕ)
        → i < s.next_index
        → s.dropped i ≡ false
        → Inv (less (record s { dropped = mark s.dropped i }) 1)
    drop-Inv i lt there = record {
      counted = ground (arith, counted, left_of-mark s.next_index i s.dropped lt there);
      in_range = in_range;
      fresh = λ j le. ground (arith, fresh j le, ==_iff j i);
      signalled = λ e. ground (arith, e, counted, left_of-mark s.next_index i s.dropped lt there);
      unsignalled = λ pos. ground (arith, pos, unsignalled);
      size = size;
      stored = stored;
    }

    throws-Inv :
        s.failed ≡ false
        → s.next_index < count
        → 0 < (less s 1).refs
        → Inv (less (record (less s 1) { failed = true }) (count - s.next_index - 1))
    throws-Inv alive lt pos = record {
      counted = ground (arith, counted, alive);
      in_range = in_range;
      fresh = fresh;
      signalled = λ e. ground (arith, e, counted, alive, pos);
      unsignalled = λ some_left. ground (arith, some_left, pos, unsignalled);
      size = size;
      stored = stored;
    }

  Step-Inv : {s t : WhenAll} → Inv s → Step count tasks s t → Inv t
  Step-Inv inv (add alive lt) = add-Inv inv alive lt
  Step-Inv {s} {t} inv (throws alive lt e) = elim (Bool-cases (s.refs == 0)) [
    | inl nothing ↦ absurd (ground (arith, e, nothing))
    | inr some_left ↦
        let gone =
          removed (record (less s 1) { failed = true }) (count - s.next_index - 1)
            (rw (some_left, give_up) at e) in
        subst Inv (gone.0) (throws-Inv inv alive lt (gone.1))
  ]
  Step-Inv {s} inv (call i lt uncalled there) =
      call-Inv inv i lt (omega (arith, inv.counted, left_of-mark s.next_index i s.dropped lt there))
  Step-Inv {s} inv (drop i lt there e) =
      subst Inv (removed (record s { dropped = mark s.dropped i }) 1 e).0 (drop-Inv inv i lt there)

  module _ (not_empty : 0 < count) where
    new-Inv : Inv (new count tasks)
    new-Inv = record {
      counted = omega arith;
      in_range = omega arith;
      fresh = λ i le. (refl, refl);
      signalled = λ e. absurd (omega arith);
      unsignalled = λ pos. refl;
      size = length-replicate count none;
      stored = λ i. none-replicate count i;
    }

    Reach-Inv : {s : WhenAll} → Reach count tasks s → Inv s
    Reach-Inv here = new-Inv
    Reach-Inv (next r st) = Step-Inv (Reach-Inv r) st

-- `when_all` of tasks of which there is one at least, where no `then` throws, sets its event only
-- after the continuation of every task is gone, and the result then has every task whose
-- continuation has run, at its index.
pub event_gathers :
    (count : ℕ) (tasks : ℕ → ℕ) {s : WhenAll} {r : List (Option ℕ)}
    → 0 < count
    → Reach count tasks s
    → s.failed ≡ false
    → s.event ≡ some r
    → (i : ℕ) → i < count
    → (s.dropped i ≡ true) × (get_or r i none ≡ (if s.called i then some (tasks i) else none))
event_gathers count tasks {s} {r} pos reached alive e i lt =
    let inv : Inv count tasks s = Reach-Inv count tasks pos reached in
    let gone : s.refs ≡ 0 = ground (arith, inv.unsignalled, e) in
    let whole : s.result ≡ r = some_inj (sym (inv.signalled gone) ∙ e) in
    let none_left : s.refs ≡ left_of s.next_index s.dropped + (count - s.next_index) =
      ground (arith, inv.counted, alive) in
    (
      left_of-all s.next_index s.dropped (omega arith) i (omega (arith, inv.in_range)),
      subst (λ u. get_or u i none ≡ (if s.called i then some (tasks i) else none)) whole
          (inv.stored i),
    )

-- `when_all` of tasks of which there is one at least sets its event once the loop has ended, by
-- itself or as a `then` threw, and every continuation that was added is gone.
pub event_comes :
    (count : ℕ) (tasks : ℕ → ℕ) {s : WhenAll}
    → 0 < count
    → Reach count tasks s
    → (s.failed ≡ true) ⊎ (s.next_index ≡ count)
    → ((i : ℕ) → i < s.next_index → s.dropped i ≡ true)
    → s.event ≡ some s.result
event_comes count tasks {s} pos reached over all =
    let inv : Inv count tasks s = Reach-Inv count tasks pos reached in
    inv.signalled (ground (arith, inv.counted, over, left_of-none s.next_index s.dropped all))
