-- ===== src/Singleton/Once.antt =====
-- The object is built once, and before any call returns it.
use asyncplusplus_1_1_annota.Base.{
  ℕ, ◌+◌, ◌≤◌, ◌≡◌, Bool, true, false, Option, none, some, some_inj, ◌==◌, ==_iff, ==_refl,
  Bool-cases, inl, inr, if◌then◌else◌, ◌≢◌, refl, arith, sym, ◌∙◌,
}
use asyncplusplus_1_1_annota.Singleton.{
  Pc, want, locked, built, leaving, done, throwing, threw, Singleton, new, at, GetInstance, is_set,
  not_set, acquire, was_set, build, fail, publish, release, unwind, Reach, here, next, destroy,
}

abbrev pub is_under : Pc → Bool
is_under locked = true
is_under built = true
is_under leaving = true
is_under throwing = true
is_under _ = false

abbrev pub is_built : Pc → Bool
is_built built = true
is_built _ = false

abbrev pub is_after : Pc → Bool
is_after leaving = true
is_after done = true
is_after _ = false

built-under : (p : Pc) → is_built p ≡ true → is_under p ≡ true
built-under p e = ground (arith, e)

-- The object that is built and not yet published.
abbrev pub pending : Option ℕ → (ℕ → Pc) → ℕ
pending none pc = 0
pending (some i) pc = if is_built (pc i) then 1 else 0

record Inv (s : Singleton) : Type 0 where
  holds : (i : ℕ) → is_under (s.pc i) ≡ true → s.lock ≡ some i
  counted : s.built_count ≡ (if s.init_flag then 1 else pending s.lock s.pc)
  early : (i : ℕ) → is_built (s.pc i) ≡ true → s.init_flag ≡ false
  late : (i : ℕ) → is_after (s.pc i) ≡ true → s.init_flag ≡ true

new-Inv : Inv new
new-Inv = record { holds = λ i e. cc; counted = refl; early = λ i e. cc; late = λ i e. cc }

some_absurd : {i : ℕ} → Option.none ≡ some i → ⊥
some_absurd e = cc

pending-move :
    (lock : Option ℕ) (pc : ℕ → Pc) (i : ℕ) (p : Pc)
    → is_built p ≡ is_built (pc i)
    → pending lock (at pc i p) ≡ pending lock pc
pending-move none pc i p e = refl
pending-move (some j) pc i p e = elim (Bool-cases (j == i)) [
  | inl same ↦ let here : j ≡ i = (==_iff j i).0 same in rw (same, e, here) refl
  | inr other ↦ rw other refl
]

module _ {s : Singleton} (inv : Inv s) (i : ℕ) where
  -- A step that moves the thread, and neither builds nor publishes.
  moved-Inv :
      (p : Pc) (lock : Option ℕ)
      → is_built p ≡ is_built (s.pc i)
      → (is_after p ≡ true → s.init_flag ≡ true)
      → (is_under p ≡ true → lock ≡ some i)
      → ((j : ℕ) → j ≢ i → is_under (s.pc j) ≡ true → lock ≡ some j)
      → pending lock s.pc ≡ pending s.lock s.pc
      → Inv (record s { lock = lock; pc = at s.pc i p })
  moved-Inv p lock same after under others counts = record {
    holds = λ j. elim (Bool-cases (j == i)) [
      | inl same_i ↦ let e : j ≡ i = (==_iff j i).0 same_i in rw (e, ==_refl i) under
      | inr other ↦ rw other (others j (ground (arith, other)))
    ];
    counted = rw (pending-move lock s.pc i p same, counts) inv.counted;
    early = λ j. elim (Bool-cases (j == i)) [
      | inl same_i ↦ rw (same_i, same) (inv.early i)
      | inr other ↦ rw other (inv.early j)
    ];
    late = λ j. elim (Bool-cases (j == i)) [
      | inl same_i ↦ rw same_i after
      | inr other ↦ rw other (inv.late j)
    ];
  }

  mine :
      is_under (s.pc i) ≡ true
      → (j : ℕ) → j ≢ i
      → is_under (s.pc j) ≡ true
      → (l : Option ℕ) → l ≡ some j
  mine e j ne under l = absurd (ne (some_inj (sym (inv.holds j under) ∙ inv.holds i e)))

  stay : (j : ℕ) → j ≢ i → is_under (s.pc j) ≡ true → s.lock ≡ some j
  stay j ne = inv.holds j

  at_holds :
      (p : Pc)
      → is_under (s.pc i) ≡ true
      → (j : ℕ) → is_under (at s.pc i p j) ≡ true
      → s.lock ≡ some j
  at_holds p e j = elim (Bool-cases (j == i)) [
    | inl same_i ↦ let k : j ≡ i = (==_iff j i).0 same_i in rw k (λ u. inv.holds i e)
    | inr other ↦ rw other (inv.holds j)
  ]

  build-Inv :
      s.pc i ≡ locked
      → s.init_flag ≡ false
      → Inv (record s { built_count = s.built_count + 1; pc = at s.pc i built })
  build-Inv e unset = record {
    holds = at_holds built (rw e refl);
    counted = rw (unset, inv.holds i (rw e refl), ==_refl i) (omega (arith, none_yet));
    early = λ j. elim (Bool-cases (j == i)) [
      | inl same_i ↦ λ b. unset
      | inr other ↦ rw other (inv.early j)
    ];
    late = λ j. elim (Bool-cases (j == i)) [
      | inl same_i ↦ rw same_i (λ a. cc)
      | inr other ↦ rw other (inv.late j)
    ];
  }
    where
      none_yet : s.built_count ≡ 0
      none_yet = inv.counted ∙ rw (unset, inv.holds i (rw e refl), e) refl

  publish-Inv : s.pc i ≡ built → Inv (record s { init_flag = true; pc = at s.pc i leaving })
  publish-Inv e = record {
    holds = at_holds leaving (rw e refl);
    counted = inv.counted ∙ rw (inv.early i (rw e refl), inv.holds i (rw e refl), e) refl;
    early = λ j. elim (Bool-cases (j == i)) [
      | inl same_i ↦ rw same_i (λ b. absurd (let n : false ≡ true = b in cc))
      | inr other ↦ rw other (λ b. absurd (alone j other b))
    ];
    late = λ j a. refl;
  }
    where
      alone : (j : ℕ) → (j == i) ≡ false → is_built (s.pc j) ≡ true → ⊥
      alone j other b =
          let k : j ≡ i =
            some_inj (sym (inv.holds j (built-under (s.pc j) b)) ∙ inv.holds i (rw e refl)) in
          ground (arith, other, k)

  step-Inv : {t : Singleton} → GetInstance i s t → Inv t
  step-Inv (is_set e set) = moved-Inv done s.lock (rw e refl) (λ a. set) (λ u. cc) stay refl
  step-Inv (not_set e unset) = moved-Inv want s.lock (rw e refl) (λ a. cc) (λ u. cc) stay refl
  step-Inv (acquire e free) =
      moved-Inv locked (some i) (rw e refl) (λ a. cc) (λ u. refl)
        (λ j ne u. absurd (some_absurd (sym free ∙ inv.holds j u))) (rw (e, free) refl)
  step-Inv (was_set e set) =
      moved-Inv leaving s.lock (rw e refl) (λ a. set) (λ u. inv.holds i (rw e refl)) stay refl
  step-Inv (build e unset) = build-Inv e unset
  step-Inv (fail e unset) =
      moved-Inv throwing s.lock (rw e refl) (λ a. cc) (λ u. inv.holds i (rw e refl)) stay refl
  step-Inv (publish e) = publish-Inv e
  step-Inv (release e) =
      moved-Inv done none (rw e refl) (λ a. inv.late i (rw e refl)) (λ u. cc)
        (λ j ne u. mine (rw e refl) j ne u none) (rw (inv.holds i (rw e refl), e) refl)
  step-Inv (unwind e) =
      moved-Inv threw none (rw e refl) (λ a. cc) (λ u. cc) (λ j ne u. mine (rw e refl) j ne u none)
        (rw (inv.holds i (rw e refl), e) refl)

Reach-Inv : {s : Singleton} → Reach s → Inv s
Reach-Inv here = new-Inv
Reach-Inv (next i r st) = step-Inv (Reach-Inv r) i st

pending-le : (lock : Option ℕ) (pc : ℕ → Pc) → pending lock pc ≤ 1
pending-le none pc = omega arith
pending-le (some i) pc = ground arith

-- Whatever the calls of `get_instance` do, and however often the object's constructor throws, at
-- most one object is built, and a call that returns the object does so when it is built.
pub built_once :
    {s : Singleton} → Reach s → (s.built_count ≤ 1) × ((i : ℕ) → s.pc i ≡ done → s.built_count ≡ 1)
built_once {s} r = (
  ground (arith, (Reach-Inv r).counted, pending-le s.lock s.pc),
  λ i e. (Reach-Inv r).counted ∙ rw ((Reach-Inv r).late i (rw e refl)) refl,
)

-- When no thread is under the mutex, the destructor destroys the object just if it was built.
pub destroys_built : {s : Singleton} → Reach s → s.lock ≡ none → destroy s ≡ s.built_count
destroys_built {s} r free = sym ((Reach-Inv r).counted ∙ rw free refl)
