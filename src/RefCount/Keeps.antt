-- ===== src/RefCount/Keeps.antt =====
-- The count of an object is the number of its pointers.
use asyncplusplus_1_1_annota.Base.{
  ℕ, zero, suc, ◌+◌, ◌-◌, ◌<◌, ◌≡◌, ◌≢◌, false, Option, none, some, List, [], ◌∷◌, get_or, set,
  length, ◌==◌, if◌then◌else◌, arith, refl, sym, ap, ◌∙◌, inl, inr, Option-cases, Bool-cases,
  ==_iff, ==_ne, ==_refl, get_or-set_self, get_or-set_ne, length-set,
}
use asyncplusplus_1_1_annota.RefCount.{
  Refs, set_count, get, put, add_ref, remove_ref, drop, share, take, assign_copy, assign_move,
}

-- Whether a pointer points to an object.
abbrev points : ℕ → Option ℕ → ℕ
points a none = 0
points a (some b) = if a == b then 1 else 0

abbrev pub pointers : ℕ → List (Option ℕ) → ℕ
pointers a [] = 0
pointers a (p ∷ ps) = points a p + pointers a ps

pointers-set :
    (a : ℕ) (ps : List (Option ℕ)) (i : ℕ) (p : Option ℕ)
    → i < length ps
    → pointers a (set ps i p) + points a (get_or ps i none) ≡ pointers a ps + points a p
pointers-set a [] i p lt = absurd (omega (arith, lt))
pointers-set a (q ∷ ps) zero p lt = omega arith
pointers-set a (q ∷ ps) (suc i) p lt = omega (arith, pointers-set a ps i p (omega (arith, lt)))

set-same :
    (ps : List (Option ℕ)) (i : ℕ) (p : Option ℕ)
    → get_or ps i none ≡ p
    → i < length ps
    → set ps i p ≡ ps
set-same [] i p e lt = refl
set-same (q ∷ ps) zero p e lt = ap (λ x. x ∷ ps) (sym e)
set-same (q ∷ ps) (suc i) p e lt = ap (λ x. q ∷ x) (set-same ps i p e (omega (arith, lt)))

abbrev pub IsCounted : Refs → Type 0
IsCounted s = (a : ℕ) → s.counts a ≡ pointers a s.ptrs

module _ (s : Refs) (counted : IsCounted s) (i : ℕ) (here : i < length s.ptrs) where
  -- One pointer fewer to what the pointer `i` points to.
  fewer :
      (a b : ℕ)
      → get s i ≡ some a
      → pointers b (set s.ptrs i none) + (if b == a then 1 else 0) ≡ s.counts b
  fewer a b e =
      let moved : pointers b (set s.ptrs i none) + points b (get s i)
          ≡ pointers b s.ptrs + points b none =
        pointers-set b s.ptrs i none here in
      let at_a : points b (get s i) ≡ (if b == a then 1 else 0) = rw e refl in
      omega (arith, moved, at_a, counted b)

  more :
      (b : ℕ) (p : Option ℕ)
      → get s i ≡ none
      → pointers b (set s.ptrs i p) ≡ s.counts b + points b p
  more b p e =
      let moved : pointers b (set s.ptrs i p) + points b (get s i)
          ≡ pointers b s.ptrs + points b p =
        pointers-set b s.ptrs i p here in
      let at_none : points b (get s i) ≡ 0 = rw e refl in omega (arith, moved, at_none, counted b)

  alive : (a : ℕ) → get s i ≡ some a → (s.counts a == 0) ≡ false
  alive a e =
      let one : points a (some a) ≡ 1 = rw (==_refl a) refl in
      ==_ne (λ (z : s.counts a ≡ 0). omega (arith, fewer a a e, one, z))

  -- Giving up a pointer is defined, and keeps the counts.
  pub drop-IsCounted :
      (s' : Refs) × (drop s i ≡ some s') × IsCounted s' × (s'.ptrs ≡ set s.ptrs i none)
  unfolding drop remove_ref
  drop-IsCounted = elim (Option-cases (get s i)) [
    | inl e ↦ (s, rw (drop, e) refl, counted, sym (set-same s.ptrs i none e here))
    | inr (a, e) ↦ (
      put (set_count s a (s.counts a - 1)) i none,
      rw (drop, e, alive a e) refl,
      λ b. elim (Bool-cases (b == a)) [
        | inl same ↦
            rw same (omega (arith, rw same at (fewer a b e), ap s.counts ((==_iff b a).0 same)))
        | inr other ↦ rw other (omega (arith, rw other at (fewer a b e)))
      ],
      refl,
    )
  ]

  null_after : (s' : Refs) → s'.ptrs ≡ set s.ptrs i none → get s' i ≡ none
  null_after s' e = ap (λ ps. get_or ps i none) e ∙ get_or-set_self s.ptrs i none none here

  other_after : (j : ℕ) (s' : Refs) → i ≢ j → s'.ptrs ≡ set s.ptrs i none → get s' j ≡ get s j
  other_after j s' ne e = ap (λ ps. get_or ps j none) e ∙ get_or-set_ne s.ptrs none none ne

-- Sharing the object of another pointer, from a null pointer.
pub share-IsCounted :
    (s : Refs) (i j : ℕ)
    → IsCounted s
    → i < length s.ptrs
    → j < length s.ptrs
    → get s i ≡ none
    → (s' : Refs) × (share s i j ≡ some s') × IsCounted s' × (s'.ptrs ≡ set s.ptrs i (get s j))
unfolding share add_ref
share-IsCounted s i j counted here there null = elim (Option-cases (get s j)) [
  | inl e ↦ (
    put s i none,
    rw (share, e) refl,
    λ b. omega (arith, more s counted i here b none null),
    ap (set s.ptrs i) (sym e),
  )
  | inr (a, e) ↦ (
    set_count (put s i (some a)) a (s.counts a + 1),
    rw (share, e, alive s counted j there a e) refl,
    λ b. elim (Bool-cases (b == a)) [
      | inl same ↦ rw same (
          omega (
            arith,
            rw same at (more s counted i here b (some a) null),
            ap s.counts ((==_iff b a).0 same),
          ))
      | inr other ↦ rw other (omega (arith, rw other at (more s counted i here b (some a) null)))
    ],
    ap (set s.ptrs i) (sym e),
  )
]

share-null : (s : Refs) (i j : ℕ) → get s j ≡ none → share s i j ≡ some (put s i none)
unfolding share
share-null s i j e = rw (share, e) refl

drop-at :
    (s : Refs)
    → IsCounted s
    → (i : ℕ) → i < length s.ptrs
    → (a : ℕ) → get s i ≡ some a
    → drop s i ≡ some (put (set_count s a (s.counts a - 1)) i none)
unfolding drop remove_ref
drop-at s counted i here a e = rw (drop, e, alive s counted i here a e) refl

-- What the assignments do after they have given up the old object.
abbrev assign_from : ℕ → ℕ → Option Refs → Option Refs
assign_from i j o = elim o [ none ↦ none | some s' ↦ share s' i j ]

abbrev move_from : ℕ → ℕ → Option Refs → Option Refs
move_from i j o = elim o [ none ↦ none | some s' ↦ some (take s' i j) ]

-- A null pointer takes the object of another one over.
pub take-IsCounted :
    (s : Refs) (i j : ℕ)
    → IsCounted s
    → i < length s.ptrs
    → j < length s.ptrs
    → i ≢ j
    → get s i ≡ none
    → IsCounted (take s i j)
take-IsCounted s i j counted here there apart null b =
    let mid = set s.ptrs i (get s j) in
    let there₂ : j < length mid = omega (arith, there, length-set s.ptrs i (get s j)) in
    let mine : get_or mid j none ≡ get s j = get_or-set_ne s.ptrs (get s j) none apart in
    let moved : pointers b (set mid j none) + points b (get_or mid j none)
        ≡ pointers b mid + points b none =
      pointers-set b mid j none there₂ in
    let same : points b (get_or mid j none) ≡ points b (get s j) = ap (points b) mine in
    omega (arith, moved, same, more s counted i here b (get s j) null)

module _ (s : Refs) (counted : IsCounted s) (i j : ℕ) (here : i < length s.ptrs)
    (there : j < length s.ptrs) (apart : i ≢ j) where
  -- Where each count is the number of its object's pointers, the copy assignment of another pointer
  -- is never undefined: both pointers then have the other's object, and the counts are right.
  pub copy_assigns :
      (s' : Refs) × (assign_copy s i j ≡ some s')
      × IsCounted s'
      × (get s' i ≡ get s j)
      × (get s' j ≡ get s j)
  unfolding assign_copy
  copy_assigns =
      let (s₁, drops, counted₁, ptrs₁) = drop-IsCounted s counted i here in
      let size : length s₁.ptrs ≡ length s.ptrs = ap length ptrs₁ ∙ length-set s.ptrs i none in
      let kept : get s₁ j ≡ get s j = other_after s counted i here j s₁ apart ptrs₁ in
      let here₁ : i < length s₁.ptrs = omega (arith, size, here) in
      let (s₂, shares, counted₂, ptrs₂) =
        share-IsCounted s₁ i j counted₁ here₁ (omega (arith, size, there))
          (null_after s counted i here s₁ ptrs₁) in
      (
        s₂,
        ap (assign_from i j) drops ∙ shares,
        counted₂,
        ap (λ ps. get_or ps i none) ptrs₂ ∙ get_or-set_self s₁.ptrs i (get s₁ j) none here₁ ∙ kept,
        ap (λ ps. get_or ps j none) ptrs₂ ∙ get_or-set_ne s₁.ptrs (get s₁ j) none apart ∙ kept,
      )

  -- Where each count is the number of its object's pointers, the move assignment of another pointer
  -- is never undefined: the pointer then has the other's object, the other one is null, and the
  -- counts are right.
  pub move_assigns :
      (s' : Refs) × (assign_move s i j ≡ some s')
      × IsCounted s'
      × (get s' i ≡ get s j)
      × (get s' j ≡ none)
  unfolding assign_move
  move_assigns =
      let (s₁, drops, counted₁, ptrs₁) = drop-IsCounted s counted i here in
      let size : length s₁.ptrs ≡ length s.ptrs = ap length ptrs₁ ∙ length-set s.ptrs i none in
      let kept : get s₁ j ≡ get s j = other_after s counted i here j s₁ apart ptrs₁ in
      let here₁ : i < length s₁.ptrs = omega (arith, size, here) in
      let mid = set s₁.ptrs i (get s₁ j) in
      let there₂ : j < length mid = omega (arith, size, there, length-set s₁.ptrs i (get s₁ j)) in
      let mine : get_or mid j none ≡ get s₁ j = get_or-set_ne s₁.ptrs (get s₁ j) none apart in
      (
        take s₁ i j,
        ap (move_from i j) drops,
        take-IsCounted s₁ i j counted₁ here₁ (omega (arith, size, there)) apart
            (null_after s counted i here s₁ ptrs₁),
        get_or-set_ne mid none none (λ e. apart (sym e))
            ∙ get_or-set_self s₁.ptrs i (get s₁ j) none here₁
            ∙ kept,
        get_or-set_self mid j none none there₂,
      )

-- Where each count is the number of its object's pointers, a pointer that is copied to itself gives
-- up its object: it is null then, and the object has one reference fewer.
pub self_assign_drops :
    (s : Refs) (i a : ℕ)
    → IsCounted s
    → i < length s.ptrs
    → get s i ≡ some a
    → (s' : Refs) × (assign_copy s i i ≡ some s')
      × (get s' i ≡ none)
      × (s'.counts a + 1 ≡ s.counts a)
unfolding assign_copy
self_assign_drops s i a counted here e =
    let null : get (put (set_count s a (s.counts a - 1)) i none) i ≡ none =
      get_or-set_self s.ptrs i none none here in
    let still : i < length (set s.ptrs i none) = omega (arith, length-set s.ptrs i none, here) in
    let one : points a (some a) ≡ 1 = rw (==_refl a) refl in
    (
      put (put (set_count s a (s.counts a - 1)) i none) i none,
      ap (assign_from i i) (drop-at s counted i here a e)
          ∙ share-null (put (set_count s a (s.counts a - 1)) i none) i i null,
      get_or-set_self (set s.ptrs i none) i none none still,
      rw (==_refl a) (omega (arith, fewer s counted i here a a e, one)),
    )
