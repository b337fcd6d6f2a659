-- ===== src/RefCount/Uses.antt =====
-- Every sequence of operations on pointers keeps the counts.
use asyncplusplus_1_1_annota.Base.{
  ℕ, ◌+◌, ◌<◌, ◌≡◌, ◌≢◌, Option, none, some, some_inj, List, [], ◌∷◌, ◌++◌, length, length-append,
  get_or, arith, refl, sym, ap, ◌∙◌, subst, Bool-cases, inl, inr, ==_iff, ◌==◌,
}
use asyncplusplus_1_1_annota.RefCount.{
  Refs, take, assign_copy, assign_move, new_null, new_object, construct_copy, construct_move,
  assign_null, destruct, release, adopt,
}
use asyncplusplus_1_1_annota.RefCount.Keeps.{
  pointers, IsCounted, drop-IsCounted, share-IsCounted, take-IsCounted, copy_assigns, move_assigns,
}

-- One operation; the pointers of an assignment are not the same one.
pub data Use (s : Refs) : Refs → Type 0 where
  null_pointer : Use s (new_null s)
  object : (a : ℕ) → s.counts a ≡ 0 → Use s (new_object s a)
  copied : (j : ℕ) {t : Refs} → j < length s.ptrs → construct_copy s j ≡ some t → Use s t
  moved : (j : ℕ) → j < length s.ptrs → Use s (construct_move s j)
  nulled : (i : ℕ) {t : Refs} → i < length s.ptrs → assign_null s i ≡ some t → Use s t
  destructed : (i : ℕ) {t : Refs} → i < length s.ptrs → destruct s i ≡ some t → Use s t
  released : (i : ℕ) → i < length s.ptrs → Use s (release s i)
  adopted : (i : ℕ) → i < length s.ptrs → Use s (adopt s i)
  assigned :
      (i j : ℕ) {t : Refs}
      → i < length s.ptrs
      → j < length s.ptrs
      → i ≢ j
      → assign_copy s i j ≡ some t
      → Use s t
  move_assigned :
      (i j : ℕ) {t : Refs}
      → i < length s.ptrs
      → j < length s.ptrs
      → i ≢ j
      → assign_move s i j ≡ some t
      → Use s t

abbrev pub no_pointers : Refs
no_pointers = record { counts = λ a. 0; ptrs = [] }

pub data Reach : Refs → Type 0 where
  here : Reach no_pointers
  next : {s t : Refs} → Reach s → Use s t → Reach t

pointers-append :
    (a : ℕ) (ps qs : List (Option ℕ)) → pointers a (ps ++ qs) ≡ pointers a ps + pointers a qs
pointers-append a [] qs = omega arith
pointers-append a (p ∷ ps) qs = omega (arith, pointers-append a ps qs)

new_null-IsCounted : (s : Refs) → IsCounted s → IsCounted (new_null s)
new_null-IsCounted s counted a = omega (arith, counted a, pointers-append a s.ptrs (none ∷ []))

length-new_null : (s : Refs) → length ((new_null s).ptrs) ≡ length s.ptrs + 1
length-new_null s = omega (arith, length-append {A = Option ℕ} s.ptrs (none ∷ []))

last_null : (ps : List (Option ℕ)) → get_or (ps ++ none ∷ []) (length ps) none ≡ none
last_null [] = refl
last_null (p ∷ ps) = last_null ps

new_object-IsCounted :
    (s : Refs) → IsCounted s → (a : ℕ) → s.counts a ≡ 0 → IsCounted (new_object s a)
new_object-IsCounted s counted a dead b = elim (Bool-cases (b == a)) [
  | inl same ↦
      let e : b ≡ a = (==_iff b a).0 same in
      rw same (
        omega
          (arith, rw same at (pointers-append b s.ptrs (some a ∷ [])), counted b, ap s.counts e))
  | inr other ↦
      rw other (omega (arith, rw other at (pointers-append b s.ptrs (some a ∷ [])), counted b))
]

module _ (s : Refs) (counted : IsCounted s) (j : ℕ) (there : j < length s.ptrs) where
  in_new : j < length ((new_null s).ptrs)
  in_new = omega (arith, length-new_null s)

  at_end : length s.ptrs < length ((new_null s).ptrs)
  at_end = omega (arith, length-new_null s)

  take-new_null : IsCounted (take (new_null s) (length s.ptrs) j)
  take-new_null =
      take-IsCounted (new_null s) (length s.ptrs) j (new_null-IsCounted s counted) at_end in_new
        (λ e. omega arith) (last_null s.ptrs)

  copies : (t : Refs) × (construct_copy s j ≡ some t) × IsCounted t
  unfolding construct_copy
  copies =
      let (t, e, c, _) =
        share-IsCounted (new_null s) (length s.ptrs) j (new_null-IsCounted s counted) at_end in_new
          (last_null s.ptrs) in
      (t, e, c)

same_end : {o : Option Refs} {s t : Refs} → o ≡ some s → o ≡ some t → IsCounted s → IsCounted t
same_end e e' c = subst IsCounted (some_inj (sym e ∙ e')) c

Use-IsCounted : {s t : Refs} → IsCounted s → Use s t → IsCounted t
Use-IsCounted {s} c null_pointer = new_null-IsCounted s c
Use-IsCounted {s} c (object a dead) = new_object-IsCounted s c a dead
Use-IsCounted {s} c (copied j lt e) = let (t, e', c') = copies s c j lt in same_end e' e c'
Use-IsCounted {s} c (moved j lt) = take-new_null s c j lt
Use-IsCounted {s} c (nulled i lt e) =
    let (t, e', c', _) = drop-IsCounted s c i lt in same_end e' e c'
Use-IsCounted {s} c (destructed i lt e) =
    let (t, e', c', _) = drop-IsCounted s c i lt in same_end e' e c'
Use-IsCounted {s} c (released i lt) = take-new_null s c i lt
Use-IsCounted {s} c (adopted i lt) = take-new_null s c i lt
Use-IsCounted {s} c (assigned i j lt lt' ne e) =
    let (t, e', c', _, _) = copy_assigns s c i j lt lt' ne in same_end e' e c'
Use-IsCounted {s} c (move_assigned i j lt lt' ne e) =
    let (t, e', c', _, _) = move_assigns s c i j lt lt' ne in same_end e' e c'

Reach-IsCounted : {s : Refs} → Reach s → IsCounted s
Reach-IsCounted here = λ a. refl
Reach-IsCounted (next r u) = Use-IsCounted (Reach-IsCounted r) u

-- After any operations on pointers in which none is assigned to itself, the count of an object is
-- the number of its pointers, raw ones that own a reference included, so that an object is deleted
-- with the last of them; and no copy, assignment or destruction of a pointer uses an object that has
-- been deleted.
pub counts_pointers :
    {s : Refs}
    → Reach s
    → IsCounted s
      × ((i j : ℕ)
          → i < length s.ptrs
          → j < length s.ptrs
          → i ≢ j
          → ((t : Refs) × (construct_copy s j ≡ some t))
            × ((t : Refs) × (destruct s i ≡ some t))
            × ((t : Refs) × (assign_copy s i j ≡ some t))
            × ((t : Refs) × (assign_move s i j ≡ some t)))
counts_pointers {s} r =
    let c = Reach-IsCounted r in
    (
      c,
      λ i j lt lt' ne.
          let (t, e, _) = copies s c j lt' in
          let (t', e', _, _) = drop-IsCounted s c i lt in
          let (t₁, e₁, _, _, _) = copy_assigns s c i j lt lt' ne in
          let (t₂, e₂, _, _, _) = move_assigns s c i j lt lt' ne in
          ((t, e), (t', e'), (t₁, e₁), (t₂, e₂)),
    )
