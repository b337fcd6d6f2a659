-- ===== src/ContinuationVector/Inv.antt =====
-- What holds between the steps: what each thread has seen is still true in part, the mutex is
-- held by one thread, and a vector is in use by one list.
use asyncplusplus_1_1_annota.Base.{
  ℕ, ◌+◌, ◌≡◌, Bool, true, false, Option, none, some, List, [], ◌∷◌, count, if◌then◌else◌, refl,
  ◌≢◌, ap, ==_ne, arith,
}
use asyncplusplus_1_1_annota.ContinuationVector.{
  Slot, null, task, vector, adder, flusher, Pc, cas, checking, pushing, added, Flush, idle, giving,
  flushing, done, State, new, update,
}

abbrev pub is_added : Pc → Bool
is_added added = true
is_added _ = false

abbrev pub is_pushing : Pc → Bool
is_pushing (pushing _) = true
is_pushing _ = false

abbrev pub is_done : Flush → Bool
is_done done = true
is_done _ = false

-- Past the compare-exchange of `flush_and_lock`.
abbrev pub is_past : Flush → Bool
is_past idle = false
is_past (Flush.loaded _ _) = false
is_past _ = true

-- The vector whose mutex the thread holds.
abbrev pub holds : Pc → Option ℕ
holds (checking v) = some v
holds (pushing v) = some v
holds _ = none

-- What a thread has seen of the pointer and relies on.
abbrev pub seen : Pc → Slot
seen (Pc.loaded sl _ _) = sl
seen (cas sl _) = sl
seen (Pc.want v) = vector v
seen (checking v) = vector v
seen (pushing v) = vector v
seen _ = null

abbrev pub flush_seen : Flush → Slot
flush_seen (giving t) = task t
flush_seen (Flush.want v) = vector v
flush_seen (flushing v) = vector v
flush_seen _ = null

abbrev pub cache : Pc → Option ℕ
cache (Pc.loaded _ _ c) = c
cache (cas _ c) = c
cache _ = none

-- From what was seen, the pointer has only grown.
abbrev pub Grown : Slot → Slot → Type 0
Grown null now = Unit
Grown (task t) null = ⊥
Grown (task t) (task u) = t ≡ u
Grown (task t) (vector v) = Unit
Grown (vector v) null = ⊥
Grown (vector v) (task u) = ⊥
Grown (vector v) (vector u) = v ≡ u

-- The tasks that are kept for `flush_and_lock`.
abbrev pub kept : Slot → (ℕ → List ℕ) → Flush → List ℕ
kept null vectors f = []
kept (task t) vectors f = if is_done f then [] else t ∷ []
kept (vector v) vectors f = vectors v

abbrev pub conts : State → List ℕ
conts s = kept s.slot s.vectors s.flush

pub record Inv (s : State) : Type 0 where
  pub counted :
      (i : ℕ) → count i (conts s) + count i s.flushed ≡ (if is_added (s.pc i) then 1 else 0)
  pub phase : s.locked ≡ is_past s.flush
  pub owner : (v : ℕ) → s.slot ≡ vector v → is_added (s.pc v) ≡ true
  pub view : (i : ℕ) → Grown (seen (s.pc i)) s.slot
  pub flush_view : Grown (flush_seen s.flush) s.slot
  pub given : (t : ℕ) → s.flush ≡ giving t → s.slot ≡ task t
  pub cached :
      (i b : ℕ) → cache (s.pc i) ≡ some b → (s.vectors i ≡ b ∷ i ∷ []) × Grown (task b) s.slot
  pub held : (i v : ℕ) → holds (s.pc i) ≡ some v → s.mutex v ≡ some (adder i)
  pub flush_held : (v : ℕ) → s.flush ≡ flushing v → s.mutex v ≡ some flusher
  pub not_late : (i : ℕ) → is_pushing (s.pc i) ≡ true → is_done s.flush ≡ false
  pub emptied : is_done s.flush ≡ true → conts s ≡ []

pub new-Inv : Inv new
new-Inv = record {
  counted = λ i. refl;
  phase = refl;
  owner = λ v e. cc;
  view = λ i. tt;
  flush_view = tt;
  given = λ t e. cc;
  cached = λ i b e. cc;
  held = λ i v e. cc;
  flush_held = λ v e. cc;
  not_late = λ i e. cc;
  emptied = λ e. refl;
}

pub Grown-refl : (sl : Slot) → Grown sl sl
Grown-refl null = tt
Grown-refl (task t) = refl
Grown-refl (vector v) = refl

pub Grown-first : (sl now : Slot) → Grown sl null → Grown sl now
Grown-first null now g = tt
Grown-first (task t) now g = absurd g
Grown-first (vector v) now g = absurd g

pub Grown-second : (sl : Slot) (t v : ℕ) → Grown sl (task t) → Grown sl (vector v)
Grown-second null t v g = tt
Grown-second (task u) t v g = tt
Grown-second (vector u) t v g = absurd g

pub not_past-not_done : (f : Flush) → is_past f ≡ false → is_done f ≡ false
not_past-not_done f e = ground arith

-- Another vector may be written.
pub kept-write :
    (sl : Slot) (vectors : ℕ → List ℕ) (f : Flush) (v : ℕ) (xs : List ℕ)
    → sl ≢ vector v
    → kept sl (update vectors v xs) f ≡ kept sl vectors f
kept-write null vectors f v xs ne = refl
kept-write (task t) vectors f v xs ne = refl
kept-write (vector u) vectors f v xs ne = rw (==_ne (λ (e : u ≡ v). ne (ap vector e))) refl
