-- ===== src/WorkSteal.antt =====
-- src/work_steal_queue.h: the deque of a worker thread while its owner pushes and pops and any
-- number of thieves steal. Each step is one access to what they share, in one order for all
-- threads; what only the owner writes, it loads with the step that uses it.
pub mod Linear
pub mod Inv
pub mod Thieves
pub mod Array
pub mod Moves
pub mod Pushes
pub mod Pops
pub mod Once
mod Examples
use asyncplusplus_1_1_annota.Base.{
  ℕ, ◌+◌, ◌≡◌, Bool, true, false, Option, none, some, List, [], ◌∷◌, length, ltb, ◌==◌,
  if◌then◌else◌, replicate,
}
use asyncplusplus_1_1_annota.Base.Words.{add_size, sub_size, mul_size}
use asyncplusplus_1_1_annota.Base.Int.{pos, leb_ℤ, ltb_ℤ}
use asyncplusplus_1_1_annota.Deque.{to_signed, get, array_put, grow}

-- Where the owner stands, with the local variables of the call that are still used.
pub data Owner : Type 0 where
  idle : Owner
  pushing : (x b t : ℕ) → Owner
  room : (x b : ℕ) → Owner
  put : (x b : ℕ) → Owner
  popping : (b : ℕ) → Owner
  stored : (b : ℕ) → Owner
  racing : (b t : ℕ) (x : Option ℕ) → Owner
  won : (b : ℕ) (x : Option ℕ) → Owner
  restoring : (b : ℕ) → Owner

-- Where a thief stands in `steal`.
pub data Thief : Type 0 where
  out : Thief
  saw : (t : ℕ) → Thief
  some_left : (t : ℕ) → Thief
  has_array : (t a : ℕ) → Thief
  has_task : (t : ℕ) (x : Option ℕ) → Thief

-- `arrays` has the circular arrays by their addresses, `array` is the address of the current one
-- and the number of those it replaced, which are all kept. `values` has the handle that was put
-- last at each index, `pushed` the handles of the calls of `push` that have stored `bottom`, and
-- `taken` those that `pop` and `steal` have returned.
pub record State : Type 0 where
  pub arrays : ℕ → List (Option ℕ)
  pub array : ℕ
  pub top : ℕ
  pub bottom : ℕ
  pub owner : Owner
  pub thief : ℕ → Thief
  pub values : ℕ → ℕ
  pub pushed : List ℕ
  pub taken : List ℕ

abbrev pub start : State
start = record {
  arrays = λ a. replicate 32 none;
  array = 0;
  top = 0;
  bottom = 0;
  owner = idle;
  thief = λ i. out;
  values = λ p. 0;
  pushed = [];
  taken = [];
}

abbrev pub update {ℓ} : {A : Type ℓ} → (ℕ → A) → ℕ → A → ℕ → A
update f i a j = if j == i then a else f j

abbrev pub items : State → List (Option ℕ)
items s = s.arrays s.array

abbrev pub collect : Option ℕ → List ℕ → List ℕ
collect none xs = xs
collect (some x) xs = x ∷ xs

-- `to_signed(b - t) >= to_signed(a->size())` and `to_signed(b - t) <= 0`.
abbrev pub is_full : ℕ → ℕ → List (Option ℕ) → Bool
is_full b t array = leb_ℤ (to_signed (length array)) (to_signed (sub_size b t))

abbrev pub none_left : ℕ → ℕ → Bool
none_left b t = leb_ℤ (to_signed (sub_size b t)) (pos 0)

abbrev pub overtaken : ℕ → ℕ → Bool
overtaken b t = ltb_ℤ (to_signed (sub_size b t)) (pos 0)

abbrev pub to_owner : State → Owner → State
to_owner s o = record s { owner = o }

abbrev pub to_thief : State → ℕ → Thief → State
to_thief s i p = record s { thief = update s.thief i p }

-- The store of the grown array; the old one stays where it is.
abbrev pub replaced : State → ℕ → ℕ → ℕ → State
replaced s x b t = record s {
  arrays = update s.arrays (s.array + 1) (grow (items s) t b);
  array = s.array + 1;
  owner = room x b;
}

abbrev pub written : State → ℕ → ℕ → State
written s x b = record s {
  arrays = update s.arrays s.array (array_put (items s) b (some x));
  values = update s.values b x;
  owner = put x b;
}

abbrev pub published : State → ℕ → ℕ → State
published s x b = record s { bottom = add_size b 1; pushed = x ∷ s.pushed; owner = idle }

-- `push`: `fails` is the `std::bad_alloc` that `grow` may throw.
pub data Push (s : State) : State → Type 0 where
  load : (x : ℕ) → s.owner ≡ idle → Push s (to_owner s (pushing x s.bottom s.top))
  fits :
      {x b t : ℕ}
      → s.owner ≡ pushing x b t
      → is_full b t (items s) ≡ false
      → Push s (to_owner s (room x b))
  fails :
      {x b t : ℕ}
      → s.owner ≡ pushing x b t
      → is_full b t (items s) ≡ true
      → Push s (to_owner s idle)
  grows :
      {x b t : ℕ}
      → s.owner ≡ pushing x b t
      → is_full b t (items s) ≡ true
      → Push s (replaced s x b t)
  write : {x b : ℕ} → s.owner ≡ room x b → Push s (written s x b)
  publish : {x b : ℕ} → s.owner ≡ put x b → Push s (published s x b)

abbrev pub restored : State → ℕ → State
restored s b = record s { bottom = add_size b 1; owner = idle }

abbrev pub popped : State → Option ℕ → State
popped s x = record s { owner = idle; taken = collect x s.taken }

-- `pop`.
pub data Pop (s : State) : State → Type 0 where
  empty : s.owner ≡ idle → none_left s.bottom s.top ≡ true → Pop s s
  begin :
      s.owner ≡ idle
      → none_left s.bottom s.top ≡ false
      → Pop s (to_owner s (popping (sub_size s.bottom 1)))
  store : {b : ℕ} → s.owner ≡ popping b → Pop s (record s { bottom = b; owner = stored b })
  late : {b : ℕ} → s.owner ≡ stored b → overtaken b s.top ≡ true → Pop s (to_owner s (restoring b))
  take :
      {b : ℕ}
      → s.owner ≡ stored b
      → overtaken b s.top ≡ false
      → (b == s.top) ≡ false
      → Pop s (popped s (get (items s) b))
  race :
      {b : ℕ}
      → s.owner ≡ stored b
      → overtaken b s.top ≡ false
      → (b == s.top) ≡ true
      → Pop s (to_owner s (racing b s.top (get (items s) b)))
  win :
      {b t : ℕ} {x : Option ℕ}
      → s.owner ≡ racing b t x
      → (s.top == t) ≡ true
      → Pop s (record s { top = add_size t 1; owner = won b x })
  lose :
      {b t : ℕ} {x : Option ℕ}
      → s.owner ≡ racing b t x
      → (s.top == t) ≡ false
      → Pop s (to_owner s (restoring b))
  keep : {b : ℕ} {x : Option ℕ} → s.owner ≡ won b x → Pop s (popped (restored s b) x)
  restore : {b : ℕ} → s.owner ≡ restoring b → Pop s (restored s b)

-- `steal` on thread `i`: `again` is a compare-exchange that fails, for whatever reason.
pub data Steal (i : ℕ) (s : State) : State → Type 0 where
  load_top : s.thief i ≡ out → Steal i s (to_thief s i (saw s.top))
  leave : {t : ℕ} → s.thief i ≡ saw t → none_left s.bottom t ≡ true → Steal i s (to_thief s i out)
  load_bottom :
      {t : ℕ}
      → s.thief i ≡ saw t
      → none_left s.bottom t ≡ false
      → Steal i s (to_thief s i (some_left t))
  load_array : {t : ℕ} → s.thief i ≡ some_left t → Steal i s (to_thief s i (has_array t s.array))
  fetch :
      {t a : ℕ}
      → s.thief i ≡ has_array t a
      → Steal i s (to_thief s i (has_task t (get (s.arrays a) t)))
  steal :
      {t : ℕ} {x : Option ℕ}
      → s.thief i ≡ has_task t x
      → (s.top == t) ≡ true
      → Steal i s (record (to_thief s i out) { top = add_size t 1; taken = collect x s.taken })
  again : {t : ℕ} {x : Option ℕ} → s.thief i ≡ has_task t x → Steal i s (to_thief s i out)

pub data Step (s : State) : State → Type 0 where
  push : {t : State} → Push s t → Step s t
  pop : {t : State} → Pop s t → Step s t
  thief : {t : State} (i : ℕ) → Steal i s t → Step s t

pub data Reach : State → Type 0 where
  here : Reach start
  next : {s t : State} → Reach s → Step s t → Reach t
