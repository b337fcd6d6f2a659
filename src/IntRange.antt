-- ===== src/IntRange.antt =====
-- include/async++/range.h: a range of integers, whose iterators count. The integers are unsigned, of
-- `w` bits, from 32, where a difference of two is not promoted to a wider type, to 64.
pub mod Modulo
pub mod Visit
pub mod Access
mod Examples
use asyncplusplus_1_1_annota.Base.{ℕ, suc, ◌+◌, ◌-◌, ◌%◌, ◌^◌, Bool, not, leb, ltb, ◌==◌}
use asyncplusplus_1_1_annota.Base.Int.{ℤ, pos, negsuc}
use asyncplusplus_1_1_annota.Deque.{to_signed}

-- `range`: a pair of iterators.
pub record Range (Iter : Type 0) : Type 0 where
  pub iter_begin : Iter
  pub iter_end : Iter

abbrev pub make_range : {Iter : Type 0} → Iter → Iter → Range Iter
make_range begin end = record { iter_begin = begin; iter_end = end }

-- `int_range` and `int_range::iterator`.
pub record IntRange : Type 0 where
  pub value_begin : ℕ
  pub value_end : ℕ

pub record Iterator : Type 0 where
  pub current : ℕ

abbrev pub irange : ℕ → ℕ → IntRange
irange begin end = record { value_begin = begin; value_end = end }

abbrev pub begin : IntRange → Iterator
begin r = record { current = r.value_begin }

abbrev pub end : IntRange → Iterator
end r = record { current = r.value_end }

abbrev pub deref : Iterator → ℕ
deref a = a.current

-- `==`, `!=`, `>`, `<`, `>=` and `<=`.
abbrev pub equal : Iterator → Iterator → Bool
equal a b = a.current == b.current

abbrev pub not_equal : Iterator → Iterator → Bool
not_equal a b = not (a.current == b.current)

abbrev pub greater : Iterator → Iterator → Bool
greater a b = ltb b.current a.current

abbrev pub lower : Iterator → Iterator → Bool
lower a b = ltb a.current b.current

abbrev pub greater_equal : Iterator → Iterator → Bool
greater_equal a b = leb b.current a.current

abbrev pub lower_equal : Iterator → Iterator → Bool
lower_equal a b = leb a.current b.current

module _ (w : ℕ) where
  -- `current + offset` and `current - offset`, converted to the type of the integers. The modulus is
  -- added before what is subtracted from it, which is below.
  abbrev pub add_offset : ℕ → ℤ → ℕ
  add_offset x (pos n) = (x + n) % 2 ^ w
  add_offset x (negsuc n) = (x + 2 ^ w - suc n % 2 ^ w) % 2 ^ w

  abbrev pub sub_offset : ℕ → ℤ → ℕ
  sub_offset x (pos n) = (x + 2 ^ w - n % 2 ^ w) % 2 ^ w
  sub_offset x (negsuc n) = (x + suc n) % 2 ^ w

  abbrev pub at_offset : Iterator → ℤ → ℕ
  at_offset a offset = add_offset a.current offset

  -- `++` and `--`, before and after: the value and the iterator that is left.
  abbrev pub increment : Iterator → Iterator
  increment a = record { current = (a.current + 1) % 2 ^ w }

  abbrev pub post_increment : Iterator → Iterator × Iterator
  post_increment a = (a, increment a)

  abbrev pub decrement : Iterator → Iterator
  decrement a = record { current = (a.current + 2 ^ w - 1) % 2 ^ w }

  abbrev pub post_decrement : Iterator → Iterator × Iterator
  post_decrement a = (a, decrement a)

  -- `+=` and `-=`, and `+` and `-` with an offset.
  abbrev pub advance : Iterator → ℤ → Iterator
  advance a offset = record { current = add_offset a.current offset }

  abbrev pub retreat : Iterator → ℤ → Iterator
  retreat a offset = record { current = sub_offset a.current offset }

  abbrev pub plus : Iterator → ℤ → Iterator
  plus a offset = record { current = add_offset a.current offset }

  abbrev pub minus : Iterator → ℤ → Iterator
  minus a offset = record { current = sub_offset a.current offset }

  abbrev pub offset_plus : ℤ → Iterator → Iterator
  offset_plus offset other = plus other offset

  -- The difference is one of the unsigned type, which is converted to `std::ptrdiff_t`.
  abbrev pub distance : Iterator → Iterator → ℤ
  distance a b = to_signed ((a.current + 2 ^ w - b.current) % 2 ^ w)
