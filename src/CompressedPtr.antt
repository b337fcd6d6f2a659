-- ===== src/CompressedPtr.antt =====
-- include/async++/continuation_vector.h, `compressed_ptr`: a pointer and its flags, packed in one
-- word where the pointer is a multiple of four, or in two.
pub mod Packed
mod Examples
use asyncplusplus_1_1_annota.Base.{ℕ, ◌-◌, ◌^◌, bit_and, bit_or}

-- The general form: a field for each.
pub record CompressedPtr : Type 0 where
  pub ptr : ℕ
  pub flags : ℕ

abbrev pub both : (ptr flags : ℕ) → CompressedPtr
both ptr flags = record { ptr = ptr; flags = flags }

-- The packed form, with the mask 3.
pub record PackedPtr : Type 0 where
  pub data_word : ℕ

-- The complement of the mask, in a word of 64 bits.
abbrev pub not_mask : ℕ
not_mask = 2 ^ 64 - 4

unfoldable pub pack : (ptr flags : ℕ) → PackedPtr
pack ptr flags = record { data_word = bit_or ptr flags }

unfoldable pub get_ptr : PackedPtr → ℕ
get_ptr p = bit_and p.data_word not_mask

unfoldable pub get_flags : PackedPtr → ℕ
get_flags p = bit_and p.data_word 3

unfoldable pub set_ptr : PackedPtr → ℕ → PackedPtr
set_ptr p ptr = record { data_word = bit_or ptr (bit_and p.data_word 3) }

unfoldable pub set_flags : PackedPtr → ℕ → PackedPtr
set_flags p flags = record { data_word = bit_or (bit_and p.data_word not_mask) flags }
