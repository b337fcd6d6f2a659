-- ===== src/CompressedPtr/Packed.antt =====
-- The packed form holds what the general form holds.
use Prim.Native.Nat.{digits, bit_and-bitwise, bit_or-bitwise, max}
use native.Mathlib.Nat.{pow-suc, zero-mod, mod-lt, mod-eq_of_lt}
use asyncplusplus_1_1_annota.Base.{
  ℕ, zero, suc, ◌+◌, ◌-◌, ◌/◌, ◌%◌, ◌^◌, ◌≤◌, ◌<◌, ◌≡◌, min, bit_and, bit_or, refl, ap₂, ◌∙◌, arith,
}
use asyncplusplus_1_1_annota.Base.Masks.{
  bit_and-mask, two-pow-pos, mod-two-pow-suc, and_mask-digits,
}
use asyncplusplus_1_1_annota.CompressedPtr.{
  CompressedPtr, both, PackedPtr, not_mask, pack, get_ptr, get_flags, set_ptr, set_flags,
}

mod-one : (n : ℕ) → n % 2 ^ 0 ≡ 0
mod-one n = omega (arith, mod-lt n (two-pow-pos 0))

max-zero : (n : ℕ) → max n 0 ≡ n
max-zero n = omega arith

-- Flags below `2 ^ k` fill the zeros of a multiple of `2 ^ k`.
or-digits :
    (fuel k a b : ℕ) → a ≤ fuel → b < 2 ^ k → a % 2 ^ k ≡ 0 → digits (λ b. b) max fuel a b ≡ a + b
or-digits zero k a b le lt e = let z : a ≡ 0 = omega arith in rw z (omega arith)
or-digits (suc fuel) k zero b le lt e = omega arith
or-digits (suc fuel) zero (suc a) b le lt e =
    let none : b ≡ 0 = omega arith in
    let ih = or-digits fuel zero (suc a / 2) 0 (omega arith) (omega arith) (mod-one (suc a / 2)) in
    rw none (rw ih (omega (arith, max-zero (suc a % 2))))
or-digits (suc fuel) (suc k) (suc a) b le lt e =
    let parts = mod-two-pow-suc (suc a) k in
    let even : suc a % 2 ≡ 0 = omega arith in
    let ih =
      or-digits fuel k (suc a / 2) (b / 2) (omega arith) (omega (arith, pow-suc 2 k))
        (omega arith) in
    rw ih (rw even (omega (arith, even)))

-- The high bits of a word.
and_not-digits :
    (fuel w k a : ℕ)
    → a ≤ fuel
    → k ≤ w
    → a < 2 ^ w
    → digits (λ b. zero) min fuel a (2 ^ w - 2 ^ k) ≡ a - a % 2 ^ k
and_not-digits zero w k a le kw lt = let z : a ≡ 0 = omega arith in rw (z, zero-mod) refl
and_not-digits (suc fuel) w k zero le kw lt = omega (arith, zero-mod (2 ^ k))
and_not-digits (suc fuel) w zero (suc a) le kw lt =
    and_mask-digits (suc fuel) w (suc a) le ∙ mod-eq_of_lt lt ∙ omega (arith, mod-one (suc a))
and_not-digits (suc fuel) zero (suc k) (suc a) le kw lt = absurd (omega arith)
and_not-digits (suc fuel) (suc w) (suc k) (suc a) le kw lt =
    let half : (2 ^ suc w - 2 ^ suc k) / 2 ≡ 2 ^ w - 2 ^ k =
      omega (arith, pow-suc 2 w, pow-suc 2 k) in
    let even : (2 ^ suc w - 2 ^ suc k) % 2 ≡ 0 = omega (arith, pow-suc 2 w, pow-suc 2 k) in
    let ih =
      and_not-digits fuel w k (suc a / 2) (omega arith) (omega arith)
        (omega (arith, pow-suc 2 w)) in
    rw half (rw even (rw ih (omega (arith, mod-two-pow-suc (suc a) k))))

bit_or-add : (ptr flags : ℕ) → ptr % 2 ^ 2 ≡ 0 → flags < 2 ^ 2 → bit_or ptr flags ≡ ptr + flags
bit_or-add ptr flags aligned small =
    bit_or-bitwise ptr flags ∙ or-digits ptr 2 ptr flags (omega arith) small aligned

bit_and-not_mask : (a : ℕ) → a < 2 ^ 64 → bit_and a not_mask ≡ a - a % 2 ^ 2
bit_and-not_mask a lt =
    bit_and-bitwise a not_mask ∙ and_not-digits a 64 2 a (omega arith) (omega arith) lt

-- The pointer and the flags that a word holds.
abbrev pub unpack : PackedPtr → CompressedPtr
unpack p = record { ptr = get_ptr p; flags = get_flags p }

same_fields : {a b c d : ℕ} → a ≡ b → c ≡ d → both a c ≡ both b d
same_fields e f = ap₂ both e f

-- In the packed form, for a word of 64 bits, pointers that are multiples of four and flags below
-- four: the pointer and the flags that were packed are read back; setting the pointer changes the
-- pointer only, and setting the flags changes the flags only.
pub packed_roundtrip :
    (p : PackedPtr) (ptr flags : ℕ)
    → p.data_word < 2 ^ 64
    → ptr < 2 ^ 64
    → ptr % 4 ≡ 0
    → flags < 4
    → (unpack (pack ptr flags) ≡ record { ptr = ptr; flags = flags })
      × (unpack (set_ptr p ptr) ≡ record (unpack p) { ptr = ptr })
      × (unpack (set_flags p flags) ≡ record (unpack p) { flags = flags })
unfolding pack set_ptr set_flags get_ptr get_flags
packed_roundtrip p ptr flags word fits aligned small = (
  packed ptr flags fits aligned small,
  packed ptr (bit_and p.data_word 3) fits aligned low,
  packed (bit_and p.data_word not_mask) flags high aligned_high small,
)
  where
    low : bit_and p.data_word 3 < 4
    low = omega (arith, bit_and-mask 2 p.data_word)

    high : bit_and p.data_word not_mask < 2 ^ 64
    high = omega (arith, bit_and-not_mask p.data_word word)

    aligned_high : bit_and p.data_word not_mask % 4 ≡ 0
    aligned_high = omega (arith, bit_and-not_mask p.data_word word)

    packed :
        (q f : ℕ)
        → q < 2 ^ 64
        → q % 4 ≡ 0
        → f < 4
        → unpack (pack q f) ≡ record { ptr = q; flags = f }
    packed q f fit even few =
        let sum : bit_or q f ≡ q + f = bit_or-add q f even few in
        rw sum (
          same_fields (bit_and-not_mask (q + f) (omega arith) ∙ omega arith)
            (bit_and-mask 2 (q + f) ∙ omega arith))
