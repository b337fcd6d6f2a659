-- ===== src/Base/Masks.antt =====
-- `x & (size - 1)` for a size that is a power of two: the remainder by the size.
use Prim.Native.Nat.{ℕ, zero, suc, ◌+◌, ◌-◌, ◌*◌, ◌/◌, ◌%◌, ◌^◌, ◌≤◌, ◌<◌, ◌∣◌, min, bit_and}
use Prim.Native.Nat.{digits, bit_and-bitwise}
use mathlib.Core.Path.{◌≡◌, refl, sym, ap, subst, ◌∙◌}
use native.Mathlib.Nat.{
  pow-suc, one-le-pow, mod-lt, mod-eq_of_lt, zero-mod, add-zero, add-suc, dvd_refl,
  dvd-mul_right_of_dvd, mod-mod_of_dvd, pow-le-pow_right, div-add-mod, mul-add-mod_self_left,
}
use native.Mathlib.Omega.{arith}

-- `size - 1` of a power of two.
abbrev pub mask : ℕ → ℕ
mask k = 2 ^ k - 1

pub two-pow-pos : (k : ℕ) → 0 < 2 ^ k
two-pow-pos k = one-le-pow k 2 (omega arith)

pub mod-two-pow-suc : (a k : ℕ) → a % 2 ^ suc k ≡ a / 2 % 2 ^ k * 2 + a % 2
mod-two-pow-suc a k =
    ap (λ t. t % 2 ^ suc k) whole
    ∙ mul-add-mod_self_left (2 ^ suc k) (a / 2 / 2 ^ k) (a / 2 % 2 ^ k * 2 + a % 2)
    ∙ mod-eq_of_lt (omega (arith, pow-suc 2 k, mod-lt (a / 2) (two-pow-pos k)))
  where
    whole : a ≡ 2 ^ suc k * (a / 2 / 2 ^ k) + (a / 2 % 2 ^ k * 2 + a % 2)
    whole =
        omega
          (arith, ap (λ (t : ℕ). t * (a / 2 / 2 ^ k)) (pow-suc 2 k), div-add-mod (a / 2) (2 ^ k))

pub and_mask-digits : (fuel k a : ℕ) → a ≤ fuel → digits (λ b. zero) min fuel a (mask k) ≡ a % 2 ^ k
and_mask-digits zero k a h = let e : a ≡ 0 = omega arith in rw (e, zero-mod)
and_mask-digits (suc fuel) zero zero h = refl
and_mask-digits (suc fuel) zero (suc a) h =
    omega (arith, and_mask-digits fuel zero (suc a / 2) (omega arith))
and_mask-digits (suc fuel) (suc k) zero h = sym (zero-mod _)
and_mask-digits (suc fuel) (suc k) (suc a) h =
    let e : mask (suc k) / 2 ≡ mask k = omega (arith, pow-suc 2 k, two-pow-pos k) in
    let o : mask (suc k) % 2 ≡ 1 = omega (arith, pow-suc 2 k, two-pow-pos k) in
    let ih = and_mask-digits fuel k (suc a / 2) (omega arith) in
    rw e (rw o (rw ih (omega (arith, mod-two-pow-suc (suc a) k))))

-- A mask of `k` low bits is the remainder by `2 ^ k`.
pub bit_and-mask : (k a : ℕ) → bit_and a (mask k) ≡ a % 2 ^ k
bit_and-mask k a = bit_and-bitwise a (mask k) ∙ and_mask-digits a k a (omega arith)

two-pow-dvd : (k n : ℕ) → (2 ^ k) ∣ (2 ^ (k + n))
two-pow-dvd k zero = rw add-zero (dvd_refl (2 ^ k))
two-pow-dvd k (suc n) = rw (add-suc, pow-suc) (dvd-mul_right_of_dvd (2 ^ k) (two-pow-dvd k n) 2)

-- An index that wraps at `2 ^ 64` keeps its slot in an array of `2 ^ k` cells.
pub mod-word-mod : (k i : ℕ) → k ≤ 64 → i % 2 ^ 64 % 2 ^ k ≡ i % 2 ^ k
mod-word-mod k i le =
    let e : k + (64 - k) ≡ 64 = omega arith in
    mod-mod_of_dvd (2 ^ k) i (subst (λ n. (2 ^ k) ∣ (2 ^ n)) e (two-pow-dvd k (64 - k)))

pub two-pow-le : (k n : ℕ) → k ≤ n → 2 ^ k ≤ 2 ^ n
two-pow-le k n le = pow-le-pow_right (omega arith) le
