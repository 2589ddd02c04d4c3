-- ===== src/Base/Mask.antt =====
-- `x & (2^r - 1)` is the remainder by 2^r, for every width r.
use Prim.Native.Nat.{
  ℕ, zero, suc, ◌+◌, ◌-◌, ◌*◌, ◌/◌, ◌%◌, ◌^◌, ◌≤◌, ◌<◌, min, bit_and, digits, bit_and-bitwise,
}
use mathlib.Core.Path.{◌≡◌, ap, ◌∙◌}
use native.Mathlib.Nat.{
  le_refl, pow-suc, one-le-pow, mod-lt, div-add-mod, mul-add-mod_self_left, mod-eq_of_lt,
}
use native.Mathlib.Omega.{arith}

-- The number of slots of a ring of exponent r: `1u64 << r`.
abbrev pub slots : ℕ → ℕ
slots r = 2 ^ r

pub slots_pos : (r : ℕ) → 0 < slots r
slots_pos r = one-le-pow r 2 (omega arith)

-- `x & (n - 1)`.
unfoldable pub masked : ℕ → ℕ → ℕ
masked x n = bit_and x (n - 1)

mod-double : (a m : ℕ) → 0 < m → a % (m * 2) ≡ a / 2 % m * 2 + a % 2
mod-double a m h =
    let rest : ℕ = a / 2 % m * 2 + a % 2 in
    let small : rest < m * 2 = omega (arith, mod-lt (a / 2) h) in
    let whole : a ≡ m * 2 * (a / 2 / m) + rest = omega (arith, div-add-mod (a / 2) m) in
    ap (λ (t : ℕ). t % (m * 2)) whole
    ∙ mul-add-mod_self_left (m * 2) (a / 2 / m) rest
    ∙ mod-eq_of_lt small

-- The recursion that `bit_and` stands for, at a mask of r ones.
digits_mask : (n r a : ℕ) → a ≤ n → digits (λ b. zero) min n a (slots r - 1) ≡ a % slots r
digits_mask zero r zero h = omega (arith, mod-eq_of_lt (slots_pos r))
digits_mask zero r (suc a) h = absurd (omega arith)
digits_mask (suc n) r zero h = omega (arith, mod-eq_of_lt (slots_pos r))
digits_mask (suc n) zero (suc a) h = omega (arith, digits_mask n zero (suc a / 2) (omega arith))
digits_mask (suc n) (suc r) (suc a) h =
    let half : (slots (suc r) - 1) / 2 ≡ slots r - 1 = omega (arith, pow-suc 2 r, slots_pos r) in
    rw half (
      omega (
        arith,
        pow-suc 2 r,
        slots_pos r,
        digits_mask n r (suc a / 2) (omega arith),
        mod-double (suc a) (slots r) (slots_pos r),
        ap (λ (t : ℕ). suc a % t) (pow-suc 2 r),
      ))

pub masked-eq-mod : (x r : ℕ) → masked x (slots r) ≡ x % slots r
unfolding masked
masked-eq-mod x r = bit_and-bitwise x (slots r - 1) ∙ digits_mask x r x (le_refl x)

pub masked-lt : (x r : ℕ) → masked x (slots r) < slots r
masked-lt x r = omega (arith, masked-eq-mod x r, mod-lt x (slots_pos r))
