-- ===== src/Prelude/Bits.antt =====
-- `x & mask` for a mask of low bits, and the fixed-width sums.
use Prim.Native.Nat.{
  ℕ, zero, suc, ◌+◌, ◌-◌, ◌*◌, ◌/◌, ◌%◌, ◌^◌, ◌≤◌, ◌<◌, min, bit_and, digits, bit_and-bitwise,
}
use mathlib.Core.Path.{◌≡◌, ap, ◌∙◌}
use mathlib.Core.Bool.{Bool}
use light_rpc.Prelude.Tests.{ltb}
use native.Mathlib.Omega.{arith}
use native.Mathlib.Nat.{pow-suc}

-- `uint32_t` and `size_t` arithmetic.
abbrev pub add32 : ℕ → ℕ → ℕ
add32 a b = (a + b) % 2 ^ 32

abbrev pub sub32 : ℕ → ℕ → ℕ
sub32 a b = (a + 2 ^ 32 - b) % 2 ^ 32

abbrev pub add64 : ℕ → ℕ → ℕ
add64 a b = (a + b) % 2 ^ 64

abbrev pub sub64 : ℕ → ℕ → ℕ
sub64 a b = (a + 2 ^ 64 - b) % 2 ^ 64

-- A number's bits below 2 ^ (k + 1): those of its half below 2 ^ k, and the lowest.
low_half : (c a : ℕ) → 0 < c → (a / 2) % c * 2 + a % 2 ≡ a % (c * 2)
low_half c a h = grind arith

-- One round for each bit of `a`, and perhaps more.
mask_rounds :
    (rounds k m a : ℕ)
    → a ≤ rounds
    → m + 1 ≡ 2 ^ k
    → digits (λ b. zero) min rounds a m ≡ a % (m + 1)
mask_rounds zero k m zero h e = omega arith
mask_rounds zero k m (suc a) h e = absurd (omega arith)
mask_rounds (suc rounds) k m zero h e = omega arith
mask_rounds (suc rounds) zero m (suc a) h e =
    omega (arith, mask_rounds rounds zero (m / 2) (suc a / 2) (omega arith) (omega arith))
mask_rounds (suc rounds) (suc k) m (suc a) h e =
    let power = pow-suc 2 k in
    let half : m / 2 + 1 ≡ 2 ^ k = omega arith in
    let whole : (m / 2 + 1) * 2 ≡ m + 1 = omega arith in
    let later = mask_rounds rounds k (m / 2) (suc a / 2) (omega arith) half in
    let low = low_half (m / 2 + 1) (suc a) (omega arith) in
    ground (arith, later, low, ap (λ (c : ℕ). suc a % c) whole)

-- A mask of low bits takes the remainder by the power of two above it.
pub bit_and_mask : (k m a : ℕ) → m + 1 ≡ 2 ^ k → bit_and a m ≡ a % (m + 1)
bit_and_mask k m a e = bit_and-bitwise a m ∙ mask_rounds a k m a (omega arith) e

-- The order of `int`.
abbrev pub int_lt : ℕ → ℕ → Bool
int_lt x y = ltb (add32 x (2 ^ 31)) (add32 y (2 ^ 31))
