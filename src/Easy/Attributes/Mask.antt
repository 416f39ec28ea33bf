-- ===== src/Easy/Attributes/Mask.antt =====
-- The mask 0xFFFF that the port setters of ext/curb_macros.h apply.
use curb.Base.{ℕ, zero, suc, ◌+◌, ◌*◌, ◌/◌, ◌%◌, ◌^◌, ◌<◌, ◌≤◌, ◌≡◌, refl, bit_and, min, arith}
use Prim.Native.Nat.{digits, bit_and-bitwise}

-- k binary ones
abbrev ones : ℕ → ℕ
ones zero = 0
ones (suc k) = ones k * 2 + 1

bit_and-digits : (a b : ℕ) → bit_and a b ≡ digits (λ b. zero) min a a b
bit_and-digits a b = λ i. bit_and-bitwise a b i

digits-le : (n a b : ℕ) → digits (λ b. zero) min n a b ≤ b
digits-le zero a b = omega arith
digits-le (suc n) zero b = omega arith
digits-le (suc n) (suc a) b = let h = digits-le n (suc a / 2) (b / 2) in omega arith

pub bit_and-le : (a b : ℕ) → bit_and a b ≤ b
bit_and-le a b = rw (bit_and-digits a b) (digits-le a a b)

digits-ones : (k n a : ℕ) → a ≤ n → a < 2 ^ k → digits (λ b. zero) min n a (ones k) ≡ a
digits-ones k zero a le small = omega arith
digits-ones k (suc n) zero le small = refl
digits-ones zero (suc n) (suc a) le small = absurd (omega arith)
digits-ones (suc k) (suc n) (suc a) le small =
    let half : (ones k * 2 + 1) / 2 ≡ ones k = omega arith in
    let odd : (ones k * 2 + 1) % 2 ≡ 1 = omega arith in
    let rest = digits-ones k n (suc a / 2) (omega arith) (omega arith) in
    rw (half, odd) (omega (arith, rest))

-- Masked with 0xFFFF, a number of 16 bits stays.
pub bit_and-mask : (a : ℕ) → a < 65536 → bit_and a 65535 ≡ a
bit_and-mask a small = rw (bit_and-digits a 65535) (digits-ones 16 a a (omega arith) (omega arith))
