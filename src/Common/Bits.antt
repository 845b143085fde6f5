-- ===== src/Common/Bits.antt =====
-- Exclusive or of native numbers, from the recursion on binary digits that it stands for.
use Prim.Native.Nat.{digits, differ, bit_xor-bitwise}
use go_ptor.Common.{
  ℕ, zero, suc, ◌+◌, ◌*◌, ◌/◌, ◌%◌, ◌≤◌, ◌<◌, bit_xor, ◌^◌, ◌≡◌, refl, sym, ap, ◌∙◌, arith,
}
use native.Mathlib.Nat.{pow-suc}

abbrev xor_digits : ℕ → ℕ → ℕ → ℕ
xor_digits n a b = digits (λ b. b) differ n a b

xor_digits_fuel : (n m a b : ℕ) → a ≤ n → a ≤ m → xor_digits n a b ≡ xor_digits m a b
xor_digits_fuel zero zero a b p q = refl
xor_digits_fuel zero (suc m) zero b p q = refl
xor_digits_fuel zero (suc m) (suc a) b p q = absurd (omega arith)
xor_digits_fuel (suc n) zero zero b p q = refl
xor_digits_fuel (suc n) zero (suc a) b p q = absurd (omega arith)
xor_digits_fuel (suc n) (suc m) zero b p q = refl
xor_digits_fuel (suc n) (suc m) (suc a) b p q =
    omega (arith, xor_digits_fuel n m (suc a / 2) (b / 2) (omega arith) (omega arith))

pub zero-bit_xor : (b : ℕ) → bit_xor 0 b ≡ b
zero-bit_xor b = bit_xor-bitwise 0 b

bit_xor_step_suc :
    (a b : ℕ) → bit_xor (suc a) b ≡ bit_xor (suc a / 2) (b / 2) * 2 + differ (suc a % 2) (b % 2)
bit_xor_step_suc a b = omega (
  arith,
  bit_xor-bitwise (suc a) b,
  bit_xor-bitwise (suc a / 2) (b / 2),
  xor_digits_fuel a (suc a / 2) (suc a / 2) (b / 2) (omega arith) (omega arith),
)

differ-zero : (b : ℕ) → differ 0 (b % 2) ≡ b % 2
differ-zero b = refl

-- One equation for the lowest digit.
bit_xor_step : (a b : ℕ) → bit_xor a b ≡ bit_xor (a / 2) (b / 2) * 2 + differ (a % 2) (b % 2)
bit_xor_step zero b = omega (arith, zero-bit_xor b, zero-bit_xor (b / 2), differ-zero b)
bit_xor_step (suc a) b = bit_xor_step_suc a b

-- Two digits: the result is a digit, and the operation undoes itself.
differ-lt : (p q : ℕ) → p < 2 → q < 2 → differ p q < 2
differ-lt zero q hp hq = hq
differ-lt (suc zero) zero hp hq = omega arith
differ-lt (suc zero) (suc zero) hp hq = omega arith
differ-lt (suc zero) (suc (suc q)) hp hq = absurd (omega arith)
differ-lt (suc (suc p)) q hp hq = absurd (omega arith)

differ-differ : (p q : ℕ) → p < 2 → q < 2 → differ p (differ p q) ≡ q
differ-differ zero q hp hq = refl
differ-differ (suc zero) zero hp hq = refl
differ-differ (suc zero) (suc zero) hp hq = refl
differ-differ (suc zero) (suc (suc q)) hp hq = absurd (omega arith)
differ-differ (suc (suc p)) q hp hq = absurd (omega arith)

-- The digits of an exclusive or.
bit_xor-div : (a b : ℕ) → bit_xor a b / 2 ≡ bit_xor (a / 2) (b / 2)
bit_xor-div a b =
    omega (arith, bit_xor_step a b, differ-lt (a % 2) (b % 2) (omega arith) (omega arith))

bit_xor-mod : (a b : ℕ) → bit_xor a b % 2 ≡ differ (a % 2) (b % 2)
bit_xor-mod a b =
    omega (arith, bit_xor_step a b, differ-lt (a % 2) (b % 2) (omega arith) (omega arith))

bit_xor-bit_xor_fuel : (n a b : ℕ) → a ≤ n → bit_xor a (bit_xor a b) ≡ b
bit_xor-bit_xor_fuel n zero b h = zero-bit_xor (bit_xor 0 b) ∙ zero-bit_xor b
bit_xor-bit_xor_fuel zero (suc a) b h = absurd (omega arith)
bit_xor-bit_xor_fuel (suc n) (suc a) b h =
    rw (bit_xor_step (suc a) (bit_xor (suc a) b), bit_xor-div (suc a) b, bit_xor-mod (suc a) b)
      (omega (
        arith,
        bit_xor-bit_xor_fuel n (suc a / 2) (b / 2) (omega arith),
        differ-differ (suc a % 2) (b % 2) (omega arith) (omega arith),
      ))

-- Exclusive or by one number undoes itself.
pub bit_xor-bit_xor : (a b : ℕ) → bit_xor a (bit_xor a b) ≡ b
bit_xor-bit_xor a b = bit_xor-bit_xor_fuel a a b (omega arith)

pub bit_xor-injective : (a b c : ℕ) → bit_xor a b ≡ bit_xor a c → b ≡ c
bit_xor-injective a b c e = sym (bit_xor-bit_xor a b) ∙ ap (bit_xor a) e ∙ bit_xor-bit_xor a c

-- The result is no wider than the arguments.
pub bit_xor-lt : (k a b : ℕ) → a < 2 ^ k → b < 2 ^ k → bit_xor a b < 2 ^ k
bit_xor-lt zero a b ha hb =
    let ea : a ≡ 0 = omega arith in let eb : b ≡ 0 = omega arith in rw (ea, eb) (omega arith)
bit_xor-lt (suc k) a b ha hb = omega (
  arith,
  bit_xor_step a b,
  pow-suc 2 k,
  bit_xor-lt k (a / 2) (b / 2) (omega (arith, pow-suc 2 k)) (omega (arith, pow-suc 2 k)),
  differ-lt (a % 2) (b % 2) (omega arith) (omega arith),
)
