-- ===== src/Std/Bits.antt =====
-- The operator `^` of `std::uint64_t`: a number is recovered from its exclusive or with a pad.
use Prim.Native.Nat.{bit_xor, bit_xor-bitwise, digits, differ}
use petace_set_ops.Base.{
  ℕ, zero, suc, ◌+◌, ◌*◌, ◌/◌, ◌%◌, ◌^◌, ◌≤◌, ◌<◌, ◌≡◌, refl, sym, ap, ◌∙◌, arith,
}

abbrev xor_digits : ℕ → ℕ → ℕ → ℕ
xor_digits n a b = digits (λ b. b) differ n a b

-- Two digits, and a digit taken away again.
differ-lt : (x y : ℕ) → x < 2 → y < 2 → differ x y < 2
differ-lt zero y h k = k
differ-lt (suc zero) zero h k = h
differ-lt (suc zero) (suc zero) h k = omega arith
differ-lt (suc zero) (suc (suc y)) h k = absurd (omega arith)
differ-lt (suc (suc x)) y h k = absurd (omega arith)

differ_cancel : (x y : ℕ) → x < 2 → y < 2 → differ (differ x y) y ≡ x
differ_cancel zero zero h k = refl
differ_cancel zero (suc zero) h k = refl
differ_cancel zero (suc (suc y)) h k = absurd (omega arith)
differ_cancel (suc zero) zero h k = refl
differ_cancel (suc zero) (suc zero) h k = refl
differ_cancel (suc zero) (suc (suc y)) h k = absurd (omega arith)
differ_cancel (suc (suc x)) y h k = absurd (omega arith)

xor_digits_fuel : (n m a b : ℕ) → a ≤ n → a ≤ m → xor_digits n a b ≡ xor_digits m a b
xor_digits_fuel zero zero a b p q = refl
xor_digits_fuel zero (suc m) zero b p q = refl
xor_digits_fuel zero (suc m) (suc a) b p q = absurd (omega arith)
xor_digits_fuel (suc n) zero zero b p q = refl
xor_digits_fuel (suc n) zero (suc a) b p q = absurd (omega arith)
xor_digits_fuel (suc n) (suc m) zero b p q = refl
xor_digits_fuel (suc n) (suc m) (suc a) b p q =
    ap (λ t. t * 2 + differ (suc a % 2) (b % 2))
      (xor_digits_fuel n m (suc a / 2) (b / 2) (omega arith) (omega arith))

zero-bit_xor : (b : ℕ) → bit_xor 0 b ≡ b
zero-bit_xor b = bit_xor-bitwise 0 b

-- The lowest digit.
bit_xor_step : (a b : ℕ) → bit_xor a b ≡ bit_xor (a / 2) (b / 2) * 2 + differ (a % 2) (b % 2)
bit_xor_step zero b = omega (arith, zero-bit_xor b, zero-bit_xor (b / 2))
bit_xor_step (suc a) b =
    bit_xor-bitwise (suc a) b
    ∙ ap (λ t. t * 2 + differ (suc a % 2) (b % 2))
        (xor_digits_fuel a (suc a / 2) (suc a / 2) (b / 2) (omega arith) (omega arith)
          ∙ sym (bit_xor-bitwise (suc a / 2) (b / 2)))

-- With w binary digits each, the result has as many.
pub bit_xor-lt : (w a b : ℕ) → a < 2 ^ w → b < 2 ^ w → bit_xor a b < 2 ^ w
bit_xor-lt zero a b h k =
    let none_a : a ≡ 0 = omega arith in
    let none_b : b ≡ 0 = omega arith in rw (none_a, none_b) (omega arith)
bit_xor-lt (suc w) a b h k = omega (
  arith,
  bit_xor_step a b,
  differ-lt (a % 2) (b % 2) (omega arith) (omega arith),
  bit_xor-lt w (a / 2) (b / 2) (omega arith) (omega arith),
)

-- The digits above it, and itself.
halves : (a b : ℕ) → bit_xor a b / 2 ≡ bit_xor (a / 2) (b / 2)
halves a b = omega (arith, bit_xor_step a b, differ-lt (a % 2) (b % 2) (omega arith) (omega arith))

digit : (a b : ℕ) → bit_xor a b % 2 ≡ differ (a % 2) (b % 2)
digit a b = omega (arith, bit_xor_step a b, differ-lt (a % 2) (b % 2) (omega arith) (omega arith))

cancel_fuel : (n a b : ℕ) → a ≤ n → b ≤ n → bit_xor (bit_xor a b) b ≡ a
cancel_fuel zero a b h k =
    let none_a : a ≡ 0 = omega arith in let none_b : b ≡ 0 = omega arith in rw (none_a, none_b) refl
cancel_fuel (suc n) a b h k =
    bit_xor_step (bit_xor a b) b
    ∙ (λ i. bit_xor (halves a b i) (b / 2) * 2 + differ (digit a b i) (b % 2))
    ∙ (λ i.
        cancel_fuel n (a / 2) (b / 2) (omega arith) (omega arith) i * 2
        + differ_cancel (a % 2) (b % 2) (omega arith) (omega arith) i)
    ∙ omega arith

pub bit_xor_cancel : (a b : ℕ) → bit_xor (bit_xor a b) b ≡ a
bit_xor_cancel a b = cancel_fuel (a + b) a b (omega arith) (omega arith)

differ_pad : (x y z : ℕ) → x < 2 → y < 2 → z < 2 → differ (differ x z) (differ y z) ≡ differ x y
differ_pad zero zero zero h k l = refl
differ_pad zero zero (suc zero) h k l = refl
differ_pad zero (suc zero) zero h k l = refl
differ_pad zero (suc zero) (suc zero) h k l = refl
differ_pad (suc zero) zero zero h k l = refl
differ_pad (suc zero) zero (suc zero) h k l = refl
differ_pad (suc zero) (suc zero) zero h k l = refl
differ_pad (suc zero) (suc zero) (suc zero) h k l = refl
differ_pad (suc (suc x)) y z h k l = absurd (omega arith)
differ_pad x (suc (suc y)) z h k l = absurd (omega arith)
differ_pad x y (suc (suc z)) h k l = absurd (omega arith)

pad_fuel : (n a b c : ℕ) → a ≤ n → b ≤ n → c ≤ n → bit_xor (bit_xor a c) (bit_xor b c) ≡ bit_xor a b
pad_fuel zero a b c h k l =
    let none_a : a ≡ 0 = omega arith in
    let none_b : b ≡ 0 = omega arith in
    let none_c : c ≡ 0 = omega arith in rw (none_a, none_b, none_c) refl
pad_fuel (suc n) a b c h k l =
    bit_xor_step (bit_xor a c) (bit_xor b c)
    ∙ (λ i. bit_xor (halves a c i) (halves b c i) * 2 + differ (digit a c i) (digit b c i))
    ∙ (λ i.
        pad_fuel n (a / 2) (b / 2) (c / 2) (omega arith) (omega arith) (omega arith) i * 2
        + differ_pad (a % 2) (b % 2) (c % 2) (omega arith) (omega arith) (omega arith) i)
    ∙ sym (bit_xor_step a b)

-- A pad that two numbers share drops out of their exclusive or.
pub bit_xor_pad : (a b c : ℕ) → bit_xor (bit_xor a c) (bit_xor b c) ≡ bit_xor a b
bit_xor_pad a b c = pad_fuel (a + b + c) a b c (omega arith) (omega arith) (omega arith)
