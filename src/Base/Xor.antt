-- ===== src/Base/Xor.antt =====
-- `^`, `|` and `&` digit by digit, from the recursion that the native operations stand for, and
-- the laws by which the shift register of lownet_crc is followed.
use Prim.Native.Nat.{
  ℕ, zero, suc, ◌+◌, ◌*◌, ◌/◌, ◌%◌, ◌^◌, ◌≤◌, ◌<◌, min, max, differ, digits, bitwise, bit_and,
  bit_or, bit_xor, bit_and-bitwise, bit_or-bitwise, bit_xor-bitwise,
}
use mathlib.Core.Path.{◌≡◌, refl, ap, ap₂, sym, ◌∙◌}
use native.Mathlib.Nat.{pow-succ', div-one, div-div-eq-div-mul}
use native.Mathlib.Decide.{dec_le}
use native.Mathlib.Omega.{arith}

-- The recursion on digits gives the same with any fuel that the first number does not exceed.
module _ (end : ℕ → ℕ) (op : ℕ → ℕ → ℕ) where
  digits_one_more : (k x y : ℕ) → x ≤ k → digits end op (suc k) x y ≡ digits end op k x y
  digits_one_more zero zero y h = refl
  digits_one_more (suc k) zero y h = refl
  digits_one_more zero (suc x) y h = absurd (omega arith)
  digits_one_more (suc k) (suc x) y h =
      ap (λ (d : ℕ). d * 2 + op (suc x % 2) (y % 2))
        (digits_one_more k (suc x / 2) (y / 2) (omega arith))

  digits-bitwise : (k x y : ℕ) → x ≤ k → digits end op k x y ≡ bitwise end op x y
  digits-bitwise zero zero y h = refl
  digits-bitwise zero (suc x) y h = absurd (omega arith)
  digits-bitwise (suc k) x y h = elim (dec_le x k) [
    | yes less ↦ digits_one_more k x y less ∙ digits-bitwise k x y less
    | no more ↦ let full : suc k ≡ x = omega arith in ap (λ (n : ℕ). digits end op n x y) full
  ]

  bitwise_digit :
      (x y : ℕ)
      → bitwise end op (suc x) y ≡ op (suc x % 2) (y % 2) + 2 * bitwise end op (suc x / 2) (y / 2)
  bitwise_digit x y = omega (arith, digits-bitwise x (suc x / 2) (y / 2) (omega arith))

-- The lowest digit of `x & y` and of `x | y`, and the digits above it.
and_digit : (x y : ℕ) → bit_and x y ≡ min (x % 2) (y % 2) + 2 * bit_and (x / 2) (y / 2)
and_digit zero y = simp bit_and-bitwise (omega arith)
and_digit (suc x) y = simp bit_and-bitwise (bitwise_digit (λ d. 0) min x y)

or_digit : (x y : ℕ) → bit_or x y ≡ max (x % 2) (y % 2) + 2 * bit_or (x / 2) (y / 2)
or_digit zero y = simp bit_or-bitwise (omega arith)
or_digit (suc x) y = simp bit_or-bitwise (bitwise_digit (λ d. d) max x y)

differ-lt : (x y : ℕ) → x < 2 → y < 2 → differ x y ≡ (x + y) % 2
differ-lt zero y p q = omega arith
differ-lt (suc zero) zero p q = refl
differ-lt (suc zero) (suc zero) p q = refl
differ-lt (suc zero) (suc (suc y)) p q = absurd (omega arith)
differ-lt (suc (suc x)) y p q = absurd (omega arith)

bit_xor_digit : (a b : ℕ) → bit_xor a b ≡ differ (a % 2) (b % 2) + 2 * bit_xor (a / 2) (b / 2)
bit_xor_digit zero b =
    simp bit_xor-bitwise (omega (arith, differ-lt 0 (b % 2) (omega arith) (omega arith)))
bit_xor_digit (suc a) b = simp bit_xor-bitwise (bitwise_digit (λ d. d) differ a b)

-- The lowest digit of `a ^ b`, and the digits above it.
pub bit_xor_step : (a b : ℕ) → bit_xor a b ≡ bit_xor (a / 2) (b / 2) * 2 + (a + b) % 2
bit_xor_step a b =
    omega (arith, bit_xor_digit a b, differ-lt (a % 2) (b % 2) (omega arith) (omega arith))

pub zero-bit_xor : (b : ℕ) → bit_xor 0 b ≡ b
zero-bit_xor b = bit_xor-bitwise 0 b

self_below : (n b : ℕ) → b ≤ n → bit_xor b b ≡ 0
self_below n zero h = zero-bit_xor 0
self_below zero (suc b) h = absurd (omega arith)
self_below (suc n) (suc b) h =
    omega (arith, bit_xor_step (suc b) (suc b), self_below n (suc b / 2) (omega arith))

pub bit_xor_half : (a b : ℕ) → bit_xor a b / 2 ≡ bit_xor (a / 2) (b / 2)
bit_xor_half a b = omega (arith, bit_xor_step a b)

cancel_below : (n a b : ℕ) → a ≤ n → bit_xor (bit_xor a b) b ≡ a
cancel_below n zero b h = ap (λ x. bit_xor x b) (zero-bit_xor b) ∙ self_below b b (omega arith)
cancel_below zero (suc a) b h = absurd (omega arith)
cancel_below (suc n) (suc a) b h = omega (
  arith,
  bit_xor_step (suc a) b,
  bit_xor_step (bit_xor (suc a) b) b,
  ap (λ x. bit_xor x (b / 2)) (bit_xor_half (suc a) b),
  cancel_below n (suc a / 2) (b / 2) (omega arith),
)

-- `a ^ b ^ b` is `a`.
pub bit_xor_cancel : (a b : ℕ) → bit_xor (bit_xor a b) b ≡ a
bit_xor_cancel a b = cancel_below a a b (omega arith)

pub bit_xor_self : (b : ℕ) → bit_xor b b ≡ 0
bit_xor_self b = self_below b b (omega arith)

pub half_pow : (k a : ℕ) → a / 2 ^ suc k ≡ a / 2 / 2 ^ k
half_pow k a = ap (◌/◌ a) (pow-succ' 2 k) ∙ sym (div-div-eq-div-mul a 2 (2 ^ k))

-- A shift to the right goes through `^`.
pub bit_xor_shift : (k a b : ℕ) → bit_xor a b / 2 ^ k ≡ bit_xor (a / 2 ^ k) (b / 2 ^ k)
bit_xor_shift zero a b = div-one _ ∙ sym (ap₂ bit_xor (div-one a) (div-one b))
bit_xor_shift (suc k) a b =
    rw (half_pow k (bit_xor a b), half_pow k a, half_pow k b, bit_xor_half a b)
      (bit_xor_shift k (a / 2) (b / 2))

zero_right : (k x : ℕ) → x ≤ k → (bit_and x 0 ≡ 0) × (bit_or x 0 ≡ x)
zero_right k zero h = (refl, refl)
zero_right zero (suc x) h = absurd (omega arith)
zero_right (suc k) (suc x) h =
    let (masked, kept) = zero_right k (suc x / 2) (omega arith) in
    (omega (arith, and_digit (suc x) 0, masked), omega (arith, or_digit (suc x) 0, kept))

pub bit_and-one : (a : ℕ) → bit_and a 1 ≡ a % 2
bit_and-one a = omega (arith, and_digit a 1, (zero_right (a / 2) (a / 2) (omega arith)).0)

-- `(a << 1) | b` for one bit `b`.
pub bit_or_double : (a b : ℕ) → b < 2 → bit_or (a * 2) b ≡ a * 2 + b
bit_or_double a b h = omega (
  arith,
  or_digit (a * 2) b,
  ap (λ x. bit_or x (b / 2)) half,
  ap (bit_or a) low,
  (zero_right a a (omega arith)).1,
)
  where
    half : a * 2 / 2 ≡ a
    half = omega arith

    low : b / 2 ≡ 0
    low = omega arith

half_two_pow : (k : ℕ) → 2 ^ suc k / 2 ≡ 2 ^ k
half_two_pow k = omega (arith, pow-succ' 2 k)

-- A mask with one bit picks out that digit.
pub bit_and_pow : (k a : ℕ) → bit_and a (2 ^ k) ≡ a / 2 ^ k % 2 * 2 ^ k
bit_and_pow zero a = omega (arith, bit_and-one a)
bit_and_pow (suc k) a = omega (
  arith,
  and_digit a (2 ^ suc k),
  half_pow k a,
  pow-succ' 2 k,
  ap (bit_and (a / 2)) (half_two_pow k),
  bit_and_pow k (a / 2),
  ap (λ (t : ℕ). t % 2 * 2 ^ suc k) (half_pow k a),
  ap (λ (t : ℕ). a / 2 / 2 ^ k % 2 * t) (pow-succ' 2 k),
)
