-- ===== src/Prelude/Bits.antt =====
-- `&` and `|` at variables: the laws of one digit, of single flags and of low masks.
use Prim.Native.Nat.{
  ℕ, zero, suc, ◌+◌, ◌-◌, ◌*◌, ◌/◌, ◌%◌, ◌^◌, ◌≤◌, ◌<◌, min, max, bit_and, bit_or, digits, bitwise,
  bit_and-bitwise, bit_or-bitwise,
}
use mathlib.Core.Path.{◌≡◌, refl, ap}
use native.Mathlib.Nat.{pow-suc, div-add-mod', mod-lt, one-le-pow}
use native.Mathlib.Omega.{arith}

-- The fuel of the library's digit recursion does not matter once it reaches the first operand.
module _ (z : ℕ → ℕ) (g : ℕ → ℕ → ℕ) where
  same_digits : (a b n m : ℕ) → a ≤ n → a ≤ m → digits z g n a b ≡ digits z g m a b
  same_digits zero b zero zero hn hm = refl
  same_digits zero b zero (suc m) hn hm = refl
  same_digits zero b (suc n) zero hn hm = refl
  same_digits zero b (suc n) (suc m) hn hm = refl
  same_digits (suc a) b zero m hn hm = absurd (omega arith)
  same_digits (suc a) b (suc n) zero hn hm = absurd (omega arith)
  same_digits (suc a) b (suc n) (suc m) hn hm =
      ap (λ (t : ℕ). t * 2 + g (suc a % 2) (b % 2))
        (same_digits (suc a / 2) (b / 2) n m (omega arith) (omega arith))

  bitwise_digit :
      (a b : ℕ)
      → bitwise z g (suc a) b ≡ bitwise z g (suc a / 2) (b / 2) * 2 + g (suc a % 2) (b % 2)
  bitwise_digit a b =
      ap (λ (t : ℕ). t * 2 + g (suc a % 2) (b % 2))
        (same_digits (suc a / 2) (b / 2) a (suc a / 2) (omega arith) (omega arith))

pub bit_and_digit : (a b : ℕ) → bit_and a b ≡ bit_and (a / 2) (b / 2) * 2 + min (a % 2) (b % 2)
bit_and_digit zero b = simp bit_and-bitwise (omega arith)
bit_and_digit (suc a) b = simp bit_and-bitwise (bitwise_digit (λ b. 0) min a b)

pub bit_or_digit : (a b : ℕ) → bit_or a b ≡ bit_or (a / 2) (b / 2) * 2 + max (a % 2) (b % 2)
bit_or_digit zero b = simp bit_or-bitwise (omega arith)
bit_or_digit (suc a) b = simp bit_or-bitwise (bitwise_digit (λ b. b) max a b)

pub bit_and-zero : (n a : ℕ) → a ≤ n → bit_and a 0 ≡ 0
bit_and-zero n zero h = refl
bit_and-zero zero (suc a) h = absurd (omega arith)
bit_and-zero (suc n) (suc a) h =
    omega (arith, bit_and_digit (suc a) 0, bit_and-zero n (suc a / 2) (omega arith))

pub bit_or-zero : (n a : ℕ) → a ≤ n → bit_or a 0 ≡ a
bit_or-zero n zero h = refl
bit_or-zero zero (suc a) h = absurd (omega arith)
bit_or-zero (suc n) (suc a) h =
    omega (arith, bit_or_digit (suc a) 0, bit_or-zero n (suc a / 2) (omega arith))

double_pow : (q k : ℕ) → q * 2 ^ suc k ≡ 2 * (q * 2 ^ k)
double_pow q k = omega (arith, ap (λ (t : ℕ). q * t) (pow-suc 2 k))

-- A number whose digit at weight `2 ^ k` is the lowest digit of `h`.
flag_split : (k h l : ℕ) → l < 2 ^ k → bit_and (h * 2 ^ k + l) (2 ^ k) ≡ h % 2 * 2 ^ k
flag_split zero h l fits =
    ground (arith, bit_and_digit h 1, bit_and-zero (h / 2) (h / 2) (omega arith))
flag_split (suc k) h l fits = ground (
  arith,
  bit_and_digit (h * 2 ^ suc k + l) (2 ^ suc k),
  double_pow h k,
  double_pow (h % 2) k,
  pow-suc 2 k,
  flag_split k h (l / 2) (omega (arith, pow-suc 2 k)),
)

mask_split : (k h l : ℕ) → l < 2 ^ k → bit_and (h * 2 ^ k + l) (2 ^ k - 1) ≡ l
mask_split zero h l fits = ground (arith, bit_and-zero (h * 1 + l) (h * 1 + l) (omega arith))
mask_split (suc k) h l fits = ground (
  arith,
  bit_and_digit (h * 2 ^ suc k + l) (2 ^ suc k - 1),
  double_pow h k,
  pow-suc 2 k,
  one-le-pow k 2,
  mask_split k h (l / 2) (omega (arith, pow-suc 2 k)),
)

set_split : (k h l : ℕ) → l < 2 ^ k → bit_or (2 * h * 2 ^ k + l) (2 ^ k) ≡ (2 * h + 1) * 2 ^ k + l
set_split zero h l fits = ground (arith, bit_or_digit (2 * h) 1, bit_or-zero h h (omega arith))
set_split (suc k) h l fits = ground (
  arith,
  bit_or_digit (2 * h * 2 ^ suc k + l) (2 ^ suc k),
  double_pow (2 * h) k,
  double_pow (2 * h + 1) k,
  pow-suc 2 k,
  set_split k h (l / 2) (omega (arith, pow-suc 2 k)),
)

module _ (k x : ℕ) where
  below_weight : x % 2 ^ k < 2 ^ k
  below_weight = mod-lt x (one-le-pow k 2 (omega arith))

  -- Testing one flag.
  pub bit_and_flag : bit_and x (2 ^ k) ≡ x / 2 ^ k % 2 * 2 ^ k
  bit_and_flag =
      ground (arith, flag_split k (x / 2 ^ k) (x % 2 ^ k) below_weight, div-add-mod' x (2 ^ k))

  -- A mask of low ones.
  pub bit_and_mask : bit_and x (2 ^ k - 1) ≡ x % 2 ^ k
  bit_and_mask =
      ground (arith, mask_split k (x / 2 ^ k) (x % 2 ^ k) below_weight, div-add-mod' x (2 ^ k))

  -- Setting a flag that is clear adds its weight.
  pub bit_or_flag : x / 2 ^ k % 2 ≡ 0 → bit_or x (2 ^ k) ≡ x + 2 ^ k
  bit_or_flag clear = ground (
    arith,
    set_split k (x / 2 ^ k / 2) (x % 2 ^ k) below_weight,
    div-add-mod' x (2 ^ k),
    ap (λ (t : ℕ). t * 2 ^ k) halves,
  )
    where
      halves : 2 * (x / 2 ^ k / 2) ≡ x / 2 ^ k
      halves = omega arith

-- The digit of weight `2 ^ i`.
abbrev pub bit : ℕ → ℕ → ℕ
bit zero x = x % 2
bit (suc i) x = bit i (x / 2)

pub bit-bit_and : (i a b : ℕ) → bit i (bit_and a b) ≡ min (bit i a) (bit i b)
bit-bit_and zero a b = omega (arith, bit_and_digit a b)
bit-bit_and (suc i) a b = ground (arith, bit_and_digit a b, bit-bit_and i (a / 2) (b / 2))

-- Numbers with the same digits are equal.
pub eq_of_bits : (n a b : ℕ) → a ≤ n → b ≤ n → ((i : ℕ) → bit i a ≡ bit i b) → a ≡ b
eq_of_bits zero a b ha hb h = omega arith
eq_of_bits (suc n) a b ha hb h =
    omega (arith, h 0, eq_of_bits n (a / 2) (b / 2) (omega arith) (omega arith) (λ i. h (suc i)))
