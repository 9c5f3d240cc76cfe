-- ===== src/Base/Bits.antt =====
-- The bit operations of C on 32-bit words, read one binary digit at a time.
use Prim.Native.Nat.{
  ℕ, zero, suc, ◌+◌, ◌-◌, ◌*◌, ◌/◌, ◌%◌, ◌^◌, ◌≤◌, ◌<◌, min, max, bit_and, bit_or, bit_xor, digits,
  bit_and-bitwise, bit_or-bitwise, bit_xor-bitwise, bitwise, differ,
}
use mathlib.Core.Path.{◌≡◌, refl, sym, ap, ◌∙◌}
use native.Mathlib.Nat.{
  le_refl, pow-succ', div-div-eq-div-mul, mod-eq-sub-div-mul, div-mul-le_self, mod-one, one-le-pow,
  mod-eq_of_lt,
}
use native.Mathlib.Omega.{arith}

abbrev pub u8 : ℕ → ℕ
u8 n = n % 2 ^ 8

abbrev pub u16 : ℕ → ℕ
u16 n = n % 2 ^ 16

abbrev pub u32 : ℕ → ℕ
u32 n = n % 2 ^ 32

-- `~n` of an `unsigned`.
abbrev pub bit_not : ℕ → ℕ
bit_not n = 2 ^ 32 - 1 - u32 n

-- One binary digit.
abbrev pub bit : ℕ → ℕ → ℕ
bit k n = n / 2 ^ k % 2

-- Exclusive or of two digits.
abbrev pub xor_digit : ℕ → ℕ → ℕ
xor_digit x y = (x + y) % 2

-- A digit-wise operation with `z` for an exhausted left operand. Its fuel is the left operand,
-- which is more than each halving needs.
module _ (z : ℕ → ℕ) (f : ℕ → ℕ → ℕ) where
  one_more : (fuel x y : ℕ) → x ≤ fuel → digits z f (suc fuel) x y ≡ digits z f fuel x y
  one_more zero zero y h = refl
  one_more (suc fuel) zero y h = refl
  one_more zero (suc x) y h = absurd (omega arith)
  one_more (suc fuel) (suc x) y h =
      ap (λ (rest : ℕ). rest * 2 + f (suc x % 2) (y % 2))
        (one_more fuel (suc x / 2) (y / 2) (omega arith))

  spare : (extra fuel x y : ℕ) → x ≤ fuel → digits z f (extra + fuel) x y ≡ digits z f fuel x y
  spare zero fuel x y h = ap (λ (n : ℕ). digits z f n x y) (omega arith)
  spare (suc extra) fuel x y h =
      ap (λ (n : ℕ). digits z f n x y) {y = suc (extra + fuel)} (omega arith)
      ∙ one_more (extra + fuel) x y (omega arith)
      ∙ spare extra fuel x y h

  -- One step of the operation, if `z` itself is digit-wise.
  bitwise_step :
      (x y : ℕ)
      → ((n : ℕ) → z n ≡ z (n / 2) * 2 + f 0 (n % 2))
      → bitwise z f x y ≡ bitwise z f (x / 2) (y / 2) * 2 + f (x % 2) (y % 2)
  bitwise_step zero y h = h y
  bitwise_step (suc x) y h =
      ap (λ (rest : ℕ). rest * 2 + f (suc x % 2) (y % 2))
        (ap (λ (n : ℕ). digits z f n (suc x / 2) (y / 2)) (omega arith)
          ∙ spare (x - suc x / 2) (suc x / 2) (suc x / 2) (y / 2) (le_refl (suc x / 2)))

pub bit_and_step : (m n : ℕ) → bit_and m n ≡ bit_and (m / 2) (n / 2) * 2 + min (m % 2) (n % 2)
bit_and_step m n = simp bit_and-bitwise (bitwise_step (λ _. 0) min m n (λ k. omega arith))

pub bit_or_step : (m n : ℕ) → bit_or m n ≡ bit_or (m / 2) (n / 2) * 2 + max (m % 2) (n % 2)
bit_or_step m n = simp bit_or-bitwise (bitwise_step (λ k. k) max m n (λ k. omega arith))

differ-digit : (x y : ℕ) → x < 2 → y < 2 → differ x y ≡ xor_digit x y
differ-digit zero zero p q = refl
differ-digit zero (suc zero) p q = refl
differ-digit zero (suc (suc y)) p q = absurd (omega arith)
differ-digit (suc zero) zero p q = refl
differ-digit (suc zero) (suc zero) p q = refl
differ-digit (suc zero) (suc (suc y)) p q = absurd (omega arith)
differ-digit (suc (suc x)) y p q = absurd (omega arith)

pub bit_xor_step : (m n : ℕ) → bit_xor m n ≡ bit_xor (m / 2) (n / 2) * 2 + xor_digit (m % 2) (n % 2)
bit_xor_step m n =
    simp (bit_xor-bitwise, ← differ-digit (m % 2) (n % 2) (omega arith) (omega arith))
      (bitwise_step (λ k. k) differ m n
        (λ k. omega (arith, differ-digit 0 (k % 2) (omega arith) (omega arith))))

pub bit-suc : (k a : ℕ) → bit (suc k) a ≡ bit k (a / 2)
bit-suc k a = rw (div-div-eq-div-mul, ← pow-succ' 2 k)

bit_and-half : (a b : ℕ) → bit_and a b / 2 ≡ bit_and (a / 2) (b / 2)
bit_and-half a b = omega (arith, bit_and_step a b)

bit_or-half : (a b : ℕ) → bit_or a b / 2 ≡ bit_or (a / 2) (b / 2)
bit_or-half a b = omega (arith, bit_or_step a b)

bit_xor-half : (a b : ℕ) → bit_xor a b / 2 ≡ bit_xor (a / 2) (b / 2)
bit_xor-half a b = omega (arith, bit_xor_step a b)

-- Each digit of the result comes from the two digits at its place.
pub bit-bit_and : (k a b : ℕ) → bit k (bit_and a b) ≡ min (bit k a) (bit k b)
bit-bit_and zero a b = omega (arith, bit_and_step a b)
bit-bit_and (suc k) a b =
    rw (bit-suc k (bit_and a b), bit-suc k a, bit-suc k b, bit_and-half a b)
      (bit-bit_and k (a / 2) (b / 2))

pub bit-bit_or : (k a b : ℕ) → bit k (bit_or a b) ≡ max (bit k a) (bit k b)
bit-bit_or zero a b = omega (arith, bit_or_step a b)
bit-bit_or (suc k) a b =
    rw (bit-suc k (bit_or a b), bit-suc k a, bit-suc k b, bit_or-half a b)
      (bit-bit_or k (a / 2) (b / 2))

pub bit-bit_xor : (k a b : ℕ) → bit k (bit_xor a b) ≡ xor_digit (bit k a) (bit k b)
bit-bit_xor zero a b = omega (arith, bit_xor_step a b)
bit-bit_xor (suc k) a b =
    rw (bit-suc k (bit_xor a b), bit-suc k a, bit-suc k b, bit_xor-half a b)
      (bit-bit_xor k (a / 2) (b / 2))

pub mod-pow-suc : (k a : ℕ) → a % 2 ^ suc k ≡ a / 2 % 2 ^ k * 2 + a % 2
mod-pow-suc k a = omega (
  arith,
  mod-eq-sub-div-mul a (2 ^ suc k),
  mod-eq-sub-div-mul (a / 2) (2 ^ k),
  ap (λ (t : ℕ). a / t) (pow-succ' 2 k),
  ap (λ (t : ℕ). a / t * t) (pow-succ' 2 k),
  ap (λ (t : ℕ). t * (2 * 2 ^ k)) (div-div-eq-div-mul a 2 (2 ^ k)),
  div-mul-le_self (a / 2) (2 ^ k),
)

-- The result is in range when the operands are.
pub bit_and-le : (n a b : ℕ) → a ≤ n → bit_and a b ≤ a
bit_and-le zero zero b h = omega (arith, bit_and-bitwise 0 b)
bit_and-le zero (suc a) b h = absurd (omega arith)
bit_and-le (suc n) zero b h = omega (arith, bit_and-bitwise 0 b)
bit_and-le (suc n) (suc a) b h =
    omega (arith, bit_and_step (suc a) b, bit_and-le n (suc a / 2) (b / 2) (omega arith))

pub bit_and-le_right : (n a b : ℕ) → a ≤ n → bit_and a b ≤ b
bit_and-le_right zero zero b h = omega (arith, bit_and-bitwise 0 b)
bit_and-le_right zero (suc a) b h = absurd (omega arith)
bit_and-le_right (suc n) zero b h = omega (arith, bit_and-bitwise 0 b)
bit_and-le_right (suc n) (suc a) b h =
    omega (arith, bit_and_step (suc a) b, bit_and-le_right n (suc a / 2) (b / 2) (omega arith))

bit_and-double :
    (x y i j : ℕ) → i < 2 → j < 2 → bit_and (x * 2 + i) (y * 2 + j) ≡ bit_and x y * 2 + min i j
bit_and-double x y i j p q =
    let hx : (x * 2 + i) / 2 ≡ x = omega arith in
    let hy : (y * 2 + j) / 2 ≡ y = omega arith in
    let step = bit_and_step (x * 2 + i) (y * 2 + j) in rw (hx, hy) at step ∙ omega arith

pub bit_and-zero : (n a : ℕ) → a ≤ n → bit_and a 0 ≡ 0
bit_and-zero zero zero h = refl
bit_and-zero zero (suc a) h = absurd (omega arith)
bit_and-zero (suc n) zero h = refl
bit_and-zero (suc n) (suc a) h =
    omega (arith, bit_and_step (suc a) 0, bit_and-zero n (suc a / 2) (omega arith))

-- The operations on the low digits do not look at the high ones.
pub bit_and-mod : (k a b : ℕ) → bit_and a b % 2 ^ k ≡ bit_and (a % 2 ^ k) (b % 2 ^ k)
bit_and-mod zero a b = rw (mod-one (bit_and a b), mod-one a, mod-one b)
bit_and-mod (suc k) a b =
    rw
      (
        mod-pow-suc k a,
        mod-pow-suc k b,
        mod-pow-suc k (bit_and a b),
        bit_and-half a b,
        bit_and-mod k (a / 2) (b / 2),
        bit_and-double (a / 2 % 2 ^ k) (b / 2 % 2 ^ k) (a % 2) (b % 2) (omega arith) (omega arith),
      )
      (omega (arith, bit_and_step a b))

-- A short second operand cuts the first one short.
pub bit_and-short : (k a b : ℕ) → b < 2 ^ k → bit_and a b ≡ bit_and (a % 2 ^ k) b
bit_and-short k a b h =
    sym (mod-eq_of_lt {n = bit_and a b} (omega (arith, bit_and-le_right a a b (le_refl a))))
    ∙ bit_and-mod k a b
    ∙ ap (λ (t : ℕ). bit_and (a % 2 ^ k) t) (mod-eq_of_lt h)

-- A mask of `k` low ones is a remainder.
pub bit_and_mask : (k a : ℕ) → bit_and a (2 ^ k - 1) ≡ a % 2 ^ k
bit_and_mask zero a = omega (arith, bit_and-zero a a (le_refl a))
bit_and_mask (suc k) a =
    let halved : (2 ^ suc k - 1) / 2 ≡ 2 ^ k - 1 = omega (arith, pow-succ' 2 k) in
    rw (bit_and_step a (2 ^ suc k - 1), halved, bit_and_mask k (a / 2))
      (omega (arith, mod-pow-suc k a, pow-succ' 2 k, one-le-pow k 2))

pub bit_or-lt : (k a b : ℕ) → a < 2 ^ k → b < 2 ^ k → bit_or a b < 2 ^ k
bit_or-lt zero zero zero p q = omega arith
bit_or-lt zero zero (suc b) p q = absurd (omega arith)
bit_or-lt zero (suc a) b p q = absurd (omega arith)
bit_or-lt (suc k) a b p q = omega (
  arith,
  bit_or_step a b,
  pow-succ' 2 k,
  bit_or-lt k (a / 2) (b / 2) (omega (arith, pow-succ' 2 k)) (omega (arith, pow-succ' 2 k)),
)

pub bit_xor-lt : (k a b : ℕ) → a < 2 ^ k → b < 2 ^ k → bit_xor a b < 2 ^ k
bit_xor-lt zero zero zero p q = omega arith
bit_xor-lt zero zero (suc b) p q = absurd (omega arith)
bit_xor-lt zero (suc a) b p q = absurd (omega arith)
bit_xor-lt (suc k) a b p q = omega (
  arith,
  bit_xor_step a b,
  pow-succ' 2 k,
  bit_xor-lt k (a / 2) (b / 2) (omega (arith, pow-succ' 2 k)) (omega (arith, pow-succ' 2 k)),
)

pub bit_xor-digit : (x y : ℕ) → x < 2 → y < 2 → bit_xor x y ≡ xor_digit x y
bit_xor-digit zero zero p q = refl
bit_xor-digit zero (suc zero) p q = refl
bit_xor-digit zero (suc (suc y)) p q = absurd (omega arith)
bit_xor-digit (suc zero) zero p q = refl
bit_xor-digit (suc zero) (suc zero) p q = refl
bit_xor-digit (suc zero) (suc (suc y)) p q = absurd (omega arith)
bit_xor-digit (suc (suc x)) y p q = absurd (omega arith)

pub bit_or-digit : (x y : ℕ) → x < 2 → y < 2 → bit_or x y ≡ max x y
bit_or-digit zero zero p q = refl
bit_or-digit zero (suc zero) p q = refl
bit_or-digit zero (suc (suc y)) p q = absurd (omega arith)
bit_or-digit (suc zero) zero p q = refl
bit_or-digit (suc zero) (suc zero) p q = refl
bit_or-digit (suc zero) (suc (suc y)) p q = absurd (omega arith)
bit_or-digit (suc (suc x)) y p q = absurd (omega arith)

bit_or-zero : (n a : ℕ) → a ≤ n → bit_or a 0 ≡ a
bit_or-zero zero zero h = refl
bit_or-zero zero (suc a) h = absurd (omega arith)
bit_or-zero (suc n) zero h = refl
bit_or-zero (suc n) (suc a) h =
    omega (arith, bit_or_step (suc a) 0, bit_or-zero n (suc a / 2) (omega arith))

-- A shifted number and one that fits below it do not overlap.
pub bit_or_low : (k h l : ℕ) → l < 2 ^ k → bit_or (h * 2 ^ k) l ≡ h * 2 ^ k + l
bit_or_low zero h l p =
    ap (λ (n : ℕ). bit_or (h * 1) n) {y = 0} (omega arith)
    ∙ bit_or-zero (h * 1) (h * 1) (le_refl (h * 1))
    ∙ omega arith
bit_or_low (suc k) h l p =
    let doubled : h * 2 ^ suc k ≡ h * 2 ^ k * 2 =
      ap (λ (t : ℕ). h * t) (pow-succ' 2 k) ∙ omega arith in
    let half : (h * 2 ^ k * 2) / 2 ≡ h * 2 ^ k = omega arith in
    rw doubled (
      bit_or_step (h * 2 ^ k * 2) l
      ∙ rw half (omega (arith, bit_or_low k h (l / 2) (omega (arith, pow-succ' 2 k)))))
