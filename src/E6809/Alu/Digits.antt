-- ===== src/E6809/Alu/Digits.antt =====
-- The carry and overflow tests against arithmetic: the carry out of bit 7, and the sign of a sum
-- that does not fit. Code: emulators/e6809.c (test_c, test_v).
-- Code: emulators/e6809.c (test_c, test_v).
use fuzemsys.Base.{ℕ, ◌+◌, ◌-◌, ◌/◌, ◌<◌, ◌≡◌, not, arith}
use fuzemsys.Base.Bits.{bit}
use fuzemsys.Base.Int.{signed8, fits8, ◌+ℤ◌, ◌-ℤ◌, pos}
use fuzemsys.E6809.Flags.Laws.{is, carry_digit, overflow_digit}

pub carry_of_sum :
    (x y c : ℕ)
    → x < 256
    → y < 256
    → c < 2
    → carry_digit (bit 7 x) (bit 7 y) (bit 7 (x + y + c)) ≡ (x + y + c) / 256
carry_of_sum x y c p q h = omega arith

pub overflow_of_sum :
    (x y c : ℕ)
    → x < 256
    → y < 256
    → c < 2
    → overflow_digit (bit 7 x) (bit 7 y) (bit 7 (x + y + c))
      ≡ is (not (fits8 (signed8 x +ℤ signed8 y +ℤ pos c)))
overflow_of_sum x y c p q h = ground arith

pub half_carry_of_sum :
    (x y c : ℕ)
    → x < 16
    → y < 16
    → c < 2
    → carry_digit (bit 3 x) (bit 3 y) (bit 3 (x + y + c)) ≡ (x + y + c) / 16
half_carry_of_sum x y c p q h = omega arith

pub overflow_of_difference :
    (x y k b : ℕ)
    → x < 256
    → y < 256
    → k + b ≡ 1
    → overflow_digit (bit 7 x) (1 - bit 7 y) (bit 7 (x + 255 - y + k))
      ≡ is (not (fits8 (signed8 x -ℤ signed8 y -ℤ pos b)))
overflow_of_difference x y k b p q h = ground arith
