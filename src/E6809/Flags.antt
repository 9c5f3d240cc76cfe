-- ===== src/E6809/Flags.antt =====
-- The condition codes and the tests that set them. Code: emulators/e6809.c (get_cc to set_reg_d, and
-- sign_extend).
pub mod Laws
pub mod View
use fuzemsys.Base.{ℕ, ◌+◌, ◌*◌, ◌/◌, ◌^◌, bit_and, bit_or, bit_xor}
use fuzemsys.Base.Bits.{u32, bit_not}
use fuzemsys.E6809.State.{Machine}

unfoldable pub get_cc : ℕ → Machine → ℕ
get_cc flag s = bit_and (s.reg_cc / flag) 1

unfoldable pub set_cc : ℕ → ℕ → Machine → Machine
set_cc flag value s = record s {
  reg_cc = bit_or (bit_and s.reg_cc (bit_not flag)) (u32 (value * flag));
}

unfoldable pub test_c : ℕ → ℕ → ℕ → ℕ → ℕ
test_c i0 i1 r sub =
    let flag = bit_and (bit_or i0 i1) (bit_not r) in
    let flag' = bit_or flag (bit_and i0 i1) in bit_xor (bit_and (flag' / 2 ^ 7) 1) sub

unfoldable pub test_n : ℕ → ℕ
test_n r = bit_and (r / 2 ^ 7) 1

-- The last three lines of test_z8, and of test_z16.
unfoldable pub fold8 : ℕ → ℕ
fold8 f =
    let f₁ = bit_and (f / 2 ^ 4) (bit_and f 0xf) in
    let f₂ = bit_and (f₁ / 2 ^ 2) (bit_and f₁ 0x3) in bit_and (f₂ / 2 ^ 1) (bit_and f₂ 0x1)

unfoldable pub test_z8 : ℕ → ℕ
test_z8 r = fold8 (bit_not r)

unfoldable pub test_z16 : ℕ → ℕ
test_z16 r = let f = bit_not r in fold8 (bit_and (f / 2 ^ 8) (bit_and f 0xff))

unfoldable pub test_v : ℕ → ℕ → ℕ → ℕ
test_v i0 i1 r =
    let flag = bit_not (bit_xor i0 i1) in
    let flag' = bit_and flag (bit_xor i0 r) in bit_and (flag' / 2 ^ 7) 1

unfoldable pub get_reg_d : Machine → ℕ
get_reg_d s = bit_or (u32 (s.reg_a * 2 ^ 8)) (bit_and s.reg_b 0xff)

unfoldable pub set_reg_d : ℕ → Machine → Machine
set_reg_d value s = record s { reg_a = value / 2 ^ 8; reg_b = value }

unfoldable pub sign_extend : ℕ → ℕ
sign_extend byte = bit_or (u32 (bit_not (bit_and byte 0x80) + 1)) (bit_and byte 0xff)
