-- ===== src/E6809/Alu.antt =====
-- The arithmetic and logic instructions. Code: emulators/e6809.c (inst_neg to inst_sub16).
-- Each returns its result and the machine with the new condition codes.
pub mod Digits
pub mod Sums
pub mod Bytes
pub mod Words
use fuzemsys.Base.{ℕ, ◌+◌, ◌-◌, ◌*◌, ◌/◌, ◌^◌, bit_and, bit_or, bit_xor}
use fuzemsys.Base.Bits.{u32, bit_not}
use fuzemsys.E6809.State.{Machine, flag_h, flag_n, flag_z, flag_v, flag_c}
use fuzemsys.E6809.Flags.{get_cc, set_cc, test_c, test_n, test_z8, test_z16, test_v}

-- `x << 4`
abbrev pub shl4 : ℕ → ℕ
shl4 x = u32 (x * 2 ^ 4)

-- The five flags of an addition or, with `sub` 1, of a subtraction: the lines that follow
-- the sum in inst_neg, inst_sub8, inst_sbc, inst_asl, inst_adc and inst_add8.
unfoldable pub set_hnzvc : ℕ → ℕ → ℕ → ℕ → Machine → Machine
set_hnzvc i0 i1 r sub s =
    let s₁ = set_cc flag_h (test_c (shl4 i0) (shl4 i1) (shl4 r) 0) s in
    let s₂ = set_cc flag_n (test_n r) s₁ in
    let s₃ = set_cc flag_z (test_z8 r) s₂ in
    let s₄ = set_cc flag_v (test_v i0 i1 r) s₃ in set_cc flag_c (test_c i0 i1 r sub) s₄

unfoldable pub inst_neg : ℕ → Machine → ℕ × Machine
inst_neg byte s =
    let i0 : ℕ = 0 in
    let i1 = bit_not byte in let r = u32 (i0 + i1 + 1) in (r, set_hnzvc i0 i1 r 1 s)

unfoldable pub inst_com : ℕ → Machine → ℕ × Machine
inst_com byte s =
    let r = bit_not byte in
    let s₁ = set_cc flag_n (test_n r) s in
    let s₂ = set_cc flag_z (test_z8 r) s₁ in let s₃ = set_cc flag_v 0 s₂ in (r, set_cc flag_c 1 s₃)

unfoldable pub inst_lsr : ℕ → Machine → ℕ × Machine
inst_lsr byte s =
    let r = bit_and (byte / 2) 0x7f in
    let s₁ = set_cc flag_n 0 s in
    let s₂ = set_cc flag_z (test_z8 r) s₁ in (r, set_cc flag_c (bit_and byte 1) s₂)

unfoldable pub inst_ror : ℕ → Machine → ℕ × Machine
inst_ror byte s =
    let c = get_cc flag_c s in
    let r = bit_or (bit_and (byte / 2) 0x7f) (c * 2 ^ 7) in
    let s₁ = set_cc flag_n (test_n r) s in
    let s₂ = set_cc flag_z (test_z8 r) s₁ in (r, set_cc flag_c (bit_and byte 1) s₂)

unfoldable pub inst_asr : ℕ → Machine → ℕ × Machine
inst_asr byte s =
    let r = bit_or (bit_and (byte / 2) 0x7f) (bit_and byte 0x80) in
    let s₁ = set_cc flag_n (test_n r) s in
    let s₂ = set_cc flag_z (test_z8 r) s₁ in (r, set_cc flag_c (bit_and byte 1) s₂)

unfoldable pub inst_asl : ℕ → Machine → ℕ × Machine
inst_asl byte s = let r = u32 (byte + byte) in (r, set_hnzvc byte byte r 0 s)

unfoldable pub inst_rol : ℕ → Machine → ℕ × Machine
inst_rol byte s =
    let c = get_cc flag_c s in
    let r = u32 (byte + byte + c) in
    let s₁ = set_cc flag_n (test_n r) s in
    let s₂ = set_cc flag_z (test_z8 r) s₁ in
    let s₃ = set_cc flag_v (test_v byte byte r) s₂ in (r, set_cc flag_c (test_c byte byte r 0) s₃)

unfoldable pub inst_dec : ℕ → Machine → ℕ × Machine
inst_dec byte s =
    let i1 : ℕ = 0xff in
    let r = u32 (byte + i1) in
    let s₁ = set_cc flag_n (test_n r) s in
    let s₂ = set_cc flag_z (test_z8 r) s₁ in (r, set_cc flag_v (test_v byte i1 r) s₂)

unfoldable pub inst_inc : ℕ → Machine → ℕ × Machine
inst_inc byte s =
    let i1 : ℕ = 1 in
    let r = u32 (byte + i1) in
    let s₁ = set_cc flag_n (test_n r) s in
    let s₂ = set_cc flag_z (test_z8 r) s₁ in (r, set_cc flag_v (test_v byte i1 r) s₂)

unfoldable pub inst_tst8 : ℕ → Machine → Machine
inst_tst8 byte s =
    let s₁ = set_cc flag_n (test_n byte) s in
    let s₂ = set_cc flag_z (test_z8 byte) s₁ in set_cc flag_v 0 s₂

unfoldable pub inst_tst16 : ℕ → Machine → Machine
inst_tst16 word s =
    let s₁ = set_cc flag_n (test_n (word / 2 ^ 8)) s in
    let s₂ = set_cc flag_z (test_z16 word) s₁ in set_cc flag_v 0 s₂

unfoldable pub inst_clr : Machine → Machine
inst_clr s =
    let s₁ = set_cc flag_n 0 s in
    let s₂ = set_cc flag_z 1 s₁ in let s₃ = set_cc flag_v 0 s₂ in set_cc flag_c 0 s₃

unfoldable pub inst_sub8 : ℕ → ℕ → Machine → ℕ × Machine
inst_sub8 data0 data1 s =
    let i1 = bit_not data1 in let r = u32 (data0 + i1 + 1) in (r, set_hnzvc data0 i1 r 1 s)

unfoldable pub inst_sbc : ℕ → ℕ → Machine → ℕ × Machine
inst_sbc data0 data1 s =
    let i1 = bit_not data1 in
    let c = 1 - get_cc flag_c s in let r = u32 (data0 + i1 + c) in (r, set_hnzvc data0 i1 r 1 s)

unfoldable pub inst_and : ℕ → ℕ → Machine → ℕ × Machine
inst_and data0 data1 s = let r = bit_and data0 data1 in (r, inst_tst8 r s)

unfoldable pub inst_eor : ℕ → ℕ → Machine → ℕ × Machine
inst_eor data0 data1 s = let r = bit_xor data0 data1 in (r, inst_tst8 r s)

unfoldable pub inst_adc : ℕ → ℕ → Machine → ℕ × Machine
inst_adc data0 data1 s =
    let c = get_cc flag_c s in let r = u32 (data0 + data1 + c) in (r, set_hnzvc data0 data1 r 0 s)

unfoldable pub inst_or : ℕ → ℕ → Machine → ℕ × Machine
inst_or data0 data1 s = let r = bit_or data0 data1 in (r, inst_tst8 r s)

unfoldable pub inst_add8 : ℕ → ℕ → Machine → ℕ × Machine
inst_add8 data0 data1 s = let r = u32 (data0 + data1) in (r, set_hnzvc data0 data1 r 0 s)

-- The four flags of the 16-bit instructions.
unfoldable pub set_nzvc16 : ℕ → ℕ → ℕ → ℕ → Machine → Machine
set_nzvc16 i0 i1 r sub s =
    let s₁ = set_cc flag_n (test_n (r / 2 ^ 8)) s in
    let s₂ = set_cc flag_z (test_z16 r) s₁ in
    let s₃ = set_cc flag_v (test_v (i0 / 2 ^ 8) (i1 / 2 ^ 8) (r / 2 ^ 8)) s₂ in
    set_cc flag_c (test_c (i0 / 2 ^ 8) (i1 / 2 ^ 8) (r / 2 ^ 8) sub) s₃

unfoldable pub inst_add16 : ℕ → ℕ → Machine → ℕ × Machine
inst_add16 data0 data1 s = let r = u32 (data0 + data1) in (r, set_nzvc16 data0 data1 r 0 s)

unfoldable pub inst_sub16 : ℕ → ℕ → Machine → ℕ × Machine
inst_sub16 data0 data1 s =
    let i1 = bit_not data1 in let r = u32 (data0 + i1 + 1) in (r, set_nzvc16 data0 i1 r 1 s)
