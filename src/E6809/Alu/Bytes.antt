-- ===== src/E6809/Alu/Bytes.antt =====
-- The 8-bit additions and subtractions against arithmetic on bytes.
-- Code: emulators/e6809.c (inst_sub8, inst_sbc, inst_adc, inst_add8).
use fuzemsys.Base.{ℕ, ◌+◌, ◌-◌, ◌<◌, ◌≡◌, refl, arith}
use fuzemsys.Base.Bits.{u8}
use fuzemsys.E6809.State.{Machine, flag_c}
use fuzemsys.E6809.Flags.{get_cc}
use fuzemsys.E6809.Flags.Laws.{get_cc_lem}
use fuzemsys.E6809.Flags.View.{cc_of}
use fuzemsys.E6809.Alu.{inst_sub8, inst_sbc, inst_adc, inst_add8}
use fuzemsys.E6809.Alu.Sums.{sum_flags, diff_flags, cc_of-sum, cc_of-difference}

get_cc-lt : (s : Machine) → get_cc flag_c s < 2
get_cc-lt s = omega (arith, get_cc_lem 0 s)

-- inst_add8 leaves in the low byte the sum of its operands' low bytes, sets H, N, Z, V and C as
-- that sum of bytes demands, and leaves E, F and I alone.
pub inst_add8_lem :
    (data0 data1 : ℕ) (s : Machine)
    → let (r, s') = inst_add8 data0 data1 s in
      (u8 r ≡ u8 (u8 data0 + u8 data1)) × (cc_of s' ≡ sum_flags (u8 data0) (u8 data1) 0 (cc_of s))
unfolding inst_add8
inst_add8_lem data0 data1 s =
    let no_carry : data0 + data1 ≡ data0 + data1 + 0 = omega arith in
    (omega arith, rw no_carry (cc_of-sum data0 data1 0 (omega arith) s))

-- inst_adc adds the carry flag to the two bytes, with the flags of that sum.
pub inst_adc_lem :
    (data0 data1 : ℕ) (s : Machine)
    → let (r, s') = inst_adc data0 data1 s in
      let c = (cc_of s).c in
      (u8 r ≡ u8 (u8 data0 + u8 data1 + c))
      × (cc_of s' ≡ sum_flags (u8 data0) (u8 data1) c (cc_of s))
unfolding inst_adc cc_of
inst_adc_lem data0 data1 s = (omega arith, cc_of-sum data0 data1 (get_cc flag_c s) (get_cc-lt s) s)

-- inst_sub8 subtracts the bytes modulo 256. N and Z are those of the difference, V tells that the
-- signed difference does not fit a byte, C is the borrow, and H is set when the low nibbles need
-- no borrow. E, F and I stay.
pub inst_sub8_lem :
    (data0 data1 : ℕ) (s : Machine)
    → let (r, s') = inst_sub8 data0 data1 s in
      (u8 r ≡ u8 (u8 data0 + 256 - u8 data1))
      × (cc_of s' ≡ diff_flags (u8 data0) (u8 data1) 0 (cc_of s))
unfolding inst_sub8
inst_sub8_lem data0 data1 s = (omega arith, cc_of-difference data0 data1 1 0 refl s)

-- inst_sbc subtracts the byte and the carry flag, with the flags of that difference.
pub inst_sbc_lem :
    (data0 data1 : ℕ) (s : Machine)
    → let (r, s') = inst_sbc data0 data1 s in
      let c = (cc_of s).c in
      (u8 r ≡ u8 (u8 data0 + 256 - u8 data1 - c))
      × (cc_of s' ≡ diff_flags (u8 data0) (u8 data1) c (cc_of s))
unfolding inst_sbc cc_of
inst_sbc_lem data0 data1 s =
    let c-lt = get_cc-lt s in
    (
      omega arith,
      cc_of-difference data0 data1 (1 - get_cc flag_c s) (get_cc flag_c s) (omega arith) s,
    )
