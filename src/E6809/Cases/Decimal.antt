-- ===== src/E6809/Cases/Decimal.antt =====
-- Packed decimal addition: adca, then daa. Code: emulators/e6809.c (inst_adc, and the daa case
-- of e6809_sstep).
use fuzemsys.Base.{
  ℕ, ◌+◌, ◌*◌, ◌/◌, ◌%◌, ◌≤◌, ◌<◌, bit_and, ◌≡◌, refl, ap, ◌∙◌, leb, ltb, ◌==◌, ==_iff, ◌&&◌, ◌||◌,
  arith, if◌then◌else◌, true, all_below, all_below_sound,
}
use fuzemsys.Base.Bits.{u8, u32, bit_and_mask, bit_and-short}
use fuzemsys.E6809.State.{Machine, done, final, ◌>>=◌, flag_h, flag_c}
use fuzemsys.E6809.Flags.{get_cc, set_cc, test_c}
use fuzemsys.E6809.Flags.Laws.{is, get_cc_lem, get_cc-set_cc}
use fuzemsys.E6809.Flags.View.{Cc, cc_of}
use fuzemsys.E6809.Alu.{inst_adc}
use fuzemsys.E6809.Alu.Sums.{sum_flags, test_c-sum}
use fuzemsys.E6809.Alu.Bytes.{inst_adc_lem}
use fuzemsys.E6809.Cases.Control.{daa, daa_correction}

-- Two decimal digits in a byte.
abbrev pub IsPacked : ℕ → Type 0
IsPacked x = (x / 16 ≤ 9) × (x % 16 ≤ 9)

abbrev pub unpack : ℕ → ℕ
unpack x = x / 16 * 10 + x % 16

abbrev pub pack : ℕ → ℕ
pack n = n / 10 * 16 + n % 10

high_table : all_below 256 (λ x. bit_and x 0xf0 == x / 16 * 16) ≡ true
unfolding all_below
high_table = refl

high_nibble : (x : ℕ) → bit_and x 0xf0 ≡ x % 256 / 16 * 16
high_nibble x =
    bit_and-short 8 x 0xf0 (omega arith)
    ∙ (==_iff _ _).0 (all_below_sound 256 _ (x % 256) high_table (omega arith))

correction : ℕ → ℕ → ℕ → ℕ
correction a h c =
    let i₁ = if ltb 9 (a % 16) || h == 1 then 6 else 0 in
    let i₂ =
      if (ltb 0x80 (a % 256 / 16 * 16) && ltb 9 (a % 16))
        || (ltb 0x90 (a % 256 / 16 * 16) || c == 1)
      then 0x60
      else 0 in
    i₁ + i₂

daa_correction_lem :
    (s : Machine) → daa_correction s ≡ correction s.reg_a (get_cc flag_h s) (get_cc flag_c s)
unfolding daa_correction correction
daa_correction_lem s = rw (bit_and_mask 4 s.reg_a, high_nibble s.reg_a) (ground arith)

-- The correction of a binary sum of packed bytes.
corrected :
    (x y c : ℕ)
    → IsPacked x
    → IsPacked y
    → c < 2
    → let fix =
        correction (x + y + c) (is (leb 16 (x % 16 + y % 16 + c))) (is (leb 256 (x + y + c))) in
      let sum = unpack x + unpack y + c in
      (u8 (x + y + c + fix) ≡ pack (sum % 100))
      × (is (leb 256 (u8 (x + y + c) + u8 fix + 0)) ≡ is (leb 100 sum && ltb (x + y + c) 256))
unfolding correction
corrected x y c (p, q) (p', q') h = ground arith

-- What daa leaves.
daa_sum : (s : Machine) → (final (daa s)).reg_a ≡ u32 (s.reg_a + daa_correction s)
unfolding daa ◌>>=◌ set_cc
daa_sum s = refl

binary_carry : (i0 i1 : ℕ) → test_c i0 i1 (u32 (i0 + i1)) 0 ≡ is (leb 256 (u8 i0 + u8 i1 + 0))
binary_carry i0 i1 =
    ap (λ (r : ℕ). test_c i0 i1 r 0) {y = u32 (i0 + i1 + 0)} (omega arith)
    ∙ test_c-sum i0 i1 0 (omega arith)

daa_carry :
    (s : Machine)
    → get_cc flag_c (final (daa s)) ≡ is (leb 256 (u8 s.reg_a + u8 (daa_correction s) + 0))
unfolding daa ◌>>=◌ get_cc
daa_carry s =
    let carry = binary_carry s.reg_a (daa_correction s) in
    get_cc-set_cc 0 0 (test_c s.reg_a (daa_correction s) (u32 (s.reg_a + daa_correction s)) 0) _
      (omega arith) (omega arith) (ground arith)
    ∙ carry

-- The machine between the two instructions.
abbrev pub summed : ℕ → ℕ → Machine → Machine
summed x y s = let (r, s') = inst_adc x y s in record s' { reg_a = r }

daa_ends : (s : Machine) → daa s ≡ done tt (final (daa s))
unfolding daa ◌>>=◌
daa_ends s = refl

module _ (x y : ℕ) (s : Machine) (p : IsPacked x) (q : IsPacked y) where
  abbrev carry_in : ℕ
  carry_in = get_cc flag_c s

  carry_in-lt : carry_in < 2
  carry_in-lt = omega (arith, get_cc_lem 0 s)

  bytes : (u8 x ≡ x) × (u8 y ≡ y)
  bytes = (omega (arith, p.0), omega (arith, q.0))

  flags : cc_of (inst_adc x y s).1 ≡ sum_flags x y carry_in (cc_of s)
  unfolding cc_of
  flags = rw (bytes.0, bytes.1) at (inst_adc_lem x y s).1

  a_summed : (summed x y s).reg_a ≡ x + y + carry_in
  unfolding inst_adc
  a_summed = omega (arith, p.0, q.0, carry_in-lt)

  h_summed : get_cc flag_h (summed x y s) ≡ is (leb 16 (x % 16 + y % 16 + carry_in))
  unfolding cc_of get_cc
  h_summed = ap (λ (cc : Cc). cc.h) flags

  c_summed : get_cc flag_c (summed x y s) ≡ is (leb 256 (x + y + carry_in))
  unfolding cc_of get_cc
  c_summed = ap (λ (cc : Cc). cc.c) flags

  fix_summed :
      daa_correction (summed x y s)
      ≡ correction
          (x + y + carry_in)
          (is (leb 16 (x % 16 + y % 16 + carry_in)))
          (is (leb 256 (x + y + carry_in)))
  fix_summed = daa_correction_lem (summed x y s) ∙ rw (h_summed, c_summed, a_summed) refl

  abbrev fix : ℕ
  fix =
      correction (x + y + carry_in) (is (leb 16 (x % 16 + y % 16 + carry_in)))
        (is (leb 256 (x + y + carry_in)))

  byte_summed : u8 (final (daa (summed x y s))).reg_a ≡ u8 (x + y + carry_in + fix)
  byte_summed =
      ap (λ (a : ℕ). u8 a) (daa_sum (summed x y s) ∙ λ j. u32 (a_summed j + fix_summed j))
      ∙ omega arith

  carry_summed :
      get_cc flag_c (final (daa (summed x y s))) ≡ is (leb 256 (u8 (x + y + carry_in) + u8 fix + 0))
  carry_summed =
      daa_carry (summed x y s) ∙ λ j. is (leb 256 (u8 (a_summed j) + u8 (fix_summed j) + 0))

-- For two packed decimal bytes and the carry flag, inst_adc into A and then daa, which ends, leave in
-- the low byte of A the two low digits of the decimal sum. The carry flag is set when the decimal sum
-- passes 99 and the binary sum fits a byte: where the addition itself has carried, daa clears it.
pub daa-inst_adc :
    (x y : ℕ) (s : Machine)
    → IsPacked x
    → IsPacked y
    → let t = final (daa (summed x y s)) in
      let c = get_cc flag_c s in
      let sum = unpack x + unpack y + c in
      (daa (summed x y s) ≡ done tt t)
      × (u8 t.reg_a ≡ pack (sum % 100))
      × (get_cc flag_c t ≡ is (leb 100 sum && ltb (x + y + c) 256))
daa-inst_adc x y s p q =
    let (byte, carry) = corrected x y (get_cc flag_c s) p q (carry_in-lt x y s p q) in
    (daa_ends (summed x y s), byte_summed x y s p q ∙ byte, carry_summed x y s p q ∙ carry)
