-- ===== src/E6809/Stack/Branch.antt =====
-- Where the branch instructions go. Code: emulators/e6809.c (sign_extend, inst_bra8, inst_bra16).
use fuzemsys.Base.{
  ℕ, ◌+◌, ◌-◌, ◌%◌, ◌^◌, ◌<◌, bit_and, ◌≡◌, refl, sym, ◌∙◌, ltb, ◌==◌, ==_iff, arith, if◌then◌else◌,
  true, all_below, all_below_sound, Bool-cases, inl, inr,
}
use fuzemsys.Base.Bits.{u8, u16, u32, bit_and_mask, bit_and-short, bit_and-zero, bit_xor-digit}
use native.Mathlib.Nat.{le_refl}
use fuzemsys.E6809.State.{Machine, done, ◌>>=◌}
use fuzemsys.E6809.Bus.{read8, read16, pc_read8, pc_read16}
use fuzemsys.E6809.Flags.{sign_extend}
use fuzemsys.E6809.Stack.{branch_mask, inst_bra8, inst_bra16}

-- A byte as a 32-bit word in two's complement.
abbrev pub extended : ℕ → ℕ
extended b = if ltb b 128 then b else b + 0xffffff00

extend_table : all_below 256 (λ b. sign_extend b == extended b) ≡ true
unfolding all_below sign_extend
extend_table = refl

sign_extend-mask : (b : ℕ) → sign_extend b ≡ sign_extend (u8 b)
unfolding sign_extend
sign_extend-mask b =
    let low : bit_and b 0xff ≡ bit_and (u8 b) 0xff =
      bit_and_mask 8 b ∙ sym (bit_and_mask 8 (u8 b) ∙ omega arith) in
    let sign : bit_and b 0x80 ≡ bit_and (u8 b) 0x80 = bit_and-short 8 b 0x80 (omega arith) in
    rw (low, sign)

pub sign_extend_lem : (b : ℕ) → sign_extend b ≡ extended (u8 b)
sign_extend_lem b =
    sign_extend-mask b ∙ (==_iff _ _).0 (all_below_sound 256 _ (u8 b) extend_table (omega arith))

-- The mask is all ones when the test equals the op code's low bit, and else 0.
pub branch_mask_lem :
    (test op : ℕ) → test < 2 → branch_mask test op ≡ (if test == op % 2 then 2 ^ 32 - 1 else 0)
unfolding branch_mask
branch_mask_lem test op h =
    rw (bit_and_mask 1 op, bit_xor-digit test (op % 2) h (omega arith)) (ground arith)

masked_offset :
    (w pc test op : ℕ)
    → w < 2 ^ 32
    → pc < 2 ^ 16
    → test < 2
    → u16 (pc + bit_and w (branch_mask test op)) ≡ (if test == op % 2 then u16 (pc + w) else pc)
masked_offset w pc test op hw hpc h =
    rw (branch_mask_lem test op h) (elim (Bool-cases (test == op % 2)) [
      | inl taken ↦ rw taken (rw (bit_and_mask 32 w) (omega arith))
      | inr not_taken ↦ rw not_taken (rw (bit_and-zero w w (le_refl w)) (omega arith))
    ])

extended-lt : (b : ℕ) → b < 256 → extended b < 2 ^ 32
extended-lt b h = ground arith

-- inst_bra8 reads the offset byte and, when the test equals the op code's low bit, adds it to
-- reg_pc as a signed byte modulo 2 ^ 16; it counts 3 cycles and changes nothing else.
pub inst_bra8_lem :
    (test op : ℕ) (s : Machine)
    → test < 2
    → inst_bra8 test op s
      ≡ done tt (record s {
        reg_pc =
            if test == op % 2
            then u16 (u16 (s.reg_pc + 1) + extended (u8 (read8 s.reg_pc s)))
            else u16 (s.reg_pc + 1);
        cycles = u32 (s.cycles + 3);
      })
unfolding inst_bra8 pc_read8 ◌>>=◌
inst_bra8_lem test op s h =
    let offset = u8 (read8 s.reg_pc s) in
    let pc =
      masked_offset (extended offset) (u16 (s.reg_pc + 1)) test op
        (extended-lt offset (omega arith)) (omega arith) h in
    rw (sign_extend_lem (read8 s.reg_pc s))
      (λ j. done tt (record s { reg_pc = pc j; cycles = u32 (s.cycles + 3) }))

-- inst_bra16 reads the offset word and adds it when the test equals the op code's low bit; it
-- counts 6 cycles when the branch is taken and 5 when it is not, and changes nothing else.
pub inst_bra16_lem :
    (test op : ℕ) (s : Machine)
    → test < 2
    → read16 s.reg_pc s < 2 ^ 32
    → inst_bra16 test op s
      ≡ done tt (record s {
        reg_pc =
            if test == op % 2
            then u16 (u16 (s.reg_pc + 2) + read16 s.reg_pc s)
            else u16 (s.reg_pc + 2);
        cycles = u32 (s.cycles + (if test == op % 2 then 6 else 5));
      })
unfolding inst_bra16 pc_read16 ◌>>=◌
inst_bra16_lem test op s h word =
    let pc = masked_offset (read16 s.reg_pc s) (u16 (s.reg_pc + 2)) test op word (omega arith) h in
    λ j. done tt (record s { reg_pc = pc j; cycles = u32 (s.cycles + count j) })
  where
    count : u32 (5 + 2 ^ 32 - branch_mask test op) ≡ (if test == op % 2 then 6 else 5)
    count = rw (branch_mask_lem test op h) (ground arith)
