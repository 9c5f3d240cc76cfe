-- ===== src/E6809/Cases/Control.antt =====
-- Page 0, op codes 0x10 to 0x3f and the calls: branches, stack, condition codes, interrupts.
-- Code: emulators/e6809.c (e6809_sstep).
use fuzemsys.Base.{
  ℕ, ◌+◌, ◌*◌, ◌/◌, ◌^◌, bit_and, bit_or, bit_xor, ◌||◌, ◌&&◌, [], ◌∷◌, ltb, ◌==◌, if◌then◌else◌,
}
use fuzemsys.Base.Bits.{u16, u32}
use fuzemsys.E6809.State.{
  Machine, Op, Void, ◌>>=◌, ◌>>◌, gets, modify, call, add_cycles, to_x, to_y, to_u, to_s, flag_e,
  flag_h, flag_n, flag_z, flag_v, flag_c, irq_sync, irq_cwai,
}
use fuzemsys.E6809.Bus.{read16, push16, pull16, pc_read8, pc_read16}
use fuzemsys.E6809.Flags.{
  get_cc, set_cc, test_c, test_n, test_z8, test_z16, get_reg_d, set_reg_d, sign_extend,
}
use fuzemsys.E6809.Address.{ea_direct, ea_extended, ea_indexed}
use fuzemsys.E6809.Stack.{inst_bra8, inst_bra16, inst_psh, inst_pul}
use fuzemsys.E6809.Transfer.{inst_exg, inst_tfr}
use fuzemsys.E6809.Cases.{Cases, jsr, lea_z, lea}

-- The flag test of each pair of branches, as the argument of inst_bra8 and inst_bra16.
pub data Test : Type 0 where
  always higher carry zero_flag overflow negative less less_or_equal : Test

unfoldable pub branch_test : Test → Machine → ℕ
branch_test always s = 0
branch_test higher s = bit_or (get_cc flag_c s) (get_cc flag_z s)
branch_test carry s = get_cc flag_c s
branch_test zero_flag s = get_cc flag_z s
branch_test overflow s = get_cc flag_v s
branch_test negative s = get_cc flag_n s
branch_test less s = bit_xor (get_cc flag_n s) (get_cc flag_v s)
branch_test less_or_equal s = bit_or (get_cc flag_z s) (bit_xor (get_cc flag_n s) (get_cc flag_v s))

unfoldable pub bra8 : Test → ℕ → Op Void
bra8 t op = do test ← gets (branch_test t); inst_bra8 test op

unfoldable pub bra16 : Test → ℕ → Op Void
bra16 t op = do test ← gets (branch_test t); inst_bra16 test op

unfoldable pub mul : Op Void
mul = do
  a ← gets (λ s. s.reg_a)
  b ← gets (λ s. s.reg_b)
  let r = u32 (bit_and a 0xff * bit_and b 0xff)
  modify (set_reg_d r)
  modify (set_cc flag_z (test_z16 r))
  modify (set_cc flag_c (bit_and (r / 2 ^ 7) 1))
  add_cycles 11

unfoldable pub lbra : Op Void
lbra = do r ← call pc_read16; modify (λ s. record s { reg_pc = u16 (s.reg_pc + r) }); add_cycles 5

unfoldable pub lbsr : Op Void
lbsr = do
  r ← call pc_read16
  pc ← gets (λ s. s.reg_pc)
  push16 to_s pc
  modify (λ s. record s { reg_pc = u16 (s.reg_pc + r) })
  add_cycles 9

unfoldable pub bsr : Op Void
bsr = do
  r ← call pc_read8
  pc ← gets (λ s. s.reg_pc)
  push16 to_s pc
  modify (λ s. record s { reg_pc = u16 (s.reg_pc + sign_extend r) })
  add_cycles 7

unfoldable pub pshs : Op Void
pshs = do op ← call pc_read8; u ← gets (λ s. s.reg_u); inst_psh op to_s u; add_cycles 5

unfoldable pub puls : Op Void
puls = do op ← call pc_read8; inst_pul op to_s to_u; add_cycles 5

unfoldable pub pshu : Op Void
pshu = do op ← call pc_read8; v ← gets (λ s. s.reg_s); inst_psh op to_u v; add_cycles 5

unfoldable pub pulu : Op Void
pulu = do op ← call pc_read8; inst_pul op to_u to_s; add_cycles 5

unfoldable pub rts : Op Void
rts = do p ← call (pull16 to_s); modify (λ s. record s { reg_pc = u16 p }); add_cycles 5

unfoldable pub abx : Op Void
abx = do modify (λ s. record s { reg_x = u32 (s.reg_x + bit_and s.reg_b 0xff) }); add_cycles 3

unfoldable pub orcc : Op Void
orcc = do v ← call pc_read8; modify (λ s. record s { reg_cc = bit_or s.reg_cc v }); add_cycles 3

unfoldable pub andcc : Op Void
andcc = do v ← call pc_read8; modify (λ s. record s { reg_cc = bit_and s.reg_cc v }); add_cycles 3

unfoldable pub sex : Op Void
sex = do
  modify (λ s. set_reg_d (sign_extend s.reg_b) s)
  modify (λ s. set_cc flag_n (test_n s.reg_a) s)
  modify (λ s. set_cc flag_z (test_z16 (get_reg_d s)) s)
  add_cycles 2

unfoldable pub rti : Op Void
rti = do
  e ← gets (get_cc flag_e)
  if e == 0 then inst_pul 0x81 to_s to_u else inst_pul 0xff to_s to_u
  add_cycles 3

unfoldable pub sync : Op Void
sync = do modify (λ s. record s { irq_status = irq_sync }); add_cycles 2

-- The correction that daa adds.
unfoldable pub daa_correction : Machine → ℕ
daa_correction s =
    let lo = bit_and s.reg_a 0x0f in
    let hi = bit_and s.reg_a 0xf0 in
    let i₁ : ℕ = if ltb 0x09 lo || get_cc flag_h s == 1 then 0x06 else 0 in
    let i₂ = if ltb 0x80 hi && ltb 0x09 lo then bit_or i₁ 0x60 else i₁ in
    if ltb 0x90 hi || get_cc flag_c s == 1 then bit_or i₂ 0x60 else i₂

unfoldable pub daa : Op Void
daa = do
  i0 ← gets (λ s. s.reg_a)
  i1 ← gets daa_correction
  let r = u32 (i0 + i1)
  modify (λ s. record s { reg_a = r })
  modify (set_cc flag_n (test_n r))
  modify (set_cc flag_z (test_z8 r))
  modify (set_cc flag_v 0)
  modify (set_cc flag_c (test_c i0 i1 r 0))
  add_cycles 2

unfoldable pub cwai : Op Void
cwai = do
  v ← call pc_read8
  modify (λ s. record s { reg_cc = bit_and s.reg_cc v })
  modify (set_cc flag_e 1)
  u ← gets (λ s. s.reg_u)
  inst_psh 0xff to_s u
  modify (λ s. record s { irq_status = irq_cwai })
  add_cycles 4

-- swi2 and swi3, by the address of their vector.
unfoldable pub swi_vector : ℕ → Op Void
swi_vector vector = do
  modify (set_cc flag_e 1)
  u ← gets (λ s. s.reg_u)
  inst_psh 0xff to_s u
  modify (λ s. record s { reg_pc = u16 (read16 vector s) })
  add_cycles 8

-- nop, mul and the short branches
unfoldable pub branch_cases : Cases
branch_cases =
    (0x12, add_cycles 2)
    ∷ (0x3d, mul)
    ∷ (0x20, bra8 always 0x20)
    ∷ (0x21, bra8 always 0x21)
    ∷ (0x22, bra8 higher 0x22)
    ∷ (0x23, bra8 higher 0x23)
    ∷ (0x24, bra8 carry 0x24)
    ∷ (0x25, bra8 carry 0x25)
    ∷ (0x26, bra8 zero_flag 0x26)
    ∷ (0x27, bra8 zero_flag 0x27)
    ∷ (0x28, bra8 overflow 0x28)
    ∷ (0x29, bra8 overflow 0x29)
    ∷ (0x2a, bra8 negative 0x2a)
    ∷ (0x2b, bra8 negative 0x2b)
    ∷ (0x2c, bra8 less 0x2c)
    ∷ (0x2d, bra8 less 0x2d)
    ∷ (0x2e, bra8 less_or_equal 0x2e)
    ∷ (0x2f, bra8 less_or_equal 0x2f)
    ∷ []

-- lbra, lbsr, bsr, jsr, leax, leay, leas, leau, pshs, puls, pshu, pulu, rts, abx, orcc, andcc,
-- sex, exg, tfr, rti
unfoldable pub control_cases : Cases
control_cases =
    (0x16, lbra)
    ∷ (0x17, lbsr)
    ∷ (0x8d, bsr)
    ∷ (0x9d, jsr ea_direct 7)
    ∷ (0xad, jsr ea_indexed 7)
    ∷ (0xbd, jsr ea_extended 8)
    ∷ (0x30, lea_z to_x ea_indexed)
    ∷ (0x31, lea_z to_y ea_indexed)
    ∷ (0x32, lea to_s ea_indexed)
    ∷ (0x33, lea to_u ea_indexed)
    ∷ (0x34, pshs)
    ∷ (0x35, puls)
    ∷ (0x36, pshu)
    ∷ (0x37, pulu)
    ∷ (0x39, rts)
    ∷ (0x3a, abx)
    ∷ (0x1a, orcc)
    ∷ (0x1c, andcc)
    ∷ (0x1d, sex)
    ∷ (0x1e, do inst_exg; add_cycles 8)
    ∷ (0x1f, do inst_tfr; add_cycles 6)
    ∷ (0x3b, rti)
    ∷ []

-- sync, daa, cwai
unfoldable pub wait_cases : Cases
wait_cases = (0x13, sync) ∷ (0x19, daa) ∷ (0x3c, cwai) ∷ []
