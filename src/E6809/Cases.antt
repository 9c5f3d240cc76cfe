-- ===== src/E6809/Cases.antt =====
-- The bodies that the op code switch of e6809_sstep repeats, and its form. Code: emulators/e6809.c.
pub mod Unary
pub mod Accumulator
pub mod Word
pub mod Control
pub mod Pages
pub mod Compare
pub mod Decimal
pub mod Product
use fuzemsys.Base.{ℕ, ◌^◌, bit_or, Bool, true, false, List, [], ◌∷◌, ◌==◌, if◌then◌else◌}
use fuzemsys.Base.Bits.{u16}
use fuzemsys.E6809.State.{
  Machine, Op, Void, ◌>>=◌, ◌>>◌, pure, gets, modify, call, add_cycles, Pointer, load, store, to_s,
  flag_z,
}
use fuzemsys.E6809.Bus.{read8, write8, read16, write16, pc_read8, pc_read16, push16}
use fuzemsys.E6809.Flags.{get_reg_d, set_reg_d, test_z16, set_cc}
use fuzemsys.E6809.Alu.{inst_tst8, inst_tst16, inst_clr}

-- Case labels and the bodies under them.
abbrev pub Cases : Type 0
Cases = List (ℕ × Op Void)

unfoldable pub switch : ℕ → Cases → Op Void → Op Void
switch op [] default = default
switch op ((label, body) ∷ cs) default = if op == label then body else switch op cs default

-- An instruction on one operand, and on two.
abbrev pub Inst1 : Type 0
Inst1 = ℕ → Machine → ℕ × Machine

abbrev pub Inst2 : Type 0
Inst2 = ℕ → ℕ → Machine → ℕ × Machine

pub data Acc : Type 0 where
  acc_a acc_b : Acc

unfoldable pub get_acc : Acc → Machine → ℕ
get_acc acc_a s = s.reg_a
get_acc acc_b s = s.reg_b

unfoldable pub set_acc : Acc → ℕ → Machine → Machine
set_acc acc_a v s = record s { reg_a = v }
set_acc acc_b v s = record s { reg_b = v }

-- Operands: the byte or word after the op code, or at an effective address.
unfoldable pub imm8 : Op ℕ
imm8 = call pc_read8

unfoldable pub byte_at : Op ℕ → Op ℕ
byte_at ea = do p ← ea; gets (read8 p)

unfoldable pub imm16 : Op ℕ
imm16 = call pc_read16

unfoldable pub word_at : Op ℕ → Op ℕ
word_at ea = do p ← ea; gets (read16 p)

-- ea = …; r = inst (read8 (ea)); write8 (ea, r); cycles += n;
unfoldable pub rmw : Inst1 → Op ℕ → ℕ → Op Void
rmw inst ea n = do p ← ea; byte ← gets (read8 p); r ← call (inst byte); write8 p r; add_cycles n

-- reg_a = inst (reg_a); cycles += 2;
unfoldable pub on_acc : Inst1 → Acc → Op Void
on_acc inst acc = do v ← gets (get_acc acc); r ← call (inst v); modify (set_acc acc r); add_cycles 2

unfoldable pub tst_at : Op ℕ → ℕ → Op Void
tst_at ea n = do v ← byte_at ea; modify (inst_tst8 v); add_cycles n

unfoldable pub tst_acc : Acc → Op Void
tst_acc acc = do v ← gets (get_acc acc); modify (inst_tst8 v); add_cycles 2

unfoldable pub jmp : Op ℕ → ℕ → Op Void
jmp ea n = do p ← ea; modify (λ s. record s { reg_pc = u16 p }); add_cycles n

unfoldable pub clr_at : Op ℕ → ℕ → Op Void
clr_at ea n = do p ← ea; modify inst_clr; write8 p 0; add_cycles n

unfoldable pub clr_acc : Acc → Op Void
clr_acc acc = do modify inst_clr; modify (set_acc acc 0); add_cycles 2

-- reg_a = inst (reg_a, operand); cycles += n;
unfoldable pub alu : Inst2 → Acc → Op ℕ → ℕ → Op Void
alu inst acc operand n = do
  v ← operand
  a ← gets (get_acc acc)
  r ← call (inst a v)
  modify (set_acc acc r)
  add_cycles n

-- inst (reg_a, operand); cycles += n;
unfoldable pub alu_flags : Inst2 → Acc → Op ℕ → ℕ → Op Void
alu_flags inst acc operand n = do
  v ← operand
  a ← gets (get_acc acc)
  r ← call (inst a v)
  add_cycles n

unfoldable pub ld : Acc → Op ℕ → ℕ → Op Void
ld acc operand n = do v ← operand; modify (set_acc acc v); modify (inst_tst8 v); add_cycles n

unfoldable pub st : Acc → Op ℕ → ℕ → Op Void
st acc ea n = do p ← ea; v ← gets (get_acc acc); write8 p v; modify (inst_tst8 v); add_cycles n

-- set_reg_d (inst (get_reg_d (), operand)); cycles += n;
unfoldable pub alu_d : Inst2 → Op ℕ → ℕ → Op Void
alu_d inst operand n = do
  v ← operand
  d ← gets get_reg_d
  r ← call (inst d v)
  modify (set_reg_d r)
  add_cycles n

-- inst_sub16 (register, operand); cycles += n;
unfoldable pub cmp16 : Inst2 → (Machine → ℕ) → Op ℕ → ℕ → Op Void
cmp16 inst reg operand n = do v ← operand; w ← gets reg; r ← call (inst w v); add_cycles n

unfoldable pub ld16 : Pointer → Op ℕ → ℕ → Op Void
ld16 reg operand n = do v ← operand; modify (store reg v); modify (inst_tst16 v); add_cycles n

unfoldable pub st16 : (Machine → ℕ) → Op ℕ → ℕ → Op Void
st16 reg ea n = do
  p ← ea
  v ← gets reg
  write16 p v
  w ← gets reg
  modify (inst_tst16 w)
  add_cycles n

unfoldable pub ld_d : Op ℕ → ℕ → Op Void
ld_d operand n = do
  v ← operand
  modify (set_reg_d v)
  d ← gets get_reg_d
  modify (inst_tst16 d)
  add_cycles n

unfoldable pub jsr : Op ℕ → ℕ → Op Void
jsr ea n = do
  p ← ea
  pc ← gets (λ s. s.reg_pc)
  push16 to_s pc
  modify (λ s. record s { reg_pc = u16 p })
  add_cycles n

-- leax and leay set the zero flag; leas and leau do not.
unfoldable pub lea_z : Pointer → Op ℕ → Op Void
lea_z reg ea = do p ← ea; modify (store reg p); modify (set_cc flag_z (test_z16 p)); add_cycles 4

unfoldable pub lea : Pointer → Op ℕ → Op Void
lea reg ea = do p ← ea; modify (store reg p); add_cycles 4
