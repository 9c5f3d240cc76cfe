-- ===== src/E6809/Valid/Bodies.antt =====
-- The invariant over the repeated bodies of the op code switch, and over the switch.
-- Code: emulators/e6809.c (e6809_sstep).
use fuzemsys.Base.{ℕ, ◌%◌, ◌^◌, [], ◌∷◌, ◌==◌, arith}
use fuzemsys.E6809.State.{Machine, Op, Void, gets, modify, call, Pointer, store}
use fuzemsys.E6809.Bus.{read8, read16}
use fuzemsys.E6809.Flags.{get_reg_d, set_reg_d, set_cc}
use fuzemsys.E6809.Alu.{inst_tst8, inst_tst16, inst_clr}
use fuzemsys.E6809.Cases.{
  Cases, switch, Inst1, Inst2, Acc, get_acc, set_acc, imm8, byte_at, imm16, word_at, rmw, on_acc,
  tst_at, tst_acc, jmp, clr_at, clr_acc, alu, alu_flags, ld, st, alu_d, cmp16, ld16, st16, ld_d,
  jsr, lea_z, lea,
}
use fuzemsys.E6809.Valid.{
  IsValid, Words, Word, Ensures, Keeps, Yields, bind_value-Ensures, then-Ensures, if-Ensures,
  gets-Ensures, call-Ensures, modify-Keeps, add_cycles-Keeps,
}
use fuzemsys.E6809.Valid.Alu.{
  IsSound1, IsSound2, get_reg_d-Word, set_reg_d-IsValid, store-IsValid, get_acc-Word,
  set_acc-IsValid, set_cc-IsValid, inst_tst8-IsValid, inst_tst16-IsValid, inst_clr-IsValid,
}
use fuzemsys.E6809.Valid.Bus.{
  read8-Word, read16-Word, write8-Keeps, write16-Keeps, push16-Keeps, pc_read8-Ensures,
  pc_read16-Ensures,
}

-- Reads of the state.
pub gets-Yields : (f : Machine → ℕ) → ((s : Machine) → IsValid s → Word (f s)) → Yields (gets f)
gets-Yields f h = gets-Ensures f h

pub read8-Yields : (p : ℕ) → Yields (gets (read8 p))
read8-Yields p = gets-Ensures (read8 p) (read8-Word p)

pub read16-Yields : (p : ℕ) → Yields (gets (read16 p))
read16-Yields p = gets-Ensures (read16 p) (read16-Word p)

pub get_acc-Yields : (acc : Acc) → Yields (gets (get_acc acc))
get_acc-Yields acc = gets-Ensures (get_acc acc) (get_acc-Word acc)

pub get_reg_d-Yields : Yields (gets get_reg_d)
get_reg_d-Yields = gets-Ensures get_reg_d get_reg_d-Word

pub pc-Yields : Yields (gets (λ s. s.reg_pc))
pc-Yields = gets-Ensures _ (λ s h. omega arith)

-- Writes of the state.
pub store-Keeps : (p : Pointer) (v : ℕ) → Word v → Keeps (modify (store p v))
store-Keeps p v w = modify-Keeps _ (store-IsValid p v w)

pub set_acc-Keeps : (acc : Acc) (v : ℕ) → Word v → Keeps (modify (set_acc acc v))
set_acc-Keeps acc v w = modify-Keeps _ (set_acc-IsValid acc v w)

pub set_reg_d-Keeps : (v : ℕ) → Word v → Keeps (modify (set_reg_d v))
set_reg_d-Keeps v w = modify-Keeps _ (set_reg_d-IsValid v w)

pub set_cc-Keeps : (flag v : ℕ) → Keeps (modify (set_cc flag v))
set_cc-Keeps flag v = modify-Keeps _ (set_cc-IsValid flag v)

pub inst_tst8-Keeps : (v : ℕ) → Keeps (modify (inst_tst8 v))
inst_tst8-Keeps v = modify-Keeps _ (inst_tst8-IsValid v)

pub inst_tst16-Keeps : (v : ℕ) → Keeps (modify (inst_tst16 v))
inst_tst16-Keeps v = modify-Keeps _ (inst_tst16-IsValid v)

pub inst_clr-Keeps : Keeps (modify inst_clr)
inst_clr-Keeps = modify-Keeps _ inst_clr-IsValid

pub set_pc-Keeps : (v : ℕ) → Keeps (modify (λ s. record s { reg_pc = v % 2 ^ 16 }))
set_pc-Keeps v = modify-Keeps _ (λ s h. record { words = omega arith; bytes = h.bytes })

pub ruleset step_rules = (
  bind_value-Ensures, then-Ensures, add_cycles-Keeps, write8-Keeps, write16-Keeps, push16-Keeps,
  pc_read8-Ensures, pc_read16-Ensures, read8-Yields, read16-Yields, get_acc-Yields,
  get_reg_d-Yields, pc-Yields, store-Keeps, set_acc-Keeps, set_reg_d-Keeps, set_cc-Keeps,
  inst_tst8-Keeps, inst_tst16-Keeps, inst_clr-Keeps, set_pc-Keeps,
)

call1 : (inst : Inst1) → IsSound1 inst → (v : ℕ) → Word v → Yields (call (inst v))
call1 inst sound v w = call-Ensures _ (sound v w)

call2 : (inst : Inst2) → IsSound2 inst → (v w : ℕ) → Word v → Word w → Yields (call (inst v w))
call2 inst sound v w hv hw = call-Ensures _ (sound v hv w hw)

zero-Word : Word 0
zero-Word = omega arith

pub imm8-Yields : Yields imm8
unfolding imm8
imm8-Yields = pc_read8-Ensures

pub imm16-Yields : Yields imm16
unfolding imm16
imm16-Yields = pc_read16-Ensures

module _ (ea : Op ℕ) (address : Yields ea) where
  pub byte_at-Yields : Yields (byte_at ea)
  unfolding byte_at
  byte_at-Yields = search step_rules

  pub word_at-Yields : Yields (word_at ea)
  unfolding word_at
  word_at-Yields = search step_rules

  pub rmw-Keeps : (inst : Inst1) (n : ℕ) → IsSound1 inst → Keeps (rmw inst ea n)
  unfolding rmw
  rmw-Keeps inst n sound = search (step_rules, call1 inst sound) depth 8

  pub tst_at-Keeps : (n : ℕ) → Keeps (tst_at ea n)
  unfolding tst_at
  tst_at-Keeps n = search (step_rules, byte_at-Yields)

  pub jmp-Keeps : (n : ℕ) → Keeps (jmp ea n)
  unfolding jmp
  jmp-Keeps n = search step_rules

  pub clr_at-Keeps : (n : ℕ) → Keeps (clr_at ea n)
  unfolding clr_at
  clr_at-Keeps n = search step_rules

  pub st-Keeps : (acc : Acc) (n : ℕ) → Keeps (st acc ea n)
  unfolding st
  st-Keeps acc n = search step_rules depth 8

  pub st16-Keeps : (reg : Machine → ℕ) (n : ℕ) → Yields (gets reg) → Keeps (st16 reg ea n)
  unfolding st16
  st16-Keeps reg n h = search step_rules depth 8

  pub jsr-Keeps : (n : ℕ) → Keeps (jsr ea n)
  unfolding jsr
  jsr-Keeps n = search step_rules depth 8

  pub lea_z-Keeps : (reg : Pointer) → Keeps (lea_z reg ea)
  unfolding lea_z
  lea_z-Keeps reg = search step_rules

  pub lea-Keeps : (reg : Pointer) → Keeps (lea reg ea)
  unfolding lea
  lea-Keeps reg = search step_rules

module _ (operand : Op ℕ) (ho : Yields operand) where
  pub alu-Keeps :
      (inst : Inst2) (acc : Acc) (n : ℕ) → IsSound2 inst → Keeps (alu inst acc operand n)
  unfolding alu
  alu-Keeps inst acc n sound = search (step_rules, call2 inst sound) depth 8

  pub alu_flags-Keeps :
      (inst : Inst2) (acc : Acc) (n : ℕ) → IsSound2 inst → Keeps (alu_flags inst acc operand n)
  unfolding alu_flags
  alu_flags-Keeps inst acc n sound = search (step_rules, call2 inst sound) depth 8

  pub ld-Keeps : (acc : Acc) (n : ℕ) → Keeps (ld acc operand n)
  unfolding ld
  ld-Keeps acc n = search step_rules

  pub alu_d-Keeps : (inst : Inst2) (n : ℕ) → IsSound2 inst → Keeps (alu_d inst operand n)
  unfolding alu_d
  alu_d-Keeps inst n sound = search (step_rules, call2 inst sound) depth 8

  pub cmp16-Keeps :
      (inst : Inst2) (reg : Machine → ℕ) (n : ℕ)
      → IsSound2 inst
      → Yields (gets reg)
      → Keeps (cmp16 inst reg operand n)
  unfolding cmp16
  cmp16-Keeps inst reg n sound h = search (step_rules, call2 inst sound) depth 8

  pub ld16-Keeps : (reg : Pointer) (n : ℕ) → Keeps (ld16 reg operand n)
  unfolding ld16
  ld16-Keeps reg n = search step_rules

  pub ld_d-Keeps : (n : ℕ) → Keeps (ld_d operand n)
  unfolding ld_d
  ld_d-Keeps n = search step_rules depth 8

pub on_acc-Keeps : (inst : Inst1) (acc : Acc) → IsSound1 inst → Keeps (on_acc inst acc)
unfolding on_acc
on_acc-Keeps inst acc sound = search (step_rules, call1 inst sound) depth 8

pub tst_acc-Keeps : (acc : Acc) → Keeps (tst_acc acc)
unfolding tst_acc
tst_acc-Keeps acc = search step_rules

pub clr_acc-Keeps : (acc : Acc) → Keeps (clr_acc acc)
unfolding clr_acc
clr_acc-Keeps acc = search (step_rules, zero-Word)

-- A switch whose bodies keep the invariant keeps it, if its default does.
pub data Sound : Cases → Type 0 where
  none_left : Sound []
  case : {n : ℕ} {body : Op Void} {cs : Cases} → Keeps body → Sound cs → Sound ((n, body) ∷ cs)

pub switch-Keeps :
    (op : ℕ) {cs : Cases} {default : Op Void}
    → Sound cs
    → Keeps default
    → Keeps (switch op cs default)
unfolding switch
switch-Keeps op none_left hd = hd
switch-Keeps op (case {n} {body} {cs} h hs) hd =
    if-Ensures (op == n) body _ h (switch-Keeps op hs hd)
