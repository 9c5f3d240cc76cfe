-- ===== src/E6809/Examples.antt =====
-- The theorems on the processor at one machine, and runs of it. Code: emulators/e6809.c.
use fuzemsys.Base.{
  some, inl, refl, ◌≢◌, ℕ, ◌+◌, ◌-◌, ◌≡◌, true, false, none, [], ◌==◌, if◌then◌else◌, arith, ◌∷◌,
}
use fuzemsys.Base.Bits.{u8, u16}
use fuzemsys.Breakpoints.{initial_monitor, found, brk_inst, no_addr}
use fuzemsys.E6809.State.{
  Machine, flag_f, flag_i, irq_normal, done, pure, flag_c, flag_h, final, to_s, load, flag_z,
}
use fuzemsys.E6809.Bus.{e6809_read8, read8, read16, push16, pull16}
use fuzemsys.E6809.Flags.{get_cc, set_cc, get_reg_d}
use fuzemsys.E6809.Flags.Laws.{get_cc-set_cc}
use fuzemsys.E6809.Flags.View.{cc_of}
use fuzemsys.E6809.Alu.{inst_add8, inst_adc, inst_sub8, inst_sbc, inst_add16, inst_sub16, set_hnzvc}
use fuzemsys.E6809.Alu.Sums.{sum_flags, diff_flags}
use fuzemsys.E6809.Alu.Bytes.{inst_add8_lem, inst_adc_lem, inst_sub8_lem, inst_sbc_lem}
use fuzemsys.E6809.Alu.Words.{sum_flags16, diff_flags16, inst_add16_lem, inst_sub16_lem}
use fuzemsys.E6809.Stack.{inst_bra8, inst_bra16}
use fuzemsys.E6809.Stack.Branch.{inst_bra8_lem, inst_bra16_lem}
use fuzemsys.E6809.Cases.Control.{less, higher, branch_test, bra8, daa, mul, rti}
use fuzemsys.E6809.Cases.Compare.{branch_test-inst_sub8, branch_test-inst_sub16, bra8-inst_sub8}
use fuzemsys.E6809.Bus.Laws.{pull16-push16}
use fuzemsys.E6809.Cases.Decimal.{summed, daa-inst_adc}
use fuzemsys.E6809.Cases.Product.{mul_lem}
use fuzemsys.E6809.Step.{Host, firq, e6809_sstep}
use fuzemsys.E6809.Step.Frame.{general}
use fuzemsys.E6809.Step.Fast.{rti-firq}
use fuzemsys.E6809.Step.Stepping.{with_monitor, ignoring_at, e6809_sstep-ignore_breakpoint}

-- adda #0x28 at 0x100, and an offset of -2 at 0x200.
abbrev program : ℕ → ℕ
program a = if a == 0x100 then 0x8b else if a == 0x101 then 0x28 else if a == 0x200 then 0xfe else 0

abbrev sample : Machine
sample = record {
  reg_x = 0x1234;
  reg_y = 0;
  reg_u = 0x8000;
  reg_s = 0xf000;
  reg_pc = 0x100;
  reg_a = 0x19;
  reg_b = 0x7f;
  reg_dp = 0;
  reg_cc = 0x51;
  irq_status = 0;
  write_brkpt = 0;
  cycles = 0;
  ram = program;
  fefcval = 0;
  mon = initial_monitor;
  out = [];
}

abbrev at_branch : Machine
at_branch = record sample { reg_pc = 0x200 }

-- A monitor that goes on at the same address, and system calls that answer 0.
abbrev quiet_host : Host
quiet_host = record {
  monitor = λ pc. pure none;
  do_syscall = λ d. pure (record { result = 0; longresult = false; errno = 0 });
}

-- -128 is less than 1, and 0x80 is higher than 1.
branch_test-inst_sub8_example : branch_test less (inst_sub8 0x80 1 sample).1 ≡ 1
branch_test-inst_sub8_example = branch_test-inst_sub8 less 0x80 1 sample

branch_test-inst_sub16_example : branch_test higher (inst_sub16 0x8000 1 sample).1 ≡ 0
branch_test-inst_sub16_example = branch_test-inst_sub16 higher 0x8000 1 sample

inst_add8_lem_example :
    (u8 (inst_add8 0x19 0x28 sample).0 ≡ 0x41)
    × (cc_of (inst_add8 0x19 0x28 sample).1 ≡ sum_flags 0x19 0x28 0 (cc_of sample))
inst_add8_lem_example = inst_add8_lem 0x19 0x28 sample

inst_adc_lem_example :
    (u8 (inst_adc 0x19 0x28 sample).0 ≡ u8 (0x19 + 0x28 + (cc_of sample).c))
    × (cc_of (inst_adc 0x19 0x28 sample).1 ≡ sum_flags 0x19 0x28 (cc_of sample).c (cc_of sample))
inst_adc_lem_example = inst_adc_lem 0x19 0x28 sample

inst_sub8_lem_example :
    (u8 (inst_sub8 0x19 0x28 sample).0 ≡ 0xf1)
    × (cc_of (inst_sub8 0x19 0x28 sample).1 ≡ diff_flags 0x19 0x28 0 (cc_of sample))
inst_sub8_lem_example = inst_sub8_lem 0x19 0x28 sample

inst_sbc_lem_example :
    (u8 (inst_sbc 0x19 0x28 sample).0 ≡ u8 (0x19 + 256 - 0x28 - (cc_of sample).c))
    × (cc_of (inst_sbc 0x19 0x28 sample).1 ≡ diff_flags 0x19 0x28 (cc_of sample).c (cc_of sample))
inst_sbc_lem_example = inst_sbc_lem 0x19 0x28 sample

inst_add16_lem_example :
    (u16 (inst_add16 0x7fff 1 sample).0 ≡ 0x8000)
    × (cc_of (inst_add16 0x7fff 1 sample).1 ≡ sum_flags16 0x7fff 1 (cc_of sample))
inst_add16_lem_example = inst_add16_lem 0x7fff 1 sample

inst_sub16_lem_example :
    (u16 (inst_sub16 0 1 sample).0 ≡ 0xffff)
    × (cc_of (inst_sub16 0 1 sample).1 ≡ diff_flags16 0 1 (cc_of sample))
inst_sub16_lem_example = inst_sub16_lem 0 1 sample

get_cc-set_cc_example : get_cc flag_c (set_cc flag_h 1 sample) ≡ get_cc flag_c sample
get_cc-set_cc_example = get_cc-set_cc 5 0 1 sample (omega arith) (omega arith) (omega arith)

-- The offset byte -2 takes the branch back to itself.
inst_bra8_lem_example :
    inst_bra8 1 0x27 at_branch ≡ done tt (record at_branch { reg_pc = 0x1ff; cycles = 3 })
unfolding read8 e6809_read8
inst_bra8_lem_example = inst_bra8_lem 1 0x27 at_branch (omega arith)

-- A long branch not taken passes its offset and takes 5 cycles.
inst_bra16_lem_example :
    inst_bra16 1 0x26 at_branch ≡ done tt (record at_branch { reg_pc = 0x202; cycles = 5 })
unfolding read8 read16 e6809_read8
inst_bra16_lem_example = inst_bra16_lem 1 0x26 at_branch (omega arith) (omega arith)

-- blt branches after -128 is compared with 1.
bra8-inst_sub8_example :
    let s' = (inst_sub8 0x80 1 at_branch).1 in
    bra8 less 0x2d s' ≡ done tt (record s' { reg_pc = 0x1ff; cycles = 3 })
unfolding read8 e6809_read8 inst_sub8 set_hnzvc set_cc
bra8-inst_sub8_example = bra8-inst_sub8 less 0x2d 0x80 1 at_branch

-- 19 + 28 + 1 = 48.
daa-inst_adc_example :
    let t = final (daa (summed 0x19 0x28 sample)) in
    (daa (summed 0x19 0x28 sample) ≡ done tt t) × (u8 t.reg_a ≡ 0x48) × (get_cc flag_c t ≡ 0)
unfolding get_cc
daa-inst_adc_example =
    daa-inst_adc 0x19 0x28 sample (omega arith, omega arith) (omega arith, omega arith)

pull16-push16_example :
    let t = final (push16 to_s 0x1234 sample) in
    (push16 to_s 0x1234 sample ≡ done tt t)
    × ((pull16 to_s t).0 ≡ 0x1234)
    × (load to_s (pull16 to_s t).1 ≡ 0xf000)
    × ((a : ℕ) → a ≢ 0xefff → a ≢ 0xeffe → t.ram a ≡ sample.ram a)
unfolding load
pull16-push16_example =
    pull16-push16 to_s 0x1234 sample (omega arith) (inl (omega arith)) (inl (omega arith))

-- 0x19 * 0x7f.
mul_lem_example :
    let t = final (mul sample) in
    (mul sample ≡ done tt t) × (get_reg_d t ≡ 3175) × (get_cc flag_z t ≡ 0) × (get_cc flag_c t ≡ 0)
mul_lem_example = mul_lem sample

-- Both flags are set in the sample.
abbrev waiting : Machine
waiting = record sample { irq_status = 2 }

-- A breakpoint at the program counter.
abbrev at_breakpoint : Machine
at_breakpoint = record sample {
  mon = record {
    brkpointlist = record { addr = 0x100; brktype = brk_inst } ∷ [];
    ignored_addr = no_addr;
  };
}

-- A monitor that answers the address of its breakpoint, so that a second stop would not end.
abbrev stubborn_host : Host
stubborn_host = record quiet_host { monitor = λ pc. pure (some 0x100) }

e6809_sstep-ignore_breakpoint_example :
    e6809_sstep stubborn_host false true at_breakpoint
    ≡ e6809_sstep
        (with_monitor (λ pc. pure none) stubborn_host)
        false
        true
        (ignoring_at 0x100 at_breakpoint)
unfolding found pure
e6809_sstep-ignore_breakpoint_example =
    e6809_sstep-ignore_breakpoint stubborn_host (λ pc. pure none) false true at_breakpoint
      at_breakpoint 0x100 (omega arith) (omega arith) refl refl refl (omega arith) refl

-- Both interrupts are allowed.
abbrev allowed : Machine
allowed = record sample { reg_cc = 0x85 }

rti-firq_example :
    let t = final (firq allowed) in
    let r = final (rti t) in
    (firq allowed ≡ done tt t)
    × (t.reg_pc ≡ u16 (read16 0xfff6 t))
    × (get_cc flag_f t ≡ 1)
    × (get_cc flag_i t ≡ 1)
    × (t.irq_status ≡ irq_normal)
    × (rti t ≡ done tt r)
    × (r.reg_s ≡ 0xf000)
    × (r.reg_pc ≡ 0x100)
    × (r.reg_cc ≡ 5)
    × (general r ≡ general allowed)
    × ((a : ℕ) → a ≢ 0xefff → a ≢ 0xeffe → a ≢ 0xeffd → t.ram a ≡ allowed.ram a)
unfolding get_cc set_cc
rti-firq_example =
    rti-firq allowed (omega arith) (inl (omega arith)) (inl (omega arith)) (inl (omega arith)) refl
      (omega arith)
