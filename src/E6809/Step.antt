-- ===== src/E6809/Step.antt =====
-- One step of the processor, and reset. Code: emulators/e6809.c (e6809_reset to e6809_get_regs).
-- The monitor and the system calls are a `Host`. The logfile and the interrupt trace are not
-- modelled: what they print does not change the machine.
pub mod Waiting
pub mod Stepping
pub mod Frame
pub mod Fast
use fuzemsys.Base.{
  ℕ, ◌+◌, ◌/◌, ◌%◌, ◌^◌, bit_or, Bool, true, Option, none, some, [], ◌∷◌, ◌==◌, if◌then◌else◌,
}
use fuzemsys.Base.Bits.{u8, u16, u32}
use fuzemsys.Breakpoints.{is_breakpoint, brk_inst}
use fuzemsys.Console.{print_unknown}
use fuzemsys.E6809.State.{
  Machine, Op, Void, ◌>>=◌, ◌>>◌, pure, gets, modify, call, print_exit, add_cycles, to_s, flag_e,
  flag_f, flag_i, irq_normal, irq_sync, irq_cwai,
}
use fuzemsys.E6809.Bus.{read16, pc_read8}
use fuzemsys.E6809.Flags.{get_cc, set_cc, get_reg_d, set_reg_d}
use fuzemsys.E6809.Stack.{inst_psh}
use fuzemsys.E6809.Cases.{Cases, switch}
use fuzemsys.E6809.Cases.Unary.{shift_right_cases, shift_left_cases, test_cases}
use fuzemsys.E6809.Cases.Accumulator.{subtract_cases, load_cases, store_cases, add_cases}
use fuzemsys.E6809.Cases.Word.{word_cases, double_cases}
use fuzemsys.E6809.Cases.Control.{branch_cases, control_cases, wait_cases}
use fuzemsys.E6809.Cases.Pages.{page1, page2}

-- What do_syscall leaves: its 32-bit result, `longresult`, and errno.
pub record SysResult : Type 0 where
  pub result : ℕ
  pub longresult : Bool
  pub errno : ℕ

-- `monitor` answers `none` for -1, and else an address.
pub record Host : Type 0 where
  pub monitor : ℕ → Op (Option ℕ)
  pub do_syscall : ℕ → Op SysResult

-- `write_brkpt==1 || is_breakpoint(reg_pc, BRK_INST)`, which asks the table only if it has to.
unfoldable pub should_stop : Machine → Bool × Machine
should_stop s =
    if s.write_brkpt == 1
    then (true, s)
    else (let (hit, mon') = is_breakpoint s.reg_pc brk_inst s.mon in (hit, record s { mon = mon' }))

abbrev pub set_new_pc : Option ℕ → Op Void
set_new_pc none = pure tt
set_new_pc (some addr) = modify (λ s. record s { reg_pc = addr % 2 ^ 16 })

-- The two interrupts: the stack frame, unless cwai has made it.
unfoldable pub firq : Op Void
firq = do
  f ← gets (get_cc flag_f)
  status ← gets (λ s. s.irq_status)
  if f == 0
      then (do
        if status == irq_cwai
            then pure tt
            else (do modify (set_cc flag_e 0); u ← gets (λ s. s.reg_u); inst_psh 0x81 to_s u)
        modify (set_cc flag_i 1)
        modify (set_cc flag_f 1)
        modify (λ s. record s { reg_pc = u16 (read16 0xfff6 s) })
        modify (λ s. record s { irq_status = irq_normal })
        add_cycles 7)
      else (if status == irq_sync
          then modify (λ s. record s { irq_status = irq_normal })
          else pure tt)

unfoldable pub irq : Op Void
irq = do
  i ← gets (get_cc flag_i)
  status ← gets (λ s. s.irq_status)
  if i == 0
      then (do
        if status == irq_cwai
            then pure tt
            else (do modify (set_cc flag_e 1); u ← gets (λ s. s.reg_u); inst_psh 0xff to_s u)
        modify (set_cc flag_i 1)
        modify (λ s. record s { reg_pc = u16 (read16 0xfff8 s) })
        modify (λ s. record s { irq_status = irq_normal })
        add_cycles 7)
      else (if status == irq_sync
          then modify (λ s. record s { irq_status = irq_normal })
          else pure tt)

module _ (host : Host) where
  unfoldable pub swi : Op Void
  swi = do
    d ← gets get_reg_d
    r ← host.do_syscall d
    modify (λ s. record s { reg_x = r.result % 2 ^ 16 })
    modify (set_reg_d r.errno)
    if r.longresult then modify (λ s. record s { reg_y = r.result / 2 ^ 16 % 2 ^ 16 }) else pure tt
    add_cycles 7

  -- swi, and the prefixes of pages 1 and 2
  unfoldable pub prefix_cases : Cases
  prefix_cases =
      (0x3f, swi)
      ∷ (0x10, do op ← call pc_read8; page1 op)
      ∷ (0x11, do op ← call pc_read8; page2 op)
      ∷ []

  -- The switch of e6809_sstep.
  unfoldable pub page0 : ℕ → Op Void
  page0 op = switch op shift_right_cases (
      switch op shift_left_cases (
        switch op test_cases (
          switch op subtract_cases (
            switch op load_cases (
              switch op store_cases (
                switch op add_cases (
                  switch op word_cases (
                    switch op double_cases (
                      switch op branch_cases (
                        switch op control_cases (
                          switch op wait_cases
                            (switch op prefix_cases (print_exit (print_unknown 0 op) 1)))))))))))))

  unfoldable pub enter_monitor : Op Void
  unfolding should_stop
  enter_monitor = do
    stop ← call should_stop
    if stop
        then (do
          modify (λ s. record s { write_brkpt = 0 })
          pc ← gets (λ s. s.reg_pc)
          addr ← host.monitor pc
          set_new_pc addr)
        else pure tt

  unfoldable pub execute : Op ℕ
  execute = do op ← call pc_read8; page0 op; gets (λ s. s.reg_pc)

  unfoldable pub e6809_sstep : Bool → Bool → Op ℕ
  e6809_sstep irq_i irq_f = do
    enter_monitor
    modify (λ s. record s { cycles = 0 })
    if irq_f then firq else pure tt
    if irq_i then irq else pure tt
    status ← gets (λ s. s.irq_status)
    if status == irq_normal then execute else gets (λ s. u32 (s.cycles + 1))

unfoldable pub e6809_reset : ℕ → ℕ → Machine → Machine
e6809_reset sp pc s = record s {
  reg_x = 0;
  reg_y = 0;
  reg_u = 0;
  reg_s = sp;
  reg_a = 0;
  reg_b = 0;
  reg_dp = 0;
  reg_cc = bit_or flag_i flag_f;
  irq_status = irq_normal;
  reg_pc = pc;
}

-- struct reg6809 and e6809_get_regs
pub record Reg6809 : Type 0 where
  pub pc : ℕ
  pub x : ℕ
  pub y : ℕ
  pub u : ℕ
  pub s : ℕ
  pub a : ℕ
  pub b : ℕ
  pub dp : ℕ
  pub cc : ℕ

unfoldable pub e6809_get_regs : Machine → Reg6809
e6809_get_regs m = record {
  pc = u16 m.reg_pc;
  x = u16 m.reg_x;
  y = u16 m.reg_y;
  u = u16 m.reg_u;
  s = u16 m.reg_s;
  a = u8 m.reg_a;
  b = u8 m.reg_b;
  dp = u8 m.reg_dp;
  cc = u8 m.reg_cc;
}
