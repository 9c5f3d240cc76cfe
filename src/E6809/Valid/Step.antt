-- ===== src/E6809/Valid/Step.antt =====
-- The invariant over one step of the processor. Code: emulators/e6809.c (e6809_sstep).
use fuzemsys.Base.{ℕ, ◌/◌, ◌%◌, ◌^◌, Bool, Option, none, some, ◌==◌, if_both, arith}
use fuzemsys.Base.Bits.{u16}
use fuzemsys.E6809.State.{Machine, modify, irq_normal, flag_f, flag_i}
use fuzemsys.E6809.Bus.{read16}
use fuzemsys.E6809.Flags.{get_cc}
use fuzemsys.E6809.Step.{
  SysResult, Host, should_stop, set_new_pc, firq, irq, swi, prefix_cases, page0, enter_monitor,
  execute, e6809_sstep,
}
use fuzemsys.E6809.Valid.{
  IsValid, Word, Ends, Ensures, Keeps, Yields, bind-Ensures, then-Ensures, if-Ensures, gets-Ensures,
  call-Ensures, pure-Keeps, modify-Keeps, add_cycles-Keeps, print_exit-Ensures,
}
use fuzemsys.E6809.Valid.Bus.{pc_read8-Ensures}
use fuzemsys.E6809.Valid.Bodies.{
  get_reg_d-Yields, set_reg_d-Keeps, Sound, none_left, case, switch-Keeps, pc-Yields,
}
use fuzemsys.E6809.Valid.Tables.{
  shift_right_cases-Sound, shift_left_cases-Sound, test_cases-Sound, subtract_cases-Sound,
  load_cases-Sound, store_cases-Sound, add_cases-Sound, word_cases-Sound, double_cases-Sound,
}
use fuzemsys.E6809.Valid.Control.{
  control_rules, go-Keeps, wait-Keeps, set_x-Keeps, set_y-Keeps, inst_psh-Keeps,
}
use fuzemsys.E6809.Valid.Pages.{
  any-Ensures, branch_cases-Sound, control_cases-Sound, wait_cases-Sound, page1-Keeps, page2-Keeps,
}

should_stop-IsValid : (s : Machine) → IsValid s → IsValid (should_stop s).1
unfolding should_stop
should_stop-IsValid s h =
    if_both {A = Bool × Machine} (λ r. IsValid r.1) (s.write_brkpt == 1) h
      (record { words = omega arith; bytes = h.bytes })

clear_write-Keeps : Keeps (modify (λ s. record s { write_brkpt = 0 }))
clear_write-Keeps = modify-Keeps _ (λ s h. record { words = omega arith; bytes = h.bytes })

clear_cycles-Keeps : Keeps (modify (λ s. record s { cycles = 0 }))
clear_cycles-Keeps = modify-Keeps _ (λ s h. record { words = omega arith; bytes = h.bytes })

set_new_pc-Keeps : (addr : Option ℕ) → Keeps (set_new_pc addr)
set_new_pc-Keeps none = pure-Keeps
set_new_pc-Keeps (some addr) = go-Keeps (λ s. addr)

vector-Keeps : (a : ℕ) → Keeps (modify (λ s. record s { reg_pc = u16 (read16 a s) }))
vector-Keeps a = go-Keeps (read16 a)

normal-Keeps : Keeps (modify (λ s. record s { irq_status = irq_normal }))
normal-Keeps = wait-Keeps 0 (omega arith)

ruleset interrupt_rules = (control_rules, inst_psh-Keeps, vector-Keeps, normal-Keeps)

pub firq-Keeps : Keeps firq
unfolding firq
firq-Keeps = bind-Ensures _ _ (any-Ensures (get_cc flag_f)) λ f _.
    bind-Ensures _ _ (any-Ensures (λ s. s.irq_status))
      λ status _. search interrupt_rules depth 20 fits 20000

pub irq-Keeps : Keeps irq
unfolding irq
irq-Keeps = bind-Ensures _ _ (any-Ensures (get_cc flag_i)) λ i _.
    bind-Ensures _ _ (any-Ensures (λ s. s.irq_status))
      λ status _. search interrupt_rules depth 20 fits 20000

-- What the parameters must promise: the monitor leaves the machine valid, and a system call
-- also answers with 32-bit values.
abbrev pub RunsMonitor : Host → Type 0
RunsMonitor host = (pc : ℕ) → Ensures (λ _. Unit {0}) (host.monitor pc)

abbrev pub Answers : SysResult → Type 0
Answers r = Word r.result × Word r.errno

abbrev pub RunsSyscall : Host → Type 0
RunsSyscall host = (d : ℕ) → Word d → Ensures Answers (host.do_syscall d)

module _ (host : Host) (monitor-Keeps : RunsMonitor host)
    (do_syscall-Answers : RunsSyscall host) where
  swi-Keeps : Keeps (swi host)
  unfolding swi
  swi-Keeps = bind-Ensures _ _ get_reg_d-Yields λ d w.
      bind-Ensures _ _ (do_syscall-Answers d w) λ r (x, e).
        then-Ensures _ _ (set_x-Keeps (r.result % 2 ^ 16) (omega arith)) (
          then-Ensures _ _ (set_reg_d-Keeps r.errno e) (
            then-Ensures _ _
              (if-Ensures r.longresult _ _ (set_y-Keeps (r.result / 2 ^ 16 % 2 ^ 16) (omega arith))
                pure-Keeps)
              (add_cycles-Keeps 7)))

  prefix_cases-Sound : Sound (prefix_cases host)
  unfolding prefix_cases
  prefix_cases-Sound = case swi-Keeps (
      case (bind-Ensures _ _ pc_read8-Ensures (λ op _. page1-Keeps op))
        (case (bind-Ensures _ _ pc_read8-Ensures (λ op _. page2-Keeps op)) none_left))

  page0-Keeps : (op : ℕ) → Keeps (page0 host op)
  unfolding page0
  page0-Keeps op = switch-Keeps op shift_right_cases-Sound (
      switch-Keeps op shift_left_cases-Sound (
        switch-Keeps op test_cases-Sound (
          switch-Keeps op subtract_cases-Sound (
            switch-Keeps op load_cases-Sound (
              switch-Keeps op store_cases-Sound (
                switch-Keeps op add_cases-Sound (
                  switch-Keeps op word_cases-Sound (
                    switch-Keeps op double_cases-Sound (
                      switch-Keeps op branch_cases-Sound (
                        switch-Keeps op control_cases-Sound (
                          switch-Keeps op wait_cases-Sound
                            (switch-Keeps op prefix_cases-Sound (print_exit-Ensures _ 1)))))))))))))

  enter_monitor-Keeps : Keeps (enter_monitor host)
  unfolding enter_monitor
  enter_monitor-Keeps =
      bind-Ensures _ _
        (call-Ensures {Q = λ _. Unit {0}} should_stop (λ s h. (tt, should_stop-IsValid s h)))
        λ stop _.
          if-Ensures stop _ _
            (then-Ensures _ _ clear_write-Keeps (
              bind-Ensures _ _ (any-Ensures (λ s. s.reg_pc))
                λ pc _. bind-Ensures _ _ (monitor-Keeps pc) λ addr _. set_new_pc-Keeps addr))
            pure-Keeps

  execute-Yields : Yields (execute host)
  unfolding execute
  execute-Yields =
      bind-Ensures _ _ pc_read8-Ensures (λ op _. then-Ensures _ _ (page0-Keeps op) pc-Yields)

  step-Yields : (irq_i irq_f : Bool) → Yields (e6809_sstep host irq_i irq_f)
  unfolding e6809_sstep
  step-Yields irq_i irq_f = then-Ensures _ _ enter_monitor-Keeps (
      then-Ensures _ _ clear_cycles-Keeps (
        then-Ensures _ _ (if-Ensures irq_f _ _ firq-Keeps pure-Keeps) (
          then-Ensures _ _ (if-Ensures irq_i _ _ irq-Keeps pure-Keeps) (
            bind-Ensures _ _ (any-Ensures (λ s. s.irq_status)) λ status _.
              if-Ensures (status == irq_normal) _ _ execute-Yields
                (gets-Ensures _ (λ s _. omega arith))))))

  -- For a monitor and a system call that leave a valid machine, and a system call that answers with
  -- 32-bit values: one step from a valid machine, whatever the interrupt lines, the op code and the
  -- memory are, ends or exits with a valid machine, and the number that it returns fits 32 bits.
  pub e6809_sstep-IsValid :
      (irq_i irq_f : Bool) (s : Machine) → IsValid s → Ends Word (e6809_sstep host irq_i irq_f s)
  e6809_sstep-IsValid irq_i irq_f s h = (step-Yields irq_i irq_f).runs s h
