-- ===== src/E6809/Step/Stepping.antt =====
-- Single steps from the monitor, over a breakpoint. Code: emulators/emumon.c (ignore_breakpoint, as
-- run_instructions calls it), emulators/e6809.c (e6809_sstep).
use fuzemsys.Base.{
  ap, sym, ◌∙◌, ℕ, ◌%◌, Bool, Option, some, ◌^◌, ◌<◌, ◌≡◌, ◌≢◌, refl, true, false, ◌==◌, arith,
}
use fuzemsys.Breakpoints.{is_breakpoint, ignore_breakpoint, found, brk_inst, no_addr}
use fuzemsys.E6809.State.{Op, modify, Machine, done, ◌>>=◌}
use fuzemsys.E6809.Bus.Laws.{bind-done}
use fuzemsys.E6809.Step.{
  Host, should_stop, set_new_pc, enter_monitor, execute, page0, prefix_cases, swi, e6809_sstep,
}

-- The monitor was told to ignore the address of the program counter.
abbrev pub ignoring : Machine → Machine
ignoring s = record s { mon = ignore_breakpoint s.reg_pc s.mon }

-- The ignored address is used up.
abbrev pub passed : Machine → Machine
passed s = record s { mon = record s.mon { ignored_addr = no_addr } }

enter_monitor-ignoring :
    (host : Host) (s : Machine)
    → s.write_brkpt ≢ 1
    → enter_monitor host (ignoring s) ≡ done tt (passed s)
unfolding enter_monitor should_stop is_breakpoint ignore_breakpoint ◌>>=◌
enter_monitor-ignoring host s no_write =
    let plain : (s.write_brkpt == 1) ≡ false = ground arith in
    let same : (s.reg_pc == s.reg_pc) ≡ true = ground arith in rw (plain, same) refl

enter_monitor-found :
    (host : Host) (s : Machine)
    → s.write_brkpt ≢ 1
    → s.reg_pc < 2 ^ 16
    → found s.reg_pc brk_inst s.mon.brkpointlist ≡ true
    → enter_monitor host (passed s)
      ≡ (host.monitor s.reg_pc >>= set_new_pc) (record (passed s) { write_brkpt = 0 })
unfolding enter_monitor should_stop is_breakpoint ◌>>=◌
enter_monitor-found host s no_write pc here =
    let plain : (s.write_brkpt == 1) ≡ false = ground arith in
    let other : (s.reg_pc == no_addr) ≡ false = ground arith in rw (plain, other, here) refl

-- An ignored address that is used up already stays so.
passed-same : (s : Machine) → s.mon.ignored_addr ≡ no_addr → passed s ≡ s
passed-same s e = ap (λ (a : ℕ). record s { mon = record s.mon { ignored_addr = a } }) (sym e)

-- A host that has another monitor.
abbrev pub with_monitor : (ℕ → Op (Option ℕ)) → Host → Host
with_monitor other host = record host { monitor = other }

-- The machine at an address, which the monitor was told to ignore.
abbrev pub ignoring_at : ℕ → Machine → Machine
ignoring_at addr m = ignoring (record m { reg_pc = addr % 2 ^ 16 })

enter_monitor-some :
    (host : Host) (s m : Machine) (addr : ℕ)
    → s.write_brkpt ≢ 1
    → s.reg_pc < 2 ^ 16
    → s.mon.ignored_addr ≡ no_addr
    → found s.reg_pc brk_inst s.mon.brkpointlist ≡ true
    → host.monitor s.reg_pc (record s { write_brkpt = 0 }) ≡ done (some addr) m
    → enter_monitor host s ≡ done tt (record m { reg_pc = addr % 2 ^ 16 })
unfolding modify
enter_monitor-some host s m addr no_write pc used_up here answers =
    let same = passed-same s used_up in
    ap (enter_monitor host) (sym same)
    ∙ enter_monitor-found host s no_write pc here
    ∙ ap (λ (t : Machine). (host.monitor s.reg_pc >>= set_new_pc) (record t { write_brkpt = 0 }))
        same
    ∙ bind-done (host.monitor s.reg_pc) set_new_pc answers

-- With no write breakpoint pending and no ignored address, when the program counter is at an
-- instruction breakpoint and the monitor, run there, answers an address and again leaves no write
-- breakpoint pending and no ignored address, the whole step, whatever the interrupt lines, is the step
-- of the machine that the monitor leaves, at that address modulo 2 ^ 16, with the address to be
-- ignored; and that step is the same with any other monitor in the host's place.
pub e6809_sstep-ignore_breakpoint :
    (host : Host) (other : ℕ → Op (Option ℕ)) (irq_i irq_f : Bool) (s m : Machine) (addr : ℕ)
    → s.write_brkpt ≢ 1
    → s.reg_pc < 2 ^ 16
    → s.mon.ignored_addr ≡ no_addr
    → found s.reg_pc brk_inst s.mon.brkpointlist ≡ true
    → host.monitor s.reg_pc (record s { write_brkpt = 0 }) ≡ done (some addr) m
    → m.write_brkpt ≢ 1
    → m.mon.ignored_addr ≡ no_addr
    → e6809_sstep host irq_i irq_f s
      ≡ e6809_sstep (with_monitor other host) irq_i irq_f (ignoring_at addr m)
unfolding e6809_sstep execute page0 prefix_cases swi
e6809_sstep-ignore_breakpoint host other irq_i irq_f s m addr no_write pc used_up here answers
      no_write' used_up' =
    let there : Machine = record m { reg_pc = addr % 2 ^ 16 } in
    bind-done (enter_monitor host) _
      (enter_monitor-some host s m addr no_write pc used_up here answers)
    ∙ sym (
        bind-done (enter_monitor (with_monitor other host)) _ (
          enter_monitor-ignoring (with_monitor other host) there no_write'
          ∙ ap (done tt) (passed-same there used_up')))
