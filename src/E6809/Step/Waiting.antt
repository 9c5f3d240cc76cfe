-- ===== src/E6809/Step/Waiting.antt =====
-- A processor that waits after cwai. Code: emulators/e6809.c (e6809_sstep).
use fuzemsys.Breakpoints.{is_breakpoint, brk_inst}
use fuzemsys.E6809.State.{Machine}

-- The machine after is_breakpoint has used up the ignored address.
abbrev pub asked : Machine → Machine
asked s = record s { mon = (is_breakpoint s.reg_pc brk_inst s.mon).1 }
