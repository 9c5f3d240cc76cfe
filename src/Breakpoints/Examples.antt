-- ===== src/Breakpoints/Examples.antt =====
-- The theorems on the breakpoint table at one table, and runs of it. Code: emulators/emumon.c.
use fuzemsys.Base.{ℕ, ◌≡◌, refl, ◌≢◌, false, ◌&&◌, ◌||◌, [], ◌∷◌, ◌==◌, length, arith}
use fuzemsys.Console.{print_no_slot}
use fuzemsys.Breakpoints.{
  Monitor, brk_inst, brk_write, set_breakpoint, remove_breakpoint, ignore_breakpoint, is_breakpoint,
  monitor_init, found, initial_monitor,
}
use fuzemsys.Breakpoints.Laws.{
  used, found-set_breakpoint, set_breakpoint_full, found-remove_breakpoint, found-monitor_init,
  is_breakpoint-ignore_breakpoint,
}

-- A table whose two slots are used.
abbrev full_table : Monitor
full_table = record {
  brkpointlist =
      record { addr = 0x100; brktype = brk_inst }
      ∷ record { addr = 0x200; brktype = brk_write }
      ∷ [];
  ignored_addr = 0x100;
}

found-set_breakpoint_example :
    let (m', printed) = set_breakpoint 0x100 brk_inst initial_monitor in
    ((a' type' : ℕ)
      → type' ≢ 0
      → found a' type' m'.brkpointlist
        ≡ ((0x100 == a' && brk_inst == type') || found a' type' initial_monitor.brkpointlist))
    × (used m'.brkpointlist ≡ 1)
    × (length m'.brkpointlist ≡ 30)
    × (m'.ignored_addr ≡ 0xffffffff)
    × (printed ≡ [])
found-set_breakpoint_example =
    found-set_breakpoint 0x100 brk_inst initial_monitor (omega arith) (omega arith)

set_breakpoint_full_example :
    set_breakpoint 0x300 brk_inst full_table ≡ (full_table, print_no_slot ∷ [])
set_breakpoint_full_example =
    set_breakpoint_full 0x300 brk_inst full_table (λ room. omega arith) (omega arith)

found-remove_breakpoint_example :
    found 0x100 brk_inst (remove_breakpoint 0x100 full_table).brkpointlist ≡ false
found-remove_breakpoint_example =
    found-remove_breakpoint 0x100 0x100 brk_inst full_table (omega arith)

found-monitor_init_example : found 0x100 brk_inst (monitor_init full_table).brkpointlist ≡ false
found-monitor_init_example = found-monitor_init 0x100 brk_inst full_table (omega arith)

is_breakpoint-ignore_breakpoint_example :
    let (hit, m') = is_breakpoint 0x100 brk_write (ignore_breakpoint 0x100 full_table) in
    (hit ≡ false)
    × ((is_breakpoint 0x100 brk_inst m').0 ≡ found 0x100 brk_inst full_table.brkpointlist)
is_breakpoint-ignore_breakpoint_example =
    is_breakpoint-ignore_breakpoint 0x100 brk_write brk_inst full_table (omega arith)

-- The ignored address is passed over once.
ignored : (is_breakpoint 0x100 brk_inst full_table).0 ≡ false
unfolding is_breakpoint
ignored = refl
