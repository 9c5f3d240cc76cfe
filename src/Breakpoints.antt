-- ===== src/Breakpoints.antt =====
-- The breakpoint table of the monitor. Code: emulators/emumon.c and emulators/emumon.h.
-- An `int` address stands as its 32-bit pattern, so that -1 is 0xffffffff; the code only compares
-- addresses, and compares an `int` with the table's `unsigned` by that pattern.
pub mod Laws
mod Examples
use fuzemsys.Base.{
  ℕ, zero, suc, ◌-◌, ◌^◌, Bool, true, false, ◌&&◌, Option, none, some, List, [], ◌∷◌, map, ◌==◌,
  if◌then◌else◌, replicate,
}
use fuzemsys.Console.{Output, print_no_slot}

-- enum brkpt_nums
abbrev pub brk_empty : ℕ
brk_empty = 0

abbrev pub brk_write : ℕ
brk_write = 1

abbrev pub brk_inst : ℕ
brk_inst = 2

pub record BrkPoint : Type 0 where
  pub addr : ℕ
  pub brktype : ℕ

abbrev pub num_brkpoints : ℕ
num_brkpoints = 30

-- `brkpointlist` and `ignored_addr`.
pub record Monitor : Type 0 where
  pub brkpointlist : List BrkPoint
  pub ignored_addr : ℕ

-- -1
abbrev pub no_addr : ℕ
no_addr = 2 ^ 32 - 1

-- One round of the loop in remove_breakpoint.
unfoldable pub clear_at : ℕ → BrkPoint → BrkPoint
clear_at a b = if b.addr == a then record b { brktype = brk_empty } else b

unfoldable pub remove_breakpoint : ℕ → Monitor → Monitor
unfolding clear_at
remove_breakpoint a m = record m { brkpointlist = map (clear_at a) m.brkpointlist }

unfoldable pub empty_slot : BrkPoint → BrkPoint
empty_slot b = record b { brktype = brk_empty }

unfoldable pub remove_all_breakpoints : Monitor → Monitor
unfolding empty_slot
remove_all_breakpoints m = record m { brkpointlist = map empty_slot m.brkpointlist }

-- The loop in set_breakpoint; `none` is the loop's end with no slot found.
unfoldable pub fill_slot : ℕ → ℕ → List BrkPoint → Option (List BrkPoint)
fill_slot a type [] = none
fill_slot a type (b ∷ bs) =
    let later = fill_slot a type bs in
    if b.brktype == brk_empty
    then some (record { addr = a; brktype = type } ∷ bs)
    else elim later [ none ↦ none | some bs' ↦ some (b ∷ bs') ]

unfoldable pub set_breakpoint : ℕ → ℕ → Monitor → Monitor × List Output
set_breakpoint a type m = elim (fill_slot a type m.brkpointlist) [
  | none ↦ (m, print_no_slot ∷ [])
  | some bs ↦ (record m { brkpointlist = bs }, [])
]

unfoldable pub ignore_breakpoint : ℕ → Monitor → Monitor
ignore_breakpoint a m = record m { ignored_addr = a }

-- The loop in is_breakpoint.
unfoldable pub found : ℕ → ℕ → List BrkPoint → Bool
found a type [] = false
found a type (b ∷ bs) = if b.brktype == type && b.addr == a then true else found a type bs

-- The table's answer, and the monitor with the ignored address used up.
unfoldable pub is_breakpoint : ℕ → ℕ → Monitor → Bool × Monitor
is_breakpoint a type m =
    if a == m.ignored_addr
    then (false, record m { ignored_addr = no_addr })
    else (found a type m.brkpointlist, m)

-- The static arrays at the program's start, before and after `monitor_init`.
abbrev pub initial_monitor : Monitor
initial_monitor = record {
  brkpointlist = replicate num_brkpoints (record { addr = 0; brktype = 0 });
  ignored_addr = no_addr;
}

unfoldable pub monitor_init : Monitor → Monitor
monitor_init = remove_all_breakpoints
