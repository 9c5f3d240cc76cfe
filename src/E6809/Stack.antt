-- ===== src/E6809/Stack.antt =====
-- Branches, and the instructions that push and pull. Code: emulators/e6809.c (inst_bra8 to inst_pul).
pub mod Branch
use fuzemsys.Base.{ℕ, ◌+◌, ◌-◌, ◌^◌, bit_and, bit_xor, ◌==◌, if◌then◌else◌}
use fuzemsys.Base.Bits.{u16, u32}
use fuzemsys.E6809.State.{
  Op, Void, ◌>>=◌, ◌>>◌, pure, gets, modify, call, add_cycles, Pointer, store,
}
use fuzemsys.E6809.Bus.{push8, push16, pull8, pull16, pc_read8, pc_read16}
use fuzemsys.E6809.Flags.{sign_extend}

-- `(test ^ (op & 1)) - 1`: all ones when the branch is taken, 0 when not.
unfoldable pub branch_mask : ℕ → ℕ → ℕ
branch_mask test op = u32 (bit_xor test (bit_and op 1) + 2 ^ 32 - 1)

unfoldable pub inst_bra8 : ℕ → ℕ → Op Void
inst_bra8 test op = do
  offset ← call pc_read8
  let mask = branch_mask test op
  modify (λ s. record s { reg_pc = u16 (s.reg_pc + bit_and (sign_extend offset) mask) })
  add_cycles 3

unfoldable pub inst_bra16 : ℕ → ℕ → Op Void
inst_bra16 test op = do
  offset ← call pc_read16
  let mask = branch_mask test op
  modify (λ s. record s { reg_pc = u16 (s.reg_pc + bit_and offset mask) })
  add_cycles (u32 (5 + 2 ^ 32 - mask))

-- `if (op & mask) { … }`
abbrev pub when_bit : ℕ → ℕ → Op Void → Op Void
when_bit op mask body = if bit_and op mask == 0 then pure tt else body

unfoldable pub inst_psh : ℕ → Pointer → ℕ → Op Void
inst_psh op sp word = do
  when_bit op 0x80 (do v ← gets (λ s. s.reg_pc); push16 sp v; add_cycles 2)
  when_bit op 0x40 (do push16 sp word; add_cycles 2)
  when_bit op 0x20 (do v ← gets (λ s. s.reg_y); push16 sp v; add_cycles 2)
  when_bit op 0x10 (do v ← gets (λ s. s.reg_x); push16 sp v; add_cycles 2)
  when_bit op 0x08 (do v ← gets (λ s. s.reg_dp); push8 sp v; add_cycles 1)
  when_bit op 0x04 (do v ← gets (λ s. s.reg_b); push8 sp v; add_cycles 1)
  when_bit op 0x02 (do v ← gets (λ s. s.reg_a); push8 sp v; add_cycles 1)
  when_bit op 0x01 (do v ← gets (λ s. s.reg_cc); push8 sp v; add_cycles 1)

unfoldable pub inst_pul : ℕ → Pointer → Pointer → Op Void
inst_pul op sp osp = do
  when_bit op 0x01 (do v ← call (pull8 sp); modify (λ s. record s { reg_cc = v }); add_cycles 1)
  when_bit op 0x02 (do v ← call (pull8 sp); modify (λ s. record s { reg_a = v }); add_cycles 1)
  when_bit op 0x04 (do v ← call (pull8 sp); modify (λ s. record s { reg_b = v }); add_cycles 1)
  when_bit op 0x08 (do v ← call (pull8 sp); modify (λ s. record s { reg_dp = v }); add_cycles 1)
  when_bit op 0x10 (do v ← call (pull16 sp); modify (λ s. record s { reg_x = v }); add_cycles 2)
  when_bit op 0x20 (do v ← call (pull16 sp); modify (λ s. record s { reg_y = v }); add_cycles 2)
  when_bit op 0x40 (do v ← call (pull16 sp); modify (store osp v); add_cycles 2)
  when_bit op 0x80
      (do v ← call (pull16 sp); modify (λ s. record s { reg_pc = u16 v }); add_cycles 2)
