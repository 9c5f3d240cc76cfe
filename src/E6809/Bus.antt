-- ===== src/E6809/Bus.antt =====
-- Memory and the stack primitives. Code: emulators/emu6809.c (e6809_read8, e6809_write8) and
-- emulators/e6809.c (read8 to pc_read16).
-- The mask `& 0xffff` is the remainder by 2 ^ 16 (`Base.Bits.bit_and_mask`).
pub mod Laws
use fuzemsys.Base.{ℕ, ◌+◌, ◌-◌, ◌*◌, ◌/◌, ◌^◌, bit_or, ◌∷◌, ltb, ◌==◌, if◌then◌else◌}
use fuzemsys.Base.Bits.{u8, u16, u32}
use fuzemsys.Breakpoints.{is_breakpoint, brk_write}
use fuzemsys.Base.Int.{ℤ, pos, negsuc}
use fuzemsys.Console.{put_char, print_int, print_fail, print_write_at}
use fuzemsys.E6809.State.{
  Machine, done, exit, Op, Void, ◌>>=◌, ◌>>◌, gets, modify, Pointer, load, store,
}

unfoldable pub e6809_read8 : ℕ → Machine → ℕ
e6809_read8 addr s = s.ram (u16 addr)

abbrev pub update : (ℕ → ℕ) → ℕ → ℕ → ℕ → ℕ
update f p v q = if q == p then v else f q

-- The value that a write to 0xfefd prints: `if (x > 0x8000) x -= 0x10000`.
unfoldable pub signed_word : ℕ → ℤ
signed_word x = if ltb 0x8000 x then negsuc (0x10000 - x - 1) else pos x

-- `val` is an `unsigned char`.
unfoldable pub e6809_write8 : ℕ → ℕ → Op Void
e6809_write8 addr val s =
    if addr == 0xfeff
    then (if val == 0 then exit 0 s else exit 1 (record s { out = print_fail val ∷ s.out }))
    else (if addr == 0xfefe
        then done tt (record s { out = put_char val ∷ s.out })
        else (if addr == 0xfefd
            then done tt (record s {
              out = print_int (signed_word (bit_or (s.fefcval * 2 ^ 8) val)) ∷ s.out;
            })
            else (if addr == 0xfefc
                then done tt (record s { fefcval = val })
                else done tt (record s { ram = update s.ram (u16 addr) val }))))

unfoldable pub read8 : ℕ → Machine → ℕ
read8 address s = e6809_read8 (u16 address) s

-- The end of write8, with the answer of is_breakpoint.
unfoldable pub note_write : ℕ → Machine → Machine
note_write address s =
    let (hit, mon') = is_breakpoint address brk_write s.mon in
    if hit
    then record s { mon = mon'; write_brkpt = 1; out = print_write_at address ∷ s.out }
    else record s { mon = mon' }

unfoldable pub write8 : ℕ → ℕ → Op Void
write8 address data8 = do e6809_write8 (u16 address) (u8 data8); modify (note_write (u16 address))

unfoldable pub read16 : ℕ → Machine → ℕ
read16 address s =
    let datahi = read8 address s in
    let datalo = read8 (u32 (address + 1)) s in u32 (bit_or (datahi * 2 ^ 8) datalo)

unfoldable pub write16 : ℕ → ℕ → Op Void
write16 address data16 = do write8 address (data16 / 2 ^ 8); write8 (u32 (address + 1)) data16

unfoldable pub push8 : Pointer → ℕ → Op Void
push8 sp data8 = do
  modify (λ s. store sp (u32 (load sp s + 2 ^ 32 - 1)) s)
  p ← gets (load sp)
  write8 p data8

unfoldable pub pull8 : Pointer → Machine → ℕ × Machine
pull8 sp s = let data8 = read8 (load sp s) s in (data8, store sp (u32 (load sp s + 1)) s)

unfoldable pub push16 : Pointer → ℕ → Op Void
push16 sp data16 = do push8 sp data16; push8 sp (data16 / 2 ^ 8)

unfoldable pub pull16 : Pointer → Machine → ℕ × Machine
pull16 sp s =
    let (datahi, s₁) = pull8 sp s in
    let (datalo, s₂) = pull8 sp s₁ in (u32 (bit_or (datahi * 2 ^ 8) datalo), s₂)

unfoldable pub pc_read8 : Machine → ℕ × Machine
pc_read8 s = (read8 s.reg_pc s, record s { reg_pc = u16 (s.reg_pc + 1) })

unfoldable pub pc_read16 : Machine → ℕ × Machine
pc_read16 s = (read16 s.reg_pc s, record s { reg_pc = u16 (s.reg_pc + 2) })
