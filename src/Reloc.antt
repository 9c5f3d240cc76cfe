-- ===== src/Reloc.antt =====
-- The relocations of a Fuzix binary, put behind its data. Code: cmds/bintools/reloc.c.
-- The relocation file is its list of bytes, as record_reloc of the linker writes it; what is written
-- behind the data is a list with the latest byte first. The checks that the files open and can be read are
-- not modelled.
pub mod Format
pub mod Decode
pub mod ZeroPage
mod Examples
use fuzemsys.Base.{
  ℕ, zero, suc, ◌+◌, ◌-◌, ◌*◌, ◌/◌, ◌%◌, ◌^◌, Bool, true, false, not, List, [], ◌∷◌, ltb, leb, ◌==◌,
  if◌then◌else◌,
}
use fuzemsys.Base.Bits.{u8, u16}

-- The fields of struct exec that the program reads or changes.
pub record Exec : Type 0 where
  pub a_text : ℕ
  pub a_data : ℕ
  pub a_bss : ℕ
  pub a_zp : ℕ

-- What is written, and raddr.
pub record Writer : Type 0 where
  pub out : List ℕ
  pub raddr : ℕ

-- The relocations are written, or they are not sorted and the program exits.
pub data Outcome (A : Type 0) : Type 0 where
  done : A → Outcome A
  missorted : Writer → Outcome A

infixl 5 ◌>>=◌
abbrev pub ◌>>=◌ : {A B : Type 0} → Outcome A → (A → Outcome B) → Outcome B
done a >>= f = f a
missorted w >>= f = missorted w

abbrev pub put : ℕ → Writer → Writer
put b w = record w { out = u8 b ∷ w.out }

-- A byte with `raddr++`.
abbrev pub put_counted : ℕ → Writer → Writer
put_counted b w = record { out = u8 b ∷ w.out; raddr = u16 (w.raddr + 1) }

-- The loop of the zero page block. Its test is of laddr - addr; each of its rounds adds 254 to laddr, and
-- the rounds are bounded by the values of a uint16_t.
unfoldable pub skip_zp : ℕ → ℕ → ℕ → Writer → ℕ × Writer
skip_zp zero addr laddr w = (laddr, w)
skip_zp (suc fuel) addr laddr w =
    let later = skip_zp fuel addr (u16 (laddr + 254)) (put_counted 0xff w) in
    if ltb (addr + 254) laddr then later else (laddr, w)

unfoldable pub zp_block : List ℕ → ℕ → Writer → Outcome Writer
zp_block (kind ∷ hi ∷ lo ∷ rest) laddr w =
    let addr = hi * 2 ^ 8 + lo in
    let skipped = skip_zp (2 ^ 16) addr laddr w in
    let later = zp_block rest skipped.0 (put_counted (addr + 2 ^ 16 - skipped.0) skipped.1) in
    if not (kind == 0) then done w else if ltb addr laddr then missorted w else later
zp_block _ laddr w = done w

-- The loop over a gap of more than 254; it ends within as many rounds as the address.
unfoldable pub skip : ℕ → ℕ → ℕ → Writer → ℕ × Writer
skip zero addr laddr w = (laddr, w)
skip (suc fuel) addr laddr w =
    let later = skip fuel addr (u16 (laddr + 254)) (put_counted 0xff w) in
    if ltb 254 (addr - laddr) then later else (laddr, w)

-- The block of all other relocations.
unfoldable pub block : List ℕ → ℕ → Writer → Outcome Writer
block (kind ∷ hi ∷ lo ∷ rest) laddr w = elim (kind == 0) [
  | true ↦ block rest laddr w
  | false ↦
      let addr = hi * 2 ^ 8 + lo in
      elim (ltb addr laddr) [
        | true ↦ missorted w
        | false ↦
            let skipped = skip addr addr laddr w in
            block rest addr (put_counted (addr - skipped.0) skipped.1)
      ]
]
block _ laddr w = done w

-- The header, with the relocations taken out of the BSS.
unfoldable pub fix_header : Exec → ℕ → Exec
fix_header hdr raddr =
    let size = u16 (raddr + 2 ^ 16 - u16 (hdr.a_text + hdr.a_data)) in
    if leb size hdr.a_bss
    then record hdr { a_bss = hdr.a_bss - size; a_data = u16 (hdr.a_data + size) }
    else record hdr { a_bss = 0; a_data = u16 (hdr.a_data + size) }

-- main, once the header is read.
unfoldable pub relocate_binary : Exec → List ℕ → Outcome (Exec × Writer)
relocate_binary hdr relocs =
    let start : Writer = record { out = []; raddr = u16 (hdr.a_text + hdr.a_data) } in
    (if hdr.a_zp == 0 then done start else (zp_block relocs 0 start >>= λ w. done (put 0 w)))
    >>= λ w. block relocs 0 w >>= λ w'.
        let w'' = put_counted 0 w' in done (fix_header hdr w''.raddr, w'')
