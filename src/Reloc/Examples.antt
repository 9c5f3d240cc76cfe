-- ===== src/Reloc/Examples.antt =====
-- A relocation file of three records: a gap that needs a byte 0xff, a record of the zero page, which is
-- left out, and a near address. Code: cmds/bintools/reloc.c.
use fuzemsys.Base.{ℕ, ◌≡◌, refl, List, [], ◌∷◌, rev_onto, length, arith}
use fuzemsys.Base.Bits.{u16}
use fuzemsys.Reloc.{
  Exec, Writer, done, missorted, relocate_binary, zp_block, block, fix_header, skip,
}
use fuzemsys.Reloc.Format.{decode, addresses}
use fuzemsys.Reloc.Decode.{grown, decode-relocate_binary}
use fuzemsys.Reloc.ZeroPage.{zp_block-absolute}

abbrev hello : Exec
hello = record { a_text = 0x200; a_data = 0x80; a_bss = 4; a_zp = 0 }

abbrev hello_relocs : List ℕ
hello_relocs = 1 ∷ 0 ∷ 0x10 ∷ 0 ∷ 0 ∷ 5 ∷ 2 ∷ 1 ∷ 0x20 ∷ 1 ∷ 1 ∷ 0x24 ∷ []

hello_written :
    relocate_binary hello hello_relocs
    ≡ done (
      record { a_text = 0x200; a_data = 0x85; a_bss = 0; a_zp = 0 },
      record { out = 0 ∷ 4 ∷ 18 ∷ 0xff ∷ 0x10 ∷ []; raddr = 0x285 },
    )
unfolding relocate_binary block fix_header skip
hello_written = refl

-- Out of order.
hello_missorted :
    relocate_binary hello (1 ∷ 0 ∷ 0x20 ∷ 1 ∷ 0 ∷ 0x10 ∷ [])
    ≡ missorted (record { out = 0x20 ∷ []; raddr = 0x281 })
unfolding relocate_binary block skip
hello_missorted = refl

decode-relocate_binary_example :
    (hdr' : Exec) × (w : Writer) × (relocate_binary hello hello_relocs ≡ done (hdr', w))
    × (decode 0 (rev_onto w.out []) ≡ addresses hello_relocs)
    × (hdr' ≡ grown hello (u16 (length (rev_onto w.out []))))
decode-relocate_binary_example =
    decode-relocate_binary hello hello_relocs refl
      (omega arith, omega arith, (omega arith, omega arith, (omega arith, omega arith, tt)))

-- Two addresses of the zero page, the greater one first.
zp_block-absolute_example :
    (w : Writer) × (zp_block
        (0 ∷ 0 ∷ 0x20 ∷ 0 ∷ 0 ∷ 0x10 ∷ [])
        0
        (record { out = []; raddr = 0x280 })
      ≡ done w)
    × (w.out ≡ rev_onto (0x20 ∷ 0x10 ∷ []) [])
zp_block-absolute_example =
    zp_block-absolute (0 ∷ 0 ∷ 0x20 ∷ 0 ∷ 0 ∷ 0x10 ∷ []) (record { out = []; raddr = 0x280 })
      ((omega arith, (omega arith, tt)))
