-- ===== src/ObjectFile.antt =====
-- The constants of the object file format. Code: cmds/bintools/obj.h.
use fuzemsys.Base.{ℕ}

-- The byte that introduces a relocation.
abbrev pub rel_esc : ℕ
rel_esc = 0xda

abbrev pub rel_simple : ℕ
rel_simple = 0x80

abbrev pub rel_symbol : ℕ
rel_symbol = 0x01

abbrev pub rel_pcrel : ℕ
rel_pcrel = 0x02

abbrev pub rel_rel : ℕ
rel_rel = 0x00

abbrev pub rel_eof : ℕ
rel_eof = 0x10

abbrev pub rel_overflow : ℕ
rel_overflow = 0x20

abbrev pub rel_high : ℕ
rel_high = 0x30

abbrev pub rel_org : ℕ
rel_org = 0x40

abbrev pub rel_pcr : ℕ
rel_pcr = 0x70

-- The number of segments, and those that the code names.
abbrev pub oseg : ℕ
oseg = 14

abbrev pub absolute : ℕ
absolute = 0

abbrev pub code_segment : ℕ
code_segment = 1

abbrev pub data_segment : ℕ
data_segment = 2

abbrev pub bss : ℕ
bss = 3

abbrev pub zp : ℕ
zp = 4

abbrev pub discard : ℕ
discard = 5

abbrev pub common : ℕ
common = 6

abbrev pub literal : ℕ
literal = 7

-- The flags of a symbol's type.
abbrev pub s_unknown : ℕ
s_unknown = 0x80

abbrev pub s_public : ℕ
s_public = 0x40

abbrev pub s_any : ℕ
s_any = 0x0f
