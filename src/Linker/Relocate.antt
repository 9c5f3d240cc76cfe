-- ===== src/Linker/Relocate.antt =====
-- Relocation of a segment's stream. Code: cmds/bintools/ld.c (record_reloc, is_code, relocate_stream).
-- The seven tests of a code byte that follow each other are one function each: the record's modifiers, a
-- record relative to a segment, a record of a symbol.
use fuzemsys.Base.{
  ℕ, zero, suc, ◌+◌, ◌-◌, ◌*◌, ◌/◌, ◌^◌, bit_and, bit_or, Bool, true, false, ◌&&◌, ◌||◌, not, none,
  some, [], ◌∷◌, ltb, leb, ◌==◌, if◌then◌else◌, length, get_elem?,
}
use fuzemsys.Base.Bits.{u16}
use fuzemsys.ObjectFile.{
  rel_esc, rel_simple, rel_symbol, rel_pcrel, rel_rel, rel_eof, rel_overflow, rel_high, rel_org,
  rel_pcr, oseg, absolute, code_segment, discard, common, zp, s_unknown,
}
use fuzemsys.Linker.{
  done, is_absolute, is_rflag, is_fuzix, Symbol, Context, Link, Void, ◌>>=◌, ◌>>◌, pure, gets, when,
  warning, error, print_exit, io_readb, io_read16, fputc, xfseek, advance, fputc_reloc, target_put,
  target_get, invalid_reloc, invalid_reloc_type, invalid_reloc_sym, byte_relocation_exceeded,
  relocation_exceeded, corrupt_reloc_stream, unknown_symbol, absolute_needs_b, not_absolute_segment,
}

-- One byte of the stream is one of these to the loop: it goes on, or it has met REL_EOF.
pub data Round : Type 0 where
  go_on at_eof : Round

-- How the loop ends, when it does not exit.
pub data Ending : Type 0 where
  ended out_of_rounds : Ending

unfoldable pub is_code : ℕ → Bool
is_code seg = seg == code_segment || seg == discard || seg == common

-- The flags that the modifiers set, and the code byte after them.
pub record Modifiers : Type 0 where
  pub pcrel : Bool
  pub overflow : Bool
  pub high : Bool
  pub code : ℕ

-- `if (code == REL_PCR) …` and the two tests after it
unfoldable pub read_pcr : ℕ → Link Modifiers
read_pcr code =
    if code == rel_pcr
    then (do
      c ← io_readb code
      pure (record { pcrel = true; overflow = true; high = false; code = c }))
    else pure (record { pcrel = false; overflow = true; high = false; code = code })

unfoldable pub read_overflow : Modifiers → Link Modifiers
read_overflow m =
    if m.code == rel_overflow
    then (do c ← io_readb m.code; pure (record m { overflow = false; code = c }))
    else pure m

unfoldable pub read_high : Modifiers → Link Modifiers
read_high m =
    if m.code == rel_high
    then (do c ← io_readb m.code; pure (record m { high = true; overflow = false; code = c }))
    else pure m

abbrev pub reloc_size : ℕ → ℕ
reloc_size code = bit_and code 0x30 / 2 ^ 4 + 1

module _ (o : Context) where
  unfoldable pub record_reloc : Bool → ℕ → ℕ → ℕ → Link Void
  record_reloc high size seg addr =
      let addr' = if size == 2 && not o.bigendian then u16 (addr + 1) else addr in
      if seg == zp
      then (do fputc_reloc 0; fputc_reloc 0; fputc_reloc addr')
      else (if size == 1 && not high
          then pure tt
          else (do fputc_reloc 1; fputc_reloc (addr' / 2 ^ 8); fputc_reloc addr'))

  -- The tag that is kept before a record when the output is not raw.
  unfoldable pub keep_tag : Modifiers → Link Void
  keep_tag m = do
    fputc rel_esc
    when m.pcrel (fputc rel_pcrel)
    when (not m.overflow) (fputc rel_overflow)
    when m.high (fputc rel_high)
    fputc m.code

  -- A high relocation is cut to its high byte in a raw stream.
  abbrev pub cut : Bool → ℕ → ℕ
  cut high r = if high && o.rawstream then r / 2 ^ 8 else r

  abbrev pub cut_size : Bool → ℕ → ℕ
  cut_size high size = if high && o.rawstream then 1 else size

  unfoldable pub simple_pcrel : Modifiers → ℕ → ℕ → Link Void
  simple_pcrel m size seg = do
    r ← target_get o size
    dot ← gets (λ s. s.dot)
    let r' = u16 (u16 (r + o.base seg) + 2 ^ 16 - dot)
    target_put o (cut m.high r') (cut_size m.high size)
    advance (cut_size m.high size)

  unfoldable pub simple_absolute : Modifiers → ℕ → ℕ → Link Void
  simple_absolute m size seg = do
    r ← target_get o size
    dot ← gets (λ s. s.dot)
    let r' = u16 (r + o.base seg)
    when (m.overflow && (ltb r' (o.base seg) || (size == 1 && ltb 255 r')))
        (warning relocation_exceeded)
    target_put o (cut m.high r') (cut_size m.high size)
    when (is_fuzix o.ldmode) (record_reloc m.high (cut_size m.high size) seg dot)
    advance (cut_size m.high size)

  -- `if (code & REL_SIMPLE)`
  unfoldable pub relocate_simple : Modifiers → Link Void
  relocate_simple m = do
    let size = reloc_size m.code
    let seg = bit_and m.code 0x0f
    when (seg == absolute || leb oseg seg || ltb 2 size) (error invalid_reloc)
    when (not o.rawstream) (keep_tag m)
    if m.pcrel then simple_pcrel m size seg else simple_absolute m size seg

  -- The record of a symbol that is not known: it goes out again with the symbol's new number. What
  -- follows the else branch then puts the old number as well.
  unfoldable pub relocate_unknown : Modifiers → ℕ → Bool → Symbol → Link Void
  relocate_unknown m size is_pcrel sym = do
    when (not (is_rflag o.ldmode))
        (λ s. pure tt (record s { err = bit_or s.err 1; messages = unknown_symbol ∷ s.messages }))
    when (not o.rawstream) (do
      fputc rel_esc
      when (not m.overflow) (fputc rel_overflow)
      when m.high (fputc rel_high)
      fputc m.code
      fputc sym.number
      fputc (sym.number / 2 ^ 8))
    tmp ← io_readb 0
    fputc tmp
    when (size == 2 || is_pcrel) (do tmp' ← io_readb tmp; fputc tmp')

  -- `off < -128 || off > 127` of an int16_t
  abbrev pub byte_range : ℕ → Bool
  byte_range off = leb 128 off && ltb off 0xff80

  -- The value that is put for a known symbol, after its checks.
  unfoldable pub symbol_value : Modifiers → ℕ → Bool → Symbol → Link ℕ
  symbol_value m size is_pcrel sym = do
    r ← target_get o (if is_pcrel then 2 else size)
    dot ← gets (λ s. s.dot)
    let r' = u16 (r + sym.value)
    if is_pcrel
        then (do
          let off = u16 (r' + 2 ^ 16 - (if o.wordmachine then dot / 2 else dot))
          when (m.overflow && size == 1 && byte_range off) (error byte_relocation_exceeded)
          pure off)
        else (do
          when (m.overflow && (ltb r' sym.value || (size == 1 && ltb 255 r')))
              (error relocation_exceeded)
          pure r')

  unfoldable pub relocate_known : Modifiers → ℕ → Bool → Symbol → Link ℕ
  relocate_known m size is_pcrel sym = do
    r ← symbol_value m size is_pcrel sym
    when (not o.rawstream && not is_pcrel) (do
      fputc rel_esc
      when (not m.overflow) (fputc rel_overflow)
      when m.high (fputc rel_high)
      fputc (bit_or rel_simple (bit_or (bit_and sym.type 0x0f) ((size - 1) * 2 ^ 4))))
    pure r

  -- What both branches come to.
  unfoldable pub put_symbol : Modifiers → ℕ → ℕ → Bool → Symbol → Link Void
  put_symbol m r size is_pcrel sym = do
    dot ← gets (λ s. s.dot)
    when (not is_pcrel && is_fuzix o.ldmode) (record_reloc m.high size (bit_and sym.type 0x0f) dot)
    target_put o r size
    advance size

  unfoldable pub relocate_symbol : Modifiers → Bool → Link Void
  relocate_symbol m is_pcrel = do
    let size = reloc_size m.code
    n ← io_read16
    elim (get_elem? o.syment n) [
      | none ↦ error invalid_reloc_sym
      | some sym ↦
          if not (bit_and sym.type s_unknown == 0)
          then (do relocate_unknown m size is_pcrel sym; put_symbol m n size is_pcrel sym)
          else (do
            r ← relocate_known m size is_pcrel sym
            put_symbol m (cut m.high r) (cut_size m.high size) is_pcrel sym)
    ]

  -- A relocation, after its modifiers.
  unfoldable pub relocate_record : Modifiers → Link Void
  relocate_record m =
      if not (bit_and m.code rel_simple == 0)
      then relocate_simple m
      else (let optype = bit_and m.code 0x0f in
          if optype == rel_symbol
          then relocate_symbol m false
          else if optype == rel_pcrel
          then relocate_symbol m true
          else error invalid_reloc_type)

  -- REL_ORG
  unfoldable pub set_origin : ℕ → Link Void
  set_origin segment =
      if not (is_absolute o.ldmode)
      then print_exit absolute_needs_b
      else (if not (segment == absolute) then print_exit not_absolute_segment else (do
        dot ← io_read16
        (λ s. pure tt (record s { dot = dot }))
        xfseek (if not (is_code segment) && o.split_id then dot + 0x10000 else dot)))

  -- An escaped byte of the program.
  unfoldable pub put_escape : Link Void
  put_escape = do
    if o.rawstream then fputc rel_esc else (do fputc rel_esc; fputc rel_rel)
    advance 1

  -- What follows REL_ESC.
  unfoldable pub relocate_escaped : ℕ → ℕ → Link Round
  relocate_escaped segment code =
      if code == rel_eof
      then pure at_eof
      else (if code == rel_rel
          then (do put_escape; pure go_on)
          else (if code == rel_org then (do set_origin segment; pure go_on) else (do
            m ← read_pcr code
            m' ← read_overflow m
            m'' ← read_high m'
            relocate_record m''
            pure go_on)))

  -- One round of the loop, with the byte read.
  unfoldable pub relocate_byte : ℕ → ℕ → Link Round
  relocate_byte segment code =
      if not (code == rel_esc)
      then (do fputc code; advance 1; pure go_on)
      else (do next ← io_readb code; relocate_escaped segment next)

  -- The loop, on a number of rounds; the last line is the end of the file. To use up the rounds is an
  -- ending that the code does not have.
  unfoldable pub relocate_rounds : ℕ → ℕ → Link Ending
  relocate_rounds zero segment s = done out_of_rounds s
  relocate_rounds (suc fuel) segment s =
      let later = relocate_rounds fuel segment in
      elim s.input [
        | [] ↦ error corrupt_reloc_stream s
        | code ∷ rest ↦
            (relocate_byte segment code >>= λ round. elim round [
              | at_eof ↦ pure ended
              | go_on ↦ later
            ])
              (record s { input = rest })
      ]

  unfoldable pub relocate_stream : ℕ → Link Ending
  relocate_stream segment s = relocate_rounds (suc (length s.input)) segment s
