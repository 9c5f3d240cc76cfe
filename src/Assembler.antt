-- ===== src/Assembler.antt =====
-- The assembler's output of an object file. Code: cmds/bintools/as4.c (outbyte to outrawrel),
-- cmds/bintools/as2.c (err, qerr, aerr), cmds/bintools/as.h.
-- The file is written by putc after a seek to the place of the segment; `stream` holds what each
-- segment has been given, the latest first. The listing is not modelled.

pub mod Emit
pub mod Records
pub mod Examples
use fuzemsys.Base.{
  ℕ, ◌+◌, ◌/◌, ◌%◌, ◌^◌, bit_or, Bool, true, false, ◌&&◌, ◌||◌, not, Option, none, some, List, [],
  ◌∷◌, ltb, leb, ◌==◌, if◌then◌else◌,
}
use fuzemsys.Base.Bits.{u8, u16, u32}
use fuzemsys.ObjectFile.{
  rel_esc, rel_simple, rel_symbol, rel_pcrel, rel_rel, rel_overflow, rel_high, rel_org, rel_eof,
  rel_pcr, absolute, bss,
}

-- What as.h defines for a target: TARGET_BIGENDIAN and TARGET_RELOC_OVERFLOW_OK.
pub record Target : Type 0 where
  pub bigendian : Bool
  pub reloc_overflow_ok : Bool

abbrev pub segment_limit : ℕ
segment_limit = 0xffff

-- struct ADDR, with A_HIGH and A_LOW of `a_flags` as two fields, and of `a_sym` its s_number.
pub record Addr : Type 0 where
  pub a_value : ℕ
  pub a_segment : ℕ
  pub a_high : Bool
  pub a_low : Bool
  pub a_sym : Option ℕ

-- The error codes that this part uses; their numbers differ by target.
pub data ErrorCode : Type 0 where
  must_be_absolute phase_error constant_range data_in_bss segment_overflow : ErrorCode

-- The static variables. `errors` holds the letters and codes that were printed, the latest first.
pub record Assembler : Type 0 where
  pub pass : ℕ
  pub segment : ℕ
  pub dot : ℕ → ℕ
  pub truesize : ℕ → ℕ
  pub full : ℕ → Bool
  pub segsize : ℕ → ℕ
  pub segbase : ℕ → ℕ
  pub segpad : ℕ → ℕ
  pub stream : ℕ → List ℕ
  pub errors : List (ℕ × ErrorCode)
  pub noobj : Bool

-- A call ends, or jumps out of the line by longjmp.
pub data Outcome (A : Type 0) : Type 0 where
  done : A → Assembler → Outcome A
  jump : Assembler → Outcome A

abbrev pub Asm : Type 0 → Type 0
Asm A = Assembler → Outcome A

abbrev pub Void : Type 0
Void = Unit {0}

infixl 5 ◌>>=◌ ◌>>◌
unfoldable pub ◌>>=◌ : {A B : Type 0} → Asm A → (A → Asm B) → Asm B
◌>>=◌ m f s = elim (m s) [ done a s' ↦ f a s' | jump s' ↦ jump s' ]

abbrev pub ◌>>◌ : {B : Type 0} → Asm Void → Asm B → Asm B
m >> k = m >>= λ _. k

unfoldable pub pure : {A : Type 0} → A → Asm A
pure a s = done a s

unfoldable pub gets : {A : Type 0} → (Assembler → A) → Asm A
gets f s = done (f s) s

unfoldable pub modify : (Assembler → Assembler) → Asm Void
modify f s = done tt (f s)

abbrev pub update : {A : Type 0} → (ℕ → A) → ℕ → A → ℕ → A
update f p v q = if q == p then v else f q

-- `if (test) body`
abbrev pub when : Bool → Asm Void → Asm Void
when test body = if test then body else pure tt

-- err: it prints from the second pass on, and jumps for the letter q.
unfoldable pub err : ℕ → ErrorCode → Asm Void
err c code s =
    let s' = if ltb 1 s.pass then record s { errors = (c, code) ∷ s.errors; noobj = true } else s in
    if c == b'q' then jump s' else done tt s'

abbrev pub aerr : ErrorCode → Asm Void
aerr = err b'a'

abbrev pub qerr : ErrorCode → Asm Void
qerr = err b'q'

-- `b` is a uint8_t.
unfoldable pub outbyte : ℕ → Asm Void
outbyte b s =
    let g = s.segment in
    done tt (record s {
      stream =
          if s.pass == 3 && not (g == bss) then update s.stream g (u8 b ∷ s.stream g) else s.stream;
      segbase = update s.segbase g (s.segbase g + 1);
      segsize = update s.segsize g (u16 (s.segsize g + 1));
    })

unfoldable pub reservebyte : Asm Void
reservebyte s =
    done tt (record s { segpad = update s.segpad s.segment (u16 (s.segpad s.segment + 1)) })

unfoldable pub check_store_allowed : ℕ → Asm Void
check_store_allowed value =
    if value == 0
    then pure tt
    else (do g ← gets (λ s. s.segment); when (g == bss) (err b'b' data_in_bss))

unfoldable pub sizecheck : Asm Void
sizecheck = do
  over ← gets (λ s. s.full s.segment)
  when over (err b'o' segment_overflow)
  modify (λ s.
      if s.pass == 3 && (s.truesize s.segment == segment_limit || s.dot s.segment == segment_limit)
      then record s { full = update s.full s.segment true }
      else s)

-- ++dot[segment]; ++truesize[segment];
unfoldable pub count_byte : Asm Void
count_byte s =
    let g = s.segment in
    done tt (record s {
      dot = update s.dot g (u16 (s.dot g + 1));
      truesize = update s.truesize g (u32 (s.truesize g + 1));
    })

unfoldable pub outab : ℕ → Asm Void
outab b = do
  check_store_allowed (u8 b)
  sizecheck
  outbyte b
  when (u8 b == rel_esc) (outbyte rel_rel)
  count_byte

unfoldable pub outabyte : ℕ → Asm Void
outabyte b = do check_store_allowed (u8 b); sizecheck; outbyte b; count_byte

unfoldable pub outab2 : ℕ → Asm Void
outab2 b = do
  check_store_allowed (u8 b)
  sizecheck
  outbyte b
  if u8 b == rel_esc then outbyte rel_rel else reservebyte
  count_byte

unfoldable pub outabsolute : ℕ → Asm Void
outabsolute addr = do
  g ← gets (λ s. s.segment)
  if not (g == absolute)
      then qerr must_be_absolute
      else (do outbyte rel_esc; outbyte rel_org; outbyte addr; outbyte (addr / 2 ^ 8))

module _ (target : Target) where
  -- The two bytes of a word in the target's order, as `out` puts them.
  unfoldable pub out_word : (ℕ → Asm Void) → ℕ → Asm Void
  out_word out v =
      if target.bigendian then (do out (v / 2 ^ 8); out v) else (do out v; out (v / 2 ^ 8))

  -- The record that tells how to relocate, after REL_ESC and the modifiers.
  unfoldable pub out_kind : Option ℕ → ℕ → ℕ → Asm Void
  out_kind none s segment = do
    when (segment == 15) (aerr phase_error)
    outbyte (bit_or s (bit_or rel_simple segment))
  out_kind (some number) s segment = do
    outbyte (bit_or s rel_symbol)
    outbyte number
    outbyte (number / 2 ^ 8)

  -- The bytes to relocate.
  unfoldable pub out_relocated : Addr → ℕ → Asm Void
  out_relocated a bytes =
      if a.a_low
      then outabyte a.a_value
      else (if a.a_high
          then (if target.bigendian
              then (do outabyte (a.a_value / 2 ^ 8); outbyte a.a_value)
              else (do outbyte a.a_value; outabyte (a.a_value / 2 ^ 8)))
          else (if bytes == 1 then outabyte a.a_value else out_word outabyte a.a_value))

  -- The else branch of outreloc: a constant.
  unfoldable pub out_constant : Addr → ℕ → Asm Void
  out_constant a bytes =
      if a.a_high
      then outab2 (a.a_value / 2 ^ 8)
      else (if a.a_low
          then outab2 (u8 a.a_value)
          else (if bytes == 1 then outab a.a_value else out_word outab2 a.a_value))

  -- A value's low byte, as `a->a_value &= 0xFF` leaves it.
  abbrev pub low_byte : Addr → Addr
  low_byte a = if a.a_low then record a { a_value = u8 a.a_value } else a

  -- The caller's ADDR is returned, since the code masks its value.
  unfoldable pub outreloc : Addr → ℕ → Asm Addr
  outreloc a bytes =
      if not (a.a_segment == absolute) || (elim a.a_sym [ none ↦ false | some _ ↦ true ])
      then (do
        outbyte rel_esc
        check_store_allowed 1
        when target.reloc_overflow_ok (outbyte rel_overflow)
        when (not (bytes == 1) && (a.a_low || a.a_high)) (qerr constant_range)
        when (a.a_low && not target.reloc_overflow_ok) (outbyte rel_overflow)
        when a.a_high (outbyte rel_high)
        out_kind a.a_sym
            (if a.a_high then 0x10 else if a.a_low then 0 else if bytes == 1 then 0 else 0x10)
            a.a_segment
        out_relocated (low_byte a) bytes
        pure (low_byte a))
      else (do out_constant a bytes; pure a)

  unfoldable pub outraw : Addr → Asm Addr
  outraw a = outreloc a 2

  unfoldable pub outrab : Addr → Asm Addr
  outrab a = outreloc a 1

  unfoldable pub outabchk2 : Addr → Asm Void
  outabchk2 a =
      if a.a_low
      then outab a.a_value
      else (if a.a_high
          then outab (a.a_value / 2 ^ 8)
          else (do when (ltb 255 a.a_value) (err b'o' constant_range); outab a.a_value))

  -- `v` is outside an int8_t.
  abbrev pub too_far : ℕ → Bool
  too_far v = leb 128 v && ltb v 0xff80

  unfoldable pub outrabrel : Addr → Asm Void
  outrabrel a = do
    check_store_allowed 1
    elim a.a_sym [
      | some number ↦ do
        outbyte rel_esc
        outbyte rel_pcrel
        outbyte number
        outbyte (number / 2 ^ 8)
        outabyte a.a_value
        outbyte (a.a_value / 2 ^ 8)
      | none ↦ do when (too_far a.a_value) (err b'o' constant_range); outab2 a.a_value
    ]

  unfoldable pub outrawrel : Addr → Asm Void
  outrawrel a = do
    check_store_allowed 1
    elim a.a_sym [
      | some number ↦ do
        outbyte rel_esc
        outbyte (bit_or 0x10 rel_pcrel)
        outbyte number
        outbyte (number / 2 ^ 8)
        out_word outabyte a.a_value
      | none ↦ do
        outbyte rel_esc
        outbyte rel_pcr
        outbyte (bit_or 0x10 (bit_or rel_simple a.a_segment))
        out_word outabyte a.a_value
    ]

-- outeof writes this at the end of each segment.
unfoldable pub end_segment : Asm Void
end_segment = do outbyte rel_esc; outbyte rel_eof
