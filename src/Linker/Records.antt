-- ===== src/Linker/Records.antt =====
-- What a round of the loop does with a relocation and with a byte, in a raw stream. Code: cmds/bintools/ld.c
-- (relocate_stream).
use fuzemsys.Base.{
  ℕ, ◌+◌, ◌/◌, ◌^◌, ◌<◌, bit_and, ◌≡◌, sym, ap, Bool, true, false, ◌&&◌, ◌||◌, not, some, List, [],
  ◌∷◌, ◌++◌, ◌==◌, ltb, leb, if◌then◌else◌, get_elem?,
}
use mathlib.Core.Path.{subst}
use fuzemsys.Base.Bits.{u8, u16}
use fuzemsys.ObjectFile.{
  rel_esc, rel_rel, rel_eof, rel_org, rel_pcr, rel_overflow, rel_high, rel_simple, rel_symbol,
  absolute, oseg, s_unknown,
}
use fuzemsys.Linker.{
  Context, Symbol, Link, Void, ◌>>=◌, ◌>>◌, pure, when, advance, target_put, is_fuzix, io_readb,
}
use fuzemsys.Linker.Relocate.{
  Modifiers, Round, go_on, cut, cut_size, reloc_size, simple_absolute, relocate_simple,
  symbol_value, relocate_known, put_symbol, relocate_symbol, relocate_record, read_pcr,
  read_overflow, read_high, relocate_escaped, relocate_byte, put_escape,
}
use fuzemsys.Linker.Takes.{
  Takes, then-Takes, take_then, take_bind, put_then, pure_then, then_pure, gets-Takes, pure-Takes,
  either-Takes,
}
use fuzemsys.Linker.Moves.{
  fputc-Takes, advance-Takes, io_readb-Takes, io_read16-Takes, record_reloc-Takes, target_get-Takes,
  target_put-Takes, sized, sized_bytes,
}

-- A call under a test that is false, and then the rest.
pub skip-Takes :
    {B : Type 0} (test : Bool) (m : Link Void) {k : Link B} {b : B} {bs ws : List ℕ} {n : ℕ}
    → test ≡ false
    → Takes bs ws n k b
    → Takes bs ws n (when test m >> k) b
skip-Takes {B} test m {k} {b} {bs} {ws} {n} e h =
    subst (λ (t : Bool). Takes {A = B} bs ws n (when t m >> k) b) (sym e)
      (then-Takes (pure-Takes tt) h)

-- The test that reports an overflow.
abbrev pub exceeds : ℕ → ℕ → ℕ → Bool
exceeds size base r = ltb r base || (size == 1 && ltb 255 r)

-- What the tests on the code byte of a relocation say.
pub record IsRecord (code : ℕ) : Type 0 where
  pub not_eof : (code == rel_eof) ≡ false
  pub not_rel : (code == rel_rel) ≡ false
  pub not_org : (code == rel_org) ≡ false
  pub not_pcr : (code == rel_pcr) ≡ false
  pub not_overflow : (code == rel_overflow) ≡ false
  pub not_high : (code == rel_high) ≡ false

-- The record in the stream: the modifiers, the code and what follows it.
abbrev pub tagged : Bool → Bool → ℕ → List ℕ → List ℕ
tagged unchecked high code bs =
    (if unchecked then rel_overflow ∷ [] else [])
    ++ ((if high then rel_high ∷ [] else []) ++ code ∷ bs)

module _ (o : Context) (raw : o.rawstream ≡ true) where
  -- The end of every relocation that is not relative to the position.
  put_value :
      (high : Bool) (size r : ℕ) {m : Link Void}
      → Takes [] [] 0 m tt
      → Takes []
          (sized_bytes o (cut_size o high size) (cut o high r))
          (cut_size o high size)
          (target_put o (cut o high r) (cut_size o high size)
            >> (m >> advance (cut_size o high size)))
          tt
  put_value high size r h = put_then (target_put-Takes o raw _ _) (then-Takes h (advance-Takes _))

  simple_absolute-Takes :
      (m : Modifiers) (size seg v : ℕ)
      → (m.overflow && exceeds size (o.base seg) (u16 (sized size v + o.base seg))) ≡ false
      → Takes
          (sized_bytes o size v)
          (sized_bytes o (cut_size o m.high size) (cut o m.high (u16 (sized size v + o.base seg))))
          (cut_size o m.high size)
          (simple_absolute o m size seg)
          tt
  unfolding simple_absolute
  simple_absolute-Takes m size seg v fits = take_then _ (target_get-Takes o size v) (
      gets-Takes (λ s. s.dot)
        λ d. skip-Takes _ _ fits (
          put_value m.high size _
            (either-Takes (is_fuzix o.ldmode) (record_reloc-Takes o _ _ seg d) (pure-Takes tt))))

  pub relocate_simple-Takes :
      (overflow high : Bool) (code size seg v : ℕ)
      → (bit_and code rel_simple == 0) ≡ false
      → bit_and code 0x0f ≡ seg
      → reloc_size code ≡ size
      → (seg == absolute || leb oseg seg || ltb 2 size) ≡ false
      → (overflow && exceeds size (o.base seg) (u16 (sized size v + o.base seg))) ≡ false
      → Takes
          (sized_bytes o size v)
          (sized_bytes o (cut_size o high size) (cut o high (u16 (sized size v + o.base seg))))
          (cut_size o high size)
          (relocate_record o
            (record { pcrel = false; overflow = overflow; high = high; code = code }))
          tt
  unfolding relocate_record relocate_simple
  relocate_simple-Takes overflow high code size seg v is_simple of_seg of_size in_range fits =
      rw (is_simple, of_seg, of_size)
        (skip-Takes _ _ in_range
          (skip-Takes _ _ (ap not raw) (simple_absolute-Takes _ size seg v fits)))

  module _ (overflow high : Bool) (code size v : ℕ) (entry : Symbol)
      (known : (bit_and entry.type s_unknown == 0) ≡ true)
      (fits : (overflow && exceeds size entry.value (u16 (sized size v + entry.value)))
        ≡ false) where
    symbol_value-Takes :
        Takes
          (sized_bytes o size v)
          []
          0
          (symbol_value o
            (record { pcrel = false; overflow = overflow; high = high; code = code })
            size
            false
            entry)
          (u16 (sized size v + entry.value))
    unfolding symbol_value
    symbol_value-Takes =
        take_then _ (target_get-Takes o size v)
          (gets-Takes (λ s. s.dot) λ d. skip-Takes _ _ fits (pure-Takes _))

    relocate_known-Takes :
        Takes
          (sized_bytes o size v)
          []
          0
          (relocate_known o
            (record { pcrel = false; overflow = overflow; high = high; code = code })
            size
            false
            entry)
          (u16 (sized size v + entry.value))
    unfolding relocate_known
    relocate_known-Takes =
        take_then _ symbol_value-Takes
          (skip-Takes _ _ (ap (λ (r : Bool). not r && not false) raw) (pure-Takes _))

    put_symbol-Takes :
        (r : ℕ)
        → Takes []
            (sized_bytes o (cut_size o high size) (cut o high r))
            (cut_size o high size)
            (put_symbol o
              (record { pcrel = false; overflow = overflow; high = high; code = code })
              (cut o high r)
              (cut_size o high size)
              false
              entry)
            tt
    unfolding put_symbol
    put_symbol-Takes r =
        gets-Takes (λ s. s.dot)
          λ d.
            then-Takes
              (either-Takes (is_fuzix o.ldmode) (record_reloc-Takes o _ _ _ d) (pure-Takes tt))
              (put_then (target_put-Takes o raw _ _) (advance-Takes _))

    pub relocate_symbol-Takes :
        (number : ℕ)
        → (bit_and code rel_simple == 0) ≡ true
        → bit_and code 0x0f ≡ rel_symbol
        → reloc_size code ≡ size
        → number < 2 ^ 16
        → get_elem? o.syment number ≡ some entry
        → Takes
            (u8 number ∷ u8 (number / 2 ^ 8) ∷ sized_bytes o size v)
            (sized_bytes o (cut_size o high size) (cut o high (u16 (sized size v + entry.value))))
            (cut_size o high size)
            (relocate_record o
              (record { pcrel = false; overflow = overflow; high = high; code = code }))
            tt
    unfolding relocate_record relocate_symbol
    relocate_symbol-Takes number not_simple of_type of_size small is_entry =
        rw (not_simple, of_type)
          (take_bind _ (io_read16-Takes number small)
            (rw (is_entry, known, of_size) (take_then _ relocate_known-Takes (put_symbol-Takes _))))

  module _ (segment : ℕ) where
    -- The two bytes that every escape has.
    after_two :
        (code : ℕ) {bs ws : List ℕ} {n : ℕ} {round : Round}
        → Takes bs ws n (relocate_escaped o segment code) round
        → Takes
            (rel_esc ∷ code ∷ bs)
            ws
            n
            (io_readb rel_esc >>= λ c. relocate_byte o segment c)
            round
    unfolding relocate_byte
    after_two code h =
        take_bind _ (io_readb-Takes _ rel_esc) (take_bind _ (io_readb-Takes _ code) h)

    read_one :
        (m : ℕ → Modifiers) (old next : ℕ)
        → Takes (next ∷ []) [] 0 (io_readb old >>= λ c. pure (m c)) (m next)
    read_one m old next = take_then _ (io_readb-Takes old next) (pure-Takes (m next))

    -- A relocation, from REL_ESC on.
    pub record-Takes :
        (unchecked high : Bool) (code : ℕ) (bs ws : List ℕ) (n : ℕ)
        → IsRecord code
        → Takes bs ws n
            (relocate_record o (record {
              pcrel = false;
              overflow = not unchecked && not high;
              high = high;
              code = code;
            }))
            tt
        → Takes
            (rel_esc ∷ tagged unchecked high code bs)
            ws
            n
            (io_readb rel_esc >>= λ c. relocate_byte o segment c)
            go_on
    unfolding relocate_escaped read_pcr read_overflow read_high
    record-Takes false false code bs ws n is h = after_two code (
        rw (is.not_eof, is.not_rel, is.not_org, is.not_pcr)
          (pure_then _ _ (
            rw is.not_overflow
              (pure_then _ _ (rw is.not_high (pure_then _ _ (then_pure go_on h)))))))
    record-Takes false true code bs ws n is h =
        after_two rel_high (
          pure_then _ _
            (pure_then _ _ (take_bind _ (read_one _ rel_high code) (then_pure go_on h))))
    record-Takes true false code bs ws n is h = after_two rel_overflow (
        pure_then _ _ (
          take_bind _ (read_one _ rel_overflow code)
            (rw is.not_high (pure_then _ _ (then_pure go_on h)))))
    record-Takes true true code bs ws n is h = after_two rel_overflow (
        pure_then _ _ (
          take_bind _ (read_one _ rel_overflow rel_high)
            (take_bind _ (read_one _ rel_high code) (then_pure go_on h))))

    pub escape-Takes :
        Takes
          (rel_esc ∷ rel_rel ∷ [])
          (rel_esc ∷ [])
          1
          (io_readb rel_esc >>= λ c. relocate_byte o segment c)
          go_on
    unfolding put_escape relocate_escaped
    escape-Takes =
        after_two rel_rel
          (then_pure go_on (put_then (rw raw (fputc-Takes rel_esc)) (advance-Takes 1)))

    pub byte-Takes :
        (b : ℕ)
        → (b == rel_esc) ≡ false
        → Takes (b ∷ []) (u8 b ∷ []) 1 (io_readb rel_esc >>= λ c. relocate_byte o segment c) go_on
    unfolding relocate_byte
    byte-Takes b plain =
        take_bind _ (io_readb-Takes _ b)
          (rw plain (put_then (fputc-Takes b) (then_pure go_on (advance-Takes 1))))
