-- ===== src/Linker/Shrinks/Records.antt =====
-- No record of a stream puts bytes back in front of the linker. Code: cmds/bintools/ld.c (relocate_stream).
use fuzemsys.Base.{
  ℕ, Bool, none, some, ◌∷◌, arith, ◌==◌, not, if◌then◌else◌, bit_and, bit_or, get_elem?,
}
use fuzemsys.ObjectFile.{s_unknown}
use fuzemsys.Linker.{
  unknown_symbol, invalid_reloc_sym, Context, Symbol, Link, Void, ◌>>=◌, ◌>>◌, pure, error,
  target_pquoteb, target_put, target_get,
}
use fuzemsys.Linker.Relocate.{
  Modifiers, read_pcr, read_overflow, read_high, record_reloc, keep_tag, simple_pcrel,
  simple_absolute, relocate_simple, relocate_unknown, symbol_value, relocate_known, put_symbol,
  relocate_symbol, relocate_record, set_origin, put_escape, relocate_escaped, relocate_byte,
  reloc_size, cut, cut_size,
}
use fuzemsys.Linker.Shrinks.{Shrinks, shrink_rules, bind-Shrinks, error-Shrinks, io_read16-Shrinks}

module _ (o : Context) where
  pub target_pquoteb-Shrinks : (v : ℕ) → Shrinks (target_pquoteb o v)
  unfolding target_pquoteb
  target_pquoteb-Shrinks v = search shrink_rules

  pub target_put-Shrinks : (v size : ℕ) → Shrinks (target_put o v size)
  unfolding target_put
  target_put-Shrinks v size = search (shrink_rules, target_pquoteb-Shrinks)

  pub target_get-Shrinks : (size : ℕ) → Shrinks (target_get o size)
  unfolding target_get
  target_get-Shrinks size = search shrink_rules

  pub record_reloc-Shrinks :
      (high : Bool) (size seg addr : ℕ) → Shrinks (record_reloc o high size seg addr)
  unfolding record_reloc
  record_reloc-Shrinks high size seg addr = search shrink_rules

  pub keep_tag-Shrinks : (m : Modifiers) → Shrinks (keep_tag o m)
  unfolding keep_tag
  keep_tag-Shrinks m = search shrink_rules depth 20

  ruleset more_rules = (
    shrink_rules, io_read16-Shrinks, target_pquoteb-Shrinks, target_put-Shrinks, target_get-Shrinks,
    record_reloc-Shrinks, keep_tag-Shrinks,
  )

  pub simple_pcrel-Shrinks : (m : Modifiers) (size seg : ℕ) → Shrinks (simple_pcrel o m size seg)
  unfolding simple_pcrel
  simple_pcrel-Shrinks m size seg = search more_rules depth 20

  pub simple_absolute-Shrinks :
      (m : Modifiers) (size seg : ℕ) → Shrinks (simple_absolute o m size seg)
  unfolding simple_absolute
  simple_absolute-Shrinks m size seg = search more_rules depth 20

  pub relocate_simple-Shrinks : (m : Modifiers) → Shrinks (relocate_simple o m)
  unfolding relocate_simple
  relocate_simple-Shrinks m =
      search (more_rules, simple_pcrel-Shrinks, simple_absolute-Shrinks) depth 20

  pub mark_unknown-Shrinks :
      Shrinks
        (λ s. pure tt (record s { err = bit_or s.err 1; messages = unknown_symbol ∷ s.messages }))
  unfolding pure
  mark_unknown-Shrinks = record { runs = λ s. omega arith }

  pub relocate_unknown-Shrinks :
      (m : Modifiers) (size : ℕ) (is_pcrel : Bool) (entry : Symbol)
      → Shrinks (relocate_unknown o m size is_pcrel entry)
  unfolding relocate_unknown
  relocate_unknown-Shrinks m size is_pcrel entry =
      search (more_rules, mark_unknown-Shrinks) depth 20

  pub symbol_value-Shrinks :
      (m : Modifiers) (size : ℕ) (is_pcrel : Bool) (entry : Symbol)
      → Shrinks (symbol_value o m size is_pcrel entry)
  unfolding symbol_value
  symbol_value-Shrinks m size is_pcrel entry = search more_rules depth 20

  pub relocate_known-Shrinks :
      (m : Modifiers) (size : ℕ) (is_pcrel : Bool) (entry : Symbol)
      → Shrinks (relocate_known o m size is_pcrel entry)
  unfolding relocate_known
  relocate_known-Shrinks m size is_pcrel entry = search (more_rules, symbol_value-Shrinks) depth 20

  pub put_symbol-Shrinks :
      (m : Modifiers) (r size : ℕ) (is_pcrel : Bool) (entry : Symbol)
      → Shrinks (put_symbol o m r size is_pcrel entry)
  unfolding put_symbol
  put_symbol-Shrinks m r size is_pcrel entry = search more_rules depth 20

  pub relocate_symbol-Shrinks :
      (m : Modifiers) (is_pcrel : Bool) → Shrinks (relocate_symbol o m is_pcrel)
  unfolding relocate_symbol
  relocate_symbol-Shrinks m is_pcrel = bind-Shrinks _ _ io_read16-Shrinks λ n.
      elim (get_elem? o.syment n)
        as (λ found. Shrinks (elim found as (λ _. Link Void) [
          | none ↦ error invalid_reloc_sym
          | some entry ↦
              if not (bit_and entry.type s_unknown == 0)
              then (do
                relocate_unknown o m (reloc_size m.code) is_pcrel entry
                put_symbol o m n (reloc_size m.code) is_pcrel entry)
              else (do
                r ← relocate_known o m (reloc_size m.code) is_pcrel entry
                put_symbol o m (cut o m.high r) (cut_size o m.high (reloc_size m.code)) is_pcrel
                    entry)
        ])) [
          | none ↦ error-Shrinks invalid_reloc_sym
          | some entry ↦
              search
                (shrink_rules, relocate_unknown-Shrinks, relocate_known-Shrinks, put_symbol-Shrinks)
        ]

  pub relocate_record-Shrinks : (m : Modifiers) → Shrinks (relocate_record o m)
  unfolding relocate_record
  relocate_record-Shrinks m =
      search (more_rules, relocate_simple-Shrinks, relocate_symbol-Shrinks) depth 20

  pub set_dot-Shrinks : (dot : ℕ) → Shrinks (λ s. pure tt (record s { dot = dot }))
  unfolding pure
  set_dot-Shrinks dot = record { runs = λ s. omega arith }

  pub set_origin-Shrinks : (segment : ℕ) → Shrinks (set_origin o segment)
  unfolding set_origin
  set_origin-Shrinks segment = search (more_rules, set_dot-Shrinks) depth 20

  pub put_escape-Shrinks : Shrinks (put_escape o)
  unfolding put_escape
  put_escape-Shrinks = search more_rules depth 20

  pub read_pcr-Shrinks : (code : ℕ) → Shrinks (read_pcr code)
  unfolding read_pcr
  read_pcr-Shrinks code = search shrink_rules

  pub read_overflow-Shrinks : (m : Modifiers) → Shrinks (read_overflow m)
  unfolding read_overflow
  read_overflow-Shrinks m = search shrink_rules

  pub read_high-Shrinks : (m : Modifiers) → Shrinks (read_high m)
  unfolding read_high
  read_high-Shrinks m = search shrink_rules

  ruleset record_rules = (
    shrink_rules, relocate_record-Shrinks, set_origin-Shrinks, put_escape-Shrinks, read_pcr-Shrinks,
    read_overflow-Shrinks, read_high-Shrinks,
  )

  pub relocate_escaped-Shrinks : (segment code : ℕ) → Shrinks (relocate_escaped o segment code)
  unfolding relocate_escaped
  relocate_escaped-Shrinks segment code = search record_rules depth 20

  pub relocate_byte-Shrinks : (segment code : ℕ) → Shrinks (relocate_byte o segment code)
  unfolding relocate_byte
  relocate_byte-Shrinks segment code = search (shrink_rules, relocate_escaped-Shrinks) depth 20
