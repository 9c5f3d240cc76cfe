-- ===== src/Linker.antt =====
-- The linker. Code: cmds/bintools/ld.c. Its state while it relocates a segment of an object, and the
-- operations on it. The object file is a list of bytes from the current position on, and the output is
-- a list of writes and seeks, the latest first.
pub mod Relocate
pub mod Table
pub mod Lookup
pub mod Order
pub mod Layout
pub mod Place
pub mod Append
pub mod Bases
pub mod Apart
pub mod Takes
pub mod Moves
pub mod Records
pub mod Rounds
pub mod Located
pub mod Image
pub mod Linked
pub mod Program
pub mod Shrinks
pub mod Fuel
pub mod Unknown
mod Examples
mod Tests
use fuzemsys.Base.{
  ℕ, ◌+◌, ◌*◌, ◌/◌, ◌%◌, ◌^◌, bit_or, Bool, true, false, ◌&&◌, not, Option, none, some, List, [],
  ◌∷◌, ◌==◌, if◌then◌else◌,
}
use fuzemsys.Base.Bits.{u8, u16}
use fuzemsys.ObjectFile.{rel_esc, rel_rel}

-- ldmode
pub data Mode : Type 0 where
  ld_reloc ld_rflag ld_absolute ld_fuzix : Mode

abbrev pub is_absolute : Mode → Bool
is_absolute ld_absolute = true
is_absolute _ = false

abbrev pub is_rflag : Mode → Bool
is_rflag ld_rflag = true
is_rflag _ = false

abbrev pub is_fuzix : Mode → Bool
is_fuzix ld_fuzix = true
is_fuzix _ = false

-- A symbol of the object, as far as a relocation reads it.
pub record Symbol : Type 0 where
  pub type : ℕ
  pub value : ℕ
  pub number : ℕ

-- What does not change while a segment is relocated: the object, and the settings of the link.
-- `wordmachine` is `obj_flags & OF_WORDMACHINE`.
pub record Context : Type 0 where
  pub bigendian : Bool
  pub base : ℕ → ℕ
  pub syment : List Symbol
  pub ldmode : Mode
  pub rawstream : Bool
  pub split_id : Bool
  pub wordmachine : Bool

pub data Write : Type 0 where
  put : ℕ → Write
  seek : ℕ → Write

pub data Message : Type 0 where
  unexpected_eof invalid_reloc invalid_reloc_type invalid_reloc_sym : Message
  byte_relocation_exceeded relocation_exceeded corrupt_reloc_stream : Message
  unknown_symbol absolute_needs_b not_absolute_segment : Message

-- `relocf` is none when no relocation file is written.
pub record Linker : Type 0 where
  pub input : List ℕ
  pub dot : ℕ
  pub op : List Write
  pub relocf : Option (List ℕ)
  pub err : ℕ
  pub messages : List Message

pub data Outcome (A : Type 0) : Type 0 where
  done : A → Linker → Outcome A
  exit : ℕ → Linker → Outcome A

abbrev pub Link : Type 0 → Type 0
Link A = Linker → Outcome A

abbrev pub Void : Type 0
Void = Unit {0}

infixl 5 ◌>>=◌ ◌>>◌
unfoldable pub ◌>>=◌ : {A B : Type 0} → Link A → (A → Link B) → Link B
◌>>=◌ m f s = elim (m s) [ done a s' ↦ f a s' | exit c s' ↦ exit c s' ]

abbrev pub ◌>>◌ : {B : Type 0} → Link Void → Link B → Link B
m >> k = m >>= λ _. k

unfoldable pub pure : {A : Type 0} → A → Link A
pure a s = done a s

unfoldable pub gets : {A : Type 0} → (Linker → A) → Link A
gets f s = done (f s) s

abbrev pub when : Bool → Link Void → Link Void
when test body = if test then body else pure tt

-- `err |= 2` and the text
unfoldable pub warning : Message → Link Void
warning m s = done tt (record s { err = bit_or s.err 2; messages = m ∷ s.messages })

unfoldable pub error : {A : Type 0} → Message → Link A
error m s = let e = bit_or s.err 2 in exit e (record s { err = e; messages = m ∷ s.messages })

unfoldable pub print_exit : {A : Type 0} → Message → Link A
print_exit m s = exit 1 (record s { messages = m ∷ s.messages })

-- io_readb, with what the variable holds: at the end of the file it keeps it.
unfoldable pub io_readb : ℕ → Link ℕ
io_readb old s = elim s.input [ [] ↦ done old s | b ∷ rest ↦ done b (record s { input = rest }) ]

-- Of a file that ends, the code takes bytes that it never wrote; the model takes 0.
unfoldable pub io_read16 : Link ℕ
io_read16 = do lo ← io_readb 0; hi ← io_readb 0; pure (bit_or (hi * 2 ^ 8) lo)

unfoldable pub fputc : ℕ → Link Void
fputc b s = done tt (record s { op = put (u8 b) ∷ s.op })

unfoldable pub xfseek : ℕ → Link Void
xfseek p s = done tt (record s { op = seek p ∷ s.op })

unfoldable pub advance : ℕ → Link Void
advance n s = done tt (record s { dot = u16 (s.dot + n) })

-- fputc (…, relocf)
unfoldable pub fputc_reloc : ℕ → Link Void
fputc_reloc b s =
    done tt (record s { relocf = elim s.relocf [ none ↦ none | some bytes ↦ some (u8 b ∷ bytes) ] })

unfoldable pub target_pgetb : Link ℕ
target_pgetb s = elim s.input [
  | [] ↦ error unexpected_eof s
  | b ∷ rest ↦ done b (record s { input = rest })
]

module _ (o : Context) where
  unfoldable pub target_pquoteb : ℕ → Link Void
  target_pquoteb v =
      if u8 v == rel_esc && not o.rawstream then (do fputc v; fputc rel_rel) else fputc v

  unfoldable pub target_put : ℕ → ℕ → Link Void
  target_put value size =
      if size == 1
      then target_pquoteb value
      else (if o.bigendian
          then (do target_pquoteb (value / 2 ^ 8); target_pquoteb value)
          else (do target_pquoteb value; target_pquoteb (value / 2 ^ 8)))

  -- The two reads of a word are taken from left to right.
  unfoldable pub target_get : ℕ → Link ℕ
  target_get size = if size == 1 then target_pgetb else (do
    first ← target_pgetb
    second ← target_pgetb
    pure (if o.bigendian then first * 2 ^ 8 + second else first + second * 2 ^ 8))
