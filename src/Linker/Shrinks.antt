-- ===== src/Linker/Shrinks.antt =====
-- No operation of the linker puts bytes back in front of it. Code: cmds/bintools/ld.c (io_readb to
-- target_get).
pub mod Records
use fuzemsys.Base.{
  ℕ, zero, suc, ◌≤◌, ◌<◌, ◌≡◌, ◌⊎◌, refl, Bool, true, false, none, some, List, [], ◌∷◌, length,
  arith, ◌==◌, not, if◌then◌else◌, bit_and, bit_or, get_elem?, inl, inr,
}
use fuzemsys.ObjectFile.{s_unknown}
use fuzemsys.Linker.{
  unexpected_eof, unknown_symbol, invalid_reloc_sym, Context, Symbol, Linker, Outcome, done, exit,
  Link, Void, Message, ◌>>=◌, ◌>>◌, pure, gets, when, warning, error, print_exit, io_readb,
  io_read16, fputc, xfseek, advance, fputc_reloc, target_pgetb, target_pquoteb, target_put,
  target_get,
}
use fuzemsys.Linker.Relocate.{
  Round, go_on, at_eof, Modifiers, read_pcr, read_overflow, read_high, record_reloc, keep_tag,
  simple_pcrel, simple_absolute, relocate_simple, relocate_unknown, symbol_value, relocate_known,
  put_symbol, relocate_symbol, relocate_record, set_origin, put_escape, relocate_escaped,
  relocate_byte, relocate_rounds, relocate_stream, reloc_size, cut, cut_size,
}

abbrev pub Within : {A : Type 0} → ℕ → Outcome A → Type 0
Within n (done a s') = length s'.input ≤ n
Within n (exit c s') = Unit

pub record Shrinks {A : Type 0} (m : Link A) : Type 0 where
  pub runs : (s : Linker) → Within (length s.input) (m s)

Within-weaken : {A : Type 0} {n n' : ℕ} (r : Outcome A) → n ≤ n' → Within n r → Within n' r
Within-weaken (done a s) le h = omega (arith, le, h)
Within-weaken (exit c s) le h = tt

bind_at :
    {A B : Type 0} (n : ℕ) (f : A → Link B) (r : Outcome A)
    → Within n r
    → ((a : A) → Shrinks (f a))
    → Within n (elim r [ done a s' ↦ f a s' | exit c s' ↦ exit c s' ])
bind_at n f (done a s) h hf = Within-weaken (f a s) h ((hf a).runs s)
bind_at n f (exit c s) h hf = tt

pub bind-Shrinks :
    {A B : Type 0} (m : Link A) (f : A → Link B)
    → Shrinks m
    → ((a : A) → Shrinks (f a))
    → Shrinks (m >>= f)
unfolding ◌>>=◌
bind-Shrinks m f hm hf = record { runs = λ s. bind_at (length s.input) f (m s) (hm.runs s) hf }

pub then-Shrinks :
    {B : Type 0} {m : Link Void} {k : Link B} → Shrinks m → Shrinks k → Shrinks (m >> k)
then-Shrinks hm hk = bind-Shrinks _ _ hm (λ _. hk)

pub if-Shrinks :
    {A : Type 0} (test : Bool) {m m' : Link A}
    → Shrinks m
    → Shrinks m'
    → Shrinks (if test then m else m')
if-Shrinks true h h' = h
if-Shrinks false h h' = h'

pub pure-Shrinks : {A : Type 0} (a : A) → Shrinks (pure a)
unfolding pure
pure-Shrinks a = record { runs = λ s. omega arith }

pub when-Shrinks : (test : Bool) {m : Link Void} → Shrinks m → Shrinks (when test m)
when-Shrinks test h = if-Shrinks test h (pure-Shrinks tt)

pub gets-Shrinks : {A : Type 0} (f : Linker → A) → Shrinks (gets f)
unfolding gets
gets-Shrinks f = record { runs = λ s. omega arith }

pub fputc-Shrinks : (b : ℕ) → Shrinks (fputc b)
unfolding fputc
fputc-Shrinks b = record { runs = λ s. omega arith }

pub xfseek-Shrinks : (b : ℕ) → Shrinks (xfseek b)
unfolding xfseek
xfseek-Shrinks b = record { runs = λ s. omega arith }

pub advance-Shrinks : (b : ℕ) → Shrinks (advance b)
unfolding advance
advance-Shrinks b = record { runs = λ s. omega arith }

pub fputc_reloc-Shrinks : (b : ℕ) → Shrinks (fputc_reloc b)
unfolding fputc_reloc
fputc_reloc-Shrinks b = record { runs = λ s. omega arith }

pub warning-Shrinks : (m : Message) → Shrinks (warning m)
unfolding warning
warning-Shrinks m = record { runs = λ s. omega arith }

pub error-Shrinks : {A : Type 0} (m : Message) → Shrinks (error {A = A} m)
unfolding error
error-Shrinks m = record { runs = λ s. tt }

pub print_exit-Shrinks : {A : Type 0} (m : Message) → Shrinks (print_exit {A = A} m)
unfolding print_exit
print_exit-Shrinks m = record { runs = λ s. tt }

pub io_readb-Shrinks : (old : ℕ) → Shrinks (io_readb old)
unfolding io_readb
io_readb-Shrinks old = record { runs = λ s. at s s.input refl }
  where
    at :
        (s : Linker) (l : List ℕ)
        → s.input ≡ l
        → Within
            (length s.input)
            (elim l [ [] ↦ done old s | b ∷ rest ↦ done b (record s { input = rest }) ])
    at s [] e = omega arith
    at s (b ∷ rest) e = rw e (omega arith)

pub target_pgetb-Shrinks : Shrinks target_pgetb
unfolding target_pgetb error
target_pgetb-Shrinks = record { runs = λ s. at s s.input refl }
  where
    at :
        (s : Linker) (l : List ℕ)
        → s.input ≡ l
        → Within {A = ℕ}
            (length s.input)
            (elim l [ [] ↦ error unexpected_eof s | b ∷ rest ↦ done b (record s { input = rest }) ])
    at s [] e = tt
    at s (b ∷ rest) e = rw e (omega arith)

pub ruleset shrink_rules = (
  bind-Shrinks, if-Shrinks, pure-Shrinks, gets-Shrinks, fputc-Shrinks, xfseek-Shrinks,
  advance-Shrinks, fputc_reloc-Shrinks, warning-Shrinks, error-Shrinks, print_exit-Shrinks,
  io_readb-Shrinks, target_pgetb-Shrinks,
)

io_read16-Shrinks : Shrinks io_read16
unfolding io_read16
io_read16-Shrinks = search shrink_rules
