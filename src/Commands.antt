-- ===== src/Commands.antt =====
-- The words of a command line of the monitor, and the command that the first of them names.
-- Code: emulators/emumon.c (str_scan, get_command, cmd_table).
-- A string is the list of its bytes, without the NUL at its end.
pub mod Words
pub mod Strtol
pub mod Address
pub mod Print
pub mod Back
mod Examples
use fuzemsys.Base.{
  ℕ, zero, suc, ◌+◌, Bool, true, false, ◌&&◌, not, Option, none, some, List, [], ◌∷◌, map, ltb, leb,
  if◌then◌else◌,
}
use fuzemsys.Symbols.{Name, same_name}

-- isgraph and tolower of the C locale.
abbrev pub isgraph : ℕ → Bool
isgraph c = leb 0x21 c && leb c 0x7e

abbrev tolower : ℕ → ℕ
tolower c = if leb b'A' c && leb c b'Z' then c + 0x20 else c

-- `while (isgraph(*str) == 0 && *str != '\0') str++;`
abbrev pub skip_blanks : List ℕ → List ℕ
skip_blanks [] = []
skip_blanks (c ∷ str) = elim (isgraph c) [ true ↦ c ∷ str | false ↦ skip_blanks str ]

-- `while (isgraph(*str) != 0) str++;`: the bytes it passes, which the NUL that is stored ends, and what is left.
abbrev pub passed : List ℕ → List ℕ
passed [] = []
passed (c ∷ str) = elim (isgraph c) [ true ↦ c ∷ passed str | false ↦ [] ]

abbrev pub skip_word : List ℕ → List ℕ
skip_word [] = []
skip_word (c ∷ str) = elim (isgraph c) [ true ↦ skip_word str | false ↦ c ∷ str ]

-- The strings that the table is given, from the first on, and the number that is returned. The places of the table behind them are
-- left as they were.
pub record Scan : Type 0 where
  pub table : List Name
  pub count : ℕ

abbrev pub no_word : Scan
no_word = record { table = []; count = 0 }

-- A word before the others; i++.
abbrev pub before : Name → Scan → Scan
before w r = record { table = w ∷ r.table; count = suc r.count }

-- The end of a round: the end of the line, or the NUL is stored and the next round starts behind it.
abbrev pub cut_word : Name → List ℕ → (List ℕ → Scan) → Scan
cut_word w [] next = record { table = w ∷ []; count = 0 }
cut_word w (c ∷ later) next = before w (next later)

-- A round, from where the blanks end.
abbrev pub scan_first : List ℕ → (List ℕ → Scan) → Scan
scan_first [] next = no_word
scan_first (c ∷ str) next = cut_word (passed (c ∷ str)) (skip_word (c ∷ str)) next

-- The loop of str_scan. When maxi is used up, the rest of the line is the last string.
unfoldable pub scan_words : ℕ → List ℕ → Scan
scan_words zero str = elim (skip_blanks str) [
  | [] ↦ no_word
  | c ∷ rest ↦ record { table = (c ∷ rest) ∷ []; count = 0 }
]
scan_words (suc maxi) str = scan_first (skip_blanks str) (λ later. scan_words maxi later)

abbrev pub str_scan : List ℕ → ℕ → Scan
str_scan str maxi = scan_words maxi str

-- enum cmd_numbers.
pub data Command : Type 0 where
  cmd_brk : Command
  cmd_disasm : Command
  cmd_exit : Command
  cmd_go : Command
  cmd_nobrk : Command
  cmd_print : Command
  cmd_quit : Command
  cmd_rbrk : Command
  cmd_step : Command
  cmd_wbrk : Command
  cmd_write : Command

abbrev cmd_table : List (Name × Command)
cmd_table =
    (b's' ∷ [], cmd_step)
    ∷ (b's' ∷ b't' ∷ b'e' ∷ b'p' ∷ [], cmd_step)
    ∷ (b'x' ∷ [], cmd_exit)
    ∷ (b'e' ∷ b'x' ∷ b'i' ∷ b't' ∷ [], cmd_exit)
    ∷ (b'q' ∷ [], cmd_quit)
    ∷ (b'q' ∷ b'u' ∷ b'i' ∷ b't' ∷ [], cmd_quit)
    ∷ (b'g' ∷ [], cmd_go)
    ∷ (b'g' ∷ b'o' ∷ [], cmd_go)
    ∷ (b'p' ∷ [], cmd_print)
    ∷ (b'p' ∷ b'r' ∷ b'i' ∷ b'n' ∷ b't' ∷ [], cmd_print)
    ∷ (b'd' ∷ [], cmd_disasm)
    ∷ (b'd' ∷ b'i' ∷ b's' ∷ [], cmd_disasm)
    ∷ (b'w' ∷ [], cmd_write)
    ∷ (b'w' ∷ b'r' ∷ b'i' ∷ b't' ∷ b'e' ∷ [], cmd_write)
    ∷ (b'b' ∷ [], cmd_brk)
    ∷ (b'b' ∷ b'r' ∷ b'k' ∷ [], cmd_brk)
    ∷ (b'w' ∷ b'b' ∷ [], cmd_wbrk)
    ∷ (b'w' ∷ b'b' ∷ b'r' ∷ b'k' ∷ [], cmd_wbrk)
    ∷ (b'n' ∷ b'b' ∷ [], cmd_nobrk)
    ∷ (b'n' ∷ b'b' ∷ b'r' ∷ b'k' ∷ [], cmd_nobrk)
    ∷ []

-- The loop over the table, up to its NULL, where -1 is returned.
abbrev find_command : Name → List (Name × Command) → Option Command
find_command str [] = none
find_command str ((cmd_str, cmd_num) ∷ table) =
    if same_name str cmd_str then some cmd_num else find_command str table

-- The string is in lower case afterwards.
abbrev pub get_command : Name → Option Command × Name
get_command [] = (none, [])
get_command (c ∷ str) = let lower = map tolower (c ∷ str) in (find_command lower cmd_table, lower)
