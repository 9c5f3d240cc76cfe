-- ===== src/Commands/Examples.antt =====
-- The line `nb $1000`, with and without a blank at its end. Code: emulators/emumon.c (monitor).
use fuzemsys.Base.{true, ℕ, ◌-◌, ◌^◌, ◌≡◌, refl, none, some, [], ◌∷◌, arith}
use fuzemsys.Symbols.{Name, same_name}
use fuzemsys.Commands.{str_scan, cmd_nobrk, get_command}
use fuzemsys.Symbols.{
  Symbols, named, answer, last_used, answer_or_search, get_symbol_and_offset, get_sym_address,
  find_address,
}
use fuzemsys.Symbols.Nearest.{IsTable}
use fuzemsys.Commands.Address.{
  Parsed, Call, returned, parse_from, parse_body, parse_addr, parse_addr_returns,
}
use fuzemsys.Commands.Print.{printed}
use fuzemsys.Commands.Back.{parse_addr-get_symbol_and_offset}
use fuzemsys.Commands.Words.{line, str_scan-line}

abbrev nb : Name
nb = b'N' ∷ b'b' ∷ []

abbrev place : Name
place = b'$' ∷ b'1' ∷ b'0' ∷ b'0' ∷ b'0' ∷ []

get_command-nb : get_command nb ≡ (some cmd_nobrk, b'n' ∷ b'b' ∷ [])
unfolding same_name
get_command-nb = refl

str_scan-line_example :
    (str_scan (line nb (place ∷ []) []) 5 ≡ record { table = nb ∷ place ∷ []; count = 1 })
    × (str_scan (line nb (place ∷ []) (0x20 ∷ [])) 5
        ≡ record { table = nb ∷ place ∷ []; count = 2 })
str_scan-line_example =
    str_scan-line nb (place ∷ []) 5 (refl, (refl, tt))
      ((refl, (refl, (refl, (refl, (refl, tt))))), tt) (omega arith)

-- The symbols _a and _b.
abbrev names : Symbols
names = record {
  maparray =
      record { addr = 0x100; sym = some (b'_' ∷ b'a' ∷ []) }
      ∷ record { addr = 0x180; sym = some (b'_' ∷ b'b' ∷ []) }
      ∷ record { addr = 0xffff; sym = none }
      ∷ [];
  mapidx = 0;
  mapcnt = 2;
}

names-IsTable : IsTable names
names-IsTable = record {
  sorted = (omega arith, (omega arith, (omega arith, tt)));
  size = refl;
  index = omega arith;
}

-- `_b+$1A`, `_b+_a`, and `_c`.
abbrev as_symbol : ℕ → Name → Call
as_symbol value left = returned (record { value = value; issym = some true; left = left })

parsed_sum :
    parse_addr (b'_' ∷ b'b' ∷ b'+' ∷ b'$' ∷ b'1' ∷ b'A' ∷ []) names
    ≡ as_symbol 0x19a (b'_' ∷ b'b' ∷ [])
unfolding parse_from get_sym_address find_address named same_name
parsed_sum = refl

parsed_symbols :
    parse_addr (b'_' ∷ b'b' ∷ b'+' ∷ b'_' ∷ b'a' ∷ []) names ≡ as_symbol 0x280 (b'_' ∷ b'b' ∷ [])
unfolding parse_from get_sym_address find_address named same_name
parsed_symbols = refl

parsed_unknown : parse_addr (b'_' ∷ b'c' ∷ []) names ≡ as_symbol (2 ^ 32 - 1) (b'_' ∷ b'c' ∷ [])
unfolding parse_from get_sym_address find_address named same_name
parsed_unknown = refl

parse_addr_returns_example :
    (r : Parsed) × (parse_addr (b'_' ∷ b'b' ∷ b'+' ∷ b'_' ∷ b'a' ∷ []) names ≡ returned r)
    × (parse_body (λ rest. parse_addr rest names) names (b'_' ∷ b'b' ∷ b'+' ∷ b'_' ∷ b'a' ∷ [])
        ≡ returned r)
parse_addr_returns_example = parse_addr_returns (b'_' ∷ b'b' ∷ b'+' ∷ b'_' ∷ b'a' ∷ []) names

parse_addr-get_symbol_and_offset_example :
    parse_addr (printed (b'_' ∷ b'a' ∷ []) 4) names ≡ as_symbol 0x104 (b'_' ∷ b'a' ∷ [])
unfolding named same_name get_symbol_and_offset answer_or_search last_used answer
parse_addr-get_symbol_and_offset_example =
    parse_addr-get_symbol_and_offset 0x104 names
      (record { addr = 0x100; sym = some (b'_' ∷ b'a' ∷ []) })
      (record { addr = 0xffff; sym = none }) (b'_' ∷ b'a' ∷ []) 4 0x100 names-IsTable refl refl
      (omega arith) (omega arith) (omega arith) (omega arith) (refl, refl, (refl, (refl, tt)))
      (refl, (tt, (tt, tt))) refl
