-- ===== src/Symbols/Examples.antt =====
-- The theorems on the symbol map at one table, and a run of it. Code: emulators/mapfile.c.
use fuzemsys.Base.{ℕ, suc, ◌-◌, ◌≤◌, ◌<◌, ◌≡◌, refl, none, some, [], ◌∷◌, get_elem?, arith}
use fuzemsys.Symbols.{
  MapEntry, Symbols, symbol, past_array, get_symbol_and_offset, search_from, answer, between,
  last_used, answer_or_search, get_sym_address, get_sym_end_address, find_end, next_higher, named,
  same_name,
}
use fuzemsys.Symbols.Nearest.{
  IsTable, get_symbol_and_offset-IsTable, get_symbol_and_offset-search_from,
  get_symbol_and_offset-nearest,
}
use fuzemsys.Symbols.Range.{IsFree, get_sym_address-le-get_sym_end_address}

abbrev start_entry : MapEntry
start_entry = record { addr = 0x100; sym = some (0x61 ∷ []) }

abbrev last_entry : MapEntry
last_entry = record { addr = 0xffff; sym = none }

-- `a` at 0x100 and `b` at 0x180; the index is on `b`.
abbrev table : Symbols
table = record {
  maparray = start_entry ∷ record { addr = 0x180; sym = some (0x62 ∷ []) } ∷ last_entry ∷ [];
  mapidx = 1;
  mapcnt = 2;
}

table-IsTable : IsTable table
table-IsTable = record {
  sorted = (omega arith, (omega arith, (omega arith, tt)));
  size = refl;
  index = omega arith;
}

get_symbol_and_offset-IsTable_example : IsTable (get_symbol_and_offset 0x104 table).1
get_symbol_and_offset-IsTable_example = get_symbol_and_offset-IsTable 0x104 table table-IsTable

get_symbol_and_offset-search_from_example :
    (get_symbol_and_offset 0x104 table).0 ≡ symbol (some (0x61 ∷ [])) 4
unfolding answer search_from between
get_symbol_and_offset-search_from_example =
    get_symbol_and_offset-search_from 0x104 table last_entry table-IsTable refl (omega arith)
      (omega arith)

get_symbol_and_offset-nearest_example :
    (k : ℕ) × (e : MapEntry) × (next : MapEntry) × (get_elem? table.maparray k ≡ some e)
    × (get_elem? table.maparray (suc k) ≡ some next)
    × (e.addr ≤ 0x104)
    × (0x104 < next.addr)
    × ((get_symbol_and_offset 0x104 table).0 ≡ symbol e.sym (0x104 - e.addr))
get_symbol_and_offset-nearest_example =
    get_symbol_and_offset-nearest 0x104 table last_entry table-IsTable refl (omega arith)
      start_entry refl (omega arith) (omega arith)

get_sym_address-le-get_sym_end_address_example :
    (get_sym_address (0x61 ∷ []) table ≤ get_sym_end_address (0x61 ∷ []) table)
    × IsFree
        (get_sym_address (0x61 ∷ []) table)
        (get_sym_end_address (0x61 ∷ []) table)
        table.maparray
unfolding get_sym_end_address find_end named same_name next_higher
get_sym_address-le-get_sym_end_address_example =
    get_sym_address-le-get_sym_end_address (0x61 ∷ []) table table-IsTable.sorted (omega arith)

-- After a search that failed, 0xffff is looked for past the array.
read_past_array : (get_symbol_and_offset 0xffff (record table { mapidx = 2 })).0 ≡ past_array
unfolding get_symbol_and_offset last_used answer_or_search
read_past_array = refl
