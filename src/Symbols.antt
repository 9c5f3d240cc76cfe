-- ===== src/Symbols.antt =====
-- The symbol map, as the monitor and the log file look it up. Code: emulators/mapfile.c.
-- `maparray` holds `mapcnt` entries sorted by address, and one more whose symbol is NULL. A string is
-- the list of its bytes without the closing 0. An `int` result is its 32-bit pattern, so -1 is 0xffffffff.
-- Reading and sorting the file (read_mapfile) is not modelled: the table is a state to start from.
pub mod Order
pub mod Range
pub mod Nearest
mod Examples
use fuzemsys.Base.{
  ℕ, zero, suc, ◌+◌, ◌-◌, ◌^◌, Bool, true, false, ◌&&◌, Option, none, some, List, [], ◌∷◌, ltb, leb,
  ◌==◌, if◌then◌else◌, get_elem?, length,
}
use fuzemsys.Base.Bits.{u32}
use fuzemsys.Breakpoints.{no_addr}

abbrev pub Name : Type 0
Name = List ℕ

-- `none` is NULL.
pub record MapEntry : Type 0 where
  pub addr : ℕ
  pub sym : Option Name

pub record Symbols : Type 0 where
  pub maparray : List MapEntry
  pub mapidx : ℕ
  pub mapcnt : ℕ

-- `!strcmp(a, b)`
unfoldable pub same_name : Name → Name → Bool
same_name [] [] = true
same_name [] (c ∷ cs) = false
same_name (b ∷ bs) [] = false
same_name (b ∷ bs) (c ∷ cs) = b == c && same_name bs cs

-- A NULL symbol is not compared: the loops stop before the last entry.
unfoldable pub named : Name → MapEntry → Bool
named name e = elim e.sym [ none ↦ false | some sym ↦ same_name sym name ]

-- The loop of get_sym_address: the first entry of that name, and -1 if there is none.
unfoldable pub find_address : Name → List MapEntry → ℕ
find_address name [] = no_addr
find_address name (e ∷ es) = if named name e then e.addr else find_address name es

unfoldable pub get_sym_address : Name → Symbols → ℕ
get_sym_address [] s = no_addr
get_sym_address (c ∷ cs) s = find_address (c ∷ cs) s.maparray

-- The second loop of get_sym_end_address: one below the next higher address.
unfoldable pub next_higher : ℕ → List MapEntry → ℕ
next_higher a [] = no_addr
next_higher a (e ∷ es) = if ltb a e.addr then e.addr - 1 else next_higher a es

-- Its first loop, with the second one from the entry found.
unfoldable pub find_end : Name → List MapEntry → ℕ
find_end name [] = no_addr
find_end name (e ∷ es) = if named name e then next_higher e.addr es else find_end name es

unfoldable pub get_sym_end_address : Name → Symbols → ℕ
get_sym_end_address [] s = no_addr
get_sym_end_address (c ∷ cs) s = find_end (c ∷ cs) s.maparray

-- What get_symbol_and_offset answers: a symbol with its offset, NULL, or a read past the array.
pub data Lookup : Type 0 where
  symbol : Option Name → ℕ → Lookup
  not_found : Lookup
  past_array : Lookup

-- `maparray[i].addr <= addr && maparray[i+1].addr > addr`
unfoldable pub between : ℕ → MapEntry → MapEntry → Bool
between addr e next = leb e.addr addr && ltb addr next.addr

-- The search loop from entry `i` on: its index at the end, and the entry if there is one. The last
-- entry is not searched.
unfoldable pub search_from : ℕ → ℕ → List MapEntry → ℕ × Option MapEntry
search_from addr i [] = (i, none)
search_from addr i (e ∷ []) = (i, none)
search_from addr i (e ∷ next ∷ es) =
    let rest = search_from addr (i + 1) (next ∷ es) in
    if between addr e next then (i, some e) else rest

unfoldable pub answer : ℕ → Option MapEntry → Lookup
answer addr none = not_found
answer addr (some e) = symbol e.sym (addr - e.addr)

-- The test of the entry that `mapidx` points at: `none` reads past the array.
unfoldable pub last_used : ℕ → Symbols → Option (Option MapEntry)
last_used addr s = elim (get_elem? s.maparray s.mapidx) [
  | none ↦ none
  | some e ↦
      if leb e.addr addr
      then elim (get_elem? s.maparray (suc s.mapidx)) [
        | none ↦ none
        | some next ↦ some (if ltb addr next.addr then some e else none)
      ]
      else some none
]

unfoldable pub search_all : ℕ → Symbols → Lookup × Symbols
search_all addr s =
    let (i, hit) = search_from addr 0 s.maparray in (answer addr hit, record s { mapidx = i })

-- The return that follows the test of the remembered entry, or the search.
unfoldable pub answer_or_search : ℕ → Symbols → Option (Option MapEntry) → Lookup × Symbols
answer_or_search addr s none = (past_array, s)
answer_or_search addr s (some none) = search_all addr s
answer_or_search addr s (some (some e)) = (answer addr (some e), s)

-- `offset` points at an int.
unfoldable pub get_symbol_and_offset : ℕ → Symbols → Lookup × Symbols
get_symbol_and_offset addr s =
    if s.mapcnt == 0 then (not_found, s) else answer_or_search addr s (last_used addr s)
