-- ===== src/Symbols/Order.antt =====
-- The table in order of address, and where an address belongs in it. Code: emulators/mapfile.c.
use fuzemsys.Base.{ℕ, zero, suc, ◌+◌, ◌≤◌, ◌<◌, ◌≡◌, some, List, [], ◌∷◌, arith, get_elem?}
use fuzemsys.Symbols.{MapEntry, between, search_from}

-- No entry is below the one before it, and none below `low`.
abbrev pub IsSorted : ℕ → List MapEntry → Type 0
IsSorted low [] = Unit {0}
IsSorted low (e ∷ es) = (low ≤ e.addr) × IsSorted e.addr es

pub sorted-get_elem? :
    (k low : ℕ) (es : List MapEntry) {e : MapEntry}
    → IsSorted low es
    → get_elem? es k ≡ some e
    → low ≤ e.addr
sorted-get_elem? k low [] h there = cc
sorted-get_elem? zero low (x ∷ es) (p, h) there = ground arith
sorted-get_elem? (suc k) low (x ∷ es) {e} (p, h) there =
    omega (arith, p, sorted-get_elem? k x.addr es {e = e} h there)

-- Where the entry at index `k` and the next one enclose the address, the search ends at `k`.
pub search_from-lem :
    (k addr i low : ℕ) (es : List MapEntry) {e next : MapEntry}
    → IsSorted low es
    → get_elem? es k ≡ some e
    → get_elem? es (suc k) ≡ some next
    → e.addr ≤ addr
    → addr < next.addr
    → search_from addr i es ≡ (i + k, some e)
unfolding search_from between
search_from-lem k addr i low [] h p q a b = cc
search_from-lem zero addr i low (x ∷ []) h p q a b = cc
search_from-lem zero addr i low (x ∷ y ∷ es) h p q a b = ground arith
search_from-lem (suc k) addr i low (x ∷ []) h p q a b = cc
search_from-lem (suc k) addr i low (x ∷ y ∷ es) {e} {next} (g, h) p q a b = ground (
  arith,
  sorted-get_elem? k y.addr (y ∷ es) {e = e} (omega arith, h.1) p,
  search_from-lem k addr (i + 1) x.addr (y ∷ es) {e = e} {next = next} h p q a b,
)
