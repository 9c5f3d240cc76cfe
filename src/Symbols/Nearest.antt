-- ===== src/Symbols/Nearest.antt =====
-- The remembered index against a search of the whole table. Code: emulators/mapfile.c
-- (get_symbol_and_offset).
use fuzemsys.Base.{
  ℕ, zero, suc, ◌+◌, ◌-◌, ◌≤◌, ◌<◌, ◌≡◌, refl, ◌≢◌, ◌∙◌, false, Option, none, some, List, [], ◌∷◌,
  ltb, leb, ◌==◌, arith, if_both, get_elem?, length, Bool-cases, inl, inr, ◌⊎◌,
}
use fuzemsys.Symbols.{
  MapEntry, Symbols, Lookup, symbol, search_from, answer, last_used, search_all, answer_or_search,
  get_symbol_and_offset,
}
use fuzemsys.Symbols.Order.{IsSorted, search_from-lem}

-- A table as read_mapfile leaves it, with an index that a search may have left.
pub record IsTable (s : Symbols) : Type 0 where
  pub sorted : IsSorted 0 s.maparray
  pub size : length s.maparray ≡ suc s.mapcnt
  pub index : s.mapidx ≤ s.mapcnt

search_from-le :
    (addr i : ℕ) (e : MapEntry) (es : List MapEntry)
    → (search_from addr i (e ∷ es)).0 ≤ i + length es
unfolding search_from
search_from-le addr i e [] = omega arith
search_from-le addr i e (next ∷ es) = ground (arith, search_from-le addr (i + 1) next es)

get_elem?-none : {A : Type 0} (k : ℕ) (xs : List A) → length xs ≤ k → get_elem? xs k ≡ none
get_elem?-none k [] h = refl
get_elem?-none zero (x ∷ xs) h = absurd (omega arith)
get_elem?-none (suc k) (x ∷ xs) h = get_elem?-none k xs (omega arith)

get_elem?-some :
    {A : Type 0} (k : ℕ) (xs : List A) → k < length xs → (x : A) × (get_elem? xs k ≡ some x)
get_elem?-some k [] h = absurd (omega arith)
get_elem?-some zero (x ∷ xs) h = (x, refl)
get_elem?-some (suc k) (x ∷ xs) h = get_elem?-some k xs (omega arith)

-- In a sorted table, an address from the first entry's to below the last one's has its place.
enclosed :
    (addr low k : ℕ) (es : List MapEntry) {first last : MapEntry}
    → IsSorted low es
    → get_elem? es 0 ≡ some first
    → get_elem? es k ≡ some last
    → first.addr ≤ addr
    → addr < last.addr
    → (j : ℕ) × (e : MapEntry) × (next : MapEntry) × (get_elem? es j ≡ some e)
      × (get_elem? es (suc j) ≡ some next)
      × (e.addr ≤ addr)
      × (addr < next.addr)
enclosed addr low k [] h p q a b = cc
enclosed addr low zero (x ∷ es) h p q a b = absurd (ground arith)
enclosed addr low (suc k) (x ∷ []) h p q a b = cc
enclosed addr low (suc k) (x ∷ y ∷ es) {first} {last} (g, h) p q a b =
    elim (Bool-cases (ltb addr y.addr)) [
      | inl below ↦ (0, x, y, refl, refl, ground arith, ground arith)
      | inr above ↦
          let (j, e, next, r0, r1, r2, r3) =
            enclosed addr x.addr k (y ∷ es) {first = y} {last = last} h refl q (ground arith) b in
          (suc j, e, next, r0, r1, r2, r3)
    ]

module _ (addr : ℕ) (s : Symbols) (h : IsTable s) where
  -- The remembered entry and the one after it: it is the answer, or it is not.
  last_used-at :
      (e next : MapEntry)
      → get_elem? s.maparray s.mapidx ≡ some e
      → get_elem? s.maparray (suc s.mapidx) ≡ some next
      → (last_used addr s ≡ some none)
        ⊎ ((last_used addr s ≡ some (some e))
            × (search_from addr 0 s.maparray ≡ (s.mapidx, some e)))
  unfolding last_used
  last_used-at e next at at' = elim (Bool-cases (leb e.addr addr)) [
    | inr above ↦ inl (rw (at, above, last_used) refl)
    | inl from ↦ elim (Bool-cases (ltb addr next.addr)) [
      | inr past ↦ inl (rw (at, from, at', past, last_used) refl)
      | inl before ↦ inr (
        rw (at, from, at', before, last_used) refl,
        search_from-lem s.mapidx addr 0 0 s.maparray {e = e} {next = next} h.sorted at at'
              (ground arith) (ground arith)
            ∙ (λ j. (zero_add j, some e)),
      )
    ]
  ]
    where
      zero_add : 0 + s.mapidx ≡ s.mapidx
      zero_add = omega arith

  -- With the index on the last entry, after a search that failed, and an address below that entry.
  last_used-end :
      (last : MapEntry)
      → get_elem? s.maparray s.mapcnt ≡ some last
      → addr < last.addr
      → s.mapidx ≡ s.mapcnt
      → last_used addr s ≡ some none
  unfolding last_used
  last_used-end last at lt e =
      let below : leb last.addr addr ≡ false = ground arith in rw (e, at, below, last_used) refl

  -- The two ways in which the test of the remembered entry may go, within the array.
  Tested : Type 0
  Tested =
      (last_used addr s ≡ some none)
      ⊎ ((e : MapEntry) × (last_used addr s ≡ some (some e))
          × (search_from addr 0 s.maparray ≡ (s.mapidx, some e)))

  last_used-within :
      (e : MapEntry) × (get_elem? s.maparray s.mapidx ≡ some e)
      → (next : MapEntry) × (get_elem? s.maparray (suc s.mapidx) ≡ some next)
      → Tested
  unfolding Tested
  last_used-within (e, at) (next, at') = elim (last_used-at e next at at') [
    | inl miss ↦ inl miss
    | inr (hit, found) ↦ inr (e, hit, found)
  ]

  tested : (last : MapEntry) → get_elem? s.maparray s.mapcnt ≡ some last → addr < last.addr → Tested
  unfolding Tested
  tested last end before_end = elim (Bool-cases (ltb s.mapidx s.mapcnt)) [
    | inl lt ↦
        last_used-within (get_elem?-some s.mapidx s.maparray (ground (arith, h.size)))
          (get_elem?-some (suc s.mapidx) s.maparray (ground (arith, h.size)))
    | inr ge ↦ inl (last_used-end last end before_end (ground (arith, h.index)))
  ]

  -- What the call answers is what a search of the whole table answers.
  from_last_used :
      Tested
      → s.mapcnt ≢ 0
      → (get_symbol_and_offset addr s).0 ≡ answer addr (search_from addr 0 s.maparray).1
  unfolding Tested get_symbol_and_offset answer_or_search search_all
  from_last_used (inl miss) used =
      let some_symbols : (s.mapcnt == 0) ≡ false = ground arith in rw (some_symbols, miss) refl
  from_last_used (inr (e, hit, found)) used =
      let some_symbols : (s.mapcnt == 0) ≡ false = ground arith in
      rw (some_symbols, hit, found) refl

  search_all-IsTable : IsTable (search_all addr s).1
  unfolding search_all
  search_all-IsTable = record { sorted = h.sorted; size = h.size; index = within s.maparray h.size }
    where
      within :
          (es : List MapEntry) → length es ≡ suc s.mapcnt → (search_from addr 0 es).0 ≤ s.mapcnt
      within [] e = absurd (omega arith)
      within (x ∷ es) e = omega (arith, search_from-le addr 0 x es)

  after_last_used : (tested : Option (Option MapEntry)) → IsTable (answer_or_search addr s tested).1
  unfolding answer_or_search
  after_last_used none = h
  after_last_used (some none) = search_all-IsTable
  after_last_used (some (some e)) = h

  -- Every call keeps the table in order, its size right and its index within the array.
  pub get_symbol_and_offset-IsTable : IsTable (get_symbol_and_offset addr s).1
  unfolding get_symbol_and_offset
  get_symbol_and_offset-IsTable =
      if_both {A = Lookup × Symbols} (λ r. IsTable r.1) (s.mapcnt == 0) h
        (after_last_used (last_used addr s))

module _ (addr : ℕ) (s : Symbols) (last : MapEntry) (h : IsTable s)
    (end : get_elem? s.maparray s.mapcnt ≡ some last) (before_end : addr < last.addr) where
  -- Whatever entry the index remembers, the call on a table with symbols, for an address below the last
  -- entry's, answers what a search of the whole table from its start answers.
  pub get_symbol_and_offset-search_from :
      s.mapcnt ≢ 0
      → (get_symbol_and_offset addr s).0 ≡ answer addr (search_from addr 0 s.maparray).1
  get_symbol_and_offset-search_from used =
      from_last_used addr s h (tested addr s h last end before_end) used

  -- For an address from the first entry's to below the last entry's, the call on a table with symbols
  -- finds the entry that lies at or below the address with the next entry above it, and answers its symbol and
  -- the distance from it.
  pub get_symbol_and_offset-nearest :
      (first : MapEntry)
      → get_elem? s.maparray 0 ≡ some first
      → first.addr ≤ addr
      → s.mapcnt ≢ 0
      → (k : ℕ) × (e : MapEntry) × (next : MapEntry) × (get_elem? s.maparray k ≡ some e)
        × (get_elem? s.maparray (suc k) ≡ some next)
        × (e.addr ≤ addr)
        × (addr < next.addr)
        × ((get_symbol_and_offset addr s).0 ≡ symbol e.sym (addr - e.addr))
  unfolding answer
  get_symbol_and_offset-nearest first start from used =
      let (k, e, next, p, q, a, b) =
        enclosed addr 0 s.mapcnt s.maparray {first = first} {last = last} h.sorted start end from
          before_end in
      (
        k,
        e,
        next,
        p,
        q,
        a,
        b,
        get_symbol_and_offset-search_from used
            ∙ rw (search_from-lem k addr 0 0 s.maparray {e = e} {next = next} h.sorted p q a b)
                refl,
      )
