-- ===== src/Linker/Table.antt =====
-- The symbol table of the link. Code: cmds/bintools/ld.c (new_symbol to renumber_symbols), cmds/bintools/ld.h
-- (struct symbol), cmds/bintools/obj.h. A pointer to a symbol is its name, of which the table has one instance.
use fuzemsys.Base.{
  ℕ, zero, suc, ◌+◌, ◌-◌, bit_and, bit_or, Bool, true, false, ◌||◌, not, Option, none, some, List,
  [], ◌∷◌, ◌==◌, if◌then◌else◌,
}
use fuzemsys.ObjectFile.{s_unknown, s_public, s_any, absolute}

abbrev pub namelen : ℕ
namelen = 16

abbrev pub nhash : ℕ
nhash = 64

-- A name up to its NUL.
abbrev pub Name : Type 0
Name = List ℕ

-- `definedby` is the place of the object in the list.
pub record Entry : Type 0 where
  pub name : Name
  pub value : ℕ
  pub number : ℕ
  pub type : ℕ
  pub definedby : Option ℕ

pub data Complaint : Type 0 where
  segment_clash multiply_defined : Name → Complaint

-- symhash, err, progress, and what is printed, the latest first.
pub record Table : Type 0 where
  pub symhash : ℕ → List Entry
  pub err : ℕ
  pub progress : ℕ
  pub complaints : List Complaint

-- `strncmp (a, b, n) == 0`
unfoldable pub same_upto : ℕ → Name → Name → Bool
same_upto zero a b = true
same_upto (suc n) [] [] = true
same_upto (suc n) [] (d ∷ b) = false
same_upto (suc n) (c ∷ a) [] = false
same_upto (suc n) (c ∷ a) (d ∷ b) = if c == d then same_upto n a b else false

abbrev pub same_name : Name → Name → Bool
same_name a b = same_upto namelen a b

-- The loop of hash_symbol. A char that is negative counts the same modulo 64.
unfoldable pub hash_sum : ℕ → Name → ℕ
hash_sum zero name = 0
hash_sum (suc n) [] = 0
hash_sum (suc n) (c ∷ name) = c + hash_sum n name

unfoldable pub hash_symbol : Name → ℕ
hash_symbol name = bit_and (hash_sum namelen name) (nhash - 1)

-- The loop of find_symbol.
unfoldable pub find_in : List Entry → Name → Option Entry
find_in [] name = none
find_in (s ∷ bucket) name = if same_name s.name name then some s else find_in bucket name

unfoldable pub find_symbol : Name → ℕ → Table → Option Entry
find_symbol name hash t = find_in (t.symhash hash) name

abbrev pub set_bucket : ℕ → List Entry → Table → Table
set_bucket hash bucket t = record t { symhash = λ h. if h == hash then bucket else t.symhash h }

unfoldable pub new_symbol : Entry → ℕ → Table → Table
new_symbol s hash t = set_bucket hash (s ∷ t.symhash hash) t

-- A change through the pointer that find_symbol gave.
unfoldable pub change_in : List Entry → Name → (Entry → Entry) → List Entry
change_in [] name f = []
change_in (s ∷ bucket) name f =
    if same_name s.name name then f s ∷ bucket else s ∷ change_in bucket name f

abbrev pub change : Name → ℕ → (Entry → Entry) → Table → Table
change name hash f t = set_bucket hash (change_in (t.symhash hash) name f) t

abbrev pub segment_of : ℕ → ℕ
segment_of type = bit_and type 0x0f

abbrev pub is_unknown : ℕ → Bool
is_unknown type = not (bit_and type s_unknown == 0)

unfoldable pub is_undefined : Name → Table → Bool × Table
is_undefined name t = elim (find_symbol name (hash_symbol name) t) [
  | none ↦ (false, t)
  | some s ↦
      if is_unknown s.type then (true, record t { progress = t.progress + 1 }) else (false, t)
]

-- segment_mismatch: what it makes of the symbol, and whether it complains.
unfoldable pub coerce_segment : Entry → ℕ → Entry
coerce_segment s type2 =
    if segment_of s.type == segment_of type2
    then s
    else (if segment_of s.type == s_any
        then record s { type = bit_or (bit_and s.type 0xf0) (segment_of type2) }
        else s)

unfoldable pub segments_clash : Entry → ℕ → Bool
segments_clash s type2 = not (
    segment_of s.type == segment_of type2
    || segment_of s.type == s_any
    || segment_of type2 == absolute
    || segment_of type2 == s_any)

unfoldable pub report_mismatch : Entry → ℕ → Table → Table
report_mismatch s type2 t =
    if segments_clash s type2
    then record t { err = bit_or t.err 2; complaints = segment_clash s.name ∷ t.complaints }
    else t

unfoldable pub segment_mismatch : Name → ℕ → Entry → ℕ → Table → Table
segment_mismatch id hash s type2 t =
    report_mismatch s type2 (change id hash (λ e. coerce_segment e type2) t)

-- The branch that fills in a symbol that was not known.
unfoldable pub define : Option ℕ → ℕ → ℕ → Entry → Entry
define o type value s =
    let s' = coerce_segment s type in
    record s' { type = bit_and s'.type 0x7f; value = value; definedby = o }

-- find_alloc_symbol, after the look-up. The number of a new symbol is not set in C.
unfoldable pub allocate : Option ℕ → ℕ → Name → ℕ → Option Entry → Table → Table
allocate o type id value none t =
    new_symbol
      (record {
        name = id;
        value = value;
        number = 0;
        type = type;
        definedby = if is_unknown type then none else o;
      })
      (hash_symbol id) t
allocate o type id value (some s) t =
    if is_unknown type
    then segment_mismatch id (hash_symbol id) s type t
    else (if is_unknown s.type
        then report_mismatch s type (change id (hash_symbol id) (define o type value) t)
        else (if not (segment_of (bit_or s.type type) == absolute) || not (s.value == value)
            then record t { complaints = multiply_defined id ∷ t.complaints }
            else t))

unfoldable pub find_alloc_symbol : Option ℕ → ℕ → Name → ℕ → Table → Table
find_alloc_symbol o type id value t = allocate o type id value (find_symbol id (hash_symbol id) t) t

-- `seg` is none for -1.
unfoldable pub insert_internal_symbol : Name → Option ℕ → ℕ → Table → Table
insert_internal_symbol name none val = find_alloc_symbol none (bit_or s_any s_unknown) name 0
insert_internal_symbol name (some seg) val = find_alloc_symbol none (bit_or seg s_public) name val

-- renumber_symbols: a bucket, with the next number, and then the buckets.
abbrev pub is_numbered : Entry → Bool
is_numbered s = not (bit_and s.type (bit_or s_public s_unknown) == 0)

unfoldable pub renumber_bucket : ℕ → List Entry → ℕ × List Entry
renumber_bucket next [] = (next, [])
renumber_bucket next (s ∷ bucket) =
    let later = renumber_bucket (if is_numbered s then next + 1 else next) bucket in
    (later.0, (if is_numbered s then record s { number = next } else s) ∷ later.1)

unfoldable pub renumber_from : ℕ → ℕ → ℕ → Table → Table
renumber_from zero i next t = t
renumber_from (suc buckets) i next t =
    let numbered = renumber_bucket next (t.symhash i) in
    renumber_from buckets (i + 1) numbered.0 (set_bucket i numbered.1 t)

unfoldable pub renumber_symbols : Table → Table
renumber_symbols t = renumber_from nhash 0 0 t
