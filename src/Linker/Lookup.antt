-- ===== src/Linker/Lookup.antt =====
-- The symbol table as a map from names. Code: cmds/bintools/ld.c (find_symbol to find_alloc_symbol).
use fuzemsys.Base.{
  ℕ, zero, suc, ◌+◌, ◌-◌, bit_and, ◌≡◌, refl, sym, ap, ◌∙◌, Bool, true, false, Option, none, some,
  List, [], ◌∷◌, ◌==◌, if◌then◌else◌, Bool-cases, inl, inr, arith,
}
use fuzemsys.Linker.Table.{
  Name, Entry, Complaint, Table, same_upto, same_name, hash_sum, hash_symbol, find_in, find_symbol,
  new_symbol, change_in, change, is_unknown, coerce_segment, report_mismatch, segment_mismatch,
  define, allocate, find_alloc_symbol, namelen, nhash, multiply_defined,
}

-- The symbol that a name has.
abbrev pub lookup : Name → Table → Option Entry
lookup name t = find_symbol name (hash_symbol name) t

same_upto_refl : (n : ℕ) (a : Name) → same_upto n a a ≡ true
unfolding same_upto
same_upto_refl zero a = refl
same_upto_refl (suc n) [] = refl
same_upto_refl (suc n) (c ∷ a) = let h = same_upto_refl n a in ground (arith, h)

same_head : (x y : ℕ) (g : Bool) → (if x == y then g else false) ≡ true → (x ≡ y) × (g ≡ true)
same_head x y g h = elim (Bool-cases (x == y)) [
  | inl e ↦ (ground (arith, e), rw e at h)
  | inr e ↦ absurd (ground (arith, rw e at h))
]

same_upto_trans :
    (n : ℕ) (a b c : Name) → same_upto n a b ≡ true → same_upto n a c ≡ same_upto n b c
unfolding same_upto
same_upto_trans zero a b c h = refl
same_upto_trans (suc n) [] [] c h = refl
same_upto_trans (suc n) [] (y ∷ b) c h = absurd (ground (arith, h))
same_upto_trans (suc n) (x ∷ a) [] c h = absurd (ground (arith, h))
same_upto_trans (suc n) (x ∷ a) (y ∷ b) [] h = refl
same_upto_trans (suc n) (x ∷ a) (y ∷ b) (z ∷ c) h =
    let (e, h') = same_head x y (same_upto n a b) h in
    let rest = same_upto_trans n a b c h' in λ i. if e i == z then rest i else false

same_upto_sym : (n : ℕ) (a b : Name) → same_upto n a b ≡ same_upto n b a
unfolding same_upto
same_upto_sym zero a b = refl
same_upto_sym (suc n) [] [] = refl
same_upto_sym (suc n) [] (y ∷ b) = refl
same_upto_sym (suc n) (x ∷ a) [] = refl
same_upto_sym (suc n) (x ∷ a) (y ∷ b) =
    let swap : (x == y) ≡ (y == x) = ground arith in
    λ i. if swap i then same_upto_sym n a b i else false

-- Two names that are the same are the same as the same names.
same_name-right : (a b c : Name) → same_name a b ≡ true → same_name c a ≡ same_name c b
same_name-right a b c h =
    same_upto_sym namelen c a ∙ same_upto_trans namelen a b c h ∙ same_upto_sym namelen b c

hash_sum-same : (n : ℕ) (a b : Name) → same_upto n a b ≡ true → hash_sum n a ≡ hash_sum n b
unfolding hash_sum same_upto
hash_sum-same zero a b h = refl
hash_sum-same (suc n) [] [] h = refl
hash_sum-same (suc n) [] (y ∷ b) h = absurd (ground (arith, h))
hash_sum-same (suc n) (x ∷ a) [] h = absurd (ground (arith, h))
hash_sum-same (suc n) (x ∷ a) (y ∷ b) h =
    let (e, h') = same_head x y (same_upto n a b) h in λ i. e i + hash_sum-same n a b h' i

hash_symbol-same : (a b : Name) → same_name a b ≡ true → hash_symbol a ≡ hash_symbol b
unfolding hash_symbol
hash_symbol-same a b h = ap (λ (n : ℕ). bit_and n (nhash - 1)) (hash_sum-same namelen a b h)

-- Another spelling of a name that is the same up to NAMELEN.
find_in-same :
    (a b : Name) (bucket : List Entry) → same_name a b ≡ true → find_in bucket a ≡ find_in bucket b
unfolding find_in
find_in-same a b [] h = refl
find_in-same a b (s ∷ bucket) h =
    λ i. if same_name-right a b s.name h i then some s else find_in-same a b bucket h i

map_option : {A B : Type 0} → (A → B) → Option A → Option B
map_option f none = none
map_option f (some a) = some (f a)

if_nested :
    {A : Type 0} (test : Bool) (x y z : A)
    → (if test then x else y) ≡ (if test then x else if test then z else y)
if_nested true x y z = refl
if_nested false x y z = refl

if_swap :
    {A : Type 0} (p q : Bool) (x y z : A)
    → (q ≡ true → p ≡ false)
    → (if p then x else if q then y else z) ≡ (if q then y else if p then x else z)
if_swap true true x y z h = absurd (ground (arith, h refl))
if_swap true false x y z h = refl
if_swap false q x y z h = refl

if_same : {A : Type 0} (x : A) (test : Bool) → (if test then x else x) ≡ x
if_same x true = refl
if_same x false = refl

find_in-change_in :
    (id name : Name) (f : Entry → Entry) (bucket : List Entry)
    → ((s : Entry) → (f s).name ≡ s.name)
    → find_in (change_in bucket id f) name
      ≡ (if same_name id name then map_option f (find_in bucket id) else find_in bucket name)
unfolding find_in change_in map_option
find_in-change_in id name f [] keeps = sym (if_same none (same_name id name))
find_in-change_in id name f (s ∷ bucket) keeps = elim (Bool-cases (same_name s.name id)) [
  | inl e ↦
      let changed : same_name (f s).name name ≡ same_name id name =
        ap (λ (n : Name). same_name n name) (keeps s) ∙ same_upto_trans namelen s.name id name e in
      rw e (
        rw (changed, same_upto_trans namelen s.name id name e)
          (if_nested (same_name id name) _ _ _))
  | inr e ↦
      rw (e, find_in-change_in id name f bucket keeps)
        (if_swap (same_name s.name name) (same_name id name) _ _ _
          (λ h. sym (same_name-right id name s.name h) ∙ e))
]

-- Names in different buckets are different.
other_bucket : (a b : Name) → (hash_symbol b == hash_symbol a) ≡ false → same_name a b ≡ false
other_bucket a b e = elim (Bool-cases (same_name a b)) [
  | inl h ↦ let same = hash_symbol-same a b h in absurd (ground (arith, e, same))
  | inr h ↦ h
]

-- The bucket that a name is looked up in, after a change of one bucket.
lookup-change :
    (id name : Name) (f : Entry → Entry) (t : Table)
    → ((s : Entry) → (f s).name ≡ s.name)
    → lookup name (change id (hash_symbol id) f t)
      ≡ (if same_name id name then map_option f (lookup id t) else lookup name t)
unfolding find_symbol
lookup-change id name f t keeps = elim (Bool-cases (hash_symbol name == hash_symbol id)) [
  | inl e ↦
      let same : hash_symbol name ≡ hash_symbol id = ground (arith, e) in
      rw (e, same) (find_in-change_in id name f (t.symhash (hash_symbol id)) keeps)
  | inr e ↦ rw (e, other_bucket id name e) refl
]

lookup-new_symbol :
    (s : Entry) (name : Name) (t : Table)
    → lookup name (new_symbol s (hash_symbol s.name) t)
      ≡ (if same_name s.name name then some s else lookup name t)
unfolding find_symbol new_symbol find_in
lookup-new_symbol s name t = elim (Bool-cases (hash_symbol name == hash_symbol s.name)) [
  | inl e ↦
      let same : hash_symbol name ≡ hash_symbol s.name = ground (arith, e) in rw (e, same) refl
  | inr e ↦ rw (e, other_bucket s.name name e) refl
]

-- What a symbol is after a reference or a definition of it, from what it was.
abbrev pub resolved : Option ℕ → ℕ → Name → ℕ → Option Entry → Entry
resolved o type id value none = record {
  name = id;
  value = value;
  number = 0;
  type = type;
  definedby = if is_unknown type then none else o;
}
resolved o type id value (some s) =
    if is_unknown type
    then coerce_segment s type
    else (if is_unknown s.type then define o type value s else s)

name-coerce_segment : (type : ℕ) (s : Entry) → (coerce_segment s type).name ≡ s.name
unfolding coerce_segment
name-coerce_segment type s = ground arith

name-define : (o : Option ℕ) (type value : ℕ) (s : Entry) → (define o type value s).name ≡ s.name
unfolding define
name-define o type value s = name-coerce_segment type s

symhash-report_mismatch :
    (s : Entry) (type : ℕ) (t : Table) → (report_mismatch s type t).symhash ≡ t.symhash
unfolding report_mismatch
symhash-report_mismatch s type t = ground arith

lookup-report_mismatch :
    (s : Entry) (type : ℕ) (name : Name) (t : Table)
    → lookup name (report_mismatch s type t) ≡ lookup name t
unfolding find_symbol
lookup-report_mismatch s type name t =
    ap (λ (h : ℕ → List Entry). find_in (h (hash_symbol name)) name)
      (symhash-report_mismatch s type t)

lookup-same : (a b : Name) (t : Table) → same_name a b ≡ true → lookup a t ≡ lookup b t
unfolding find_symbol
lookup-same a b t h =
    ap (λ (n : ℕ). find_in (t.symhash n) a) (hash_symbol-same a b h)
    ∙ find_in-same a b (t.symhash (hash_symbol b)) h

lookup-complaint :
    (test : Bool) (c : Complaint) (name : Name) (t : Table)
    → lookup name (if test then record t { complaints = c ∷ t.complaints } else t) ≡ lookup name t
unfolding find_symbol
lookup-complaint true c name t = refl
lookup-complaint false c name t = refl

-- A symbol that is not changed.
if_kept :
    (id name : Name) (t : Table) (s : Entry)
    → lookup id t ≡ some s
    → lookup name t ≡ (if same_name id name then some s else lookup name t)
unfolding find_symbol
if_kept id name t s e = elim (Bool-cases (same_name id name)) [
  | inl h ↦ rw h (sym (lookup-same id name t h) ∙ e)
  | inr h ↦ rw h refl
]

lookup-allocate :
    (o : Option ℕ) (type : ℕ) (id : Name) (value : ℕ) (name : Name) (found : Option Entry)
    (t : Table)
    → lookup id t ≡ found
    → lookup name (allocate o type id value found t)
      ≡ (if same_name id name then some (resolved o type id value found) else lookup name t)
unfolding allocate segment_mismatch map_option
lookup-allocate o type id value name none t e = lookup-new_symbol _ name t
lookup-allocate o type id value name (some s) t e = elim (Bool-cases (is_unknown type)) [
  | inl u ↦ rw u (
      lookup-report_mismatch s type name _
      ∙ lookup-change id name (λ (x : Entry). coerce_segment x type) t (name-coerce_segment type)
      ∙ rw e refl)
  | inr u ↦ rw u (elim (Bool-cases (is_unknown s.type)) [
    | inl v ↦ rw v (
        lookup-report_mismatch s type name _
        ∙ lookup-change id name (define o type value) t (name-define o type value)
        ∙ rw e refl)
    | inr v ↦ rw v (lookup-complaint _ (multiply_defined id) name t ∙ if_kept id name t s e)
  ])
]

-- The table is a map from names, up to NAMELEN: find_alloc_symbol makes of the symbol of its name what the
-- reference or definition makes of it, and leaves the symbols of all other names as they were.
pub lookup-find_alloc_symbol :
    (o : Option ℕ) (type : ℕ) (id : Name) (value : ℕ) (name : Name) (t : Table)
    → lookup name (find_alloc_symbol o type id value t)
      ≡ (if same_name id name then some (resolved o type id value (lookup id t)) else lookup name t)
unfolding find_alloc_symbol
lookup-find_alloc_symbol o type id value name t =
    lookup-allocate o type id value name (lookup id t) t refl

pub same_name_refl : (a : Name) → same_name a a ≡ true
same_name_refl a = same_upto_refl namelen a
