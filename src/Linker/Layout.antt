-- ===== src/Linker/Layout.antt =====
-- Where the link places segments and objects. Code: cmds/bintools/ld.c (append_segment, order_segments,
-- set_segment_bases). What it prints when it is verbose is not modelled.
use fuzemsys.Base.{
  ℕ, zero, suc, ◌+◌, ◌-◌, ◌*◌, ◌/◌, Bool, Option, none, some, List, [], ◌∷◌, ◌==◌, ltb,
  if◌then◌else◌, get_elem?,
}
use fuzemsys.Base.Bits.{u16}
use fuzemsys.ObjectFile.{oseg, absolute}
use fuzemsys.Linker.Table.{Entry, segment_of}

-- An object, as far as the placing reads and writes it: o_size of its header, and `base`.
pub record Object : Type 0 where
  pub o_size : ℕ → ℕ
  pub base : ℕ → ℕ

-- base, size, baseset and align
pub record Layout : Type 0 where
  pub base : ℕ → ℕ
  pub size : ℕ → ℕ
  pub baseset : ℕ → Bool
  pub align : ℕ

pub data Failure : Type 0 where
  segment_too_large image_too_large invalid_segment_order : Failure

-- A step is placed, or has called error.
pub data Result (A : Type 0) : Type 0 where
  placed : A → Result A
  failed : Failure → Result A

infixl 5 ◌>>=◌
abbrev pub ◌>>=◌ : {A B : Type 0} → Result A → (A → Result B) → Result B
placed a >>= f = f a
failed e >>= f = failed e

abbrev pub set_at : (ℕ → ℕ) → ℕ → ℕ → ℕ → ℕ
set_at f i v j = if j == i then v else f j

-- `size[i] += o->oh->o_size[i]` for the segments from i on, with the check
unfoldable pub add_sizes : ℕ → ℕ → Object → (ℕ → ℕ) → Result (ℕ → ℕ)
add_sizes zero i o size = placed size
add_sizes (suc segments) i o size =
    let total = u16 (size i + o.o_size i) in
    let later = add_sizes segments (i + 1) o (set_at size i total) in
    if ltb total (o.o_size i) then failed segment_too_large else later

unfoldable pub sum_sizes : List Object → (ℕ → ℕ) → Result (ℕ → ℕ)
sum_sizes [] size = placed size
sum_sizes (o ∷ objects) size = add_sizes (oseg - 1) 1 o size >>= sum_sizes objects

-- `base[a]` is a uint16_t; the sum and the product before it are of type int.
unfoldable pub append_segment : ℕ → ℕ → Layout → Result Layout
append_segment a b l =
    if l.baseset a
    then placed l
    else (let placed_at = u16 ((l.base b + l.size b + l.align - 1) / l.align * l.align) in
        if ltb placed_at (l.base b)
        then failed image_too_large
        else placed (record l { base = set_at l.base a placed_at }))

-- strchr (segnames, c) - segnames + 1
unfoldable pub segment_letter : List ℕ → ℕ → ℕ → Option ℕ
segment_letter [] n c = none
segment_letter (letter ∷ letters) n c =
    if letter == c then some n else segment_letter letters (n + 1) c

abbrev pub segnames : List ℕ
segnames = b'C' ∷ b'D' ∷ b'B' ∷ b'Z' ∷ b'X' ∷ b'S' ∷ b'L' ∷ b's' ∷ b'b' ∷ []

-- The loop of order_segments; `last` is none for 0xFF.
unfoldable pub order_from : List ℕ → Option ℕ → Layout → Result Layout
order_from [] last l = placed l
order_from (c ∷ letters) last l = elim (segment_letter segnames 1 c) [
  | none ↦ failed invalid_segment_order
  | some n ↦
      (elim last [
        | none ↦ placed l
        | some previous ↦ if l.baseset n then placed l else append_segment n previous l
      ])
      >>= order_from letters (some n)
]

abbrev pub default_order : List ℕ
default_order = b'C' ∷ b'L' ∷ b'D' ∷ b'B' ∷ b'X' ∷ []

unfoldable pub order_segments : List ℕ → Layout → Result Layout
order_segments letters l = order_from letters none l

-- The loop that sets the base of each object from `pos`.
unfoldable pub place_objects : List Object → (ℕ → ℕ) → List Object
place_objects [] pos = []
place_objects (o ∷ objects) pos =
    record o { base = λ i. if i == absolute then 0 else pos i }
    ∷ place_objects objects (λ i. if i == absolute then pos i else u16 (pos i + o.o_size i))

-- The loop that relocates a symbol.
unfoldable pub place_symbol : List Object → (ℕ → ℕ) → Entry → Entry
place_symbol objects base s =
    let seg = segment_of s.type in
    record s {
      value = u16 (
          s.value + (elim s.definedby [
            | none ↦ base seg
            | some k ↦ elim (get_elem? objects k) [ none ↦ 0 | some o ↦ o.base seg ]
          ]));
    }
