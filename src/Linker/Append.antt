-- ===== src/Linker/Append.antt =====
-- The places of the segments. Code: cmds/bintools/ld.c (append_segment, order_segments).
use fuzemsys.Base.{
  ℕ, ◌+◌, ◌-◌, ◌*◌, ◌/◌, ◌^◌, ◌<◌, ◌≤◌, ◌≡◌, ◌≢◌, refl, ◌∙◌, false, none, some, List, [], ◌∷◌, ltb,
  if◌then◌else◌, arith,
}
use mathlib.Core.Path.{subst}
use native.Mathlib.Nat.{div-add-mod', mod-lt}
use fuzemsys.Base.Bits.{u16}
use fuzemsys.ObjectFile.{code_segment, data_segment, bss, discard, literal}
use fuzemsys.Linker.Layout.{
  invalid_segment_order, Layout, Result, placed, failed, image_too_large, ◌>>=◌, set_at,
  append_segment, order_from, order_segments, segnames, segment_letter, default_order,
}
use fuzemsys.Linker.Place.{OnPlaced, checked, Holds}

-- Segment a was put behind segment b: it starts at a multiple of the alignment, at the end of b or less than
-- the alignment behind it, and nothing else was changed.
pub record IsBehind (a b : ℕ) (l l' : Layout) : Type 0 where
  pub behind : l.base b + l.size b ≤ l'.base a
  pub near : l'.base a < l.base b + l.size b + l.align
  pub aligned : (n : ℕ) × (l'.base a ≡ n * l.align)
  pub word : l'.base a < 2 ^ 16
  pub others : (i : ℕ) → i ≢ a → l'.base i ≡ l.base i
  pub same_size : l'.size ≡ l.size
  pub same_set : l'.baseset ≡ l.baseset
  pub same_align : l'.align ≡ l.align

-- The next multiple, from the laws of division.
rounded : (x align : ℕ) → 0 < align → (x + align - 1) / align * align < x + align
rounded x align positive =
    let parts = div-add-mod' (x + align - 1) align in omega (arith, parts, positive)

rounded_up : (x align : ℕ) → 0 < align → x ≤ (x + align - 1) / align * align
rounded_up x align positive =
    let parts = div-add-mod' (x + align - 1) align in
    let rest = mod-lt (x + align - 1) positive in omega (arith, parts, rest, positive)

set_at-same : (f : ℕ → ℕ) (a v : ℕ) → set_at f a v a ≡ v
set_at-same f a v = ground arith

set_at-other : (f : ℕ → ℕ) (a i v : ℕ) → i ≢ a → set_at f a v i ≡ f i
set_at-other f a i v h = ground (arith, h)

fits_word :
    (q base bound : ℕ)
    → q < base + bound
    → bound ≤ 2 ^ 16
    → base < 2 ^ 16
    → ltb (u16 q) base ≡ false
    → u16 q ≡ q
fits_word q base bound near small word e = ground (arith, near, small, word, e)

append_segment_lem :
    (a b : ℕ) (l : Layout)
    → l.baseset a ≡ false
    → 0 < l.align
    → l.base b < 2 ^ 16
    → l.size b + l.align ≤ 2 ^ 16
    → OnPlaced (IsBehind a b l) (append_segment a b l)
unfolding append_segment
append_segment_lem a b l free positive word small =
    let x = l.base b + l.size b in
    let near = rounded x l.align positive in
    let behind = rounded_up x l.align positive in
    rw free (
      checked _ image_too_large λ e.
        let exact : u16 ((x + l.align - 1) / l.align * l.align)
            ≡ (x + l.align - 1) / l.align * l.align =
          fits_word _ (l.base b) (l.size b + l.align) (omega (arith, near)) small word e in
        let here : set_at l.base a (u16 ((x + l.align - 1) / l.align * l.align)) a
            ≡ (x + l.align - 1) / l.align * l.align =
          set_at-same l.base a _ ∙ exact in
        record {
          holds = record {
            behind = omega (arith, here, behind);
            near = omega (arith, here, near);
            aligned = ((x + l.align - 1) / l.align, here);
            word = omega (arith, here, exact);
            others = λ i other. set_at-other l.base a i _ other;
            same_size = refl;
            same_set = refl;
            same_align = refl;
          };
        })

inside_word : (q base : ℕ) → q < 2 ^ 16 → base ≤ q → ltb (u16 q) base ≡ false
inside_word q base small above = ground (arith, small, above)

-- No segment's place is set by hand, and what bounds the sum in append_segment.
pub record IsReady (l : Layout) : Type 0 where
  pub free : (i : ℕ) → l.baseset i ≡ false
  pub positive : 0 < l.align
  pub small : (i : ℕ) → l.size i + l.align ≤ 2 ^ 16

IsBehind-IsReady : {a b : ℕ} {l l' : Layout} → IsBehind a b l l' → IsReady l → IsReady l'
IsBehind-IsReady {l = l} {l'} h r = record {
  free = λ i. (λ j. h.same_set j i) ∙ r.free i;
  positive = let e = h.same_align in let p = r.positive in omega (arith, e, p);
  small = λ i.
      let s : l'.size i ≡ l.size i = (λ j. h.same_size j i) in
      let e = h.same_align in let p = r.small i in omega (arith, s, e, p);
}

-- The segments of the default order, one behind the other.
pub record InOrder (l l' : Layout) : Type 0 where
  pub code_kept : l'.base code_segment ≡ l.base code_segment
  pub literal_behind : l.base code_segment + l.size code_segment ≤ l'.base literal
  pub data_behind : l'.base literal + l.size literal ≤ l'.base data_segment
  pub bss_behind : l'.base data_segment + l.size data_segment ≤ l'.base bss
  pub discard_behind : l'.base bss + l.size bss ≤ l'.base discard

placed-IsBehind :
    (a b : ℕ) (l : Layout)
    → IsReady l
    → l.base b < 2 ^ 16
    → OnPlaced (IsBehind a b l) (if l.baseset a then placed l else append_segment a b l)
placed-IsBehind a b l r word =
    rw (r.free a) (append_segment_lem a b l (r.free a) r.positive word (r.small b))

sizes-IsBehind : {a b : ℕ} {l l' : Layout} (i : ℕ) → IsBehind a b l l' → l'.size i ≡ l.size i
sizes-IsBehind i h = λ j. h.same_size j i

chain-InOrder :
    {l l₁ l₂ l₃ l₄ : Layout}
    → IsBehind literal code_segment l l₁
    → IsBehind data_segment literal l₁ l₂
    → IsBehind bss data_segment l₂ l₃
    → IsBehind discard bss l₃ l₄
    → InOrder l l₄
chain-InOrder {l} {l₁} {l₂} {l₃} {l₄} h₁ h₂ h₃ h₄ =
    let at_code =
      h₄.others code_segment (λ e. omega (arith, e))
      ∙ h₃.others code_segment (λ e. omega (arith, e))
      ∙ h₂.others code_segment (λ e. omega (arith, e))
      ∙ h₁.others code_segment (λ e. omega (arith, e)) in
    let at_literal =
      h₄.others literal (λ e. omega (arith, e))
      ∙ h₃.others literal (λ e. omega (arith, e))
      ∙ h₂.others literal (λ e. omega (arith, e)) in
    let at_data =
      h₄.others data_segment (λ e. omega (arith, e))
      ∙ h₃.others data_segment (λ e. omega (arith, e)) in
    let at_bss = h₄.others bss (λ e. omega (arith, e)) in
    let literal_size = sizes-IsBehind literal h₁ in
    let data_size = sizes-IsBehind data_segment h₂ ∙ sizes-IsBehind data_segment h₁ in
    let bss_size = sizes-IsBehind bss h₃ ∙ sizes-IsBehind bss h₂ ∙ sizes-IsBehind bss h₁ in
    let b₁ = h₁.behind in
    let b₂ = h₂.behind in
    let b₃ = h₃.behind in
    let b₄ = h₄.behind in
    record {
      code_kept = at_code;
      literal_behind = omega (arith, at_literal, b₁);
      data_behind = omega (arith, at_literal, at_data, literal_size, b₂);
      bss_behind = omega (arith, at_data, at_bss, data_size, b₃);
      discard_behind = omega (arith, at_bss, bss_size, b₄);
    }

IsBehind-of_placed :
    (a b : ℕ) (l l' : Layout)
    → IsReady l
    → l.base b < 2 ^ 16
    → (if l.baseset a then placed l else append_segment a b l) ≡ placed l'
    → IsBehind a b l l'
IsBehind-of_placed a b l l' r word e =
    subst (λ (x : Result Layout). Holds (IsBehind a b l) x) e (placed-IsBehind a b l r word).holds

placed_at :
    (a b : ℕ) (l : Layout)
    → IsReady l
    → l.base b + l.size b + l.align ≤ 2 ^ 16
    → (l' : Layout) × ((if l.baseset a then placed l else append_segment a b l) ≡ placed l')
unfolding append_segment
placed_at a b l r fits =
    let x = l.base b + l.size b in
    let q = (x + l.align - 1) / l.align * l.align in
    let near = rounded x l.align r.positive in
    let behind = rounded_up x l.align r.positive in
    let inside : ltb (u16 q) (l.base b) ≡ false =
      inside_word q (l.base b) (omega (arith, near, fits)) (omega (arith, behind)) in
    (record l { base = set_at l.base a (u16 q) }, rw (r.free a, inside) refl)

-- What is left of the memory behind a segment.
bss_fits :
    (l l' : Layout)
    → IsBehind bss data_segment l l'
    → l.base data_segment + l.size data_segment + (l.size bss + 2 * l.align) ≤ 2 ^ 16
    → l'.base bss + l'.size bss + l'.align ≤ 2 ^ 16
bss_fits l l' h fits =
    let near = h.near in
    let size = sizes-IsBehind bss h in
    let align = h.same_align in omega (arith, near, size, align, fits)

data_fits :
    (l l' : Layout)
    → IsBehind data_segment literal l l'
    → l.base literal + l.size literal + (l.size data_segment + l.size bss + 3 * l.align) ≤ 2 ^ 16
    → l'.base data_segment + l'.size data_segment + (l'.size bss + 2 * l'.align) ≤ 2 ^ 16
data_fits l l' h fits =
    let near = h.near in
    let size = sizes-IsBehind data_segment h in
    let later = sizes-IsBehind bss h in
    let align = h.same_align in omega (arith, near, size, later, align, fits)

literal_fits :
    (l l' : Layout)
    → IsBehind literal code_segment l l'
    → l.base code_segment
        + l.size code_segment
        + (l.size literal + l.size data_segment + l.size bss + 4 * l.align)
      ≤ 2 ^ 16
    → l'.base literal + l'.size literal + (l'.size data_segment + l'.size bss + 3 * l'.align)
      ≤ 2 ^ 16
literal_fits l l' h fits =
    let near = h.near in
    let size = sizes-IsBehind literal h in
    let later = sizes-IsBehind data_segment h in
    let last = sizes-IsBehind bss h in
    let align = h.same_align in omega (arith, near, size, later, last, align, fits)

-- One letter of the order.
placed_next :
    (c : ℕ) (letters : List ℕ) (b a : ℕ) (l : Layout)
    → segment_letter segnames 1 c ≡ some a
    → IsReady l
    → l.base b + l.size b + l.align ≤ 2 ^ 16
    → (l' : Layout) × (order_from (c ∷ letters) (some b) l ≡ order_from letters (some a) l')
      × IsBehind a b l l'
unfolding order_from
placed_next c letters b a l found r fits =
    let (l', e) = placed_at a b l r fits in
    let p = r.positive in
    (
      l',
      (λ i. elim (found i) [
        | none ↦ failed invalid_segment_order
        | some n ↦
            (if l.baseset n then placed l else append_segment n b l) >>= order_from letters (some n)
      ])
          ∙ (λ i. e i >>= order_from letters (some a)),
      IsBehind-of_placed a b l l' r (omega (arith, fits, p)) e,
    )

from_bss :
    (l l₁ l₂ l₃ : Layout)
    → IsBehind literal code_segment l l₁
    → IsBehind data_segment literal l₁ l₂
    → IsBehind bss data_segment l₂ l₃
    → IsReady l₃
    → l₃.base bss + l₃.size bss + l₃.align ≤ 2 ^ 16
    → (l' : Layout) × (order_from (b'X' ∷ []) (some bss) l₃ ≡ placed l') × InOrder l l'
unfolding order_from segment_letter
from_bss l l₁ l₂ l₃ h₁ h₂ h₃ r fits =
    let (l', e, h) = placed_next b'X' [] bss discard l₃ refl r fits in
    (l', e, chain-InOrder h₁ h₂ h₃ h)

from_data :
    (l l₁ l₂ : Layout)
    → IsBehind literal code_segment l l₁
    → IsBehind data_segment literal l₁ l₂
    → IsReady l₂
    → l₂.base data_segment + l₂.size data_segment + (l₂.size bss + 2 * l₂.align) ≤ 2 ^ 16
    → (l' : Layout) × (order_from (b'B' ∷ b'X' ∷ []) (some data_segment) l₂ ≡ placed l')
      × InOrder l l'
unfolding segment_letter
from_data l l₁ l₂ h₁ h₂ r fits =
    let (l₃, e, h) =
      placed_next b'B' (b'X' ∷ []) data_segment bss l₂ refl r (omega (arith, fits)) in
    let (l', e', o) = from_bss l l₁ l₂ l₃ h₁ h₂ h (IsBehind-IsReady h r) (bss_fits l₂ l₃ h fits) in
    (l', e ∙ e', o)

from_literal :
    (l l₁ : Layout)
    → IsBehind literal code_segment l l₁
    → IsReady l₁
    → l₁.base literal + l₁.size literal + (l₁.size data_segment + l₁.size bss + 3 * l₁.align)
      ≤ 2 ^ 16
    → (l' : Layout) × (order_from (b'D' ∷ b'B' ∷ b'X' ∷ []) (some literal) l₁ ≡ placed l')
      × InOrder l l'
unfolding segment_letter
from_literal l l₁ h₁ r fits =
    let (l₂, e, h) =
      placed_next b'D' (b'B' ∷ b'X' ∷ []) literal data_segment l₁ refl r (omega (arith, fits)) in
    let (l', e', o) = from_data l l₁ l₂ h₁ h (IsBehind-IsReady h r) (data_fits l₁ l₂ h fits) in
    (l', e ∙ e', o)

-- With no segment's place set by hand, and when the segments and four alignments fit below the top of memory, the
-- default order is placed without an error: code stays where it is, and literals, data, BSS and the discarded
-- segment each start where the one before ends, or behind it.
pub order_segments-InOrder :
    (l : Layout)
    → IsReady l
    → l.base code_segment
        + l.size code_segment
        + (l.size literal + l.size data_segment + l.size bss + 4 * l.align)
      ≤ 2 ^ 16
    → (l' : Layout) × (order_segments default_order l ≡ placed l') × InOrder l l'
unfolding order_segments order_from segment_letter
order_segments-InOrder l r fits =
    let (l₁, e, h) =
      placed_next b'L' (b'D' ∷ b'B' ∷ b'X' ∷ []) code_segment literal l refl r
        (omega (arith, fits)) in
    let (l', e', o) = from_literal l l₁ h (IsBehind-IsReady h r) (literal_fits l l₁ h fits) in
    (l', e ∙ e', o)
