-- ===== src/Base/Int.antt =====
-- Integers over the native numbers, for what the code computes in an `int` and for the signed
-- readings of machine words.
use Prim.Native.Nat.{ℕ, suc, ◌+◌, ◌-◌}
use mathlib.Core.Bool.{Bool, ◌&&◌}
use fuzemsys.Base.Tests.{ltb, leb, if◌then◌else◌}

-- `negsuc n` is -(n + 1).
pub data ℤ : Type 0 where
  pos : ℕ → ℤ
  negsuc : ℕ → ℤ

abbrev pub pos_part : ℤ → ℕ
pos_part (pos n) = n
pos_part (negsuc _) = 0

abbrev pub neg_part : ℤ → ℕ
neg_part (pos _) = 0
neg_part (negsuc n) = suc n

abbrev pub sub_ℕ : ℕ → ℕ → ℤ
sub_ℕ a b = if leb b a then pos (a - b) else negsuc (b - a - 1)

infixl 65 ◌+ℤ◌ ◌-ℤ◌
abbrev pub ◌+ℤ◌ : ℤ → ℤ → ℤ
a +ℤ b = sub_ℕ (pos_part a + pos_part b) (neg_part a + neg_part b)

abbrev pub ◌-ℤ◌ : ℤ → ℤ → ℤ
a -ℤ b = sub_ℕ (pos_part a + neg_part b) (neg_part a + pos_part b)

abbrev pub ltb_ℤ : ℤ → ℤ → Bool
ltb_ℤ a b = ltb (pos_part a + neg_part b) (pos_part b + neg_part a)

abbrev pub leb_ℤ : ℤ → ℤ → Bool
leb_ℤ a b = leb (pos_part a + neg_part b) (pos_part b + neg_part a)

-- A byte and a word in two's complement.
abbrev pub signed8 : ℕ → ℤ
signed8 x = if ltb x 128 then pos x else negsuc (255 - x)

abbrev pub signed16 : ℕ → ℤ
signed16 x = if ltb x 0x8000 then pos x else negsuc (0xffff - x)

-- The integers that a byte and a word hold.
abbrev pub fits8 : ℤ → Bool
fits8 z = leb_ℤ (negsuc 127) z && leb_ℤ z (pos 127)

abbrev pub fits16 : ℤ → Bool
fits16 z = leb_ℤ (negsuc 0x7fff) z && leb_ℤ z (pos 0x7fff)
