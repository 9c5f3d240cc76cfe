-- ===== src/E6809/Address.antt =====
-- The addressing modes. Code: emulators/e6809.c (ea_direct to ea_indexed).
use fuzemsys.Base.{
  ℕ, ◌+◌, ◌-◌, ◌*◌, ◌/◌, ◌^◌, bit_and, bit_or, Bool, false, ◌||◌, List, [], ◌∷◌, leb, ◌==◌,
  if◌then◌else◌,
}
use fuzemsys.Base.Bits.{u32}
use fuzemsys.Console.{print_post_byte}
use fuzemsys.E6809.State.{
  Machine, Op, ◌>>=◌, ◌>>◌, pure, gets, modify, call, print_exit, add_cycles, Pointer, load, store,
  rptr_xyus,
}
use fuzemsys.E6809.Bus.{read16, pc_read8, pc_read16}
use fuzemsys.E6809.Flags.{get_reg_d, sign_extend}

unfoldable pub ea_direct : Op ℕ
ea_direct = do
  dp ← gets (λ s. s.reg_dp)
  byte ← call pc_read8
  pure (bit_or (u32 (dp * 2 ^ 8)) byte)

unfoldable pub ea_extended : Op ℕ
ea_extended = call pc_read16

-- The groups of case labels in ea_indexed's switch, named after the comment below each.
pub data IndexMode : Type 0 where
  plus_offset minus_offset post_inc post_inc_ind pre_dec pre_dec_ind no_offset no_offset_ind :
      IndexMode
  b_offset b_offset_ind a_offset a_offset_ind byte_offset byte_offset_ind : IndexMode
  word_offset word_offset_ind d_offset d_offset_ind byte_pc byte_pc_ind : IndexMode
  word_pc word_pc_ind address_ind undefined_post_byte : IndexMode

abbrev one_of : ℕ → List ℕ → Bool
one_of n [] = false
one_of n (k ∷ ks) = n == k || one_of n ks

-- The case labels. The first two groups are the post bytes below 0x80, with bit 4 clear and set.
unfoldable pub index_mode : ℕ → IndexMode
index_mode op =
    if leb op 0x7f
    then (if bit_and op 0x10 == 0 then plus_offset else minus_offset)
    else if one_of op (0x80 ∷ 0x81 ∷ 0xa0 ∷ 0xa1 ∷ 0xc0 ∷ 0xc1 ∷ 0xe0 ∷ 0xe1 ∷ [])
    then post_inc
    else if one_of op (0x90 ∷ 0x91 ∷ 0xb0 ∷ 0xb1 ∷ 0xd0 ∷ 0xd1 ∷ 0xf0 ∷ 0xf1 ∷ [])
    then post_inc_ind
    else if one_of op (0x82 ∷ 0x83 ∷ 0xa2 ∷ 0xa3 ∷ 0xc2 ∷ 0xc3 ∷ 0xe2 ∷ 0xe3 ∷ [])
    then pre_dec
    else if one_of op (0x92 ∷ 0x93 ∷ 0xb2 ∷ 0xb3 ∷ 0xd2 ∷ 0xd3 ∷ 0xf2 ∷ 0xf3 ∷ [])
    then pre_dec_ind
    else if one_of op (0x84 ∷ 0xa4 ∷ 0xc4 ∷ 0xe4 ∷ [])
    then no_offset
    else if one_of op (0x94 ∷ 0xb4 ∷ 0xd4 ∷ 0xf4 ∷ [])
    then no_offset_ind
    else if one_of op (0x85 ∷ 0xa5 ∷ 0xc5 ∷ 0xe5 ∷ [])
    then b_offset
    else if one_of op (0x95 ∷ 0xb5 ∷ 0xd5 ∷ 0xf5 ∷ [])
    then b_offset_ind
    else if one_of op (0x86 ∷ 0xa6 ∷ 0xc6 ∷ 0xe6 ∷ [])
    then a_offset
    else if one_of op (0x96 ∷ 0xb6 ∷ 0xd6 ∷ 0xf6 ∷ [])
    then a_offset_ind
    else if one_of op (0x88 ∷ 0xa8 ∷ 0xc8 ∷ 0xe8 ∷ [])
    then byte_offset
    else if one_of op (0x98 ∷ 0xb8 ∷ 0xd8 ∷ 0xf8 ∷ [])
    then byte_offset_ind
    else if one_of op (0x89 ∷ 0xa9 ∷ 0xc9 ∷ 0xe9 ∷ [])
    then word_offset
    else if one_of op (0x99 ∷ 0xb9 ∷ 0xd9 ∷ 0xf9 ∷ [])
    then word_offset_ind
    else if one_of op (0x8b ∷ 0xab ∷ 0xcb ∷ 0xeb ∷ [])
    then d_offset
    else if one_of op (0x9b ∷ 0xbb ∷ 0xdb ∷ 0xfb ∷ [])
    then d_offset_ind
    else if one_of op (0x8c ∷ 0xac ∷ 0xcc ∷ 0xec ∷ [])
    then byte_pc
    else if one_of op (0x9c ∷ 0xbc ∷ 0xdc ∷ 0xfc ∷ [])
    then byte_pc_ind
    else if one_of op (0x8d ∷ 0xad ∷ 0xcd ∷ 0xed ∷ [])
    then word_pc
    else if one_of op (0x9d ∷ 0xbd ∷ 0xdd ∷ 0xfd ∷ [])
    then word_pc_ind
    else if op == 0x9f
    then address_ind
    else undefined_post_byte

-- `*rptr_xyus[r] += n` and `-= n`.
unfoldable pub bump : Pointer → ℕ → Machine → Machine
bump p n s = store p (u32 (load p s + n)) s

unfoldable pub drop : Pointer → ℕ → Machine → Machine
drop p n s = store p (u32 (load p s + 2 ^ 32 - n)) s

-- `read16(ea)` after which the cycles are counted.
abbrev ind : ℕ → ℕ → Op ℕ
ind ea n = do v ← gets (read16 ea); add_cycles n; pure v

abbrev plain : ℕ → ℕ → Op ℕ
plain ea n = do add_cycles n; pure ea

-- The bodies of the cases; `op` is the post byte and `p` the register that it names.
unfoldable pub index_body : IndexMode → ℕ → Pointer → Op ℕ
index_body plus_offset op p = do v ← gets (load p); plain (u32 (v + bit_and op 0xf)) 1
index_body minus_offset op p = do
  v ← gets (load p)
  plain (u32 (v + bit_and op 0xf + 2 ^ 32 - 0x10)) 1
index_body post_inc op p = do
  ea ← gets (load p)
  modify (bump p (1 + bit_and op 1))
  plain ea (2 + bit_and op 1)
index_body post_inc_ind op p = do
  v ← gets (load p)
  ea ← gets (read16 v)
  modify (bump p (1 + bit_and op 1))
  plain ea (5 + bit_and op 1)
index_body pre_dec op p = do
  modify (drop p (1 + bit_and op 1))
  ea ← gets (load p)
  plain ea (2 + bit_and op 1)
index_body pre_dec_ind op p = do
  modify (drop p (1 + bit_and op 1))
  v ← gets (load p)
  ind v (5 + bit_and op 1)
index_body no_offset op p = gets (load p)
index_body no_offset_ind op p = do v ← gets (load p); ind v 3
index_body b_offset op p = do
  v ← gets (load p)
  b ← gets (λ s. s.reg_b)
  plain (u32 (v + sign_extend b)) 1
index_body b_offset_ind op p = do
  v ← gets (load p)
  b ← gets (λ s. s.reg_b)
  ind (u32 (v + sign_extend b)) 4
index_body a_offset op p = do
  v ← gets (load p)
  a ← gets (λ s. s.reg_a)
  plain (u32 (v + sign_extend a)) 1
index_body a_offset_ind op p = do
  v ← gets (load p)
  a ← gets (λ s. s.reg_a)
  ind (u32 (v + sign_extend a)) 4
index_body byte_offset op p = do
  v ← gets (load p)
  byte ← call pc_read8
  plain (u32 (v + sign_extend byte)) 1
index_body byte_offset_ind op p = do
  v ← gets (load p)
  byte ← call pc_read8
  ind (u32 (v + sign_extend byte)) 4
index_body word_offset op p = do v ← gets (load p); word ← call pc_read16; plain (u32 (v + word)) 4
index_body word_offset_ind op p = do
  v ← gets (load p)
  word ← call pc_read16
  ind (u32 (v + word)) 7
index_body d_offset op p = do v ← gets (load p); d ← gets get_reg_d; plain (u32 (v + d)) 4
index_body d_offset_ind op p = do v ← gets (load p); d ← gets get_reg_d; ind (u32 (v + d)) 7
index_body byte_pc op p = do
  byte ← call pc_read8
  pc ← gets (λ s. s.reg_pc)
  plain (u32 (pc + sign_extend byte)) 1
index_body byte_pc_ind op p = do
  byte ← call pc_read8
  pc ← gets (λ s. s.reg_pc)
  ind (u32 (pc + sign_extend byte)) 4
index_body word_pc op p = do
  word ← call pc_read16
  pc ← gets (λ s. s.reg_pc)
  plain (u32 (pc + word)) 5
index_body word_pc_ind op p = do
  word ← call pc_read16
  pc ← gets (λ s. s.reg_pc)
  ind (u32 (pc + word)) 8
index_body address_ind op p = do word ← call pc_read16; ind word 5
index_body undefined_post_byte op p = print_exit print_post_byte 1

unfoldable pub ea_indexed : Op ℕ
ea_indexed = do
  op ← call pc_read8
  index_body (index_mode op) op (rptr_xyus (bit_and (op / 2 ^ 5) 3))
