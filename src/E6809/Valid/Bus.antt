-- ===== src/E6809/Valid/Bus.antt =====
-- The invariant over memory, the stack primitives and the addressing modes.
-- Code: emulators/emu6809.c (e6809_read8, e6809_write8), emulators/e6809.c (read8 to ea_indexed).
use fuzemsys.Base.{ℕ, ◌/◌, ◌^◌, ◌<◌, bit_and, arith, ◌==◌, if_both}
use fuzemsys.Base.Bits.{u8, u16, u32}
use fuzemsys.Breakpoints.{is_breakpoint, brk_write}
use fuzemsys.E6809.State.{
  Machine, pure, gets, modify, call, add_cycles, ◌>>=◌, ◌>>◌, Pointer, load, rptr_xyus,
}
use fuzemsys.E6809.Bus.{
  e6809_read8, update, e6809_write8, read8, note_write, write8, read16, write16, push8, pull8,
  push16, pull16, pc_read8, pc_read16,
}
use fuzemsys.E6809.Flags.{get_reg_d}
use fuzemsys.E6809.Address.{
  ea_direct, ea_extended, IndexMode, index_body, index_mode, ea_indexed, bump, drop, plus_offset,
  minus_offset, post_inc, post_inc_ind, pre_dec, pre_dec_ind, no_offset, undefined_post_byte,
}
use fuzemsys.E6809.Valid.{
  IsValid, Bytes, Word, Ends, Keeps, Yields, bind-Ensures, bind_value-Ensures, then-Ensures,
  pure-Ensures, gets-Ensures, call-Ensures, print_exit-Ensures, modify-Keeps, add_cycles-Keeps,
}
use fuzemsys.E6809.Valid.Alu.{bit_or-Word, get_reg_d-Word, load-Word, store-IsValid}

pub read8-Word : (a : ℕ) (s : Machine) → IsValid s → Word (read8 a s)
unfolding read8 e6809_read8
read8-Word a s h = omega (arith, h.bytes.byte (u16 (u16 a)))

pub read16-Word : (a : ℕ) (s : Machine) → IsValid s → Word (read16 a s)
unfolding read16
read16-Word a s h = omega arith

update-Bytes : (f : ℕ → ℕ) (p v : ℕ) → Bytes f → v < 2 ^ 8 → Bytes (update f p v)
update-Bytes f p v h w = record { byte = λ a. ground (arith, h.byte a) }

e6809_write8-Keeps : (a v : ℕ) → v < 2 ^ 8 → Keeps (e6809_write8 a v)
unfolding e6809_write8
e6809_write8-Keeps a v w = record {
  runs = λ s h.
      if_both (Ends (λ _. Unit {0})) (a == 0xfeff)
        (if_both (Ends (λ _. Unit {0})) (v == 0) h
          (record { words = omega arith; bytes = h.bytes }))
        (if_both (Ends (λ _. Unit {0})) (a == 0xfefe)
          (tt, record { words = omega arith; bytes = h.bytes })
          (if_both (Ends (λ _. Unit {0})) (a == 0xfefd)
            (tt, record { words = omega arith; bytes = h.bytes })
            (if_both (Ends (λ _. Unit {0})) (a == 0xfefc)
              (tt, record { words = omega arith; bytes = h.bytes })
              (
                tt,
                record { words = omega arith; bytes = update-Bytes s.ram (u16 a) v h.bytes w },
              ))));
}

note_write-IsValid : (a : ℕ) (s : Machine) → IsValid s → IsValid (note_write a s)
unfolding note_write
note_write-IsValid a s h =
    if_both IsValid (is_breakpoint a brk_write s.mon).0
      (record { words = omega arith; bytes = h.bytes })
      (record { words = omega arith; bytes = h.bytes })

pub write8-Keeps : (a v : ℕ) → Keeps (write8 a v)
unfolding write8
write8-Keeps a v =
    then-Ensures _ _ (e6809_write8-Keeps (u16 a) (u8 v) (omega arith))
      (modify-Keeps _ (note_write-IsValid (u16 a)))

pub write16-Keeps : (a v : ℕ) → Keeps (write16 a v)
unfolding write16
write16-Keeps a v = search (then-Ensures, write8-Keeps)

pub push8-Keeps : (p : Pointer) (v : ℕ) → Keeps (push8 p v)
unfolding push8
push8-Keeps p v =
    then-Ensures _ _ (modify-Keeps _ (λ s h. store-IsValid p _ (omega arith) s h))
      (bind-Ensures _ _ (gets-Ensures {Q = Word} _ (load-Word p)) (λ a w. write8-Keeps a v))

pub push16-Keeps : (p : Pointer) (v : ℕ) → Keeps (push16 p v)
unfolding push16
push16-Keeps p v = search (then-Ensures, push8-Keeps)

pub pull8-Ensures : (p : Pointer) → Yields (call (pull8 p))
unfolding pull8
pull8-Ensures p =
    call-Ensures _ (λ s h. (read8-Word (load p s) s h, store-IsValid p _ (omega arith) s h))

pub pull16-Ensures : (p : Pointer) → Yields (call (pull16 p))
unfolding pull16 pull8
pull16-Ensures p =
    call-Ensures _ (λ s h.
      (omega arith, store-IsValid p _ (omega arith) _ (store-IsValid p _ (omega arith) s h)))

pub pc_read8-Ensures : Yields (call pc_read8)
unfolding pc_read8
pc_read8-Ensures =
    call-Ensures _
      (λ s h. (read8-Word s.reg_pc s h, record { words = omega arith; bytes = h.bytes }))

pub pc_read16-Ensures : Yields (call pc_read16)
unfolding pc_read16
pc_read16-Ensures =
    call-Ensures _
      (λ s h. (read16-Word s.reg_pc s h, record { words = omega arith; bytes = h.bytes }))

pub ea_direct-Yields : Yields ea_direct
unfolding ea_direct
ea_direct-Yields = bind-Ensures _ _ (gets-Ensures {Q = Word} _ (λ s h. h.words.dp_word)) λ dp w.
    bind-Ensures _ _ pc_read8-Ensures λ b x. pure-Ensures _ (bit_or-Word _ _ (omega arith) x)

pub ea_extended-Yields : Yields ea_extended
unfolding ea_extended
ea_extended-Yields = pc_read16-Ensures

IsValid-bump : (p : Pointer) (n : ℕ) (s : Machine) → IsValid s → IsValid (bump p n s)
unfolding bump
IsValid-bump p n s h = store-IsValid p _ (omega arith) s h

IsValid-drop : (p : Pointer) (n : ℕ) (s : Machine) → IsValid s → IsValid (drop p n s)
unfolding drop
IsValid-drop p n s h = store-IsValid p _ (omega arith) s h

-- One rule for the read of each register.
get-Yields : (f : Machine → ℕ) → ((s : Machine) → IsValid s → Word (f s)) → Yields (gets f)
get-Yields f h = gets-Ensures f h

load-Yields : (p : Pointer) → Yields (gets (load p))
load-Yields p = get-Yields (load p) (load-Word p)

read16-Yields : (a : ℕ) → Yields (gets (read16 a))
read16-Yields a = get-Yields (read16 a) (read16-Word a)

module _ (a n : ℕ) where
  plain-Yields : Word a → Yields (add_cycles n >> pure a)
  plain-Yields w = then-Ensures _ _ (add_cycles-Keeps n) (pure-Ensures a w)

  ind-Yields : Yields (gets (read16 a) >>= λ v. add_cycles n >> pure v)
  ind-Yields =
      bind-Ensures _ _ (read16-Yields a)
        λ v w. then-Ensures _ _ (add_cycles-Keeps n) (pure-Ensures v w)

u32-Word : (n : ℕ) → Word (u32 n)
u32-Word n = omega arith

a-Yields : Yields (gets (λ s. s.reg_a))
a-Yields = get-Yields _ (λ s h. h.words.a_word)

b-Yields : Yields (gets (λ s. s.reg_b))
b-Yields = get-Yields _ (λ s h. h.words.b_word)

pc-Yields : Yields (gets (λ s. s.reg_pc))
pc-Yields = get-Yields _ (λ s h. omega arith)

d-Yields : Yields (gets get_reg_d)
d-Yields = get-Yields get_reg_d get_reg_d-Word

bump-Keeps : (p : Pointer) (n : ℕ) → Keeps (modify (bump p n))
bump-Keeps p n = modify-Keeps _ (IsValid-bump p n)

drop-Keeps : (p : Pointer) (n : ℕ) → Keeps (modify (drop p n))
drop-Keeps p n = modify-Keeps _ (IsValid-drop p n)

ruleset address_rules = (
  bind_value-Ensures, then-Ensures, load-Yields, read16-Yields, plain-Yields, ind-Yields, u32-Word,
  a-Yields, b-Yields, pc-Yields, d-Yields, bump-Keeps, drop-Keeps, pc_read8-Ensures,
  pc_read16-Ensures,
)

index_body-Yields : (mode : IndexMode) (op : ℕ) (p : Pointer) → Yields (index_body mode op p)
unfolding index_body
index_body-Yields plus_offset op p = search address_rules
index_body-Yields minus_offset op p = search address_rules
index_body-Yields post_inc op p = search address_rules
index_body-Yields post_inc_ind op p = search address_rules
index_body-Yields pre_dec op p = search address_rules
index_body-Yields pre_dec_ind op p = search address_rules
index_body-Yields no_offset op p = search address_rules
index_body-Yields undefined_post_byte op p = print_exit-Ensures _ 1
index_body-Yields _ op p = search address_rules

pub ea_indexed-Yields : Yields ea_indexed
unfolding ea_indexed
ea_indexed-Yields =
    bind-Ensures _ _ pc_read8-Ensures
      λ op w. index_body-Yields (index_mode op) op (rptr_xyus (bit_and (op / 2 ^ 5) 3))
