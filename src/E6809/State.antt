-- ===== src/E6809/State.antt =====
-- The machine's state, and the operations on it. Code: emulators/e6809.c (its static variables),
-- emulators/emu6809.c (ram, fefcval).
-- An `unsigned` is a number below 2 ^ 32, and what is stored is reduced there as C does; reg_pc is
-- a uint16_t. `exit(code)` ends an operation: the rest of it is not run.
use fuzemsys.Base.{ℕ, ◌+◌, List, ◌∷◌, ◌==◌, if◌then◌else◌}
use fuzemsys.Base.Bits.{u32}
use fuzemsys.Breakpoints.{Monitor}
use fuzemsys.Console.{Output}

-- The enum of flags and interrupt states.
abbrev pub flag_e : ℕ
flag_e = 0x80

abbrev pub flag_f : ℕ
flag_f = 0x40

abbrev pub flag_h : ℕ
flag_h = 0x20

abbrev pub flag_i : ℕ
flag_i = 0x10

abbrev pub flag_n : ℕ
flag_n = 0x08

abbrev pub flag_z : ℕ
flag_z = 0x04

abbrev pub flag_v : ℕ
flag_v = 0x02

abbrev pub flag_c : ℕ
flag_c = 0x01

abbrev pub irq_normal : ℕ
irq_normal = 0

abbrev pub irq_sync : ℕ
irq_sync = 1

abbrev pub irq_cwai : ℕ
irq_cwai = 2

-- `cycles` is the local variable of e6809_sstep that its callees change through a pointer.
-- `out` holds what was printed, the latest first.
pub record Machine : Type 0 where
  pub reg_x : ℕ
  pub reg_y : ℕ
  pub reg_u : ℕ
  pub reg_s : ℕ
  pub reg_pc : ℕ
  pub reg_a : ℕ
  pub reg_b : ℕ
  pub reg_dp : ℕ
  pub reg_cc : ℕ
  pub irq_status : ℕ
  pub write_brkpt : ℕ
  pub cycles : ℕ
  pub ram : ℕ → ℕ
  pub fefcval : ℕ
  pub mon : Monitor
  pub out : List Output

-- An operation ends, or exits the emulator with a code.
pub data Outcome (A : Type 0) : Type 0 where
  done : A → Machine → Outcome A
  exit : ℕ → Machine → Outcome A

-- The machine that an operation leaves.
abbrev pub final : {A : Type 0} → Outcome A → Machine
final (done a s) = s
final (exit c s) = s

abbrev pub Op : Type 0 → Type 0
Op A = Machine → Outcome A

abbrev pub Void : Type 0
Void = Unit {0}

unfoldable pub pure : {A : Type 0} → A → Op A
pure a s = done a s

-- A read of the state.
unfoldable pub gets : {A : Type 0} → (Machine → A) → Op A
gets f s = done (f s) s

-- A change of the state.
unfoldable pub modify : (Machine → Machine) → Op Void
modify f s = done tt (f s)

-- A C function that changes the state and returns a value.
unfoldable pub call : {A : Type 0} → (Machine → A × Machine) → Op A
call f s = let (a, s') = f s in done a s'

-- The code prints, and exits.
unfoldable pub print_exit : {A : Type 0} → Output → ℕ → Op A
print_exit o c s = exit c (record s { out = o ∷ s.out })

-- `cycles += n`
unfoldable pub add_cycles : ℕ → Op Void
add_cycles n s = done tt (record s { cycles = u32 (s.cycles + n) })

infixl 5 ◌>>=◌ ◌>>◌
-- Opening this opens the ways to build an operation too.
unfoldable pub ◌>>=◌ : {A B : Type 0} → Op A → (A → Op B) → Op B
unfolding pure gets modify call print_exit add_cycles
◌>>=◌ m f s = elim (m s) [ done a s' ↦ f a s' | exit c s' ↦ exit c s' ]

abbrev pub ◌>>◌ : {B : Type 0} → Op Void → Op B → Op B
m >> k = m >>= λ _. k

-- The registers that the code passes by pointer, with `rptr_xyus`.
pub data Pointer : Type 0 where
  to_x to_y to_u to_s : Pointer

unfoldable pub load : Pointer → Machine → ℕ
load to_x s = s.reg_x
load to_y s = s.reg_y
load to_u s = s.reg_u
load to_s s = s.reg_s

unfoldable pub store : Pointer → ℕ → Machine → Machine
store to_x v s = record s { reg_x = v }
store to_y v s = record s { reg_y = v }
store to_u v s = record s { reg_u = v }
store to_s v s = record s { reg_s = v }

unfoldable pub rptr_xyus : ℕ → Pointer
rptr_xyus r = if r == 0 then to_x else if r == 1 then to_y else if r == 2 then to_u else to_s
