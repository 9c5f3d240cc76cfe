-- ===== src/E6809/Valid.antt =====
-- The invariant of the machine, and the rules that carry it through an operation.
-- Code: emulators/e6809.c and emulators/emu6809.c (the types of their static variables).
pub mod Alu
pub mod Bus
pub mod Bodies
pub mod Tables
pub mod Control
pub mod Pages
pub mod Step
use fuzemsys.Base.{
  ℕ, ◌^◌, ◌≤◌, ◌<◌, ◌≡◌, refl, Bool, true, false, if◌then◌else◌, ◌==◌, bit_and, arith,
}
use fuzemsys.E6809.State.{
  Machine, Outcome, done, exit, Op, Void, pure, gets, modify, call, print_exit, add_cycles, ◌>>=◌,
  ◌>>◌,
}
use fuzemsys.Console.{Output}

-- The widths of the variables, and the three interrupt states.
pub record Words (s : Machine) : Type 0 where
  pub x_word : s.reg_x < 2 ^ 32
  pub y_word : s.reg_y < 2 ^ 32
  pub u_word : s.reg_u < 2 ^ 32
  pub s_word : s.reg_s < 2 ^ 32
  pub pc_half : s.reg_pc < 2 ^ 16
  pub a_word : s.reg_a < 2 ^ 32
  pub b_word : s.reg_b < 2 ^ 32
  pub dp_word : s.reg_dp < 2 ^ 32
  pub cc_word : s.reg_cc < 2 ^ 32
  pub status : s.irq_status ≤ 2
  pub cycles_word : s.cycles < 2 ^ 32
  pub fefcval_byte : s.fefcval < 2 ^ 8

pub record Bytes (f : ℕ → ℕ) : Type 0 where
  pub byte : (a : ℕ) → f a < 2 ^ 8

pub record IsValid (s : Machine) : Type 0 where
  pub words : Words s
  pub bytes : Bytes s.ram

abbrev pub Word : ℕ → Type 0
Word v = v < 2 ^ 32

-- What a finished operation leaves, with a condition on its value.
abbrev pub Ends : {A : Type 0} → (A → Type 0) → Outcome A → Type 0
Ends Q (done a s) = Q a × IsValid s
Ends Q (exit c s) = IsValid s

-- From a valid machine, `m` ends or exits with a valid machine, and a value that is in range.
pub record Ensures {A : Type 0} (Q : A → Type 0) (m : Op A) : Type 0 where
  pub runs : (s : Machine) → IsValid s → Ends Q (m s)

abbrev pub Keeps : Op Void → Type 0
Keeps = Ensures (λ _. Unit {0})

abbrev pub Yields : Op ℕ → Type 0
Yields = Ensures Word

module _ {A B : Type 0} {Q : A → Type 0} {R : B → Type 0} where
  bind-Ends :
      (r : Outcome A) (f : A → Op B)
      → Ends Q r
      → ((a : A) → Q a → Ensures R (f a))
      → Ends R (elim r [ done a s ↦ f a s | exit c s ↦ exit c s ])
  bind-Ends (done a s) f (q, v) k = (k a q).runs s v
  bind-Ends (exit c s) f v k = v

  pub bind-Ensures :
      (m : Op A) (f : A → Op B)
      → Ensures Q m
      → ((a : A) → Q a → Ensures R (f a))
      → Ensures R (m >>= f)
  unfolding ◌>>=◌
  bind-Ensures m f hm k = record { runs = λ s v. bind-Ends (m s) f (hm.runs s v) k }

module _ {B : Type 0} {R : B → Type 0} where
  pub then-Ensures : (m : Op Void) (k : Op B) → Keeps m → Ensures R k → Ensures R (m >> k)
  then-Ensures m k hm hk = bind-Ensures m (λ _. k) hm (λ _ _. hk)

  -- An operation whose value is a word.
  pub bind_value-Ensures :
      (m : Op ℕ) (f : ℕ → Op B)
      → Yields m
      → ((v : ℕ) → Word v → Ensures R (f v))
      → Ensures R (m >>= f)
  bind_value-Ensures m f hm k = bind-Ensures m f hm k

module _ {A : Type 0} {Q : A → Type 0} where
  pub pure-Ensures : (a : A) → Q a → Ensures Q (pure a)
  unfolding pure
  pure-Ensures a q = record { runs = λ s v. (q, v) }

  pub gets-Ensures : (f : Machine → A) → ((s : Machine) → IsValid s → Q (f s)) → Ensures Q (gets f)
  unfolding gets
  gets-Ensures f h = record { runs = λ s v. (h s v, v) }

  pub call-Ensures :
      (f : Machine → A × Machine)
      → ((s : Machine) → IsValid s → Q (f s).0 × IsValid (f s).1)
      → Ensures Q (call f)
  unfolding call
  call-Ensures f h = record { runs = h }

  pub if-Ensures :
      (b : Bool) (m n : Op A) → Ensures Q m → Ensures Q n → Ensures Q (if b then m else n)
  if-Ensures true m n hm hn = hm
  if-Ensures false m n hm hn = hn

  pub print_exit-Ensures : (o : Output) (c : ℕ) → Ensures Q (print_exit o c)
  unfolding print_exit
  print_exit-Ensures o c = record { runs = λ s v. record { words = omega arith; bytes = v.bytes } }

pub modify-Keeps :
    (f : Machine → Machine) → ((s : Machine) → IsValid s → IsValid (f s)) → Keeps (modify f)
unfolding modify
modify-Keeps f h = record { runs = λ s v. (tt, h s v) }

pub add_cycles-Keeps : (n : ℕ) → Keeps (add_cycles n)
unfolding add_cycles
add_cycles-Keeps n = record { runs = λ s v. (tt, record { words = omega arith; bytes = v.bytes }) }

pub pure-Keeps : Keeps (pure tt)
pure-Keeps = pure-Ensures tt tt
