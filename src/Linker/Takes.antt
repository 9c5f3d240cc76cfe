-- ===== src/Linker/Takes.antt =====
-- What an operation takes from the object file and puts in the output, and the rules by which this goes
-- together. Code: cmds/bintools/ld.c (relocate_stream).
use fuzemsys.Base.{
  ℕ, ◌+◌, ◌≡◌, refl, sym, ap, ◌∙◌, Bool, true, false, ◌&&◌, List, [], ◌∷◌, ◌++◌, if◌then◌else◌,
  arith,
}
use fuzemsys.Base.Bits.{u16}
use mathlib.Core.Path.{transport}
use mathlib.Core.List.{append-nil, append_assoc}
use fuzemsys.Linker.{Write, put, Linker, done, exit, Link, Void, ◌>>=◌, ◌>>◌, pure, gets}

abbrev pub puts : List ℕ → List Write → List Write
puts [] acc = acc
puts (b ∷ bs) acc = puts bs (put b ∷ acc)

puts-append : (bs cs : List ℕ) (acc : List Write) → puts (bs ++ cs) acc ≡ puts cs (puts bs acc)
puts-append [] cs acc = refl
puts-append (b ∷ bs) cs acc = puts-append bs cs (put b ∷ acc)

-- From s to s', the input has come to `rest`, the bytes `ws` were put, and the position is `n` further;
-- nothing was reported.
pub record Moved (rest ws : List ℕ) (n : ℕ) (s s' : Linker) : Type 0 where
  pub left : s'.input ≡ rest
  pub wrote : s'.op ≡ puts ws s.op
  pub position : u16 s'.dot ≡ u16 (s.dot + n)
  pub quiet : s'.err ≡ s.err

pub Moved-trans :
    {rest rest' ws ws' : List ℕ} {n n' : ℕ} {s t u : Linker}
    → Moved rest ws n s t
    → Moved rest' ws' n' t u
    → Moved rest' (ws ++ ws') (n + n') s u
Moved-trans {ws = ws} {ws' = ws'} {s = s} a b = record {
  left = b.left;
  wrote = b.wrote ∙ ap (puts ws') a.wrote ∙ sym (puts-append ws ws' s.op);
  position = let p = a.position in let q = b.position in omega arith;
  quiet = b.quiet ∙ a.quiet;
}

-- From an input that starts with the bytes `bs`, the call takes them, puts `ws`, moves the position by `n`
-- and returns `a`.
pub record Takes {A : Type 0} (bs ws : List ℕ) (n : ℕ) (m : Link A) (a : A) : Type 0 where
  pub runs :
      (rest : List ℕ) (s : Linker)
      → s.input ≡ bs ++ rest
      → (s' : Linker) × (m s ≡ done a s') × Moved rest ws n s s'

pub bind-done :
    {A B : Type 0} (m : Link A) (f : A → Link B) {s s' : Linker} {a : A}
    → m s ≡ done a s'
    → (m >>= f) s ≡ f a s'
unfolding ◌>>=◌
bind-done m f e = λ j. elim (e j) [ done a t ↦ f a t | exit c t ↦ exit c t ]

pub bind-Takes :
    {A B : Type 0} {m : Link A} {a : A} (f : A → Link B) {b : B} (bs ws : List ℕ) (n : ℕ)
    (bs' ws' : List ℕ) (n' : ℕ)
    → Takes bs ws n m a
    → Takes bs' ws' n' (f a) b
    → Takes (bs ++ bs') (ws ++ ws') (n + n') (m >>= f) b
bind-Takes {m = m} f bs ws n bs' ws' n' hm hf = record {
  runs = λ rest s e.
      let (t, e₁, h₁) = hm.runs (bs' ++ rest) s (e ∙ append_assoc bs bs' rest) in
      let (u, e₂, h₂) = hf.runs rest t h₁.left in (u, bind-done m f e₁ ∙ e₂, Moved-trans h₁ h₂);
}

retake :
    {A : Type 0} {m : Link A} {a : A} {bs bs' ws ws' : List ℕ} {n n' : ℕ}
    → bs ≡ bs'
    → ws ≡ ws'
    → n ≡ n'
    → Takes bs ws n m a
    → Takes bs' ws' n' m a
retake {A} {m} {a} e₁ e₂ e₃ h = transport (λ i. Takes {A = A} (e₁ i) (e₂ i) (e₃ i) m a) h

zero_add : (n : ℕ) → 0 + n ≡ n
zero_add n = omega arith

add_zero : (n : ℕ) → n + 0 ≡ n
add_zero n = omega arith

-- A call that does neither, one that only takes, and one that only puts, before the rest.
pub then-Takes :
    {B : Type 0} {m : Link Void} {k : Link B} {b : B} {bs ws : List ℕ} {n : ℕ}
    → Takes [] [] 0 m tt
    → Takes bs ws n k b
    → Takes bs ws n (m >> k) b
then-Takes {bs = bs} {ws} {n} h hk =
    retake refl refl (zero_add n) (bind-Takes _ [] [] 0 bs ws n h hk)

pub take_then :
    {A B : Type 0} {m : Link A} {a : A} (f : A → Link B) {b : B} {bs ws : List ℕ} {n : ℕ}
    → Takes bs [] 0 m a
    → Takes [] ws n (f a) b
    → Takes bs ws n (m >>= f) b
take_then f {bs = bs} {ws} {n} h hk =
    retake (append-nil bs) refl (zero_add n) (bind-Takes f bs [] 0 [] ws n h hk)

pub take_bind :
    {A B : Type 0} {m : Link A} {a : A} (f : A → Link B) {b : B} {bs bs' ws : List ℕ} {n : ℕ}
    → Takes bs [] 0 m a
    → Takes bs' ws n (f a) b
    → Takes (bs ++ bs') ws n (m >>= f) b
take_bind f {bs = bs} {bs'} {ws} {n} h hk =
    retake refl refl (zero_add n) (bind-Takes f bs [] 0 bs' ws n h hk)

pub put_then :
    {B : Type 0} {m : Link Void} {k : Link B} {b : B} {ws : List ℕ} {n : ℕ}
    → Takes [] ws 0 m tt
    → Takes [] [] n k b
    → Takes [] ws n (m >> k) b
put_then {ws = ws} {n} h hk =
    retake refl (append-nil ws) (zero_add n) (bind-Takes _ [] ws 0 [] [] n h hk)

pub put_bind :
    {B : Type 0} {m : Link Void} {k : Link B} {b : B} {bs ws ws' : List ℕ} {n : ℕ}
    → Takes [] ws 0 m tt
    → Takes bs ws' n k b
    → Takes bs (ws ++ ws') n (m >> k) b
put_bind {bs = bs} {ws} {ws'} {n} h hk =
    retake refl refl (zero_add n) (bind-Takes _ [] ws 0 bs ws' n h hk)

pub gets-Takes :
    {A B : Type 0} (g : Linker → A) {f : A → Link B} {b : B} {bs ws : List ℕ} {n : ℕ}
    → ((a : A) → Takes bs ws n (f a) b)
    → Takes bs ws n (gets g >>= f) b
unfolding gets ◌>>=◌
gets-Takes g h = record { runs = λ rest s e. (h (g s)).runs rest s e }

pub pure-Takes : {A : Type 0} (a : A) → Takes [] [] 0 (pure a) a
unfolding pure
pure-Takes a = record {
  runs = λ rest s e.
      (s, refl, record { left = e; wrote = refl; position = omega arith; quiet = refl });
}

-- A value that is there, and the rest; a call, and a value at the end.
pub pure_then :
    {A B : Type 0} (a : A) (f : A → Link B) {b : B} {bs ws : List ℕ} {n : ℕ}
    → Takes bs ws n (f a) b
    → Takes bs ws n (pure a >>= f) b
pure_then a f h = take_bind f (pure-Takes a) h

pub then_pure :
    {A B : Type 0} {m : Link A} {a : A} (b : B) {bs ws : List ℕ} {n : ℕ}
    → Takes bs ws n m a
    → Takes bs ws n (m >>= λ _. pure b) b
then_pure b {bs} {ws} {n} h =
    retake (append-nil bs) (append-nil ws) (add_zero n)
      (bind-Takes _ bs ws n [] [] 0 h (pure-Takes b))

-- Branches that take different bytes, and branches that put different ones.
pub if-reads :
    {A : Type 0} (test : Bool) {m m' : Link A} {a a' : A} {bs bs' ws : List ℕ} {n : ℕ}
    → Takes bs ws n m a
    → Takes bs' ws n m' a'
    → Takes (if test then bs else bs') ws n (if test then m else m') (if test then a else a')
if-reads true h h' = h
if-reads false h h' = h'

pub if-writes :
    {A : Type 0} (test : Bool) {m m' : Link A} {a : A} {bs ws ws' : List ℕ} {n : ℕ}
    → Takes bs ws n m a
    → Takes bs ws' n m' a
    → Takes bs (if test then ws else ws') n (if test then m else m') a
if-writes true h h' = h
if-writes false h h' = h'

-- Both branches do the same.
pub either-Takes :
    {A : Type 0} (test : Bool) {m m' : Link A} {a : A} {bs ws : List ℕ} {n : ℕ}
    → Takes bs ws n m a
    → Takes bs ws n m' a
    → Takes bs ws n (if test then m else m') a
either-Takes true h h' = h
either-Takes false h h' = h'

pub and_false : (b : Bool) → (b && false) ≡ false
and_false true = refl
and_false false = refl
