-- ===== src/Assembler/Emit.antt =====
-- What the output functions give the segment's stream on the last pass. Code: cmds/bintools/as4.c.
use fuzemsys.Base.{
  rev_onto, rev_onto-append, ℕ, ◌/◌, ◌^◌, bit_or, ◌≡◌, ◌≢◌, refl, sym, ap, ◌∙◌, Bool, true, false,
  ◌&&◌, ◌||◌, Option, none, some, List, [], ◌∷◌, ◌++◌, ◌==◌, ltb, if◌then◌else◌, if_both, arith,
}
use fuzemsys.Base.Bits.{u8}
use fuzemsys.ObjectFile.{rel_esc, rel_rel, rel_simple, rel_symbol, bss}
use fuzemsys.Assembler.{
  Target, Addr, Assembler, done, jump, Asm, Void, ◌>>=◌, ◌>>◌, pure, gets, modify, when, err,
  outbyte, reservebyte, check_store_allowed, sizecheck, count_byte, outab, outabyte, outab2,
  out_word, out_kind, out_relocated, out_constant, ErrorCode, data_in_bss, segment_overflow,
  segment_limit, phase_error,
}

bind-done :
    {A B : Type 0} (m : Asm A) (f : A → Asm B) {s s' : Assembler} {a : A}
    → m s ≡ done a s'
    → (m >>= f) s ≡ f a s'
unfolding ◌>>=◌
bind-done m f e = λ j. elim (e j) [ done a t ↦ f a t | jump t ↦ jump t ]

-- A byte of the program, as it stands in the stream.
abbrev pub quoted : ℕ → List ℕ
quoted b = u8 b ∷ (if u8 b == rel_esc then rel_rel ∷ [] else [])

module _ (target : Target) where
  abbrev pub word_of : (ℕ → List ℕ) → ℕ → List ℕ
  word_of enc v = if target.bigendian then enc (v / 2 ^ 8) ++ enc v else enc v ++ enc (v / 2 ^ 8)

  abbrev pub constant_bytes : Addr → ℕ → List ℕ
  constant_bytes a bytes =
      if a.a_high
      then quoted (a.a_value / 2 ^ 8)
      else (if a.a_low
          then quoted (u8 a.a_value)
          else (if bytes == 1 then quoted a.a_value else word_of quoted a.a_value))

  abbrev pub plain : ℕ → List ℕ
  plain b = u8 b ∷ []

  abbrev pub relocated_bytes : Addr → ℕ → List ℕ
  relocated_bytes a bytes =
      if a.a_low
      then plain a.a_value
      else (if a.a_high
          then word_of plain a.a_value
          else (if bytes == 1 then plain a.a_value else word_of plain a.a_value))

abbrev pub kind_bytes : Option ℕ → ℕ → ℕ → List ℕ
kind_bytes none s segment = u8 (bit_or s (bit_or rel_simple segment)) ∷ []
kind_bytes (some number) s segment = u8 (bit_or s rel_symbol) ∷ u8 number ∷ u8 (number / 2 ^ 8) ∷ []

-- On the last pass, in a segment that is written: the call ends, and the segment has the bytes.
pub record Writes (g : ℕ) (bs : List ℕ) (s s' : Assembler) : Type 0 where
  pub last_pass : s'.pass ≡ 3
  pub same_segment : s'.segment ≡ g
  pub written : s'.stream g ≡ rev_onto bs (s.stream g)

pub record Emits (g : ℕ) {A : Type 0} (bs : List ℕ) (m : Asm A) : Type 0 where
  pub runs :
      (s : Assembler)
      → s.pass ≡ 3
      → s.segment ≡ g
      → (a : A) × (s' : Assembler) × (m s ≡ done a s') × Writes g bs s s'

module _ (g : ℕ) (stored : g ≢ bss) where
  pub bind-Emits :
      {A B : Type 0} (m : Asm A) (f : A → Asm B) (bs cs : List ℕ)
      → Emits g bs m
      → ((a : A) → Emits g cs (f a))
      → Emits g (bs ++ cs) (m >>= f)
  bind-Emits m f bs cs hm hf = record {
    runs = λ s pass seg.
        let (a, t, e, w) = hm.runs s pass seg in
        let (b, t', e', w') = (hf a).runs t w.last_pass w.same_segment in
        (
          b,
          t',
          bind-done m f e ∙ e',
          record {
            last_pass = w'.last_pass;
            same_segment = w'.same_segment;
            written =
                w'.written ∙ ap (rev_onto cs) w.written ∙ sym (rev_onto-append bs cs (s.stream g));
          },
        );
  }

  pub then-Emits :
      {B : Type 0} {m : Asm Void} {k : Asm B} (bs cs : List ℕ)
      → Emits g bs m
      → Emits g cs k
      → Emits g (bs ++ cs) (m >> k)
  then-Emits bs cs hm hk = bind-Emits _ _ bs cs hm (λ _. hk)

  -- A call that writes nothing, whatever else it does to the state.
  silent :
      (f : Assembler → Assembler)
      → ((s : Assembler)
          → ((f s).pass ≡ s.pass) × ((f s).segment ≡ s.segment) × ((f s).stream ≡ s.stream))
      → Emits g [] (modify f)
  unfolding modify
  silent f h = record {
    runs = λ s pass seg.
        let (p, q, r) = h s in
        (
          tt,
          f s,
          refl,
          record {
            last_pass = p ∙ pass;
            same_segment = q ∙ seg;
            written = ap (λ (st : ℕ → List ℕ). st g) r;
          },
        );
  }

  pub pure-Emits : {A : Type 0} (a : A) → Emits g [] (pure a)
  unfolding pure
  pure-Emits a = record {
    runs =
        λ s pass seg. (a, s, refl, record { last_pass = pass; same_segment = seg; written = refl });
  }

  pub outbyte-Emits : (b : ℕ) → Emits g (u8 b ∷ []) (outbyte b)
  unfolding outbyte
  outbyte-Emits b = record {
    runs = λ s pass seg. (
      tt,
      _,
      refl,
      record { last_pass = pass; same_segment = seg; written = ground (arith, stored) },
    );
  }

  reservebyte-Emits : Emits g [] reservebyte
  unfolding reservebyte
  reservebyte-Emits = record {
    runs = λ s pass seg.
        (tt, _, refl, record { last_pass = pass; same_segment = seg; written = refl });
  }

  count_byte-Emits : Emits g [] count_byte
  unfolding count_byte
  count_byte-Emits = record {
    runs = λ s pass seg.
        (tt, _, refl, record { last_pass = pass; same_segment = seg; written = refl });
  }

  gets-Emits : {A : Type 0} (f : Assembler → A) → Emits g [] (gets f)
  unfolding gets
  gets-Emits f = record {
    runs = λ s pass seg.
        (f s, s, refl, record { last_pass = pass; same_segment = seg; written = refl });
  }

  -- The errors that do not jump.
  pub err-Emits : (c : ℕ) (code : ErrorCode) → (c == b'q') ≡ false → Emits g [] (err c code)
  unfolding err
  err-Emits c code other = record {
    runs = λ s pass seg.
        let later : ltb 1 s.pass ≡ true = rw pass refl in
        (
          tt,
          record s { errors = (c, code) ∷ s.errors; noobj = true },
          rw (other, later) refl,
          record { last_pass = pass; same_segment = seg; written = refl },
        );
  }

  pub when-Emits : (test : Bool) (m : Asm Void) → Emits g [] m → Emits g [] (when test m)
  when-Emits test m h = if_both (Emits g []) test h (pure-Emits tt)

  pub if-Emits :
      {A : Type 0} (test : Bool) {m m' : Asm A} (bs bs' : List ℕ)
      → Emits g bs m
      → Emits g bs' m'
      → Emits g (if test then bs else bs') (if test then m else m')
  if-Emits true bs bs' h h' = h
  if-Emits false bs bs' h h' = h'

  pub check_store_allowed-Emits : (v : ℕ) → Emits g [] (check_store_allowed v)
  unfolding check_store_allowed
  check_store_allowed-Emits v = if_both (Emits g []) (v == 0) (pure-Emits tt) (
      bind-Emits _ _ [] [] (gets-Emits (λ s. s.segment))
        λ h. when-Emits (h == bss) _ (err-Emits b'b' data_in_bss refl))

  sizecheck-Emits : Emits g [] sizecheck
  unfolding sizecheck
  sizecheck-Emits = bind-Emits _ _ [] [] (gets-Emits (λ s. s.full s.segment)) λ over.
      then-Emits [] [] (when-Emits over _ (err-Emits b'o' segment_overflow refl)) (
        silent _ λ s.
          if_both
            (λ (t : Assembler). (t.pass ≡ s.pass) × (t.segment ≡ s.segment) × (t.stream ≡ s.stream))
            (s.pass == 3
              && (s.truesize s.segment == segment_limit || s.dot s.segment == segment_limit))
            (refl, refl, refl) (refl, refl, refl))

  counted :
      (test : Bool) (other : Asm Void)
      → Emits g [] other
      → Emits g
          (if test then rel_rel ∷ [] else [])
          ((if test then outbyte rel_rel else other) >> count_byte)
  counted true other h = then-Emits (rel_rel ∷ []) [] (outbyte-Emits rel_rel) count_byte-Emits
  counted false other h = then-Emits [] [] h count_byte-Emits

  -- A byte of the program, as it stands in the stream.
  pub outab-Emits : (b : ℕ) → Emits g (quoted b) (outab b)
  unfolding outab
  outab-Emits b = then-Emits [] (quoted b) (check_store_allowed-Emits (u8 b)) (
      then-Emits [] (quoted b) sizecheck-Emits (
        then-Emits (u8 b ∷ []) (if u8 b == rel_esc then rel_rel ∷ [] else []) (outbyte-Emits b)
          (counted (u8 b == rel_esc) (pure tt) (pure-Emits tt))))

  outab2-Emits : (b : ℕ) → Emits g (quoted b) (outab2 b)
  unfolding outab2
  outab2-Emits b = then-Emits [] (quoted b) (check_store_allowed-Emits (u8 b)) (
      then-Emits [] (quoted b) sizecheck-Emits (
        then-Emits (u8 b ∷ []) (if u8 b == rel_esc then rel_rel ∷ [] else []) (outbyte-Emits b)
          (counted (u8 b == rel_esc) reservebyte reservebyte-Emits)))

  outabyte-Emits : (b : ℕ) → Emits g (u8 b ∷ []) (outabyte b)
  unfolding outabyte
  outabyte-Emits b = then-Emits [] (u8 b ∷ []) (check_store_allowed-Emits (u8 b)) (
      then-Emits [] (u8 b ∷ []) sizecheck-Emits
        (then-Emits (u8 b ∷ []) [] (outbyte-Emits b) count_byte-Emits))

  word-Emits :
      (target : Target) (out : ℕ → Asm Void) (enc : ℕ → List ℕ)
      → ((b : ℕ) → Emits g (enc b) (out b))
      → (v : ℕ) → Emits g (word_of target enc v) (out_word target out v)
  unfolding out_word
  word-Emits target out enc h v =
      if-Emits target.bigendian (enc (v / 2 ^ 8) ++ enc v) (enc v ++ enc (v / 2 ^ 8))
        (then-Emits (enc (v / 2 ^ 8)) (enc v) (h (v / 2 ^ 8)) (h v))
        (then-Emits (enc v) (enc (v / 2 ^ 8)) (h v) (h (v / 2 ^ 8)))

  pub constant-Emits :
      (target : Target) (a : Addr) (bytes : ℕ)
      → Emits g (constant_bytes target a bytes) (out_constant target a bytes)
  unfolding out_constant
  constant-Emits target a bytes = if-Emits a.a_high _ _ (outab2-Emits (a.a_value / 2 ^ 8)) (
      if-Emits a.a_low _ _ (outab2-Emits (u8 a.a_value)) (
        if-Emits (bytes == 1) _ _ (outab-Emits a.a_value)
          (word-Emits target outab2 quoted outab2-Emits a.a_value)))

  pub kind-Emits :
      (target : Target) (sym : Option ℕ) (s segment : ℕ)
      → Emits g (kind_bytes sym s segment) (out_kind target sym s segment)
  unfolding out_kind
  kind-Emits target none s segment =
      then-Emits [] _ (when-Emits (segment == 15) _ (err-Emits b'a' phase_error refl))
        (outbyte-Emits _)
  kind-Emits target (some number) s segment =
      then-Emits (_ ∷ []) (_ ∷ _ ∷ []) (outbyte-Emits _)
        (then-Emits (_ ∷ []) (_ ∷ []) (outbyte-Emits _) (outbyte-Emits _))

  pub relocated-Emits :
      (target : Target) (a : Addr) (bytes : ℕ)
      → Emits g (relocated_bytes target a bytes) (out_relocated target a bytes)
  unfolding out_relocated
  relocated-Emits target a bytes = if-Emits a.a_low _ _ (outabyte-Emits a.a_value) (
      if-Emits a.a_high _ _
        (if-Emits target.bigendian _ _
          (then-Emits (_ ∷ []) (_ ∷ []) (outabyte-Emits _) (outbyte-Emits _))
          (then-Emits (_ ∷ []) (_ ∷ []) (outbyte-Emits _) (outabyte-Emits _)))
        (if-Emits (bytes == 1) _ _ (outabyte-Emits a.a_value)
          (word-Emits target outabyte (plain target) outabyte-Emits a.a_value)))
