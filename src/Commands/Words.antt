-- ===== src/Commands/Words.antt =====
-- The words of a line. Code: emulators/emumon.c (str_scan).
use fuzemsys.Base.{
  ℕ, zero, suc, ◌<◌, ◌≡◌, refl, ap, ◌∙◌, true, false, List, [], ◌∷◌, ◌++◌, length, arith,
}
use fuzemsys.Symbols.{Name}
use fuzemsys.Commands.{
  isgraph, skip_blanks, passed, skip_word, cut_word, scan_first, no_word, before, scan_words,
  str_scan,
}

-- Bytes that isgraph holds of, one at least.
abbrev AllGraph : List ℕ → Type 0
AllGraph [] = Unit
AllGraph (c ∷ str) = (isgraph c ≡ true) × AllGraph str

abbrev pub IsWord : Name → Type 0
IsWord [] = ⊥
IsWord (c ∷ str) = (isgraph c ≡ true) × AllGraph str

abbrev pub AllWords : List Name → Type 0
AllWords [] = Unit
AllWords (w ∷ ws) = IsWord w × AllWords ws

-- A first word, each further word with a blank before it, and what comes behind them.
abbrev pub line : Name → List Name → List ℕ → List ℕ
line w [] end = w ++ end
line w (w' ∷ ws) end = w ++ (0x20 ∷ line w' ws end)

passed-append : (w rest : List ℕ) → AllGraph w → passed (w ++ (0x20 ∷ rest)) ≡ w
passed-append [] rest h = refl
passed-append (c ∷ w) rest (h, hs) =
    (λ i. elim (h i) [ true ↦ c ∷ passed (w ++ (0x20 ∷ rest)) | false ↦ [] ])
    ∙ ap (λ (l : List ℕ). c ∷ l) (passed-append w rest hs)

skip_word-append : (w rest : List ℕ) → AllGraph w → skip_word (w ++ (0x20 ∷ rest)) ≡ 0x20 ∷ rest
skip_word-append [] rest h = refl
skip_word-append (c ∷ w) rest (h, hs) =
    (λ i. elim (h i) [ true ↦ skip_word (w ++ (0x20 ∷ rest)) | false ↦ c ∷ (w ++ (0x20 ∷ rest)) ])
    ∙ skip_word-append w rest hs

passed-word : (w : List ℕ) → AllGraph w → passed (w ++ []) ≡ w
passed-word [] h = refl
passed-word (c ∷ w) (h, hs) =
    (λ i. elim (h i) [ true ↦ c ∷ passed (w ++ []) | false ↦ [] ])
    ∙ ap (λ (l : List ℕ). c ∷ l) (passed-word w hs)

skip_word-word : (w : List ℕ) → AllGraph w → skip_word (w ++ []) ≡ []
skip_word-word [] h = refl
skip_word-word (c ∷ w) (h, hs) =
    (λ i. elim (h i) [ true ↦ skip_word (w ++ []) | false ↦ c ∷ (w ++ []) ]) ∙ skip_word-word w hs

skip_blanks-word : (c : ℕ) (str : List ℕ) → isgraph c ≡ true → skip_blanks (c ∷ str) ≡ c ∷ str
skip_blanks-word c str h = λ i. elim (h i) [ true ↦ c ∷ str | false ↦ skip_blanks str ]

scan_words-next :
    (maxi : ℕ) (w : Name) (rest : List ℕ)
    → IsWord w
    → scan_words (suc maxi) (w ++ (0x20 ∷ rest)) ≡ before w (scan_words maxi rest)
unfolding scan_words
scan_words-next maxi [] rest h = absurd h
scan_words-next maxi (c ∷ w) rest (h, hs) =
    let next = λ (later : List ℕ). scan_words maxi later in
    ap (λ (l : List ℕ). scan_first l next) (skip_blanks-word c (w ++ (0x20 ∷ rest)) h) ∙ (λ i.
      cut_word (passed-append (c ∷ w) rest (h, hs) i) (skip_word-append (c ∷ w) rest (h, hs) i)
        next)

scan_words-last :
    (maxi : ℕ) (w : Name)
    → IsWord w
    → scan_words (suc maxi) (w ++ []) ≡ record { table = w ∷ []; count = 0 }
unfolding scan_words
scan_words-last maxi [] h = absurd h
scan_words-last maxi (c ∷ w) (h, hs) =
    let next = λ (later : List ℕ). scan_words maxi later in
    ap (λ (l : List ℕ). scan_first l next) (skip_blanks-word c (w ++ []) h)
    ∙ (λ i. cut_word (passed-word (c ∷ w) (h, hs) i) (skip_word-word (c ∷ w) (h, hs) i) next)

scan_words-end : (maxi : ℕ) → scan_words maxi [] ≡ no_word
unfolding scan_words
scan_words-end zero = refl
scan_words-end (suc maxi) = refl

-- For a word and fewer further words than maxi, each with a blank before it, str_scan gives the table these
-- words; the number it returns is that of the further words, and with a blank at the end of the line it is one more, so
-- that the monitor counts a word that is not there.
pub str_scan-line :
    (w : Name) (ws : List Name) (maxi : ℕ)
    → IsWord w
    → AllWords ws
    → length ws < maxi
    → (str_scan (line w ws []) maxi ≡ record { table = w ∷ ws; count = length ws })
      × (str_scan (line w ws (0x20 ∷ [])) maxi ≡ record { table = w ∷ ws; count = suc (length ws) })
str_scan-line w ws zero h hs few = absurd (omega (arith, few))
str_scan-line w [] (suc maxi) h hs few =
    (scan_words-last maxi w h, scan_words-next maxi w [] h ∙ ap (before w) (scan_words-end maxi))
str_scan-line w (w' ∷ ws) (suc maxi) h (h', hs) few =
    let (without, with_blank) = str_scan-line w' ws maxi h' hs (omega (arith, few)) in
    (
      scan_words-next maxi w (line w' ws []) h ∙ ap (before w) without,
      scan_words-next maxi w (line w' ws (0x20 ∷ [])) h ∙ ap (before w) with_blank,
    )
