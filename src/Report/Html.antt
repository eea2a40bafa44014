-- ===== src/Report/Html.antt =====
-- src/report/html_report.cpp: text that is escaped for HTML.
use av_hil_validation_platfo.Base.Lists.{All, All-append}
use av_hil_validation_platfo.Base.Tests.{◌==◌, if◌then◌else◌}
use av_hil_validation_platfo.Base.Text.{Text}
use av_hil_validation_platfo.Report.{esc_char, esc}
use av_hil_validation_platfo.Base.{ℕ, zero, suc, ◌≡◌, ◌≢◌, refl, ap, ◌∙◌, [], ◌∷◌, ◌++◌, arith}

-- Neither `<` nor `>` nor a double quote.
abbrev pub IsInert : ℕ → Type 0
IsInert c = (c ≢ 60) × (c ≢ 62) × (c ≢ 34)

abbrev next : Text → ℕ
next [] = 0
next (c ∷ s) = c

-- A reader of the four entities that the report uses, told apart by the letter behind `&`. The number
-- is how many characters are still to skip.
abbrev unescape_from : ℕ → Text → Text
unescape_from k [] = []
unescape_from (suc k) (c ∷ s) = unescape_from k s
unescape_from zero (c ∷ s) =
    let now = unescape_from zero s in
    let skip3 = unescape_from 3 s in
    let skip4 = unescape_from 4 s in
    let skip5 = unescape_from 5 s in
    if c == 38
    then (if next s == 97
        then 38 ∷ skip4
        else if next s == 108
        then 60 ∷ skip3
        else if next s == 103
        then 62 ∷ skip3
        else 34 ∷ skip5)
    else c ∷ now

abbrev pub unescape : Text → Text
unescape = unescape_from zero

unescape-esc_char : (c : ℕ) (s : Text) → unescape (esc_char c ++ s) ≡ c ∷ unescape s
unescape-esc_char c s = ground arith

esc_char-IsInert : (c : ℕ) → All IsInert (esc_char c)
esc_char-IsInert c = ground arith

-- Escaped text has no angle bracket and no double quote, and a reader of the four entities gets back
-- the text that was escaped.
pub esc_lem : (s : Text) → All IsInert (esc s) × (unescape (esc s) ≡ s)
unfolding esc
esc_lem [] = (tt, refl)
esc_lem (c ∷ s) = (
  All-append IsInert (esc_char c) (esc s) (esc_char-IsInert c) (esc_lem s).0,
  unescape-esc_char c (esc s) ∙ ap (λ (t : Text). c ∷ t) (esc_lem s).1,
)
