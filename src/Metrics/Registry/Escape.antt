-- ===== src/Metrics/Registry/Escape.antt =====
-- src/metrics/registry.hpp: a reader of the rendered labels finds the values that were set.
use av_hil_validation_platfo.Base.Tests.{◌==◌, if◌then◌else◌}
use av_hil_validation_platfo.Base.Text.{Text}
use av_hil_validation_platfo.Metrics.Registry.{escape_char, escape}
use av_hil_validation_platfo.Base.{
  ℕ, ◌≡◌, refl, ap, ◌∙◌, Bool, true, false, Option, none, some, [], ◌∷◌, ◌++◌, append_assoc, arith,
}

-- `\n` stands for a line break in the text format, `\"` and `\\` for the character.
abbrev plain_char : ℕ → ℕ
plain_char c = if c == 110 then 10 else c

abbrev put_first : ℕ → Option (Text × Text) → Option (Text × Text)
put_first c none = none
put_first c (some (value, rest)) = some (c ∷ value, rest)

-- A reader of the Prometheus text format, from behind the quote that opens a label's value: the value, and
-- what follows the quote that ends it. A line break before that is an error. The flag is set after
-- a backslash.
abbrev pub read_from : Bool → Text → Option (Text × Text)
read_from escaped [] = none
read_from true (c ∷ s) = put_first (plain_char c) (read_from false s)
read_from false (c ∷ s) =
    let escaped = read_from true s in
    let more = read_from false s in
    if c == 34
    then some ([], s)
    else if c == 10
    then none
    else if c == 92
    then escaped
    else put_first c more

abbrev pub read_value : Text → Option (Text × Text)
read_value = read_from false

read_value-escape_char :
    (c : ℕ) (s : Text) → read_value (escape_char c ++ s) ≡ put_first c (read_value s)
read_value-escape_char c s = ground arith

-- Whatever a label's value is, a reader of its rendering gets it back from between the quotes, with what
-- follows left.
pub read_value-escape :
    (value rest : Text) → read_value (escape value ++ (34 ∷ rest)) ≡ some (value, rest)
unfolding escape
read_value-escape [] rest = refl
read_value-escape (c ∷ value) rest =
    ap read_value (append_assoc (escape_char c) (escape value) (34 ∷ rest))
    ∙ read_value-escape_char c (escape value ++ (34 ∷ rest))
    ∙ ap (put_first c) (read_value-escape value rest)
