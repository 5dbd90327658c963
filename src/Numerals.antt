-- ===== src/Numerals.antt =====
-- Python's `int` of a text.
use mathlib.Core.Option
use plugin_baselithbot.Slices.{ℤ, pos, neg}
use plugin_baselithbot.Text.{strip}
use plugin_baselithbot.Common.{
  ℕ, ◌+◌, ◌-◌, ◌*◌, ◌||◌, String, Bool, false, ◌&&◌, Option, none, some, leb, eqb, if◌then◌else◌,
}
use Prim.Native.Char.{code}

-- c.isdigit(), of an ASCII digit
abbrev is_digit : ℕ → Bool
is_digit c = leb b'0' c && leb c b'9'

-- Digits, with single underscores between them; the flag says whether a digit stands just before.
unfoldable pub digits : String → Bool → ℕ → Option ℕ
digits String.[] after acc = if after then some acc else none
digits (String.◌∷◌ c s) after acc =
    let d = is_digit (code c) in
    let rest = digits s d (if d then acc * 10 + (code c - b'0') else acc) in
    if d || (after && eqb (code c) b'_') then rest else none

abbrev signed : String → Option ℤ
signed String.[] = none
signed (String.◌∷◌ c s) =
    if eqb (code c) b'-'
    then Option.map (λ n. neg (pos n)) (digits s false 0)
    else Option.map pos
        (if eqb (code c) b'+' then digits s false 0 else digits (String.◌∷◌ c s) false 0)

-- int(text), where `none` is the `ValueError`
unfoldable pub int : String → Option ℤ
unfolding digits
int text = signed (strip text)
