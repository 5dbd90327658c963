-- ===== src/Text.antt =====
-- Python's text methods on whitespace, and comparisons in lower case with ASCII words.
use plugin_baselithbot.Common.{
  ℕ, ◌+◌, String, Bool, true, false, not, ◌&&◌, ◌||◌, Option, none, some, leb, eqb, if◌then◌else◌,
}
use Prim.Native.Char.{code}

-- The whitespace of Unicode above ASCII.
abbrev pub is_wide_space : ℕ → Bool
is_wide_space c =
    eqb c 133
    || eqb c 160
    || eqb c 5760
    || (leb 8192 c && leb c 8202)
    || eqb c 8232
    || eqb c 8233
    || eqb c 8239
    || eqb c 8287
    || eqb c 12288

-- c.isspace(), which is \s of `re` and what strip and split take off
unfoldable pub is_space : ℕ → Bool
is_space c = (leb 9 c && leb c 13) || (leb 28 c && leb c 32) || is_wide_space c

-- The code of c.lower(), where that is one ASCII letter: beside A to Z only the Kelvin sign, U+212A, has
-- one, k. U+0130 becomes an i with a combining dot behind it, which no word below has, so that it
-- matches none of them.
unfoldable pub lower : ℕ → ℕ
lower c = if leb b'A' c && leb c b'Z' then c + 32 else if eqb c 8490 then b'k' else c

abbrev pub is_empty : String → Bool
is_empty String.[] = true
is_empty (String.◌∷◌ c s) = false

-- s.lower().startswith(prefix), for an ASCII prefix in lower case that does not end in i
unfoldable pub lower_starts_with : String → String → Bool
unfolding lower
lower_starts_with String.[] s = true
lower_starts_with (String.◌∷◌ p ps) String.[] = false
lower_starts_with (String.◌∷◌ p ps) (String.◌∷◌ c s) =
    eqb (code p) (lower (code c)) && lower_starts_with ps s

-- s.lower() == word, for an ASCII word in lower case
unfoldable pub lower_eq : String → String → Bool
unfolding lower
lower_eq String.[] s = is_empty s
lower_eq (String.◌∷◌ p ps) String.[] = false
lower_eq (String.◌∷◌ p ps) (String.◌∷◌ c s) = eqb (code p) (lower (code c)) && lower_eq ps s

-- s.lstrip()
unfoldable pub strip_left : String → String
unfolding is_space
strip_left String.[] = ""
strip_left (String.◌∷◌ c s) = if is_space (code c) then strip_left s else String.◌∷◌ c s

-- s.rstrip()
unfoldable pub strip_right : String → String
unfolding is_space
strip_right String.[] = ""
strip_right (String.◌∷◌ c s) =
    let rest = strip_right s in if is_space (code c) && is_empty rest then "" else String.◌∷◌ c rest

-- s.strip()
unfoldable pub strip : String → String
unfolding strip_left strip_right
strip s = strip_right (strip_left s)

-- s.split(" ", 1)[1], for a text with a space
unfoldable pub after_space : String → String
after_space String.[] = ""
after_space (String.◌∷◌ c s) = if eqb (code c) b' ' then s else after_space s

-- value if it is a text that is not empty
abbrev pub non_empty : String → Option String
non_empty s = if is_empty s then none else some s

-- if value: the test of an optional text
abbrev pub truthy : Option String → Bool
truthy none = false
truthy (some s) = not (is_empty s)
