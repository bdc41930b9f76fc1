-- ===== src/Prelude/Unicode.antt =====
-- `strings.ToLower` and `strings.ToUpper`: rune by rune, concrete on ASCII. Beyond ASCII the case
-- tables of Go's package unicode are a parameter.
use xuandb.Prelude.{ℕ, ◌+◌, ◌-◌, ◌&&◌, map, leb, ltb, if◌then◌else◌}
use xuandb.Prelude.Text.{Text}

-- The tables for code points from 128 on.
pub record Unicode : Type 0 where
  pub upper : ℕ → ℕ
  pub lower : ℕ → ℕ

-- `unicode.ToLower` and `unicode.ToUpper`.
pub rune_lower : Unicode → ℕ → ℕ
rune_lower u c = if ltb c 128 then (if leb b'A' c && leb c b'Z' then c + 32 else c) else u.lower c

pub rune_upper : Unicode → ℕ → ℕ
rune_upper u c = if ltb c 128 then (if leb b'a' c && leb c b'z' then c - 32 else c) else u.upper c

unfoldable pub to_lower : Unicode → Text → Text
unfolding rune_lower
to_lower u = map (rune_lower u)

unfoldable pub to_upper : Unicode → Text → Text
unfolding rune_upper
to_upper u = map (rune_upper u)

-- The tables of a world of ASCII letters.
abbrev pub ascii : Unicode
ascii = record { upper = λ c. c; lower = λ c. c }
