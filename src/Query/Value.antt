-- ===== src/Query/Value.antt =====
-- The values of a result set and their text: `writeValue` of pkg/query/service.go, and what it
-- uses of package strconv. Whether a code point from 128 on is printable is Go's table, a parameter.
use xuandb.Prelude.{
  ℕ, zero, suc, ◌+◌, ◌-◌, ◌/◌, ◌%◌, Bool, true, false, ◌&&◌, ◌||◌, ◌==◌, ltb, leb, if◌then◌else◌,
  [], ◌∷◌, ◌++◌, Option, none, some,
}
use xuandb.Prelude.Int.{ℤ, pos, negsuc}
use xuandb.Prelude.Text.{Text, codes}
use xuandb.Utils.Duration.{decimal}

-- The dynamic types that `writeValue` tells apart. A float carries the text that
-- `strconv.FormatFloat` gives, a time its `UnixNano`, a duration its nanoseconds.
pub data Value : Type 0 where
  nil : Value
  int : ℤ → Value
  uint : ℕ → Value
  float : Text → Value
  string : Text → Value
  time : ℤ → Value
  duration : ℤ → Value
  bool : Bool → Value
  unexpected : Value

-- `strconv.FormatUint(n, 10)`; a `uint64` has at most twenty digits.
unfoldable pub format_uint : ℕ → Text
format_uint n = decimal n

unfoldable pub format_int : ℤ → Text
format_int (pos n) = format_uint n
format_int (negsuc n) = b'-' ∷ format_uint (n + 1)

unfoldable pub format_bool : Bool → Text
format_bool true = codes "true"
format_bool false = codes "false"

abbrev hex_digit : ℕ → ℕ
hex_digit d = if ltb d 10 then b'0' + d else b'a' + d - 10

-- The low `w` hexadecimal digits of `c`, before `out`.
unfoldable pub hex : ℕ → ℕ → Text → Text
hex zero c out = out
hex (suc w) c out = hex w (c / 16) (hex_digit (c % 16) ∷ out)

-- The letter of a control character that has a short escape, or 0.
unfoldable pub short_escape : ℕ → ℕ
short_escape c =
    if c == 7
    then b'a'
    else if c == 8
    then b'b'
    else if c == 9
    then b't'
    else if c == 10
    then b'n'
    else if c == 11
    then b'v'
    else if c == 12
    then b'f'
    else if c == 13
    then b'r'
    else 0

module _ (table : ℕ → Bool) where
  -- `strconv.IsPrint`
  unfoldable pub is_print : ℕ → Bool
  is_print c = if ltb c 128 then leb 32 c && ltb c 127 else table c

  unfoldable pub quote_rune : ℕ → Text
  quote_rune c =
      if c == b'"' || c == b'\\'
      then b'\\' ∷ c ∷ []
      else if is_print c
      then c ∷ []
      else if not_zero (short_escape c)
      then b'\\' ∷ short_escape c ∷ []
      else if ltb c 32 || c == 127
      then b'\\' ∷ b'x' ∷ hex 2 c []
      else if ltb c 65536
      then b'\\' ∷ b'u' ∷ hex 4 c []
      else b'\\' ∷ b'U' ∷ hex 8 c []
    where
      not_zero : ℕ → Bool
      not_zero n = ltb 0 n

  unfoldable pub quote_runes : Text → Text
  quote_runes [] = []
  quote_runes (c ∷ s) = quote_rune c ++ quote_runes s

  -- `strconv.AppendQuote(nil, s)`
  unfoldable pub quote : Text → Text
  quote s = b'"' ∷ quote_runes s ++ b'"' ∷ []

  -- `writeValue`; `none` is its panic.
  unfoldable pub write_value : Value → Option Text
  write_value nil = some (codes "null")
  write_value (int i) = some (format_int i)
  write_value (uint n) = some (format_uint n)
  write_value (float t) = some t
  write_value (string t) = some (quote t)
  write_value (time i) = some (format_int i)
  write_value (duration i) = some (format_int i)
  write_value (bool b) = some (format_bool b)
  write_value unexpected = none
