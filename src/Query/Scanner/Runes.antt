-- ===== src/Query/Scanner/Runes.antt =====
-- The classes of runes of pkg/query/parser/scanner.go, and the loops over one class. Beyond ASCII
-- the tables of Go's package unicode are a parameter.
use xuandb.Prelude.{
  ℕ, zero, suc, Bool, true, false, ◌&&◌, ◌||◌, ◌==◌, ltb, leb, if◌then◌else◌, length,
}
use xuandb.Query.Lexer.{lower}
use xuandb.Query.Scanner.{Scanner, next}

-- `unicode.IsLetter` and `unicode.IsDigit` from 128 on.
pub record Classes : Type 0 where
  pub letter : ℕ → Bool
  pub digit : ℕ → Bool

abbrev pub between : ℕ → ℕ → ℕ → Bool
between a b x = leb a x && leb x b

-- A negative rune is in no table.
unfoldable pub is_letter : Classes → ℕ → Bool
is_letter cl ch =
    if ltb ch 128
    then between b'A' b'Z' ch || between b'a' b'z' ch
    else ltb ch 2147483648 && cl.letter ch

unfoldable pub is_digit : Classes → ℕ → Bool
is_digit cl ch = if ltb ch 128 then between b'0' b'9' ch else ltb ch 2147483648 && cl.digit ch

unfoldable pub is_ident_rune : Classes → ℕ → Bool
is_ident_rune cl ch = ch == b'_' || is_letter cl ch || is_digit cl ch

unfoldable pub is_decimal : ℕ → Bool
is_decimal ch = between b'0' b'9' ch

unfoldable pub is_hex : ℕ → Bool
is_hex ch = between b'0' b'9' ch || between b'a' b'f' (lower ch)

-- A shift by 64 or more gives 0, so no rune from 64 on is white space.
unfoldable pub is_whitespace : ℕ → Bool
is_whitespace ch = ch == b'\t' || ch == b'\n' || ch == b'\r' || ch == b' '

-- `for p(ch) { ch = s.next() }`; each round but the last reads a character, so one round more than
-- there are bytes is enough.
unfoldable pub while_loop : (ℕ → Bool) → ℕ → ℕ → Scanner → ℕ × Scanner
while_loop p zero ch s = (ch, s)
while_loop p (suc n) ch s = elim (p ch) [
  | true ↦ while_loop p n (next s).0 (next s).1
  | false ↦ (ch, s)
]

unfoldable pub while_class : (ℕ → Bool) → ℕ → Scanner → ℕ × Scanner
while_class p ch s = while_loop p (suc (length s.rest)) ch s

-- `scanIdentifier`
unfoldable pub scan_identifier : Classes → Scanner → ℕ × Scanner
scan_identifier cl s = while_class (is_ident_rune cl) (next s).0 (next s).1
