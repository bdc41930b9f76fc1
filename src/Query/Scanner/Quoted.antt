-- ===== src/Query/Scanner/Quoted.antt =====
-- Strings and comments of pkg/query/parser/scanner.go.
use xuandb.Prelude.{ℕ, zero, suc, Bool, true, false, ◌&&◌, ◌||◌, ◌==◌, ltb, if◌then◌else◌, length}
use xuandb.Prelude.Text.{codes}
use xuandb.Query.Lexer.{digit_val}
use xuandb.Query.Scanner.{Scanner, next, error, is_negative}
use xuandb.Query.Scanner.Runes.{between, while_class}

unfoldable pub scan_digits : ℕ → ℕ → ℕ × Scanner → ℕ × Scanner
scan_digits base zero (ch, s) = (ch, s)
scan_digits base (suc n) (ch, s) = elim (ltb (digit_val ch) base) [
  | true ↦ scan_digits base n (next s)
  | false ↦ (ch, error (codes "invalid char escape") s)
]

abbrev pub is_short_escape : ℕ → ℕ → Bool
is_short_escape quote ch =
    ch == b'a'
    || ch == b'b'
    || ch == b'f'
    || ch == b'n'
    || ch == b'r'
    || ch == b't'
    || ch == b'v'
    || ch == b'\\'
    || ch == quote

-- On the character that follows a backslash.
unfoldable pub escape : ℕ → ℕ × Scanner → ℕ × Scanner
escape quote (ch, s) =
    if is_short_escape quote ch
    then next s
    else if between b'0' b'7' ch
    then scan_digits 8 3 (ch, s)
    else if ch == b'x'
    then scan_digits 16 2 (next s)
    else if ch == b'u'
    then scan_digits 16 4 (next s)
    else if ch == b'U'
    then scan_digits 16 8 (next s)
    else (ch, error (codes "invalid char escape") s)

unfoldable pub scan_escape : ℕ → Scanner → ℕ × Scanner
scan_escape quote s = escape quote (next s)

-- The loop of `scanString`, up to the closing quote or to where the literal breaks off.
unfoldable pub string_loop : ℕ → ℕ → ℕ × Scanner → Scanner
string_loop zero quote (ch, s) = s
string_loop (suc fuel) quote (ch, s) = elim (ch == quote) [
  | true ↦ s
  | false ↦ elim (ch == b'\n' || is_negative ch) [
    | true ↦ error (codes "literal not terminated") s
    | false ↦ string_loop fuel quote (if ch == b'\\' then scan_escape quote s else next s)
  ]
]

-- Each round but the last reads a character; the first is read before the loop.
unfoldable pub scan_string : ℕ → Scanner → ℕ × Scanner
scan_string quote s = next (string_loop (suc (suc (length s.rest))) quote (next s))

-- The loop stops at a backquote or at the end.
abbrev pub in_raw_string : ℕ → Bool
in_raw_string ch = if ch == b'`' then false else if is_negative ch then false else true

unfoldable pub end_raw_string : ℕ × Scanner → Scanner
end_raw_string (ch, s) =
    if ch == b'`' then s else if is_negative ch then error (codes "literal not terminated") s else s

unfoldable pub scan_raw_string : Scanner → ℕ × Scanner
scan_raw_string s = next (end_raw_string (while_class in_raw_string (next s).0 (next s).1))

abbrev pub in_line_comment : ℕ → Bool
in_line_comment ch = if ch == b'\n' then false else if is_negative ch then false else true

unfoldable pub scan_line_comment : Scanner → ℕ × Scanner
scan_line_comment s = while_class in_line_comment (next s).0 (next s).1

unfoldable pub block_loop : ℕ → ℕ × Scanner → ℕ × Scanner
block_loop zero (ch, s) = (ch, s)
block_loop (suc fuel) (ch, s) = elim (is_negative ch) [
  | true ↦ (ch, error (codes "comment not terminated") s)
  | false ↦ elim (ch == b'*' && (next s).0 == b'/') [
    | true ↦ next (next s).1
    | false ↦ block_loop fuel (next s)
  ]
]

unfoldable pub scan_block_comment : Scanner → ℕ × Scanner
scan_block_comment s = block_loop (suc (suc (length s.rest))) (next s)
