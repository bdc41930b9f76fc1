-- ===== src/Query/Scanner/Scan.antt =====
-- `Scan` of pkg/query/parser/scanner.go.
use xuandb.Prelude.{ℕ, ◌-◌, true, false, ◌||◌, ◌==◌, ltb, if◌then◌else◌, [], some, length}
use xuandb.Query.Scanner.{Scanner, Position, next, peek, invalidated, eof as end_of_source}
use xuandb.Query.Scanner.Runes.{
  Classes, is_letter, is_decimal, is_whitespace, while_class, scan_identifier,
}
use xuandb.Query.Scanner.Number.{
  ScanResult, eof, comment, ident, quoted_ident, string, raw_string, char, Scanned, scanned,
  scan_number_or_duration,
}
use xuandb.Query.Scanner.Quoted.{
  scan_string, scan_raw_string, scan_line_comment, scan_block_comment,
}

-- `s.tokPos = -1; s.Line = 0`, and the white space.
unfoldable pub skip_whitespace : ℕ × Scanner → ℕ × Scanner
skip_whitespace (ch, s) =
    while_class is_whitespace ch
      (record s { collecting = false; position = invalidated s.position })

-- The token starts at the look-ahead.
unfoldable pub start_token : Scanner → Scanner
start_token s =
    let offset = s.offset - length s.last_char in
    let at_start : Position =
      if ltb 0 s.column
      then record { offset = offset; line = s.line; column = s.column }
      else record { offset = offset; line = s.line - 1; column = s.last_line_len } in
    record s { collecting = true; text = []; position = at_start }

-- A character alone, or the comment that it opens with the next one.
unfoldable pub comment_or_char : ℕ → ℕ → (Scanner → ℕ × Scanner) → ℕ × Scanner → Scanned
comment_or_char first second scan (ch, s) =
    if ch == second then scanned comment (scan s) else scanned (char first) (ch, s)

unfoldable pub number_or_dot : Classes → ℕ × Scanner → Scanned
number_or_dot cl (ch, s) =
    if is_decimal ch then scan_number_or_duration cl ch true s else scanned (char b'.') (ch, s)

-- "determine token value"
unfoldable pub token : Classes → ℕ × Scanner → Scanned
token cl (ch, s) =
    if ch == b'_' || is_letter cl ch
    then scanned ident (scan_identifier cl s)
    else if is_decimal ch
    then scan_number_or_duration cl ch false s
    else if ch == end_of_source
    then scanned eof (ch, s)
    else if ch == b'-'
    then comment_or_char b'-' b'-' scan_line_comment (next s)
    else if ch == b'/'
    then comment_or_char b'/' b'*' scan_block_comment (next s)
    else if ch == b'.'
    then number_or_dot cl (next s)
    else if ch == b'"'
    then scanned quoted_ident (scan_string b'"' s)
    else if ch == b'\''
    then scanned string (scan_string b'\'' s)
    else if ch == b'`'
    then scanned raw_string (scan_raw_string s)
    else scanned (char ch) (next s)

unfoldable pub set_lookahead : Scanned → ScanResult × Scanner
set_lookahead r = (r.tok, record r.s { ch = some r.ch })

unfoldable pub begin : ℕ × Scanner → ℕ × Scanner
begin (ch, s) = (ch, start_token s)

unfoldable pub scan : Classes → Scanner → ScanResult × Scanner
scan cl s = set_lookahead (token cl (begin (skip_whitespace (peek s))))
