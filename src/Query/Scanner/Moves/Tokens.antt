-- ===== src/Query/Scanner/Moves/Tokens.antt =====
-- Strings, comments and whole tokens.
use xuandb.Prelude.{ℕ, zero, suc, arith, true, false, ◌==◌, if◌then◌else◌, length}
use xuandb.Prelude.Text.{codes}
use xuandb.Query.Scanner.{Scanner, next}
use xuandb.Query.Scanner.Runes.{Classes, while_class, scan_identifier, is_ident_rune}
use xuandb.Query.Scanner.Quoted.{
  scan_digits, escape, scan_escape, string_loop, scan_string, end_raw_string, scan_raw_string,
  scan_line_comment, in_raw_string, in_line_comment, block_loop, scan_block_comment,
}
use xuandb.Query.Scanner.Scan.{comment_or_char, number_or_dot, token}
use xuandb.Query.Scanner.Moves.{Keeps, error-Keeps, next-Keeps, while_class-Keeps}
use xuandb.Query.Scanner.Moves.Numbers.{number-Keeps}

scan_digits-Keeps : (base n : ℕ) (p : ℕ × Scanner) → Keeps p.1 (scan_digits base n p).1
unfolding scan_digits
scan_digits-Keeps base zero (ch, s) = ground arith
scan_digits-Keeps base (suc n) (ch, s) = ground (
  arith,
  next-Keeps s,
  error-Keeps (codes "invalid char escape") s,
  scan_digits-Keeps base n (next s),
)

pub escape-Keeps : (quote : ℕ) (p : ℕ × Scanner) → Keeps p.1 (escape quote p).1
unfolding escape
escape-Keeps quote (ch, s) = ground (
  arith,
  next-Keeps s,
  error-Keeps (codes "invalid char escape") s,
  scan_digits-Keeps 8 3 (ch, s),
  scan_digits-Keeps 16 2 (next s),
  scan_digits-Keeps 16 4 (next s),
  scan_digits-Keeps 16 8 (next s),
)

scan_escape-Keeps : (quote : ℕ) (s : Scanner) → Keeps s (scan_escape quote s).1
unfolding scan_escape
scan_escape-Keeps quote s = ground (arith, next-Keeps s, escape-Keeps quote (next s))

string_loop-Keeps : (n quote : ℕ) (p : ℕ × Scanner) → Keeps p.1 (string_loop n quote p)
unfolding string_loop
string_loop-Keeps zero quote (ch, s) = ground arith
string_loop-Keeps (suc n) quote (ch, s) = ground (
  arith,
  error-Keeps (codes "literal not terminated") s,
  next-Keeps s,
  scan_escape-Keeps quote s,
  string_loop-Keeps n quote (if ch == b'\\' then scan_escape quote s else next s),
)

scan_string-Keeps : (quote : ℕ) (s : Scanner) → Keeps s (scan_string quote s).1
unfolding scan_string
scan_string-Keeps quote s =
    let n = suc (suc (length s.rest)) in
    ground (
      arith,
      next-Keeps s,
      string_loop-Keeps n quote (next s),
      next-Keeps (string_loop n quote (next s)),
    )

end_raw_string-Keeps : (p : ℕ × Scanner) → Keeps p.1 (end_raw_string p)
unfolding end_raw_string
end_raw_string-Keeps (ch, s) = ground (arith, error-Keeps (codes "literal not terminated") s)

scan_raw_string-Keeps : (s : Scanner) → Keeps s (scan_raw_string s).1
unfolding scan_raw_string
scan_raw_string-Keeps s =
    let r = while_class in_raw_string (next s).0 (next s).1 in
    ground (
      arith,
      next-Keeps s,
      while_class-Keeps in_raw_string (next s).0 (next s).1,
      end_raw_string-Keeps r,
      next-Keeps (end_raw_string r),
    )

block_loop-Keeps : (n : ℕ) (p : ℕ × Scanner) → Keeps p.1 (block_loop n p).1
unfolding block_loop
block_loop-Keeps zero (ch, s) = ground arith
block_loop-Keeps (suc n) (ch, s) = ground (
  arith,
  error-Keeps (codes "comment not terminated") s,
  next-Keeps s,
  next-Keeps (next s).1,
  block_loop-Keeps n (next s),
)

pub comments-Keeps :
    (s : Scanner) → Keeps s (scan_line_comment s).1 × Keeps s (scan_block_comment s).1
unfolding scan_line_comment scan_block_comment
comments-Keeps s =
    let line = while_class-Keeps in_line_comment (next s).0 (next s).1 in
    let block = block_loop-Keeps (suc (suc (length s.rest))) (next s) in
    (ground (arith, next-Keeps s, line), ground (arith, next-Keeps s, block))

identifier-Keeps : (cl : Classes) (s : Scanner) → Keeps s (scan_identifier cl s).1
unfolding scan_identifier
identifier-Keeps cl s =
    ground (arith, next-Keeps s, while_class-Keeps (is_ident_rune cl) (next s).0 (next s).1)

comment_or_char-Keeps :
    (first second : ℕ) (scan : Scanner → ℕ × Scanner) (p : ℕ × Scanner)
    → ((s : Scanner) → Keeps s (scan s).1)
    → Keeps p.1 (comment_or_char first second scan p).s
unfolding comment_or_char
comment_or_char-Keeps first second scan (ch, s) h = ground (arith, h s)

number_or_dot-Keeps : (cl : Classes) (p : ℕ × Scanner) → Keeps p.1 (number_or_dot cl p).s
unfolding number_or_dot
number_or_dot-Keeps cl (ch, s) = ground (arith, number-Keeps cl ch true s)

-- A token is read character by character.
pub token-Keeps : (cl : Classes) (p : ℕ × Scanner) → Keeps p.1 (token cl p).s
unfolding token
token-Keeps cl (ch, s) = ground (
  arith,
  next-Keeps s,
  identifier-Keeps cl s,
  number-Keeps cl ch false s,
  comment_or_char-Keeps b'-' b'-' scan_line_comment (next s) (λ t. (comments-Keeps t).0),
  comment_or_char-Keeps b'/' b'*' scan_block_comment (next s) (λ t. (comments-Keeps t).1),
  number_or_dot-Keeps cl (next s),
  scan_string-Keeps b'"' s,
  scan_string-Keeps b'\'' s,
  scan_raw_string-Keeps s,
)
