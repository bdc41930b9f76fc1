-- ===== src/Query/Scanner/Number.antt =====
-- Numbers and durations: `digits`, `duration` and `scanNumberOrDuration` of
-- pkg/query/parser/scanner.go.
use xuandb.Prelude.{
  ℕ, zero, suc, ◌+◌, Bool, true, false, not, ◌&&◌, ◌||◌, ◌==◌, ltb, leb, if◌then◌else◌, [], ◌∷◌,
  ◌++◌, length,
}
use xuandb.Prelude.Text.{Text, codes}
use xuandb.Query.Lexer.{lower}
use xuandb.Query.Scanner.{Scanner, next, error}
use xuandb.Query.Scanner.Runes.{Classes, is_decimal, is_hex, is_ident_rune, while_class}

-- The results of `Scan`.
pub data ScanResult : Type 0 where
  eof comment ident quoted_ident int float duration string raw_string : ScanResult
  char : ℕ → ScanResult

-- `TokenString` on the results that an error message names.
unfoldable pub token_string : ScanResult → Text
token_string int = codes "integer"
token_string float = codes "float"
token_string duration = codes "duration"
token_string eof = codes "EOF"
token_string comment = codes "comment"
token_string ident = codes "ident"
token_string quoted_ident = codes "quoted ident"
token_string string = codes "string"
token_string raw_string = codes "raw string"
token_string (char c) = b'"' ∷ c ∷ b'"' ∷ []

-- The look-ahead, the number of digits, the first invalid digit or 0, and the state.
pub record Digits : Type 0 where
  pub ch : ℕ
  pub n : ℕ
  pub invalid : ℕ
  pub s : Scanner

-- `if base <= 10 { if ch >= max && *invalid == 0 { *invalid = ch } }`
abbrev pub note_invalid : ℕ → ℕ → ℕ → ℕ
note_invalid base ch invalid =
    if leb base 10 && leb (b'0' + base) ch && invalid == 0 then ch else invalid

abbrev pub is_digit_of : ℕ → ℕ → Bool
is_digit_of base ch = if leb base 10 then is_decimal ch else is_hex ch

unfoldable pub digits_loop : ℕ → ℕ → Digits → Digits
digits_loop base zero d = d
digits_loop base (suc fuel) d = elim (is_digit_of base d.ch) [
  | true ↦ digits_loop base fuel (record {
    ch = (next d.s).0;
    n = d.n + 1;
    invalid = note_invalid base d.ch d.invalid;
    s = (next d.s).1;
  })
  | false ↦ d
]

unfoldable pub digits : ℕ → ℕ → ℕ → Scanner → Digits
digits ch base invalid s =
    digits_loop base (suc (length s.rest)) (record { ch = ch; n = 0; invalid = invalid; s = s })

-- A result of scanning: the token, the look-ahead, and the state.
pub record Scanned : Type 0 where
  pub tok : ScanResult
  pub ch : ℕ
  pub s : Scanner

abbrev pub scanned : ScanResult → ℕ × Scanner → Scanned
scanned tok (ch, s) = record { tok = tok; ch = ch; s = s }

-- After the switch of `duration`: a unit was read, or the function returns.
pub data UnitResult : Type 0 where
  unit_read : ℕ × Scanner → UnitResult
  returned : Scanned → UnitResult

unfoldable pub no_unit : Bool → ℕ → Scanner → UnitResult
no_unit saw_unit ch s =
    if saw_unit
    then returned (scanned duration (ch, error (codes "invalid duration unit") s))
    else returned (scanned int (ch, s))

-- `if ch = s.next(); ch == 's' { ch = s.next() }`
abbrev pub optional_s : ℕ × Scanner → ℕ × Scanner
optional_s (ch, s) = if ch == b's' then next s else (ch, s)

-- The cases 'n', 'u', U+00B5 and U+03BC fall through without an 's'.
abbrev pub required_s : ℕ × Scanner → UnitResult
required_s (ch, s) = if ch == b's' then unit_read (next s) else no_unit true ch s

unfoldable pub scan_unit : Bool → ℕ → Scanner → UnitResult
scan_unit saw_unit ch s =
    if ch == b'w' || ch == b'd' || ch == b'h' || ch == b's'
    then unit_read (next s)
    else if ch == b'm'
    then unit_read (optional_s (next s))
    else if ch == b'n' || ch == b'u' || ch == 181 || ch == 956
    then required_s (next s)
    else no_unit saw_unit ch s

unfoldable pub duration_end : Bool → ℕ → Scanner → Scanned
duration_end not_dec ch s =
    scanned duration
      (ch, if not_dec then error (codes "duration requires decimal integer") s else s)

-- Each round but the last reads a unit and a digit.
unfoldable pub duration_loop : ℕ → Bool → Bool → ℕ → Scanner → Scanned
duration_loop zero saw_unit not_dec ch s = duration_end not_dec ch s
duration_loop (suc fuel) saw_unit not_dec ch s = elim (scan_unit saw_unit ch s) [
  | returned r ↦ r
  | unit_read (c, t) ↦
      let d = digits (next t).0 10 0 (next t).1 in
      elim (is_decimal c) [
        | true ↦ duration_loop fuel true (not_dec || (c == b'0' && ltb 0 d.n)) d.ch d.s
        | false ↦ duration_end not_dec c t
      ]
]

unfoldable pub scan_duration : ℕ → Bool → Scanner → Scanned
scan_duration ch not_dec s = duration_loop (suc (length s.rest)) false not_dec ch s

unfoldable pub litname : ℕ → Text
litname prefix =
    if prefix == b'x'
    then codes "hexadecimal literal"
    else if prefix == b'o' || prefix == b'0'
    then codes "octal literal"
    else if prefix == b'b'
    then codes "binary literal"
    else codes "decimal literal"

-- The variables of `doScanNumberOrDuration`; a `prefix` of 0 is decimal.
pub record Number : Type 0 where
  pub tok : ScanResult
  pub base : ℕ
  pub prefix : ℕ
  pub has_digit : Bool
  pub invalid : ℕ
  pub saw_dot : Bool
  pub ch : ℕ
  pub s : Scanner

abbrev pub fail_if : Bool → Text → Scanner → Scanner
fail_if b msg s = if b then error msg s else s

abbrev pub with_base : ℕ → ℕ → Bool → ℕ × Scanner → Number
with_base base prefix has_digit (ch, s) = record {
  tok = int;
  base = base;
  prefix = prefix;
  has_digit = has_digit;
  invalid = 0;
  saw_dot = false;
  ch = ch;
  s = s;
}

-- The prefix behind a leading 0; '0' alone stays decimal, since "0s" is a duration.
unfoldable pub number_prefix : ℕ × Scanner → Number
number_prefix (ch, s) =
    if lower ch == b'x'
    then with_base 16 b'x' false (next s)
    else if lower ch == b'o'
    then with_base 8 b'o' false (next s)
    else if lower ch == b'b'
    then with_base 2 b'b' false (next s)
    else if is_decimal ch
    then with_base 8 b'0' true (ch, s)
    else with_base 10 0 true (ch, s)

unfoldable pub number_start : ℕ → Scanner → Number
number_start ch s = if ch == b'0' then number_prefix (next s) else with_base 10 0 false (ch, s)

unfoldable pub read_digits : Number → Number
read_digits k =
    let d = digits k.ch k.base k.invalid k.s in
    record k { ch = d.ch; s = d.s; invalid = d.invalid; has_digit = k.has_digit || ltb 0 d.n }

-- `if ch == '.' { ch = s.next(); sawDot = true }`
unfoldable pub read_dot : Number → Number
read_dot k =
    if k.ch == b'.' then record k { ch = (next k.s).0; s = (next k.s).1; saw_dot = true } else k

unfoldable pub integer_part : ℕ → Bool → Scanner → Number
integer_part ch saw_dot s =
    if saw_dot
    then record (with_base 10 0 false (ch, s)) { saw_dot = true }
    else read_dot (read_digits (number_start ch s))

unfoldable pub fraction_part : Number → Number
fraction_part k =
    let bad = k.prefix == b'o' || k.prefix == b'b' in
    if k.saw_dot
    then read_digits (record k {
      tok = float;
      s = fail_if bad (codes "invalid radix point in " ++ litname k.prefix) k.s;
    })
    else k

unfoldable pub check_digits : Number → Number
check_digits k = record k {
  s = fail_if (not k.has_digit) (litname k.prefix ++ codes " has no digits") k.s;
}

-- `%q` of a printable rune other than the quote and the backslash.
abbrev pub quoted_rune : ℕ → Text
quoted_rune c = b'\'' ∷ c ∷ b'\'' ∷ []

unfoldable pub check_exponent : Number → Scanner
check_exponent k =
    let e = lower k.ch in
    if e == b'e' && not (k.prefix == 0) && not (k.prefix == b'0')
    then error (quoted_rune k.ch ++ codes " exponent requires decimal mantissa") k.s
    else if e == b'p' && not (k.prefix == b'x')
    then error (quoted_rune k.ch ++ codes " exponent requires hexadecimal mantissa") k.s
    else k.s

abbrev pub skip_sign : ℕ × Scanner → ℕ × Scanner
skip_sign (ch, s) = if ch == b'+' || ch == b'-' then next s else (ch, s)

unfoldable pub read_exponent : Number → ℕ × Scanner → Number
read_exponent k (ch, s) =
    let d = digits ch 10 0 s in
    record k { tok = float; ch = d.ch; s = fail_if (d.n == 0) (codes "exponent has no digits") d.s }

abbrev pub is_float : ScanResult → Bool
is_float float = true
is_float _ = false

unfoldable pub exponent_part : Number → Number
exponent_part k =
    if lower k.ch == b'e' || lower k.ch == b'p'
    then read_exponent k (skip_sign (next (check_exponent k)))
    else record k {
      s =
          fail_if (k.prefix == b'x' && is_float k.tok)
            (codes "hexadecimal mantissa requires a 'p' exponent") k.s;
    }

-- From `if tok != ScanResultInt` on.
unfoldable pub number_end : Number → Scanned
number_end k =
    let t =
      fail_if (not (k.invalid == 0))
        (codes "invalid digit " ++ quoted_rune k.invalid ++ codes " in " ++ litname k.prefix) k.s in
    if is_float k.tok
    then scanned float (k.ch, k.s)
    else if k.base == 10 || (k.base == 8 && k.prefix == b'0')
    then scan_duration k.ch (not (k.base == 10)) t
    else scanned int (k.ch, t)

unfoldable pub do_scan_number_or_duration : ℕ → Bool → Scanner → Scanned
do_scan_number_or_duration ch saw_dot s =
    number_end (exponent_part (check_digits (fraction_part (integer_part ch saw_dot s))))

-- The extra characters that follow the token.
unfoldable pub skip_extra : Classes → Scanned → Scanned
skip_extra cl r =
    let after = while_class (is_ident_rune cl) r.ch r.s in
    if is_ident_rune cl r.ch
    then scanned r.tok
        (after.0, error (codes "extra character after " ++ token_string r.tok) after.1)
    else r

unfoldable pub scan_number_or_duration : Classes → ℕ → Bool → Scanner → Scanned
scan_number_or_duration cl ch saw_dot s = skip_extra cl (do_scan_number_or_duration ch saw_dot s)
