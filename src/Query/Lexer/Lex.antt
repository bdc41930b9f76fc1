-- ===== src/Query/Lexer/Lex.antt =====
-- `Lex` of pkg/query/parser/lexer.go: the next token of the parser.
use xuandb.Prelude.{
  ℕ, zero, suc, Bool, true, false, ◌==◌, ltb, if◌then◌else◌, List, [], ◌∷◌, length, ◌⊎◌, inl, inr,
}
use xuandb.Prelude.Text.{Text, codes}
use xuandb.Prelude.Unicode.{Unicode}
use xuandb.Query.Run.{Run, returned, panicked, and_then}
use xuandb.Query.Lexer.{unescaped, quote_inside, out_of_range, out_of_fuel, unescape}
use xuandb.Query.Lexer.Token.{
  Token, end_token, ident, op, val_str, val_int, val_duration, val_flt, err_token, char, op_or,
  op_and, op_not, op_equ, op_not_equ, op_gt, op_gte, op_lt, op_lte, op_match, op_not_match,
  op_bitwise_or, op_bitwise_and, op_bitwise_xor, op_bitwise_not, op_lshift, op_rshift, op_add,
  op_sub, op_mul, op_div, op_mod,
}
use xuandb.Query.Lexer.Literals.{parse_ident, parse_uint, raw_string_value}
use xuandb.Query.Scanner.{Scanner, error, peek, next_char, token_text}
use xuandb.Query.Scanner.Runes.{Classes}
use xuandb.Query.Scanner.Number.{ScanResult}
use xuandb.Query.Scanner.Scan.{scan}
use xuandb.Utils.Duration
use xuandb.Utils.Duration.{parse_duration, invalid_duration, duration_overflow}

-- The tables of Go's package unicode, and `strconv.ParseFloat`: the text of its error, or the bits
-- of the value.
pub record Tables : Type 0 where
  pub unicode : Unicode
  pub classes : Classes
  pub parse_float : Text → Text ⊎ ℕ

-- A literal whose value was read, or an error that the lexer reports.
unfoldable pub literal : (ℕ → Token) → Scanner → Text ⊎ ℕ → Token × Scanner
literal token s (inr v) = (token v, s)
literal token s (inl msg) = (err_token (token_text s), error msg s)

unfoldable pub duration_value : Duration.Outcome → Text ⊎ ℕ
duration_value (Duration.ok d) = inr d
duration_value (Duration.err invalid_duration) = inl (codes "invalid duration")
duration_value (Duration.err duration_overflow) = inl (codes "duration overflow")
duration_value Duration.out_of_fuel = inl []

-- `parseInt`, `parseFloat` and `parseDuration`, which read no value after a scan error.
unfoldable pub parse_literal : (ℕ → Token) → (Text → Text ⊎ ℕ) → Bool → Scanner → Token × Scanner
parse_literal token value has_scan_err s =
    if has_scan_err then (err_token (token_text s), s) else literal token s (value (token_text s))

unfoldable pub unescape_token : (Text → Token) → ℕ → Scanner → Run (Token × Scanner)
unescape_token token quote s = elim (unescape (token_text s) quote) [
  | unescaped t ↦ returned (token t, s)
  | quote_inside ↦ panicked (quote ∷ codes " should be the last rune.")
  | out_of_range ↦ panicked (codes "slice bounds out of range")
  | out_of_fuel ↦ panicked []
]

-- The operators that the next character may lengthen.
unfoldable pub choose : Token → List (ℕ × Token) → ℕ × Scanner → Token × Scanner
choose short [] (ch, s) = (short, s)
choose short ((c, t) ∷ longer) (ch, s) =
    let other = choose short longer (ch, s) in if ch == c then (t, (next_char s).1) else other

unfoldable pub operator : ℕ → Scanner → Token × Scanner
operator c s =
    if c == b'+'
    then (op op_add, s)
    else if c == b'-'
    then (op op_sub, s)
    else if c == b'*'
    then (op op_mul, s)
    else if c == b'/'
    then (op op_div, s)
    else if c == b'%'
    then (op op_mod, s)
    else if c == b'|'
    then choose (op op_bitwise_or) ((b'|', op op_or) ∷ []) (peek s)
    else if c == b'&'
    then choose (op op_bitwise_and) ((b'&', op op_and) ∷ []) (peek s)
    else if c == b'^'
    then (op op_bitwise_xor, s)
    else if c == b'~'
    then (op op_bitwise_not, s)
    else if c == b'!'
    then choose (op op_not) ((b'=', op op_not_equ) ∷ (b'~', op op_not_match) ∷ []) (peek s)
    else if c == b'='
    then choose (op op_equ) ((b'~', op op_match) ∷ []) (peek s)
    else if c == b'>'
    then choose (op op_gt) ((b'=', op op_gte) ∷ (b'>', op op_rshift) ∷ []) (peek s)
    else if c == b'<'
    then choose (op op_lt) ((b'=', op op_lte) ∷ (b'<', op op_lshift) ∷ (b'>', op op_not_equ) ∷ [])
        (peek s)
    else (char c, s)

abbrev pub more_reports : Scanner → Scanner → Bool
more_reports s t = ltb (length s.reports) (length t.reports)

unfoldable pub is_comment : ScanResult → Bool
is_comment ScanResult.comment = true
is_comment _ = false

abbrev pub raw_token : Scanner → Text → Token × Scanner
raw_token s t = (val_str t, s)

module _ (tb : Tables) where
  -- The cases of the switch but the comment, which goes round the loop again.
  unfoldable pub lex_result : ScanResult → Bool → Scanner → Run (Token × Scanner)
  lex_result ScanResult.eof has_scan_err s = returned (end_token, s)
  lex_result ScanResult.comment has_scan_err s = returned (end_token, s)
  lex_result ScanResult.ident has_scan_err s = returned (parse_ident tb.unicode (token_text s), s)
  lex_result ScanResult.quoted_ident has_scan_err s = unescape_token ident b'"' s
  lex_result ScanResult.int has_scan_err s =
      returned (parse_literal val_int parse_uint has_scan_err s)
  lex_result ScanResult.float has_scan_err s =
      returned (parse_literal val_flt tb.parse_float has_scan_err s)
  lex_result ScanResult.duration has_scan_err s =
      returned
        (parse_literal val_duration (λ tt. duration_value (parse_duration tt)) has_scan_err s)
  lex_result ScanResult.string has_scan_err s = unescape_token val_str b'\'' s
  lex_result ScanResult.raw_string has_scan_err s =
      and_then (raw_string_value (token_text s)) (λ t. returned (raw_token s t))
  lex_result (ScanResult.char c) has_scan_err s = returned (operator c s)

  -- Each comment has at least two characters, so one round more than there are bytes is enough.
  unfoldable pub lex_loop : ℕ → Scanner → Run (Token × Scanner)
  lex_loop zero s = panicked []
  lex_loop (suc fuel) s = elim (is_comment (scan tb.classes s).0) [
    | true ↦ lex_loop fuel (scan tb.classes s).1
    | false ↦ let (r, t) = scan tb.classes s in lex_result r (more_reports s t) t
  ]

  -- `Lex`
  unfoldable pub lex : Scanner → Run (Token × Scanner)
  lex s = lex_loop (suc (length s.rest)) s
