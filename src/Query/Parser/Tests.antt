-- ===== src/Query/Parser/Tests.antt =====
-- Instances of the theorems about the scanner, the lexer and the parser.
use xuandb.Prelude.{true, false, ◌==◌, [], ◌++◌, ◌≡◌, ◌≢◌, ◌≤◌, refl, arith, All, inl, inr, length}
use xuandb.Prelude.Text.{codes}
use xuandb.Prelude.Unicode.{ascii, to_upper}
use xuandb.Query.Run
use xuandb.Query.Scanner.{Scanner, init, next, peek, token_text}
use xuandb.Query.Scanner.Runes.{Classes, while_class, is_ident_rune, is_letter, is_digit}
use xuandb.Query.Scanner.Number.{scan_duration, digits}
use xuandb.Query.Scanner.Quoted.{scan_string, scan_block_comment}
use xuandb.Query.Scanner.Fuel.Runs.{ClassRun, BlockRun, StringRun, DurationRun}
use xuandb.Query.Scanner.Scan.{scan, skip_whitespace}
use xuandb.Query.Scanner.Tiling.{scan-bytes}
use xuandb.Query.Scanner.Quotes.{IsQuotable}
use xuandb.Query.Scanner.Ahead.{init-At}
use xuandb.Query.Lexer.Token.{keyword, key_drop}
use xuandb.Query.Lexer.Lex.{Tables, lex}
use xuandb.Query.Lexer.Reading.{Lexes}
use xuandb.Query.Scanner.Fuel.Durations.{DigitsRun}
use xuandb.Query.Lexer.Runs.{LexRun, loops_end}
use xuandb.Query.Lexer.Words.{spelling, lex-keyword}
use xuandb.Query.Ast.{Statement, create_database_statement, drop_user_statement}
use xuandb.Query.Parser.{Grammar, parse}
use xuandb.Query.Parser.Writing.{write, pieces}
use xuandb.Query.Parser.RoundTrip.{parse-write}

abbrev ascii_classes : Classes
ascii_classes = record { letter = λ c. false; digit = λ c. false }

abbrev ascii_tables : Tables
ascii_tables = record { unicode = ascii; classes = ascii_classes; parse_float = λ t. inl t }

abbrev grammar : Grammar
grammar = record {
  tables = ascii_tables;
  is_addr_port = λ t. true;
  syntax_error = codes "syntax error";
}

abbrev at_name : Scanner
at_name = init (codes " \"ada\" -- x")

scan-bytes_example :
    let t = (skip_whitespace (peek at_name)).1 in
    let u = (scan ascii_classes at_name).1 in
    (token_text u ++ (u.last_char ++ u.rest) ≡ t.last_char ++ t.rest)
    × (length u.rest ≤ length at_name.rest)
    × (length at_name.reports ≤ length u.reports)
scan-bytes_example = scan-bytes ascii_classes at_name

abbrev in_string : Scanner
in_string = init (codes "a\\'b' ")

loops_end_example :
    ClassRun (λ ch. ch == b'a') (b'w', in_string) (while_class (λ ch. ch == b'a') b'w' in_string)
    × DigitsRun 10
        (record { ch = b'w'; n = 0; invalid = 0; s = in_string })
        (digits b'w' 10 0 in_string)
    × BlockRun (next in_string) (scan_block_comment in_string)
    × ((t : Scanner) × StringRun b'\'' (next in_string) t × (scan_string b'\'' in_string ≡ next t))
    × DurationRun false false b'w' in_string (scan_duration b'w' false in_string)
    × LexRun ascii_tables in_string (lex ascii_tables in_string)
    × (lex ascii_tables in_string ≢ Run.panicked [])
loops_end_example =
    loops_end ascii_tables (λ ch. ch == b'a') b'\'' b'w' 10 0 false in_string refl refl

lex-keyword_example :
    Lexes ascii_tables (init (codes " dRop user")) (keyword key_drop) (codes " user")
unfolding to_upper spelling is_ident_rune is_letter is_digit
lex-keyword_example =
    lex-keyword ascii_tables (init (codes " dRop user")) key_drop (codes "dRop") (codes " user")
      (init-At (codes " dRop user") (omega arith, omega arith))
      (
        inr (omega arith, omega arith),
        (
          inl (omega arith, omega arith),
          (inr (omega arith, omega arith), (inr (omega arith, omega arith), tt)),
        ),
      )
      refl (omega arith, omega arith) refl

abbrev drop_ada : Statement
drop_ada = drop_user_statement (codes "a b")

ada-IsQuotable : All (IsQuotable b'"') (codes "a b")
ada-IsQuotable = (
  (ground arith, ground arith, ground arith, ground arith),
  (
    (ground arith, ground arith, ground arith, ground arith),
    ((ground arith, ground arith, ground arith, ground arith), tt),
  ),
)

-- CREATE DATABASE "a b" WITH DURATION 1d2m30us
abbrev create_db : Statement
create_db = create_database_statement (record { name = codes "a b"; duration = 86520000030000 })

parse-write_example : parse grammar (write (pieces create_db)) ≡ Run.returned (inr create_db)
parse-write_example = parse-write grammar create_db (ada-IsQuotable, omega arith, omega arith)
