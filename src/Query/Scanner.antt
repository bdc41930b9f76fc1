-- ===== src/Query/Scanner.antt =====
-- pkg/query/parser/scanner.go: the source of the scanner, one character at a time, on
-- the bytes that are left to read. The buffer that `next` refills is in Buffer.
pub mod Runes
pub mod Number
pub mod Quoted
pub mod Scan
pub mod Moves
pub mod Reading
pub mod Ahead
pub mod Quotes
pub mod Words
pub mod Tiling
pub mod Fuel
pub mod Durations
pub mod Buffer
use xuandb.Prelude.{
  ℕ, zero, suc, ◌+◌, ◌-◌, Bool, true, false, ◌&&◌, ◌||◌, ◌==◌, ltb, leb, if◌then◌else◌, List, [],
  ◌∷◌, ◌++◌, length, Option, none, some,
}
use xuandb.Prelude.Text.{Text, codes}
use xuandb.Query.Lexer.{lower, digit_val}
use xuandb.Query.Utf8.{Decoded, decode_rune}
use xuandb.Utils.Duration.{decimal}

-- A line of 0 makes a position invalid. The file name is never set.
pub record Position : Type 0 where
  pub offset : ℕ
  pub line : ℕ
  pub column : ℕ

-- A call of `Error`: the position that it reports, the text of the token so far, and the message.
pub record Report : Type 0 where
  pub position : Position
  pub text : Text
  pub msg : Text

-- `rest` is what `next` has not read; `last_char` the bytes of the last character, `s.lastCharLen`
-- of them; `offset` is `s.srcBufOffset + s.srcPos`. Where `collecting`, which is `s.tokPos >= 0`,
-- `text` is the token's text up to the last character. `ch` is the look-ahead, if there is one.
pub record Scanner : Type 0 where
  pub rest : Text
  pub last_char : Text
  pub offset : ℕ
  pub line : ℕ
  pub column : ℕ
  pub last_line_len : ℕ
  pub collecting : Bool
  pub text : Text
  pub ch : Option ℕ
  pub reports : List Report
  pub position : Position

-- A rune is an `int32`: -1, the end of the source, is 2 ^ 32 - 1.
abbrev pub eof : ℕ
eof = 4294967295

abbrev pub is_negative : ℕ → Bool
is_negative ch = leb 2147483648 ch

abbrev pub no_position : Position
no_position = record { offset = 0; line = 0; column = 0 }

unfoldable pub init : Text → Scanner
init src = record {
  rest = src;
  last_char = [];
  offset = 0;
  line = 1;
  column = 0;
  last_line_len = 0;
  collecting = false;
  text = [];
  ch = none;
  reports = [];
  position = no_position;
}

unfoldable pub pos : Scanner → Position
pos s =
    let offset = s.offset - length s.last_char in
    if ltb 0 s.column
    then record { offset = offset; line = s.line; column = s.column }
    else if ltb 0 s.last_line_len
    then record { offset = offset; line = s.line - 1; column = s.last_line_len }
    else record { offset = offset; line = 1; column = 1 }

unfoldable pub token_text : Scanner → Text
token_text s = if s.collecting then s.text else []

-- `Lexer.Error`, which the lexer sets as the scanner's `Error`.
unfoldable pub error : Text → Scanner → Scanner
error msg s =
    let at_position : Position = if ltb 0 s.position.line then s.position else pos s in
    let report : Report = record { position = at_position; text = token_text s; msg = msg } in
    record s { reports = s.reports ++ report ∷ [] }

-- The state behind the character `d`.
unfoldable pub advance : Decoded → Scanner → Scanner
advance d s = record s {
  rest = d.rest;
  last_char = d.bytes;
  offset = s.offset + length d.bytes;
  column = s.column + 1;
  text = s.text ++ s.last_char;
}

unfoldable pub new_line : Scanner → Scanner
new_line s = record s { line = s.line + 1; last_line_len = s.column; column = 0 }

unfoldable pub special : Decoded → Scanner → Scanner
special d s =
    if d.invalid
    then error (codes "invalid UTF-8 encoding") s
    else if d.rune == 0
    then error (codes "invalid character NUL") s
    else if d.rune == b'\n'
    then new_line s
    else s

unfoldable pub at_end : Scanner → Scanner
at_end s = record s {
  last_char = [];
  column = if ltb 0 (length s.last_char) then s.column + 1 else s.column;
  text = s.text ++ s.last_char;
}

unfoldable pub next_of : Text → Scanner → ℕ × Scanner
next_of [] s = (eof, at_end s)
next_of (b ∷ r) s =
    ((decode_rune b r).rune, special (decode_rune b r) (advance (decode_rune b r) s))

unfoldable pub next : Scanner → ℕ × Scanner
next s = next_of s.rest s

-- `Peek`, and the reading of the first character.
unfoldable pub first_char : Scanner → ℕ × Scanner
first_char s = let (ch, s) = next s in if ch == 65279 then next s else (ch, s)

unfoldable pub set_ch : ℕ × Scanner → ℕ × Scanner
set_ch (ch, s) = (ch, record s { ch = some ch })

unfoldable pub peek : Scanner → ℕ × Scanner
peek s = elim s.ch [ some ch ↦ (ch, s) | none ↦ set_ch (first_char s) ]

-- `s.Line = 0`
abbrev pub invalidated : Position → Position
invalidated p = record p { line = 0 }

-- `Next`
unfoldable pub next_char : Scanner → ℕ × Scanner
next_char s =
    let (ch, s) = peek (record s { collecting = false; position = invalidated s.position }) in
    if ch == eof then (ch, s) else (ch, (set_ch (next s)).1)
