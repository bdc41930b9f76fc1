-- ===== src/Query/Scanner/Buffer.antt =====
-- The buffer of pkg/query/parser/scanner.go: `next` with the bytes that it reads ahead. `before` is
-- `s.srcBuf[:s.srcPos]` and `ahead` is `s.srcBuf[s.srcPos:s.srcEnd]`; behind them the buffer holds the
-- sentinel `utf8.RuneSelf`.
pub mod Decoding
pub mod Filling
pub mod Kept
pub mod Refines
pub mod Session
mod Tests
use xuandb.Prelude.{
  ℕ, zero, suc, ◌+◌, ◌-◌, Bool, true, false, not, ◌&&◌, ◌||◌, ◌==◌, ltb, leb, if◌then◌else◌, List,
  [], ◌∷◌, ◌++◌, length, take, drop, Option, none, some, ◌⊎◌, inl, inr,
}
use xuandb.Prelude.Text.{Text, codes}
use xuandb.Query.Utf8.{Decoded, decode_rune, between, continues, second_of_three, second_of_four}
use xuandb.Query.Scanner.{Position, Report, Scanner, eof, no_position, invalidated}

-- A `tok_pos` of `none` is -1. `s.tokEnd` is `s.srcPos - s.lastCharLen` wherever it is read.
pub record Buffered : Type 0 where
  pub unread : Text
  pub before : Text
  pub ahead : Text
  pub src_buf_offset : ℕ
  pub line : ℕ
  pub column : ℕ
  pub last_line_len : ℕ
  pub last_char_len : ℕ
  pub tok_buf : Text
  pub tok_pos : Option ℕ
  pub ch : Option ℕ
  pub reports : List Report
  pub position : Position

abbrev pub buf_len : ℕ
buf_len = 1024

unfoldable pub buffered_init : Text → Buffered
buffered_init src = record {
  unread = src;
  before = [];
  ahead = [];
  src_buf_offset = 0;
  line = 1;
  column = 0;
  last_line_len = 0;
  last_char_len = 0;
  tok_buf = [];
  tok_pos = none;
  ch = none;
  reports = [];
  position = no_position;
}

-- `s.srcPos - s.lastCharLen`
abbrev pub tok_end : Buffered → ℕ
tok_end b = length b.before - b.last_char_len

-- `s.srcBuf[s.tokPos:s.tokEnd]`
abbrev pub tail_from : Buffered → ℕ → Text
tail_from b i = drop i (take (tok_end b) b.before)

-- `TokenText`: the text, and the state, which keeps the text if a part of it is kept already.
abbrev pub text_at : Buffered → Option ℕ → Text
text_at b none = []
text_at b (some i) = b.tok_buf ++ tail_from b i

unfoldable pub buffered_text : Buffered → Text
buffered_text b = text_at b b.tok_pos

abbrev pub keep_at : Buffered → Option ℕ → Buffered
keep_at b none = b
keep_at b (some i) =
    if length b.tok_buf == 0
    then b
    else record b { tok_buf = b.tok_buf ++ tail_from b i; tok_pos = some (tok_end b) }

unfoldable pub keep_text : Buffered → Buffered
keep_text b = keep_at b b.tok_pos

unfoldable pub buffered_pos : Buffered → Position
buffered_pos b =
    let offset = b.src_buf_offset + length b.before - b.last_char_len in
    if ltb 0 b.column
    then record { offset = offset; line = b.line; column = b.column }
    else if ltb 0 b.last_line_len
    then record { offset = offset; line = b.line - 1; column = b.last_line_len }
    else record { offset = offset; line = 1; column = 1 }

unfoldable pub buffered_error : Text → Buffered → Buffered
buffered_error msg b =
    let at_position : Position = if ltb 0 b.position.line then b.position else buffered_pos b in
    let report : Report = record { position = at_position; text = buffered_text b; msg = msg } in
    record (keep_text b) { reports = b.reports ++ report ∷ [] }

-- `utf8.FullRune`
unfoldable pub full_rune : Text → Bool
full_rune [] = false
full_rune (b ∷ []) = not (between 194 244 b)
full_rune (b ∷ x ∷ []) =
    if between 224 239 b
    then not (second_of_three b x)
    else if between 240 244 b
    then not (second_of_four b x)
    else true
full_rune (b ∷ x ∷ y ∷ []) =
    if between 240 244 b then not (second_of_four b x && continues y) else true
full_rune (b ∷ x ∷ y ∷ z ∷ s) = true

-- `s.srcPos+utf8.UTFMax > s.srcEnd && !utf8.FullRune(s.srcBuf[s.srcPos:s.srcEnd])`
abbrev pub needs_more : Text → Bool
needs_more ahead = ltb (length ahead) 4 && not (full_rune ahead)

-- `s.tokBuf.Write(s.srcBuf[s.tokPos:s.srcPos])` where the text is collected
abbrev pub saved_at : Buffered → Option ℕ → Text
saved_at b none = b.tok_buf
saved_at b (some i) = b.tok_buf ++ drop i b.before

abbrev pub start_if : Option ℕ → Option ℕ
start_if none = none
start_if (some i) = some 0

-- "save away token text", "move unread bytes to beginning of buffer"
unfoldable pub shift : Buffered → Buffered
shift b = record b {
  before = [];
  src_buf_offset = b.src_buf_offset + length b.before;
  tok_buf = saved_at b b.tok_pos;
  tok_pos = start_if b.tok_pos;
}

abbrev pub lesser : ℕ → ℕ → ℕ
lesser a b = if ltb a b then a else b

-- The number of bytes that `s.src.Read` gives: at least one and at most as many as there are and as
-- fit. Which of these it is, `pick` says; at the end it is none, with `io.EOF`.
abbrev pub read_size : (ℕ → Text → ℕ) → ℕ → Text → ℕ
read_size pick room [] = 0
read_size pick room (c ∷ r) = suc (lesser (pick room (c ∷ r)) (lesser (room - 1) (length r)))

unfoldable pub read : (ℕ → Text → ℕ) → Buffered → Buffered
read pick b =
    let n = read_size pick (buf_len - length b.ahead) b.unread in
    record b { ahead = b.ahead ++ take n b.unread; unread = drop n b.unread }

-- "previous character was not EOF"
unfoldable pub buffered_end : Buffered → Buffered
buffered_end b = record b {
  column = if ltb 0 b.last_char_len then b.column + 1 else b.column;
  last_char_len = 0;
}

-- The loop that reads more: `inl` is its `return`. Four reads give four bytes.
abbrev pub is_empty : Text → Bool
is_empty [] = true
is_empty (c ∷ r) = false

unfoldable pub fill : (ℕ → Text → ℕ) → ℕ → Buffered → Buffered ⊎ Buffered
fill pick zero b = inr b
fill pick (suc n) b = elim (needs_more b.ahead) [
  | false ↦ inr b
  | true ↦ elim (is_empty b.unread) [
    | false ↦ fill pick n (read pick (shift b))
    | true ↦ if is_empty b.ahead then inl (buffered_end (shift b)) else inr (shift b)
  ]
]

-- "advance"
unfoldable pub buffered_advance : Decoded → Buffered → Buffered
buffered_advance d b = record b {
  before = b.before ++ d.bytes;
  ahead = d.rest;
  last_char_len = length d.bytes;
  column = b.column + 1;
}

unfoldable pub buffered_new_line : Buffered → Buffered
buffered_new_line b = record b { line = b.line + 1; last_line_len = b.column; column = 0 }

unfoldable pub buffered_special : Decoded → Buffered → Buffered
buffered_special d b =
    if d.invalid
    then buffered_error (codes "invalid UTF-8 encoding") b
    else if d.rune == 0
    then buffered_error (codes "invalid character NUL") b
    else if d.rune == b'\n'
    then buffered_new_line b
    else b

-- From "at least one byte" on; the loop leaves no buffer empty.
unfoldable pub buffered_char : Text → Buffered → ℕ × Buffered
buffered_char [] b = (eof, b)
buffered_char (c ∷ r) b = (
  (decode_rune c r).rune,
  buffered_special (decode_rune c r) (buffered_advance (decode_rune c r) b),
)

-- Behind the loop, or at its `return`.
abbrev pub filled_char : Buffered ⊎ Buffered → ℕ × Buffered
filled_char (inl b) = (eof, b)
filled_char (inr b) = buffered_char b.ahead b

-- `ch >= utf8.RuneSelf` on the byte at `s.srcPos`, which may be the sentinel
abbrev pub is_uncommon : Text → Bool
is_uncommon [] = true
is_uncommon (c ∷ r) = leb 128 c

unfoldable pub buffered_next : (ℕ → Text → ℕ) → Buffered → ℕ × Buffered
buffered_next pick b =
    if is_uncommon b.ahead then filled_char (fill pick 4 b) else buffered_char b.ahead b

-- `Scan` before its token: "reset token text position", and "start collecting token text" with the
-- position of the token.
unfoldable pub buffered_reset : Buffered → Buffered
buffered_reset b = record b { tok_pos = none; position = invalidated b.position }

unfoldable pub buffered_start : Buffered → Buffered
buffered_start b =
    let offset = b.src_buf_offset + tok_end b in
    let at_start : Position =
      if ltb 0 b.column
      then record { offset = offset; line = b.line; column = b.column }
      else record { offset = offset; line = b.line - 1; column = b.last_line_len } in
    record b { tok_buf = []; tok_pos = some (tok_end b); position = at_start }
