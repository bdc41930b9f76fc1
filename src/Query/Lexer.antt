-- ===== src/Query/Lexer.antt =====
-- pkg/query/parser/lexer.go: the escapes of a quoted text, on its bytes; `Lex` is in Lexer/Lex.
pub mod RoundTrip
pub mod Total
pub mod Runs
pub mod Settles
pub mod Reading
pub mod Words
pub mod Durations
pub mod Token
pub mod Literals
pub mod Lex
use Prim.Native.Nat.{bit_or}
use xuandb.Prelude.{
  ℕ, zero, suc, ◌+◌, ◌-◌, ◌*◌, ◌/◌, ◌%◌, Bool, true, false, ◌&&◌, ◌||◌, not, ◌==◌, ltb, leb,
  if◌then◌else◌, List, [], ◌∷◌, ◌++◌, length,
}
use xuandb.Prelude.Text.{Text, codes}

-- `digitVal` and `lower` of scanner.go, on a byte.
unfoldable pub lower : ℕ → ℕ
lower ch = bit_or 32 ch

unfoldable pub digit_val : ℕ → ℕ
digit_val ch =
    if leb b'0' ch && leb ch b'9'
    then ch - b'0'
    else if leb b'a' (lower ch) && leb (lower ch) b'f'
    then lower ch - b'a' + 10
    else 16

-- `utf8.RuneError`
abbrev pub rune_error : ℕ
rune_error = 65533

-- The loop of `decodeDigits`: the rune, or the error rune if no digit was read, and what is left.
-- A value beyond the runes is written as the error rune, also where `rune(val)` is negative.
unfoldable pub decode_loop : ℕ → ℕ → ℕ → Bool → Text → ℕ × Text
decode_loop base zero val moved str = (if moved then val else rune_error, str)
decode_loop base (suc n) val moved [] = (if moved then val else rune_error, [])
decode_loop base (suc n) val moved (c ∷ str) =
    let next = decode_loop base n (val * base + digit_val c) true str in
    if leb base (digit_val c) then (if moved then val else rune_error, c ∷ str) else next

unfoldable pub decode_digits : Text → ℕ → ℕ → ℕ × Text
decode_digits str base n = decode_loop base n 0 false str

-- `unescapeRune` on what follows a backslash: the rune, and what is left.
unfoldable pub unescape_rune : ℕ → Text → ℕ × Text
unescape_rune quote [] = (rune_error, [])
unescape_rune quote (c ∷ s) =
    if c == b'a'
    then (7, s)
    else if c == b'b'
    then (8, s)
    else if c == b'f'
    then (12, s)
    else if c == b'n'
    then (10, s)
    else if c == b'r'
    then (13, s)
    else if c == b't'
    then (9, s)
    else if c == b'v'
    then (11, s)
    else if c == b'\\'
    then (b'\\', s)
    else if c == quote
    then (quote, s)
    else if leb b'0' c && leb c b'7'
    then decode_digits (c ∷ s) 8 3
    else if c == b'x'
    then decode_digits s 16 2
    else if c == b'u'
    then decode_digits s 16 4
    else if c == b'U'
    then decode_digits s 16 8
    else (rune_error, c ∷ s)

-- A surrogate, or a value beyond the last rune.
unfoldable pub invalid_rune : ℕ → Bool
invalid_rune r = ltb 1114111 r || (leb 55296 r && leb r 57343)

-- `sb.WriteRune(r)`: its UTF-8 bytes.
unfoldable pub write_rune : ℕ → Text
write_rune r =
    if ltb r 128
    then r ∷ []
    else if ltb r 2048
    then (192 + r / 64) ∷ (128 + r % 64) ∷ []
    else if invalid_rune r
    then 239 ∷ 191 ∷ 189 ∷ []
    else if ltb r 65536
    then (224 + r / 4096) ∷ (128 + r / 64 % 64) ∷ (128 + r % 64) ∷ []
    else (240 + r / 262144) ∷ (128 + r / 4096 % 64) ∷ (128 + r / 64 % 64) ∷ (128 + r % 64) ∷ []

-- A text, one of the two panics, or no fuel: a quote that is not the last, or a slice out of range.
pub data Unescaped : Type 0 where
  unescaped : Text → Unescaped
  quote_inside : Unescaped
  out_of_range : Unescaped
  out_of_fuel : Unescaped

unfoldable pub prepend : Text → Unescaped → Unescaped
prepend t (unescaped s) = unescaped (t ++ s)
prepend t quote_inside = quote_inside
prepend t out_of_range = out_of_range
prepend t out_of_fuel = out_of_fuel

-- One round reads a plain byte, or a backslash and its escape: what to write, and what is left.
unfoldable pub read_rune : ℕ → ℕ → Text → Text × Text
read_rune quote c s =
    if c == b'\\'
    then (write_rune (unescape_rune quote s).0, (unescape_rune quote s).1)
    else (c ∷ [], s)

unfoldable pub is_last : Text → Bool
is_last [] = true
is_last (_ ∷ _) = false

-- The loop of `unescape`; the plain bytes that it copies in one piece are written one by one.
unfoldable pub unescape_loop : ℕ → ℕ → Text → Unescaped
unescape_loop zero quote str = out_of_fuel
unescape_loop (suc fuel) quote [] = unescaped []
unescape_loop (suc fuel) quote (c ∷ s) =
    let rest = unescape_loop fuel quote (read_rune quote c s).1 in
    if c == quote
    then (if is_last s then unescaped [] else quote_inside)
    else prepend (read_rune quote c s).0 rest

-- `unescape`: the leading quote is dropped; the slice `str[1:]` of an empty text panics. Each round reads at least one byte.
unfoldable pub unescape : Text → ℕ → Unescaped
unescape [] quote = out_of_range
unescape (_ ∷ str) quote = unescape_loop (suc (length str)) quote str
