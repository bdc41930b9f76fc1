-- ===== src/Query/Lexer/Literals.antt =====
-- The values of the literals: what pkg/query/parser/lexer.go makes of the text of a token.
use xuandb.Prelude.{
  ℕ, ◌+◌, ◌*◌, ◌^◌, true, false, ◌==◌, leb, if◌then◌else◌, [], ◌∷◌, Option, none, some, ◌⊎◌, inl,
  inr,
}
use xuandb.Prelude.Text.{Text, codes, text_eq}
use xuandb.Prelude.Unicode.{Unicode, to_upper}
use xuandb.Query.Lexer.{digit_val, lower}
use xuandb.Query.Lexer.Token.{Token, ident, val_bool, keyword_of}
use xuandb.Query.Utf8.{runes}
use xuandb.Query.Run.{Run, returned, panicked}

-- `strings.ToUpper` goes over the runes of the text; what it gives is only compared with words of
-- ASCII letters.
unfoldable pub parse_ident : Unicode → Text → Token
parse_ident uni tt =
    let utt = to_upper uni (runes tt) in
    if text_eq utt (codes "TRUE")
    then val_bool true
    else if text_eq utt (codes "FALSE")
    then val_bool false
    else elim (keyword_of utt) [ some t ↦ t | none ↦ ident tt ]

-- The loop of `strconv.ParseUint` over the digits; a token without scan errors has no underscore.
unfoldable pub uint_loop : ℕ → Text → ℕ → Text ⊎ ℕ
uint_loop base [] n = inr n
uint_loop base (c ∷ s) n =
    let next = uint_loop base s (n * base + digit_val c) in
    if leb base (digit_val c)
    then inl (codes "invalid syntax")
    else if leb (2 ^ 64) (n * base + digit_val c)
    then inl (codes "value out of range")
    else next

-- The prefix of a base that the text itself gives; three characters are wanted for a letter.
unfoldable pub parse_prefixed : Text → Text ⊎ ℕ
parse_prefixed (c ∷ d ∷ s) =
    if lower c == b'b'
    then uint_loop 2 (d ∷ s) 0
    else if lower c == b'o'
    then uint_loop 8 (d ∷ s) 0
    else if lower c == b'x'
    then uint_loop 16 (d ∷ s) 0
    else uint_loop 8 (c ∷ d ∷ s) 0
parse_prefixed s = uint_loop 8 s 0

-- `strconv.ParseUint(tt, 0, 64)`: the text of the error, or the value.
unfoldable pub parse_uint : Text → Text ⊎ ℕ
parse_uint [] = inl (codes "invalid syntax")
parse_uint (c ∷ s) = if c == b'0' then parse_prefixed s else uint_loop 10 (c ∷ s) 0

-- `tt = tt[:len(tt)-1]` if the last byte is a backquote; `none` is a text without bytes, where
-- `tt[len(tt)-1]` panics.
unfoldable pub drop_backquote : Text → Option Text
drop_backquote [] = none
drop_backquote (c ∷ []) = some (if c == b'`' then [] else c ∷ [])
drop_backquote (c ∷ d ∷ s) = elim (drop_backquote (d ∷ s)) [ some t ↦ some (c ∷ t) | none ↦ none ]

-- The value of a raw string: the text behind the first backquote, without the last one.
unfoldable pub raw_string_value : Text → Run Text
raw_string_value [] = panicked (codes "slice bounds out of range")
raw_string_value (_ ∷ tt) = elim (drop_backquote tt) [
  | some t ↦ returned t
  | none ↦ panicked (codes "index out of range")
]
