-- ===== src/Query/Scanner/Tiling.antt =====
-- What `Scan` of pkg/query/parser/scanner.go does with the bytes of the source.
use xuandb.Prelude.{ℕ, ◌≡◌, ◌≤◌, false, arith, ◌++◌, length, some, none}
use xuandb.Query.Scanner.{Scanner, next, peek, first_char, set_ch, token_text, invalidated}
use xuandb.Query.Scanner.Runes.{Classes, is_whitespace}
use xuandb.Query.Scanner.Scan.{scan, skip_whitespace, begin, start_token, set_lookahead}
use xuandb.Query.Scanner.Moves.{bytes, next-Keeps, while_class-Keeps}
use xuandb.Query.Scanner.Moves.Tokens.{token-Keeps}

-- What is left does not grow, and no report is lost.
abbrev Moves : Scanner → Scanner → Type 0
Moves s t = (length t.rest ≤ length s.rest) × (length s.reports ≤ length t.reports)

first_char-Moves : (s : Scanner) → Moves s (first_char s).1
unfolding first_char
first_char-Moves s = ground (arith, next-Keeps s, next-Keeps (next s).1)

pub peek-Moves : (s : Scanner) → Moves s (peek s).1
unfolding peek set_ch
peek-Moves s =
    elim s.ch
      as (λ c.
        Moves s
          (elim c as (λ _. ℕ × Scanner) [ some ch ↦ (ch, s) | none ↦ set_ch (first_char s) ]).1) [
            | some ch ↦ (omega arith, omega arith)
            | none ↦ ground (arith, first_char-Moves s)
          ]

pub skip_whitespace-Moves : (p : ℕ × Scanner) → Moves p.1 (skip_whitespace p).1
unfolding skip_whitespace
skip_whitespace-Moves (ch, s) = ground (
  arith,
  while_class-Keeps is_whitespace ch
      (record s { collecting = false; position = invalidated s.position }),
)

-- Behind the white space, what `Scan` reads is the text of its token: that text, the look-ahead and
-- the rest are the bytes there were. What is left does not grow, and the number of reports does
-- not fall.
pub scan-bytes :
    (cl : Classes) (s : Scanner)
    → let t = (skip_whitespace (peek s)).1 in
      let u = (scan cl s).1 in
      (token_text u ++ (u.last_char ++ u.rest) ≡ t.last_char ++ t.rest)
      × (length u.rest ≤ length s.rest)
      × (length s.reports ≤ length u.reports)
unfolding scan set_lookahead token_text begin start_token bytes
scan-bytes cl s =
    let p = begin (skip_whitespace (peek s)) in
    let k = token-Keeps cl p in
    let a = peek-Moves s in
    let b = skip_whitespace-Moves (peek s) in
    (ground (arith, k), ground (arith, k, a, b), ground (arith, k, a, b))
