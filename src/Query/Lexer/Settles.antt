-- ===== src/Query/Lexer/Settles.antt =====
-- `Lex` of pkg/query/parser/lexer.go comes to its end on every source.
use xuandb.Prelude.{
  ℕ, zero, suc, ◌≡◌, ◌≢◌, ◌<◌, refl, arith, Bool, true, false, ◌==◌, ◌||◌, ◌&&◌, ltb, Bool-cases,
  ◌⊎◌, inl, inr, not, [], ◌∷◌, ◌++◌, length, Option, none, some,
}
use xuandb.Prelude.Text.{Text, codes}
use xuandb.Query.Run.{Run, and_then}
use xuandb.Query.Scanner.{Scanner, next, peek, token_text, eof as end_of_source}
use xuandb.Query.Scanner.Runes.{Classes, is_decimal}
use xuandb.Query.Scanner.Number.{
  ScanResult, Scanned, scan_number_or_duration, UnitResult, Number, fail_if, quoted_rune, litname,
  unit_read, returned, scan_unit, no_unit, duration_loop, duration_end, digits, integer_part,
  fraction_part, check_digits, exponent_part, number_end, skip_extra, do_scan_number_or_duration,
  scan_duration,
}
use xuandb.Query.Scanner.Fuel.Durations.{behind_unit}
use xuandb.Query.Scanner.Scan.{
  scan, begin, skip_whitespace, start_token, token, comment_or_char, number_or_dot, set_lookahead,
}
use xuandb.Query.Scanner.Quoted.{scan_line_comment, scan_block_comment}
use xuandb.Query.Scanner.Moves.{Keeps}
use xuandb.Query.Scanner.Moves.Tokens.{comments-Keeps}
use xuandb.Query.Scanner.Fuel.{next-Shrinks}
use xuandb.Query.Scanner.Tiling.{peek-Moves, skip_whitespace-Moves}
use xuandb.Query.Lexer.{Unescaped, unescaped, quote_inside, out_of_range, out_of_fuel, unescape}
use xuandb.Query.Lexer.Total.{Result, unescape_total}
use xuandb.Query.Lexer.Token.{Token}
use xuandb.Query.Lexer.Literals.{raw_string_value, drop_backquote}
use xuandb.Query.Lexer.Lex.{
  Tables, raw_token, is_comment, unescape_token, lex_result, lex_loop, lex,
}

-- A comment takes characters from what is left.
abbrev Shorter : Scanner → Scanned → Type 0
Shorter s r = (is_comment r.tok ≡ false) ⊎ (length r.s.rest < length s.rest)

comment_or_char-Shorter :
    (first second : ℕ) (scan : Scanner → ℕ × Scanner) (s : Scanner)
    → (second == end_of_source) ≡ false
    → ((t : Scanner) → Keeps t (scan t).1)
    → Shorter s (comment_or_char first second scan (next s))
unfolding comment_or_char is_comment
comment_or_char-Shorter first second scan s q h = elim (Bool-cases ((next s).0 == second)) [
  | inl e ↦ rw e (inr (ground (arith, next-Shrinks s, e, q, h (next s).1)))
  | inr e ↦ rw e (inl refl)
]

-- A number is no comment.
abbrev NoComment : UnitResult → Type 0
NoComment (unit_read p) = Unit
NoComment (returned r) = is_comment r.tok ≡ false

scan_unit-NoComment : (saw_unit : Bool) (ch : ℕ) (s : Scanner) → NoComment (scan_unit saw_unit ch s)
unfolding scan_unit no_unit is_comment
scan_unit-NoComment saw_unit ch s =
    elim (Bool-cases (ch == b'w' || ch == b'd' || ch == b'h' || ch == b's')) [
      | inl e ↦ rw e tt
      | inr e ↦ elim (Bool-cases (ch == b'm')) [
        | inl f ↦ rw (e, f) tt
        | inr f ↦ elim (Bool-cases (ch == b'n' || ch == b'u' || ch == 181 || ch == 956)) [
          | inl g ↦
              rw (e, f, g)
                (elim (Bool-cases ((next s).0 == b's')) [ inl k ↦ rw k tt | inr k ↦ rw k refl ])
          | inr g ↦
              rw (e, f, g) (elim (Bool-cases saw_unit) [ inl k ↦ rw k refl | inr k ↦ rw k refl ])
        ]
      ]
    ]

behind_unit-NoComment :
    (n : ℕ) (not_dec : Bool) (u : UnitResult)
    → ((saw_unit not_dec : Bool) (ch : ℕ) (s : Scanner)
        → is_comment (duration_loop n saw_unit not_dec ch s).tok ≡ false)
    → NoComment u
    → is_comment (behind_unit n not_dec u).tok ≡ false
unfolding duration_end is_comment
behind_unit-NoComment n not_dec (returned r) h k = k
behind_unit-NoComment n not_dec (unit_read (c, t)) h k =
    let d = digits (next t).0 10 0 (next t).1 in
    elim (Bool-cases (is_decimal c)) [
      | inl e ↦ rw (e, behind_unit) (h true (not_dec || (c == b'0' && ltb 0 d.n)) d.ch d.s)
      | inr e ↦ rw (e, behind_unit) refl
    ]

duration_loop-NoComment :
    (n : ℕ) (saw_unit not_dec : Bool) (ch : ℕ) (s : Scanner)
    → is_comment (duration_loop n saw_unit not_dec ch s).tok ≡ false
unfolding duration_loop duration_end is_comment
duration_loop-NoComment zero saw_unit not_dec ch s = refl
duration_loop-NoComment (suc n) saw_unit not_dec ch s =
    behind_unit-NoComment n not_dec (scan_unit saw_unit ch s) (duration_loop-NoComment n)
      (scan_unit-NoComment saw_unit ch s)

number_end-NoComment : (k : Number) → is_comment (number_end k).tok ≡ false
unfolding number_end scan_duration is_comment
number_end-NoComment k =
    let message =
      codes "invalid digit " ++ quoted_rune k.invalid ++ codes " in " ++ litname k.prefix in
    let t = fail_if (not (k.invalid == 0)) message k.s in
    ground (arith, duration_loop-NoComment (suc (length t.rest)) false (not (k.base == 10)) k.ch t)

skip_extra-NoComment :
    (cl : Classes) (r : Scanned)
    → is_comment r.tok ≡ false
    → is_comment (skip_extra cl r).tok ≡ false
unfolding skip_extra
skip_extra-NoComment cl r h = ground (arith, h)

number-NoComment :
    (cl : Classes) (ch : ℕ) (saw_dot : Bool) (s : Scanner)
    → is_comment (scan_number_or_duration cl ch saw_dot s).tok ≡ false
unfolding scan_number_or_duration do_scan_number_or_duration
number-NoComment cl ch saw_dot s =
    let k = exponent_part (check_digits (fraction_part (integer_part ch saw_dot s))) in
    skip_extra-NoComment cl (number_end k) (number_end-NoComment k)

token-Shorter : (cl : Classes) (ch : ℕ) (s : Scanner) → Shorter s (token cl (ch, s))
unfolding token number_or_dot is_comment
token-Shorter cl ch s =
    let line =
      comment_or_char-Shorter b'-' b'-' scan_line_comment s refl (λ t. (comments-Keeps t).0) in
    let block =
      comment_or_char-Shorter b'/' b'*' scan_block_comment s refl (λ t. (comments-Keeps t).1) in
    ground (
      arith,
      line,
      block,
      number-NoComment cl ch false s,
      number-NoComment cl (next s).0 true (next s).1,
    )

pub scan-Shorter :
    (cl : Classes) (s : Scanner)
    → is_comment (scan cl s).0 ≡ true
    → length (scan cl s).1.rest < length s.rest
unfolding scan set_lookahead begin start_token
scan-Shorter cl s e =
    let p = begin (skip_whitespace (peek s)) in
    ground (arith, e, token-Shorter cl p.0 p.1, peek-Moves s, skip_whitespace-Moves (peek s))

unescape_token-ends :
    (make : Text → Token) (quote : ℕ) (s : Scanner) → unescape_token make quote s ≢ Run.panicked []
unfolding unescape_token
unescape_token-ends make quote s =
    go (unescape (token_text s) quote) (unescape_total (token_text s) quote)
  where
    go :
        (u : Unescaped)
        → Result (token_text s) u
        → elim u as (λ _. Run (Token × Scanner)) [
          | unescaped t ↦ Run.returned (make t, s)
          | quote_inside ↦ Run.panicked (quote ∷ codes " should be the last rune.")
          | out_of_range ↦ Run.panicked (codes "slice bounds out of range")
          | out_of_fuel ↦ Run.panicked []
        ]
          ≢ Run.panicked []
    go (unescaped t) h = λ e. absurd (cc e)
    go quote_inside h = λ e. absurd (cc e)
    go out_of_range h = λ e. absurd (cc e)
    go out_of_fuel (inl (t, e)) = absurd (cc e)
    go out_of_fuel (inr (inl e)) = absurd (cc e)
    go out_of_fuel (inr (inr (h, e))) = absurd (cc e)

raw_string-ends :
    (t : Text) (f : Text → Token × Scanner)
    → and_then (raw_string_value t) (λ x. Run.returned (f x)) ≢ Run.panicked []
unfolding raw_string_value and_then
raw_string-ends [] f = λ e. absurd (cc e)
raw_string-ends (c ∷ t) f = go (drop_backquote t)
  where
    go :
        (o : Option Text)
        → and_then
            (elim o as (λ _. Run Text) [
              | some x ↦ Run.returned x
              | none ↦ Run.panicked (codes "index out of range")
            ])
            (λ x. Run.returned (f x))
          ≢ Run.panicked []
    go (some x) = λ e. absurd (cc e)
    go none = λ e. absurd (cc e)

lex_result-ends :
    (tb : Tables) (r : ScanResult) (has_scan_err : Bool) (s : Scanner)
    → lex_result tb r has_scan_err s ≢ Run.panicked []
unfolding lex_result
lex_result-ends tb ScanResult.eof b s = λ e. absurd (cc e)
lex_result-ends tb ScanResult.comment b s = λ e. absurd (cc e)
lex_result-ends tb ScanResult.ident b s = λ e. absurd (cc e)
lex_result-ends tb ScanResult.quoted_ident b s = unescape_token-ends Token.ident b'"' s
lex_result-ends tb ScanResult.int b s = λ e. absurd (cc e)
lex_result-ends tb ScanResult.float b s = λ e. absurd (cc e)
lex_result-ends tb ScanResult.duration b s = λ e. absurd (cc e)
lex_result-ends tb ScanResult.string b s = unescape_token-ends Token.val_str b'\'' s
lex_result-ends tb ScanResult.raw_string b s = raw_string-ends (token_text s) (λ t. raw_token s t)
lex_result-ends tb (ScanResult.char c) b s = λ e. absurd (cc e)

lex_loop-ends :
    (tb : Tables) (n : ℕ) (s : Scanner) → length s.rest < n → lex_loop tb n s ≢ Run.panicked []
unfolding lex_loop
lex_loop-ends tb zero s h = absurd (omega arith)
lex_loop-ends tb (suc n) s h = elim (Bool-cases (is_comment (scan tb.classes s).0)) [
  | inl e ↦
      rw (e, lex_loop)
        (lex_loop-ends tb n (scan tb.classes s).1 (omega (arith, scan-Shorter tb.classes s e)))
  | inr e ↦ rw (e, lex_loop) (lex_result-ends tb (scan tb.classes s).0 _ (scan tb.classes s).1)
]

-- `Lex` never runs out of rounds: it returns a token, or it panics with a message.
pub lex_total : (tb : Tables) (s : Scanner) → lex tb s ≢ Run.panicked []
unfolding lex
lex_total tb s = lex_loop-ends tb (suc (length s.rest)) s (omega arith)
