-- ===== src/Query/Scanner/Durations/Tokens.antt =====
-- A duration as a token of `Scan`.
use mathlib.Core.Path.{subst}
use xuandb.Prelude.{
  ℕ, suc, ◌≤◌, ◌≡◌, refl, arith, true, false, ◌==◌, ◌||◌, ltb, List, ◌∷◌, ◌++◌, ◌∙◌, ap, sym, All,
  length, length-append,
}
use xuandb.Prelude.Text.{Text}
use xuandb.Query.Lexer.{lower}
use xuandb.Query.Scanner.{Scanner, peek}
use xuandb.Query.Scanner.Runes.{Classes, is_decimal, is_ident_rune, is_letter, is_whitespace}
use xuandb.Query.Scanner.Number.{
  Scanned, int, duration, Digits, digits, Number, with_base, number_start, read_digits, read_dot,
  integer_part, fraction_part, check_digits, exponent_part, number_end, do_scan_number_or_duration,
  skip_extra, scan_number_or_duration, scan_duration,
}
use xuandb.Query.Scanner.Scan.{token, begin, skip_whitespace}
use xuandb.Query.Scanner.Reading.{ahead, first, behind, AllIn}
use xuandb.Query.Scanner.Ahead.{At}
use xuandb.Query.Scanner.Words.{Scans, Takes, Takes-at, Scans-Takes, begin_lem}
use xuandb.Query.Scanner.Durations.{digits-Read, DigitsRead}
use xuandb.Query.Scanner.Durations.Spans.{
  Span, IsSpan, spans, Stops, Spanned, Read-trans, remaining, remaining_lem, length-spans,
  suffix-StartsPlain, duration_loop-Spans,
}
use xuandb.Utils.Duration.Parts.{
  Scale, weeks, days, hours, minutes, seconds, millis, micros, nanos, suffix,
}

-- A decimal number that was read up to `ch`.
abbrev read_number : ℕ → Scanner → Number
read_number ch s = record (with_base 10 0 true (ch, s)) { tok = int }

number_end-read :
    (k : Scale) (more : Text) (s : Scanner)
    → number_end (
        exponent_part
          (check_digits (fraction_part (read_dot (read_number (ahead (suffix k ++ more)) s)))))
      ≡ scan_duration (ahead (suffix k ++ more)) false s
unfolding number_end exponent_part check_digits fraction_part read_dot lower
number_end-read weeks more s = refl
number_end-read days more s = refl
number_end-read hours more s = refl
number_end-read minutes more s = refl
number_end-read seconds more s = refl
number_end-read millis more s = refl
number_end-read micros more s = refl
number_end-read nanos more s = refl

-- The number of `digits`, where some digit was read and none is invalid.
digits_number :
    (d : Digits) (ch n : ℕ)
    → d.ch ≡ ch
    → d.n ≡ suc n
    → d.invalid ≡ 0
    → record (with_base 10 0 (false || ltb 0 d.n) (d.ch, d.s)) { invalid = d.invalid }
      ≡ read_number ch d.s
digits_number d ch n e m i =
    ap (λ c. record (with_base 10 0 (false || ltb 0 d.n) (c, d.s)) { invalid = d.invalid }) e
    ∙ ap (λ b. record (with_base 10 0 b (ch, d.s)) { invalid = d.invalid }) some_read
    ∙ ap (λ i. record (with_base 10 0 true (ch, d.s)) { invalid = i }) i
  where
    some_read : (false || ltb 0 d.n) ≡ true
    some_read = ground (arith, m)

-- The scanner behind the number of the first span.
abbrev behind_number : Span → Scanner → Scanner
behind_number g u = (digits g.head 10 0 u).s

number_read :
    (g : Span) (more : Text) (u : Scanner)
    → IsSpan g
    → DigitsRead u (g.head ∷ g.digits) (suffix g.scale ++ more) 0 (digits g.head 10 0 u)
    → do_scan_number_or_duration g.head false u
      ≡ scan_duration (ahead (suffix g.scale ++ more)) false (behind_number g u)
unfolding do_scan_number_or_duration integer_part read_digits number_start
number_read g more u (low, high, a) (ch, n, clean, _) =
    let d = digits g.head 10 0 u in
    let decimal : (g.head == b'0') ≡ false = ground (arith, low) in
    let number : read_digits (number_start g.head u)
        ≡ read_number (ahead (suffix g.scale ++ more)) d.s =
      rw (decimal, number_start)
        (digits_number d (ahead (suffix g.scale ++ more)) (length g.digits) ch (n ∙ omega arith)
          clean) in
    ap (λ k. number_end (exponent_part (check_digits (fraction_part (read_dot k))))) number
    ∙ number_end-read g.scale more d.s

fits :
    (k : Scale) (gs : List Span) (tail : Text)
    → length gs ≤ length (behind (suffix k ++ (spans gs ++ tail)))
fits weeks gs tail = omega (arith, length-spans gs, length-append (spans gs) tail)
fits days gs tail = omega (arith, length-spans gs, length-append (spans gs) tail)
fits hours gs tail = omega (arith, length-spans gs, length-append (spans gs) tail)
fits minutes gs tail = omega (arith, length-spans gs, length-append (spans gs) tail)
fits seconds gs tail = omega (arith, length-spans gs, length-append (spans gs) tail)
fits millis gs tail = omega (arith, length-spans gs, length-append (spans gs) tail)
fits micros gs tail = omega (arith, length-spans gs, length-append (spans gs) tail)
fits nanos gs tail = omega (arith, length-spans gs, length-append (spans gs) tail)

scan_duration-Spans :
    (k : Scale) (gs : List Span) (tail : Text) (s : Scanner)
    → All IsSpan gs
    → Stops tail
    → s.rest ≡ behind (suffix k ++ (spans gs ++ tail))
    → s.last_char ≡ first (suffix k ++ (spans gs ++ tail))
    → Spanned s
        (suffix k ++ spans gs)
        tail
        (scan_duration (ahead (suffix k ++ (spans gs ++ tail))) false s)
unfolding scan_duration
scan_duration-Spans k gs tail s a h r l =
    duration_loop-Spans k gs tail (suc (length s.rest)) (omega (arith, fits k gs tail, ap length r))
      a h false s r l

skip_extra_stop : (cl : Classes) (r : Scanned) → is_ident_rune cl r.ch ≡ false → skip_extra cl r ≡ r
unfolding skip_extra
skip_extra_stop cl r e = rw (e, skip_extra) refl

module _ (cl : Classes) where
  spans-Takes :
      (g : Span) (gs : List Span) (tail : Text) (u : Scanner)
      → IsSpan g
      → All IsSpan gs
      → Stops tail
      → is_ident_rune cl (ahead tail) ≡ false
      → u.rest ≡ behind (spans (g ∷ gs) ++ tail)
      → u.last_char ≡ first (spans (g ∷ gs) ++ tail)
      → Takes duration (spans (g ∷ gs)) tail u (scan_number_or_duration cl g.head false u)
  unfolding scan_number_or_duration
  spans-Takes g gs tail u (low, high, b) a h stop r l =
      let rest = remaining g gs tail in
      let (plain, solid) = suffix-StartsPlain g.scale (spans gs ++ tail) in
      let good : is_decimal g.head ≡ true = unfold is_decimal in ground (arith, low, high) in
      let read : DigitsRead u (g.head ∷ g.digits) rest 0 (digits g.head 10 0 u) =
        digits-Read (g.head ∷ g.digits) rest g.head u refl (r ∙ remaining_lem g gs tail) l
          (((omega (arith, low), omega (arith, high)), good), b) plain solid in
      let t = behind_number g u in
      let (ch, n, clean, number) = read in
      let (tok, after, spanned) = scan_duration-Spans g.scale gs tail t a h number.0 number.1 in
      let scanned_as = number_read g (spans gs ++ tail) u (low, high, b) read in
      let r = scan_duration (ahead rest) false t in
      let takes : Takes duration (spans (g ∷ gs)) tail u r = (
        tok,
        after,
        Read-trans u t r.s (g.head ∷ g.digits) (suffix g.scale ++ spans gs) rest tail number
            spanned,
      ) in
      subst (Takes duration (spans (g ∷ gs)) tail u)
        (sym (
          ap (skip_extra cl) scanned_as
          ∙ skip_extra_stop cl r (ap (is_ident_rune cl) after ∙ stop)))
        takes

  -- A sequence of numbers without leading zeros, each with its unit, is a token.
  pub scan-spans :
      (s : Scanner) (blank : Text) (g : Span) (gs : List Span) (tail : Text)
      → At s (blank ++ (spans (g ∷ gs) ++ tail))
      → AllIn is_whitespace blank
      → IsSpan g
      → All IsSpan gs
      → Stops tail
      → is_ident_rune cl (ahead tail) ≡ false
      → Scans cl s duration (spans (g ∷ gs)) tail
  scan-spans s blank g gs tail at white (low, high, b) a h stop =
      let body = spans (g ∷ gs) ++ tail in
      let p = begin (skip_whitespace (peek s)) in
      let u = p.1 in
      let begun =
        begin_lem s blank body at white (omega (arith, low), omega (arith, high))
          (unfold is_whitespace in ground (arith, low)) in
      let known : token cl (g.head, u) ≡ scan_number_or_duration cl g.head false u =
        unfold token is_letter is_decimal in ground (arith, low, high) in
      Scans-Takes cl s body duration (spans (g ∷ gs)) tail begun (
        Takes-at cl duration (spans (g ∷ gs)) tail p.0 g.head u
          (scan_number_or_duration cl g.head false u) begun.0 known
          (spans-Takes g gs tail u (low, high, b) a h stop begun.1 begun.2))
