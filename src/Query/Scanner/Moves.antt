-- ===== src/Query/Scanner/Moves.antt =====
-- What every function of the scanner does to its state: it reads characters and reports errors.
pub mod Numbers
pub mod Tokens
use mathlib.Core.Path.{subst}
use xuandb.Prelude.{
  ℕ, zero, suc, ◌+◌, ◌≡◌, refl, arith, Bool, true, false, not, ◌&&◌, ◌||◌, ◌==◌, ltb, leb,
  if◌then◌else◌, Bool-cases, ◌⊎◌, inl, inr, [], ◌∷◌, ◌++◌, length, length-append, append_assoc,
  append-nil, ◌≤◌, ◌<◌, ◌∙◌, sym, ap,
}
use xuandb.Prelude.Text.{Text, codes}
use xuandb.Query.Scanner.{
  Scanner, advance, new_line, special, at_end, next_of, next, error, is_negative,
  eof as end_of_source,
}
use xuandb.Query.Utf8.{Decoded, decode_rune}
use xuandb.Query.Utf8.RoundTrip.{decode_rune-split}
use xuandb.Query.Scanner.Runes.{
  Classes, while_loop, while_class, scan_identifier, is_ident_rune, is_letter, is_decimal,
}
use xuandb.Query.Scanner.Number.{
  ScanResult, Digits, digits_loop, digits, note_invalid, is_digit_of, Scanned, scanned, UnitResult,
  unit_read, returned, no_unit, optional_s, required_s, scan_unit, duration_end, duration_loop,
  scan_duration, Number, fail_if, with_base, number_prefix, number_start, read_digits, read_dot,
  integer_part, fraction_part, check_digits, check_exponent, skip_sign, read_exponent,
  exponent_part, number_end, do_scan_number_or_duration, skip_extra, scan_number_or_duration,
  litname, float, quoted_rune, is_float, token_string,
}
use xuandb.Query.Scanner.Quoted.{
  scan_digits, escape, scan_escape, string_loop, scan_string, end_raw_string, scan_raw_string,
  scan_line_comment, block_loop, scan_block_comment, is_short_escape,
}
use xuandb.Query.Scanner.Scan.{comment_or_char, number_or_dot, token}

-- The bytes of the token so far, of the last character, and of what is left.
unfoldable pub bytes : Scanner → Text
bytes s = s.text ++ (s.last_char ++ s.rest)

-- From `s` to `t` characters may have been read and errors reported: no byte is lost, what is left
-- does not grow, and neither the start of the token nor an earlier report changes.
abbrev pub Keeps : Scanner → Scanner → Type 0
Keeps s t =
    (bytes t ≡ bytes s)
    × (length t.rest ≤ length s.rest)
    × (length s.reports ≤ length t.reports)
    × (t.collecting ≡ s.collecting)
    × (t.position ≡ s.position)

pub error-Keeps : (msg : Text) (s : Scanner) → Keeps s (error msg s)
unfolding error bytes
error-Keeps msg s = (refl, omega arith, omega (arith, length-append s.reports (_ ∷ [])), refl, refl)

advance-Keeps :
    (b : ℕ) (r : Text) (s : Scanner) → s.rest ≡ b ∷ r → Keeps s (advance (decode_rune b r) s)
unfolding advance bytes
advance-Keeps b r s e =
    let split = decode_rune-split b r ∙ sym e in
    (
      append_assoc s.text s.last_char _ ∙ ap (λ z. s.text ++ (s.last_char ++ z)) split,
      omega (arith, ap length split, length-append (decode_rune b r).bytes (decode_rune b r).rest),
      omega arith,
      refl,
      refl,
    )

new_line-Keeps : (s : Scanner) → Keeps s (new_line s)
unfolding new_line bytes
new_line-Keeps s = (refl, omega arith, omega arith, refl, refl)

pub special-Keeps : (d : Decoded) (s : Scanner) → Keeps s (special d s)
unfolding special
special-Keeps d s = ground (
  arith,
  error-Keeps (codes "invalid UTF-8 encoding") s,
  error-Keeps (codes "invalid character NUL") s,
  new_line-Keeps s,
)

at_end-Keeps : (s : Scanner) → s.rest ≡ [] → Keeps s (at_end s)
unfolding at_end bytes
at_end-Keeps s e = (append_assoc s.text s.last_char s.rest, omega arith, omega arith, refl, refl)

next_of-Keeps : (r : Text) (s : Scanner) → s.rest ≡ r → Keeps s (next_of r s).1
unfolding next_of
next_of-Keeps [] s e = at_end-Keeps s e
next_of-Keeps (b ∷ r) s e =
    ground
      (arith, advance-Keeps b r s e, special-Keeps (decode_rune b r) (advance (decode_rune b r) s))

pub next-Keeps : (s : Scanner) → Keeps s (next s).1
unfolding next
next-Keeps s = next_of-Keeps s.rest s refl

while_loop-Keeps : (p : ℕ → Bool) (n ch : ℕ) (s : Scanner) → Keeps s (while_loop p n ch s).1
unfolding while_loop
while_loop-Keeps p zero ch s = ground arith
while_loop-Keeps p (suc n) ch s =
    ground (arith, next-Keeps s, while_loop-Keeps p n (next s).0 (next s).1)

pub while_class-Keeps : (p : ℕ → Bool) (ch : ℕ) (s : Scanner) → Keeps s (while_class p ch s).1
unfolding while_class
while_class-Keeps p ch s = while_loop-Keeps p (suc (length s.rest)) ch s

digits_loop-Keeps : (base n : ℕ) (d : Digits) → Keeps d.s (digits_loop base n d).s
unfolding digits_loop
digits_loop-Keeps base zero d = ground arith
digits_loop-Keeps base (suc n) d = ground (
  arith,
  next-Keeps d.s,
  digits_loop-Keeps base n (record {
    ch = (next d.s).0;
    n = d.n + 1;
    invalid = note_invalid base d.ch d.invalid;
    s = (next d.s).1;
  }),
)

pub digits-Keeps : (ch base invalid : ℕ) (s : Scanner) → Keeps s (digits ch base invalid s).s
unfolding digits
digits-Keeps ch base invalid s =
    digits_loop-Keeps base (suc (length s.rest))
      (record { ch = ch; n = 0; invalid = invalid; s = s })
