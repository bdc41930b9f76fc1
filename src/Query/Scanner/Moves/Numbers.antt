-- ===== src/Query/Scanner/Moves/Numbers.antt =====
-- The numbers and durations of the scanner read characters and report errors.
use mathlib.Core.Path.{subst}
use xuandb.Prelude.{
  ℕ, zero, suc, ◌≡◌, refl, arith, Bool, true, false, not, ◌&&◌, ◌||◌, ◌==◌, ltb, ◌⊎◌, inl, inr,
  ◌++◌, length,
}
use xuandb.Prelude.Text.{Text, codes}
use xuandb.Query.Scanner.{Scanner, next}
use xuandb.Query.Scanner.Runes.{Classes, while_class, is_ident_rune}
use xuandb.Query.Scanner.Number.{
  digits, Scanned, UnitResult, unit_read, returned, no_unit, scan_unit, duration_end, duration_loop,
  scan_duration, Number, fail_if, number_prefix, number_start, read_digits, read_dot, integer_part,
  fraction_part, check_digits, check_exponent, skip_sign, read_exponent, exponent_part, number_end,
  do_scan_number_or_duration, skip_extra, scan_number_or_duration, litname, float, quoted_rune,
  is_float, token_string,
}
use xuandb.Query.Scanner.Moves.{Keeps, error-Keeps, next-Keeps, while_class-Keeps, digits-Keeps}

abbrev UnitKeeps : Scanner → UnitResult → Type 0
UnitKeeps s (unit_read (ch, t)) = Keeps s t
UnitKeeps s (returned r) = Keeps s r.s

no_unit-Keeps : (saw : Bool) (ch : ℕ) (s : Scanner) → UnitKeeps s (no_unit saw ch s)
unfolding no_unit
no_unit-Keeps true ch s = error-Keeps _ s
no_unit-Keeps false ch s = ground arith

scan_unit-Keeps : (saw : Bool) (ch : ℕ) (s : Scanner) → UnitKeeps s (scan_unit saw ch s)
unfolding scan_unit no_unit
scan_unit-Keeps saw ch s = ground (
  arith,
  next-Keeps s,
  next-Keeps (next s).1,
  error-Keeps (codes "invalid duration unit") s,
  error-Keeps (codes "invalid duration unit") (next s).1,
)

UnitResult-cases :
    (u : UnitResult)
    → ((r : Scanned) × (u ≡ returned r)) ⊎ ((c : ℕ) × (t : Scanner) × (u ≡ unit_read (c, t)))
UnitResult-cases (returned r) = inl (r, refl)
UnitResult-cases (unit_read (c, t)) = inr (c, t, refl)

duration_end-Keeps : (not_dec : Bool) (ch : ℕ) (s : Scanner) → Keeps s (duration_end not_dec ch s).s
unfolding duration_end
duration_end-Keeps not_dec ch s =
    ground (arith, error-Keeps (codes "duration requires decimal integer") s)

duration_loop-Keeps :
    (n : ℕ) (saw not_dec : Bool) (ch : ℕ) (s : Scanner)
    → Keeps s (duration_loop n saw not_dec ch s).s
unfolding duration_loop
duration_loop-Keeps zero saw not_dec ch s = duration_end-Keeps not_dec ch s
duration_loop-Keeps (suc n) saw not_dec ch s = elim (UnitResult-cases (scan_unit saw ch s)) [
  | inl (r, e) ↦
      let k : UnitKeeps s (returned r) = subst (UnitKeeps s) e (scan_unit-Keeps saw ch s) in
      rw (e, duration_loop) k
  | inr (c, t, e) ↦
      let k : UnitKeeps s (unit_read (c, t)) = subst (UnitKeeps s) e (scan_unit-Keeps saw ch s) in
      let d = digits (next t).0 10 0 (next t).1 in
      rw (e, duration_loop)
        (ground (
          arith,
          k,
          next-Keeps t,
          digits-Keeps (next t).0 10 0 (next t).1,
          duration_end-Keeps not_dec c t,
          duration_loop-Keeps n true (not_dec || (c == b'0' && ltb 0 d.n)) d.ch d.s,
        ))
]

number_start-Keeps : (ch : ℕ) (s : Scanner) → Keeps s (number_start ch s).s
unfolding number_start number_prefix
number_start-Keeps ch s = ground (arith, next-Keeps s, next-Keeps (next s).1)

read_digits-Keeps : (k : Number) → Keeps k.s (read_digits k).s
unfolding read_digits
read_digits-Keeps k = digits-Keeps k.ch k.base k.invalid k.s

read_dot-Keeps : (k : Number) → Keeps k.s (read_dot k).s
unfolding read_dot
read_dot-Keeps k = ground (arith, next-Keeps k.s)

integer_part-Keeps : (ch : ℕ) (saw_dot : Bool) (s : Scanner) → Keeps s (integer_part ch saw_dot s).s
unfolding integer_part
integer_part-Keeps ch saw_dot s = ground (
  arith,
  number_start-Keeps ch s,
  read_digits-Keeps (number_start ch s),
  read_dot-Keeps (read_digits (number_start ch s)),
)

fail_if-Keeps : (b : Bool) (msg : Text) (s : Scanner) → Keeps s (fail_if b msg s)
fail_if-Keeps true msg s = error-Keeps msg s
fail_if-Keeps false msg s = ground arith

fraction_part-Keeps : (k : Number) → Keeps k.s (fraction_part k).s
unfolding fraction_part
fraction_part-Keeps k =
    let bad = k.prefix == b'o' || k.prefix == b'b' in
    let t = fail_if bad (codes "invalid radix point in " ++ litname k.prefix) k.s in
    ground (
      arith,
      fail_if-Keeps bad (codes "invalid radix point in " ++ litname k.prefix) k.s,
      read_digits-Keeps (record k { tok = float; s = t }),
    )

check_digits-Keeps : (k : Number) → Keeps k.s (check_digits k).s
unfolding check_digits
check_digits-Keeps k = fail_if-Keeps _ _ k.s

check_exponent-Keeps : (k : Number) → Keeps k.s (check_exponent k)
unfolding check_exponent
check_exponent-Keeps k = ground (
  arith,
  error-Keeps (quoted_rune k.ch ++ codes " exponent requires decimal mantissa") k.s,
  error-Keeps (quoted_rune k.ch ++ codes " exponent requires hexadecimal mantissa") k.s,
)

skip_sign-Keeps : (p : ℕ × Scanner) → Keeps p.1 (skip_sign p).1
skip_sign-Keeps (ch, s) = ground (arith, next-Keeps s)

read_exponent-Keeps : (k : Number) (p : ℕ × Scanner) → Keeps p.1 (read_exponent k p).s
unfolding read_exponent
read_exponent-Keeps k (ch, s) =
    let d = digits ch 10 0 s in
    ground
      (arith, digits-Keeps ch 10 0 s, fail_if-Keeps (d.n == 0) (codes "exponent has no digits") d.s)

exponent_part-Keeps : (k : Number) → Keeps k.s (exponent_part k).s
unfolding exponent_part
exponent_part-Keeps k = ground (
  arith,
  check_exponent-Keeps k,
  next-Keeps (check_exponent k),
  skip_sign-Keeps (next (check_exponent k)),
  read_exponent-Keeps k (skip_sign (next (check_exponent k))),
  fail_if-Keeps (k.prefix == b'x' && is_float k.tok)
      (codes "hexadecimal mantissa requires a 'p' exponent") k.s,
)

number_end-Keeps : (k : Number) → Keeps k.s (number_end k).s
unfolding number_end scan_duration
number_end-Keeps k =
    let msg = codes "invalid digit " ++ quoted_rune k.invalid ++ codes " in " ++ litname k.prefix in
    let t = fail_if (not (k.invalid == 0)) msg k.s in
    ground (
      arith,
      fail_if-Keeps (not (k.invalid == 0)) msg k.s,
      duration_loop-Keeps (suc (length t.rest)) false (not (k.base == 10)) k.ch t,
    )

do_scan-Keeps :
    (ch : ℕ) (saw_dot : Bool) (s : Scanner) → Keeps s (do_scan_number_or_duration ch saw_dot s).s
unfolding do_scan_number_or_duration
do_scan-Keeps ch saw_dot s =
    let k = integer_part ch saw_dot s in
    ground (
      arith,
      integer_part-Keeps ch saw_dot s,
      fraction_part-Keeps k,
      check_digits-Keeps (fraction_part k),
      exponent_part-Keeps (check_digits (fraction_part k)),
      number_end-Keeps (exponent_part (check_digits (fraction_part k))),
    )

skip_extra-Keeps : (cl : Classes) (r : Scanned) → Keeps r.s (skip_extra cl r).s
unfolding skip_extra
skip_extra-Keeps cl r =
    let after = while_class (is_ident_rune cl) r.ch r.s in
    ground (
      arith,
      while_class-Keeps (is_ident_rune cl) r.ch r.s,
      error-Keeps (codes "extra character after " ++ token_string r.tok) after.1,
    )

pub number-Keeps :
    (cl : Classes) (ch : ℕ) (saw_dot : Bool) (s : Scanner)
    → Keeps s (scan_number_or_duration cl ch saw_dot s).s
unfolding scan_number_or_duration
number-Keeps cl ch saw_dot s = ground (
  arith,
  do_scan-Keeps ch saw_dot s,
  skip_extra-Keeps cl (do_scan_number_or_duration ch saw_dot s),
)
