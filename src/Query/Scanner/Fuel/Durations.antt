-- ===== src/Query/Scanner/Fuel/Durations.antt =====
-- The loops of `digits` and `duration` of pkg/query/parser/scanner.go.
use xuandb.Prelude.{
  ℕ, zero, suc, ◌+◌, ◌≡◌, ◌<◌, refl, arith, Bool, true, false, ◌==◌, ◌||◌, ◌&&◌, ltb, leb,
  Bool-cases, ◌⊎◌, inl, inr, length, ap, ◌∙◌,
}
use xuandb.Query.Lexer.{lower}
use xuandb.Query.Scanner.{Scanner, next, eof as end_of_source}
use xuandb.Query.Scanner.Runes.{is_decimal, is_hex}
use xuandb.Query.Scanner.Number.{
  Digits, is_digit_of, note_invalid, digits_loop, digits, Scanned, UnitResult, unit_read, returned,
  no_unit, optional_s, required_s, scan_unit, duration_end, duration_loop,
}
use xuandb.Query.Scanner.Moves.{next-Keeps, digits-Keeps}
use xuandb.Query.Scanner.Fuel.{Shrinks, next-Shrinks}

abbrev Enough : ℕ → ℕ → Digits → Type 0
Enough base n d = (length d.s.rest < n) ⊎ (is_digit_of base d.ch ≡ false)

eof_digit : (base : ℕ) → is_digit_of base end_of_source ≡ false
unfolding is_decimal is_hex lower
eof_digit base = elim (Bool-cases (leb base 10)) [ inl e ↦ rw e refl | inr e ↦ rw e refl ]

-- The loop of `digits` without fuel: it reads on while there is a digit of the base.
pub data DigitsRun (base : ℕ) : Digits → Digits → Type 0 where
  stops : (d : Digits) → is_digit_of base d.ch ≡ false → DigitsRun base d d
  reads :
      (d e : Digits)
      → is_digit_of base d.ch ≡ true
      → DigitsRun base
          (record {
            ch = (next d.s).0;
            n = d.n + 1;
            invalid = note_invalid base d.ch d.invalid;
            s = (next d.s).1;
          })
          e
      → DigitsRun base d e

digits_loop-run :
    (base n : ℕ) (d : Digits) → Enough base n d → DigitsRun base d (digits_loop base n d)
unfolding digits_loop
digits_loop-run base zero d (inl h) = absurd (omega arith)
digits_loop-run base zero d (inr h) = stops d h
digits_loop-run base (suc n) d h = elim (Bool-cases (is_digit_of base d.ch)) [
  | inr e ↦ rw (e, digits_loop) (stops d e)
  | inl e ↦
      let read : Digits = record {
        ch = (next d.s).0;
        n = d.n + 1;
        invalid = note_invalid base d.ch d.invalid;
        s = (next d.s).1;
      } in
      let left : Enough base n read = elim (next-Shrinks d.s) [
        | inl at_eof ↦ inr (ap (is_digit_of base) at_eof ∙ eof_digit base)
        | inr shorter ↦ inl (ground (arith, h, e))
      ] in
      rw (e, digits_loop) (reads d _ e (digits_loop-run base n read left))
]

pub digits-run :
    (ch base invalid : ℕ) (s : Scanner)
    → DigitsRun base
        (record { ch = ch; n = 0; invalid = invalid; s = s })
        (digits ch base invalid s)
unfolding digits
digits-run ch base invalid s = digits_loop-run base (suc (length s.rest)) _ (inl (omega arith))

abbrev pub UnitShrinks : Scanner → UnitResult → Type 0
UnitShrinks s (unit_read p) = Shrinks s p
UnitShrinks s (returned r) = Unit

optional_s-Shrinks : (s : Scanner) → Shrinks s (optional_s (next s))
optional_s-Shrinks s = elim (Bool-cases ((next s).0 == b's')) [
  | inl e ↦ rw e (inr (ground (arith, next-Shrinks s, next-Keeps (next s).1, e)))
  | inr e ↦ rw e (next-Shrinks s)
]

required_s-Shrinks : (s : Scanner) → UnitShrinks s (required_s (next s))
unfolding no_unit
required_s-Shrinks s = elim (Bool-cases ((next s).0 == b's')) [
  | inl e ↦ rw e (inr (ground (arith, next-Shrinks s, next-Keeps (next s).1, e)))
  | inr e ↦ rw e tt
]

no_unit-Shrinks : (saw_unit : Bool) (ch : ℕ) (s : Scanner) → UnitShrinks s (no_unit saw_unit ch s)
unfolding no_unit
no_unit-Shrinks true ch s = tt
no_unit-Shrinks false ch s = tt

pub scan_unit-Shrinks :
    (saw_unit : Bool) (ch : ℕ) (s : Scanner) → UnitShrinks s (scan_unit saw_unit ch s)
unfolding scan_unit
scan_unit-Shrinks saw_unit ch s =
    elim (Bool-cases (ch == b'w' || ch == b'd' || ch == b'h' || ch == b's')) [
      | inl e ↦ rw e (next-Shrinks s)
      | inr e ↦ elim (Bool-cases (ch == b'm')) [
        | inl f ↦ rw (e, f) (optional_s-Shrinks s)
        | inr f ↦ elim (Bool-cases (ch == b'n' || ch == b'u' || ch == 181 || ch == 956)) [
          | inl g ↦ rw (e, f, g) (required_s-Shrinks s)
          | inr g ↦ rw (e, f, g) (no_unit-Shrinks saw_unit ch s)
        ]
      ]
    ]

-- What `duration` does behind a unit.
abbrev pub behind_unit : ℕ → Bool → UnitResult → Scanned
behind_unit fuel not_dec u = elim u [
  | returned r ↦ r
  | unit_read (c, t) ↦
      let d = digits (next t).0 10 0 (next t).1 in
      elim (is_decimal c) [
        | true ↦ duration_loop fuel true (not_dec || (c == b'0' && ltb 0 d.n)) d.ch d.s
        | false ↦ duration_end not_dec c t
      ]
]

-- The digits behind a unit leave less than there was before it.
pub digits_shorter :
    (s t : Scanner) (c n : ℕ)
    → Shrinks s (c, t)
    → is_decimal c ≡ true
    → length s.rest < suc n
    → length (digits (next t).0 10 0 (next t).1).s.rest < n
unfolding is_decimal
digits_shorter s t c n shrinks e h =
    ground (arith, shrinks, e, h, next-Keeps t, digits-Keeps (next t).0 10 0 (next t).1)
