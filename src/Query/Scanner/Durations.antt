-- ===== src/Query/Scanner/Durations.antt =====
-- Scanning the digits of a number, and a unit of a duration.
pub mod Spans
pub mod Tokens
use mathlib.Core.Path.{subst}
use xuandb.Prelude.{
  ℕ, zero, suc, ◌+◌, ◌<◌, ◌≤◌, ◌≡◌, refl, arith, Bool, true, false, ◌==◌, ◌&&◌, ◌||◌, ltb, List, [],
  ◌∷◌, ◌++◌, append_assoc, append-nil, ◌∙◌, ap, sym, All, length, length-append,
}
use xuandb.Prelude.Text.{Text, codes}
use xuandb.Query.Scanner.{Scanner, next}
use xuandb.Query.Scanner.Runes.{Classes, is_decimal, is_ident_rune, is_letter}
use xuandb.Query.Scanner.Number.{
  ScanResult, Scanned, scanned, duration, Digits, note_invalid, digits_loop, digits, UnitResult,
  unit_read, returned, scan_unit, optional_s, required_s, duration_loop, duration_end,
  scan_duration,
}
use xuandb.Query.Scanner.Reading.{
  ahead, first, behind, IsPlain, StartsPlain, Read, next-Read, AllIn,
}
use xuandb.Utils.Duration.Parts.{
  Scale, weeks, days, hours, minutes, seconds, millis, micros, nanos, suffix,
}

-- What `digits` makes of `w`: its length is counted, and no digit is invalid.
abbrev pub DigitsRead : Scanner → Text → Text → ℕ → Digits → Type 0
DigitsRead s w tail n d =
    (d.ch ≡ ahead tail) × (d.n ≡ n + length w) × (d.invalid ≡ 0) × Read s w tail d.s

pub AllIn-StartsPlain :
    (w tail : Text) → AllIn is_decimal w → StartsPlain tail → StartsPlain (w ++ tail)
AllIn-StartsPlain [] tail a h = h
AllIn-StartsPlain (c ∷ w) tail ((plain, _), a) h = plain

digits_loop-Read :
    (w tail : Text) (f : ℕ) (d : Digits)
    → length w ≤ f
    → d.ch ≡ ahead (w ++ tail)
    → d.invalid ≡ 0
    → d.s.rest ≡ behind (w ++ tail)
    → d.s.last_char ≡ first (w ++ tail)
    → AllIn is_decimal w
    → StartsPlain tail
    → is_decimal (ahead tail) ≡ false
    → DigitsRead d.s w tail d.n (digits_loop 10 f d)
unfolding digits_loop is_decimal
digits_loop-Read [] tail zero d m e i r l a st stop = ground (arith, append-nil d.s.text)
digits_loop-Read (c ∷ w) tail zero d m e i r l a st stop = absurd (omega arith)
digits_loop-Read [] tail (suc f) d m e i r l a st stop =
    rw (ap is_decimal e ∙ stop, digits_loop) (ground (arith, append-nil d.s.text))
digits_loop-Read (c ∷ w) tail (suc f) d m e i r l ((plain, good), a) st stop =
    let read = next-Read d.s (w ++ tail) (AllIn-StartsPlain w tail a st) r in
    let d2 : Digits = record {
      ch = (next d.s).0;
      n = d.n + 1;
      invalid = note_invalid 10 d.ch d.invalid;
      s = (next d.s).1;
    } in
    let clean : d2.invalid ≡ 0 = ground (arith, e, i, good) in
    let ih = digits_loop-Read w tail f d2 (omega arith) read.0 clean read.1.0 read.1.1 a st stop in
    rw (ap is_decimal e ∙ good, digits_loop)
      (ground (arith, read, ih, append_assoc d.s.text (c ∷ []) w))

pub digits-Read :
    (w tail : Text) (ch : ℕ) (s : Scanner)
    → ch ≡ ahead (w ++ tail)
    → s.rest ≡ behind (w ++ tail)
    → s.last_char ≡ first (w ++ tail)
    → AllIn is_decimal w
    → StartsPlain tail
    → is_decimal (ahead tail) ≡ false
    → DigitsRead s w tail 0 (digits ch 10 0 s)
unfolding digits
digits-Read w tail ch s e r l a st stop =
    digits_loop-Read w tail (suc (length s.rest)) (record { ch = ch; n = 0; invalid = 0; s = s })
      (enough w r) e refl r l a st stop
  where
    enough : (w : Text) → s.rest ≡ behind (w ++ tail) → length w ≤ suc (length s.rest)
    enough [] e = omega arith
    enough (c ∷ w) e = omega (arith, ap length e, length-append w tail)

-- A unit is read up to `tail`.
abbrev pub UnitRead : Scanner → Text → Text → UnitResult → Type 0
UnitRead s w tail (unit_read (c, t)) = (c ≡ ahead tail) × Read s w tail t
UnitRead s w tail (returned r) = ⊥

-- One letter, which `next` leaves behind.
pub letter-Read :
    (c : ℕ) (tail : Text) (s : Scanner)
    → s.rest ≡ tail
    → s.last_char ≡ c ∷ []
    → StartsPlain tail
    → ((next s).0 ≡ ahead tail) × Read s (c ∷ []) tail (next s).1
letter-Read c tail s r l st = let read = next-Read s tail st r in ground (arith, read, l)

two-Read :
    (c d : ℕ) (tail : Text) (s : Scanner)
    → s.rest ≡ d ∷ tail
    → s.last_char ≡ c ∷ []
    → IsPlain d
    → StartsPlain tail
    → ((next s).0 ≡ d)
      × ((next (next s).1).0 ≡ ahead tail)
      × Read s (c ∷ d ∷ []) tail (next (next s).1).1
two-Read c d tail s r l plain st =
    let one = letter-Read c (d ∷ tail) s r l plain in
    let two = letter-Read d tail (next s).1 one.1.0 one.1.1 st in
    ground (arith, one, two, append_assoc s.text (c ∷ []) (d ∷ []))

pub scan_unit-Read :
    (k : Scale) (tail : Text) (saw : Bool) (s : Scanner)
    → s.rest ≡ behind (suffix k ++ tail)
    → s.last_char ≡ first (suffix k ++ tail)
    → StartsPlain tail
    → (ahead tail == b's') ≡ false
    → UnitRead s (suffix k) tail (scan_unit saw (ahead (suffix k ++ tail)) s)
unfolding scan_unit
scan_unit-Read weeks tail saw s r l st other = letter-Read b'w' tail s r l st
scan_unit-Read days tail saw s r l st other = letter-Read b'd' tail s r l st
scan_unit-Read hours tail saw s r l st other = letter-Read b'h' tail s r l st
scan_unit-Read seconds tail saw s r l st other = letter-Read b's' tail s r l st
scan_unit-Read minutes tail saw s r l st other =
    let one = letter-Read b'm' tail s r l st in
    let stays : ((next s).0 == b's') ≡ false = ap (λ c. c == b's') one.0 ∙ other in rw stays one
scan_unit-Read millis tail saw s r l st other =
    let (e, c, read) = two-Read b'm' b's' tail s r l (omega arith, omega arith) st in rw e (c, read)
scan_unit-Read micros tail saw s r l st other =
    let (e, c, read) = two-Read b'u' b's' tail s r l (omega arith, omega arith) st in rw e (c, read)
scan_unit-Read nanos tail saw s r l st other =
    let (e, c, read) = two-Read b'n' b's' tail s r l (omega arith, omega arith) st in rw e (c, read)
