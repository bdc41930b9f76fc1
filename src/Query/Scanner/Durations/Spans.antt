-- ===== src/Query/Scanner/Durations/Spans.antt =====
-- Scanning a duration: numbers without a leading zero, each with its unit.
use mathlib.Core.Path.{subst}
use xuandb.Prelude.{
  ℕ, zero, suc, ◌<◌, ◌≤◌, ◌≡◌, refl, arith, Bool, true, false, ◌==◌, ◌&&◌, ◌||◌, ltb, List, [], ◌∷◌,
  ◌++◌, append_assoc, append-nil, ◌∙◌, ap, sym, All, length, length-append,
}
use xuandb.Prelude.Text.{Text}
use xuandb.Query.Scanner.{Scanner, next}
use xuandb.Query.Scanner.Runes.{is_decimal}
use xuandb.Query.Scanner.Number.{
  Scanned, duration, digits, UnitResult, unit_read, returned, scan_unit, duration_loop,
  duration_end,
}
use xuandb.Query.Scanner.Reading.{ahead, first, behind, StartsPlain, Read, AllIn}
use xuandb.Utils.Duration.Parts.{
  Scale, weeks, days, hours, minutes, seconds, millis, micros, nanos, suffix,
}
use xuandb.Query.Scanner.Durations.{
  AllIn-StartsPlain, digits-Read, UnitRead, letter-Read, scan_unit-Read,
}

-- A number without a leading zero, and its unit.
pub record Span : Type 0 where
  pub head : ℕ
  pub digits : Text
  pub scale : Scale

abbrev pub IsSpan : Span → Type 0
IsSpan g = (b'1' ≤ g.head) × (g.head ≤ b'9') × AllIn is_decimal g.digits

abbrev pub spans : List Span → Text
spans [] = []
spans (g ∷ gs) = g.head ∷ g.digits ++ (suffix g.scale ++ spans gs)

-- What stands behind a duration.
abbrev pub Stops : Text → Type 0
Stops tail = StartsPlain tail × (is_decimal (ahead tail) ≡ false) × ((ahead tail == b's') ≡ false)

pub spans-StartsPlain :
    (gs : List Span) (tail : Text) → All IsSpan gs → Stops tail → StartsPlain (spans gs ++ tail)
spans-StartsPlain [] tail a h = h.0
spans-StartsPlain (g ∷ gs) tail ((low, high, _), a) h = (omega arith, omega arith)

spans-other :
    (gs : List Span) (tail : Text)
    → All IsSpan gs
    → Stops tail
    → (ahead (spans gs ++ tail) == b's') ≡ false
spans-other [] tail a (_, _, other) = other
spans-other (g ∷ gs) tail ((low, high, _), a) h = ground arith

pub suffix-StartsPlain :
    (k : Scale) (tail : Text)
    → StartsPlain (suffix k ++ tail) × (is_decimal (ahead (suffix k ++ tail)) ≡ false)
unfolding is_decimal
suffix-StartsPlain weeks tail = ((omega arith, omega arith), refl)
suffix-StartsPlain days tail = ((omega arith, omega arith), refl)
suffix-StartsPlain hours tail = ((omega arith, omega arith), refl)
suffix-StartsPlain minutes tail = ((omega arith, omega arith), refl)
suffix-StartsPlain seconds tail = ((omega arith, omega arith), refl)
suffix-StartsPlain millis tail = ((omega arith, omega arith), refl)
suffix-StartsPlain micros tail = ((omega arith, omega arith), refl)
suffix-StartsPlain nanos tail = ((omega arith, omega arith), refl)

pub Read-trans :
    (s t u : Scanner) (v w between tail : Text)
    → Read s v between t
    → Read t w tail u
    → Read s (v ++ w) tail u
Read-trans s t u v w between tail h k = ground (arith, h, k, append_assoc s.text v w)

-- The rest of a round of the loop, behind its unit.
abbrev after_unit : ℕ → UnitResult → Scanned
after_unit f (returned r) = r
after_unit f (unit_read (c, t)) =
    let d = digits (next t).0 10 0 (next t).1 in
    elim (is_decimal c) [
      | true ↦ duration_loop f true (false || (c == b'0' && ltb 0 d.n)) d.ch d.s
      | false ↦ duration_end false c t
    ]

abbrev pub Spanned : Scanner → Text → Text → Scanned → Type 0
Spanned s w tail r = (r.tok ≡ duration) × (r.ch ≡ ahead tail) × Read s w tail r.s

after_last :
    (k : Scale) (tail : Text) (f : ℕ) (s : Scanner) (u : UnitResult)
    → Stops tail
    → UnitRead s (suffix k) tail u
    → Spanned s (suffix k ++ []) tail (after_unit f u)
unfolding duration_end
after_last k tail f s (returned r) h read = absurd read
after_last k tail f s (unit_read (c, t)) (st, stop, other) (e, read) =
    rw (ap is_decimal e ∙ stop, after_unit)
      (refl, e, subst (λ w. Read s w tail t) (sym (append-nil (suffix k))) read)

-- The text behind the first digit of `spans (g ∷ gs) ++ tail`.
abbrev pub remaining : Span → List Span → Text → Text
remaining g gs tail = suffix g.scale ++ (spans gs ++ tail)

pub remaining_lem :
    (g : Span) (gs : List Span) (tail : Text)
    → (g.digits ++ (suffix g.scale ++ spans gs)) ++ tail ≡ g.digits ++ remaining g gs tail
remaining_lem g gs tail =
    append_assoc g.digits (suffix g.scale ++ spans gs) tail
    ∙ ap (λ t. g.digits ++ t) (append_assoc (suffix g.scale) (spans gs) tail)

digits-StartsPlain :
    (g : Span) (gs : List Span) (tail : Text)
    → IsSpan g
    → StartsPlain (g.digits ++ remaining g gs tail)
digits-StartsPlain g gs tail (_, _, a) =
    AllIn-StartsPlain g.digits (remaining g gs tail) a
      (suffix-StartsPlain g.scale (spans gs ++ tail)).0

-- The number of a span, from its first digit on.
number-Read :
    (g : Span) (gs : List Span) (tail : Text) (t : Scanner)
    → IsSpan g
    → t.rest ≡ g.digits ++ remaining g gs tail
    → t.last_char ≡ g.head ∷ []
    → let d = digits (next t).0 10 0 (next t).1 in
      (d.ch ≡ ahead (remaining g gs tail)) × Read t (g.head ∷ g.digits) (remaining g gs tail) d.s
number-Read g gs tail t a r l =
    let rest = remaining g gs tail in
    let (plain, solid) = suffix-StartsPlain g.scale (spans gs ++ tail) in
    let (e, one) = letter-Read g.head (g.digits ++ rest) t r l (digits-StartsPlain g gs tail a) in
    let (ch, n, clean, read) =
      digits-Read g.digits rest (next t).0 (next t).1 e one.0 one.1 a.2 plain solid in
    (
      ch,
      Read-trans t (next t).1 (digits (next t).0 10 0 (next t).1).s (g.head ∷ []) g.digits
          (g.digits ++ rest) rest one read,
    )

-- What the loop does from the unit `k` on.
abbrev LoopSpans : Scale → List Span → Text → ℕ → Type 0
LoopSpans k gs tail f =
    (saw : Bool) (s : Scanner)
    → s.rest ≡ behind (suffix k ++ (spans gs ++ tail))
    → s.last_char ≡ first (suffix k ++ (spans gs ++ tail))
    → Spanned s (suffix k ++ spans gs) tail
        (duration_loop f saw false (ahead (suffix k ++ (spans gs ++ tail))) s)

after_more :
    (k : Scale) (g : Span) (gs : List Span) (tail : Text) (f : ℕ) (s : Scanner) (u : UnitResult)
    → IsSpan g
    → UnitRead s (suffix k) (spans (g ∷ gs) ++ tail) u
    → LoopSpans g.scale gs tail f
    → Spanned s (suffix k ++ spans (g ∷ gs)) tail (after_unit f u)
after_more k g gs tail f s (returned r) a read ih = absurd read
after_more k g gs tail f s (unit_read (c, t)) a (e, read) ih =
    let rest = remaining g gs tail in
    let d = digits (next t).0 10 0 (next t).1 in
    let (ch, number) = number-Read g gs tail t a (read.0 ∙ remaining_lem g gs tail) read.1 in
    let looped : Spanned d.s (suffix g.scale ++ spans gs) tail
        (duration_loop f true false d.ch d.s) =
      subst (λ c. Spanned d.s (suffix g.scale ++ spans gs) tail (duration_loop f true false c d.s))
        (sym ch) (ih true d.s number.0 number.1) in
    let good : is_decimal c ≡ true = unfold is_decimal in ground (arith, e, a.0, a.1) in
    let plain : (c == b'0' && ltb 0 d.n) ≡ false = ground (arith, e, a.0) in
    rw (good, plain, after_unit)
      (
        looped.0,
        looped.1,
        Read-trans s t (duration_loop f true false d.ch d.s).s (suffix k) (spans (g ∷ gs))
            (spans (g ∷ gs) ++ tail) tail read
            (Read-trans t d.s (duration_loop f true false d.ch d.s).s (g.head ∷ g.digits)
              (suffix g.scale ++ spans gs) rest tail number looped.2),
      )

pub duration_loop-Spans :
    (k : Scale) (gs : List Span) (tail : Text) (f : ℕ)
    → length gs < f
    → All IsSpan gs
    → Stops tail
    → LoopSpans k gs tail f
unfolding duration_loop
duration_loop-Spans k gs tail zero m a h saw s r l = absurd (omega arith)
duration_loop-Spans k [] tail (suc f) m a h saw s r l =
    after_last k tail f s (scan_unit saw (ahead (suffix k ++ tail)) s) h
      (scan_unit-Read k tail saw s r l h.0 h.2)
duration_loop-Spans k (g ∷ gs) tail (suc f) m (b, a) h saw s r l =
    let body = spans (g ∷ gs) ++ tail in
    after_more k g gs tail f s (scan_unit saw (ahead (suffix k ++ body)) s) b
      (scan_unit-Read k body saw s r l (spans-StartsPlain (g ∷ gs) tail (b, a) h)
        (spans-other (g ∷ gs) tail (b, a) h))
      (duration_loop-Spans g.scale gs tail f (omega arith) a h)

pub length-spans : (gs : List Span) → length gs ≤ length (spans gs)
length-spans [] = omega arith
length-spans (g ∷ gs) = omega (
  arith,
  length-spans gs,
  length-append g.digits (suffix g.scale ++ spans gs),
  length-append (suffix g.scale) (spans gs),
)
