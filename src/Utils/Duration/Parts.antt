-- ===== src/Utils/Duration/Parts.antt =====
-- Texts made of numbers with units, and how the loop of `ParseDuration` reads them.
use xuandb.Prelude.{
  ℕ, zero, suc, ◌+◌, ◌*◌, ◌/◌, ◌%◌, ◌≤◌, ◌<◌, true, false, List, [], ◌∷◌, ◌++◌, ◌≡◌, ◌≢◌, ap, ◌∙◌,
  refl, arith, length, none, some, append_assoc, length-append, All,
}
use xuandb.Prelude.Text.{Text, codes}
use xuandb.Utils.Duration.{
  limit, unit_of, emit, segment, segment_unit, segment_digits, read_segment, accumulate, ok, err,
  duration_overflow, parse_loop, microsecond, millisecond, second, minute, hour, day, week,
}
use xuandb.Utils.Duration.Digits.{
  StartsDigit, NoDigit, scan_digits-emit, emit-StartsDigit, length-emit, span_unit_lem,
  scan_digits_stop,
}

-- The units that `FormatDuration` writes.
pub data Scale : Type 0 where
  weeks days hours minutes seconds millis micros nanos : Scale

abbrev pub size : Scale → ℕ
size weeks = week
size days = day
size hours = hour
size minutes = minute
size seconds = second
size millis = millisecond
size micros = microsecond
size nanos = 1

abbrev pub suffix : Scale → Text
suffix weeks = codes "w"
suffix days = codes "d"
suffix hours = codes "h"
suffix minutes = codes "m"
suffix seconds = codes "s"
suffix millis = codes "ms"
suffix micros = codes "us"
suffix nanos = codes "ns"

unit_of-suffix : (u : Scale) → unit_of (suffix u) ≡ some (size u)
unfolding unit_of
unit_of-suffix weeks = refl
unit_of-suffix _ = refl

suffix-NoDigit : (u : Scale) → NoDigit (suffix u)
suffix-NoDigit weeks = ground arith
suffix-NoDigit _ = ground arith

suffix-ne-nil : (u : Scale) → suffix u ≢ []
suffix-ne-nil weeks = cc
suffix-ne-nil _ = cc

pub size_pos : (u : Scale) → 0 < size u
size_pos weeks = omega arith
size_pos _ = omega arith

-- One number and its unit.
pub record Part : Type 0 where
  pub count : ℕ
  pub scale : Scale

-- The digits of the count do not overflow, and nor does its product with the unit.
abbrev pub Fits : Part → Type 0
Fits p = p.count + 10 ≤ limit

abbrev pub IsSmall : Part → Type 0
IsSmall p = Fits p × (p.count < limit / size p.scale)

abbrev pub render : List Part → Text
render [] = []
render (p ∷ ps) = emit 20 p.count (suffix p.scale ++ render ps)

abbrev pub total : List Part → ℕ
total [] = 0
total (p ∷ ps) = p.count * size p.scale + total ps

render-StartsDigit : (ps : List Part) → StartsDigit (render ps)
render-StartsDigit [] = tt
render-StartsDigit (p ∷ ps) = emit-StartsDigit 19 p.count (suffix p.scale ++ render ps)

pub read_segment-render :
    (p : Part) (ps : List Part)
    → Fits p
    → read_segment (render (p ∷ ps)) ≡ segment p.count (size p.scale) (render ps)
unfolding read_segment segment_digits segment_unit
read_segment-render p ps h =
    rw
      (
        scan_digits-emit 19 p.count (suffix p.scale ++ render ps) false (omega arith) h,
        scan_digits_stop (suffix p.scale) (render ps) p.count true (suffix-NoDigit p.scale)
            (suffix-ne-nil p.scale),
        span_unit_lem (suffix p.scale) (render ps) (suffix-NoDigit p.scale) (render-StartsDigit ps),
        unit_of-suffix p.scale,
        segment_unit,
      )
      (rw (
        span_unit_lem (suffix p.scale) (render ps) (suffix-NoDigit p.scale)
          (render-StartsDigit ps)))

pub accumulate_lem :
    (d v unit : ℕ)
    → 0 < unit
    → v < limit / unit
    → d + v * unit < limit
    → accumulate d v unit ≡ some (d + v * unit)
unfolding accumulate
accumulate_lem d v unit p h k = ground arith

-- A round that succeeds, with its new sum, and a round whose sum is refused.
pub parse_loop_round :
    (s : Text) (fuel d d' v unit : ℕ) (rest : Text)
    → s ≢ []
    → read_segment s ≡ segment v unit rest
    → accumulate d v unit ≡ some d'
    → parse_loop (suc fuel) s d ≡ parse_loop fuel rest d'
unfolding parse_loop
parse_loop_round [] fuel d d' v unit rest h e a = absurd (h refl)
parse_loop_round (c ∷ s) fuel d d' v unit rest h e a = rw (e, parse_loop) (rw (a, parse_loop) refl)

pub parse_loop_refused :
    (s : Text) (fuel d v unit : ℕ) (rest : Text)
    → s ≢ []
    → read_segment s ≡ segment v unit rest
    → accumulate d v unit ≡ none
    → parse_loop (suc fuel) s d ≡ err duration_overflow
unfolding parse_loop
parse_loop_refused [] fuel d v unit rest h e a = absurd (h refl)
parse_loop_refused (c ∷ s) fuel d v unit rest h e a = rw (e, parse_loop) (rw (a, parse_loop) refl)

pub render-ne-nil : (p : Part) (ps : List Part) → render (p ∷ ps) ≢ []
render-ne-nil p ps e =
    omega (arith, length-emit 19 p.count (suffix p.scale ++ render ps), ap length e)

pub length-render : (p : Part) (ps : List Part) → length (render ps) < length (render (p ∷ ps))
length-render p ps = omega (
  arith,
  length-emit 19 p.count (suffix p.scale ++ render ps),
  length-append (suffix p.scale) (render ps),
)

pub parse_loop-render :
    (ps : List Part) (fuel d : ℕ)
    → All IsSmall ps
    → length (render ps) < fuel
    → d + total ps < limit
    → parse_loop fuel (render ps) d ≡ ok (d + total ps)
parse_loop-render ps zero d k l m = absurd (omega arith)
parse_loop-render [] (suc fuel) d k l m = unfold parse_loop in ap ok (omega arith)
parse_loop-render (p ∷ ps) (suc fuel) d (kp, k) l m =
    parse_loop_round (render (p ∷ ps)) fuel d _ p.count (size p.scale) (render ps)
      (render-ne-nil p ps) (read_segment-render p ps kp.0)
      (accumulate_lem d p.count (size p.scale) (size_pos p.scale) kp.1 (omega arith))
    ∙ parse_loop-render ps fuel (d + p.count * size p.scale) k (omega (arith, length-render p ps))
        (omega arith)
    ∙ ap ok (omega arith)

pub emit-append : (f n : ℕ) (a b : Text) → emit f n a ++ b ≡ emit f n (a ++ b)
unfolding emit
emit-append zero n a b = refl
emit-append (suc f) n a b = ground (arith, emit-append f (n / 10) ((b'0' + n % 10) ∷ a) b)

pub render-append : (ps qs : List Part) → render (ps ++ qs) ≡ render ps ++ render qs
render-append [] qs = refl
render-append (p ∷ ps) qs = simp (render-append ps, emit-append, append_assoc)

pub total-append : (ps qs : List Part) → total (ps ++ qs) ≡ total ps + total qs
total-append [] qs = omega arith
total-append (p ∷ ps) qs = omega (arith, total-append ps qs)
