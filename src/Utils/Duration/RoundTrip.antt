-- ===== src/Utils/Duration/RoundTrip.antt =====
-- `ParseDuration` reads back what `FormatDuration` writes, up to 15250 weeks.
use native.Mathlib.Nat.{div-add-mod}
use xuandb.Prelude.{
  ℕ, zero, suc, ◌+◌, ◌*◌, ◌/◌, ◌%◌, ◌≤◌, ◌<◌, List, [], ◌∷◌, ◌++◌, ◌≡◌, refl, ap, ◌∙◌, arith, ltb,
  some, none, append-nil, append_assoc, All, All-append, if◌then◌else◌,
}
use xuandb.Prelude.Int.{pos}
use xuandb.Prelude.Text.{Text, codes}
use xuandb.Utils.Duration.{
  limit, accumulate, ok, err, duration_overflow, parse_loop, parse_duration, write_part, write_rest,
  format_parts, scan_digits, read_segment, segment_digits, segment_unit, span_unit, unit_of,
  format_duration, week, day, hour, minute, second, millisecond, microsecond,
}
use xuandb.Utils.Duration.Parts.{
  Scale, weeks, days, hours, minutes, seconds, millis, micros, nanos, size, suffix, Part, IsSmall,
  render, total, emit-append, render-append, total-append, read_segment-render, parse_loop_refused,
  render-ne-nil, parse_loop-render,
}

-- A part is written where its count is not zero.
share : ℕ → Scale → List Part
share count scale = if ltb 0 count then record { count = count; scale = scale } ∷ [] else []

write_part-share :
    (k : Scale) (sb : Text) (d : ℕ)
    → write_part (size k) (suffix k) (sb, d) ≡ (sb ++ render (share (d / size k) k), d % size k)
unfolding write_part share
write_part-share k sb d = ground (
  arith,
  emit-append 20 (d / size k) [] (suffix k),
  append-nil (suffix k),
  append-nil sb,
  div-add-mod d (size k),
)

write_rest-share : (sb : Text) (d : ℕ) → write_rest (sb, d) ≡ sb ++ render (share d nanos)
unfolding write_rest share
write_rest-share sb d = ground (arith, emit-append 20 d [] (codes "ns"), append-nil sb)

total-share : (c : ℕ) (k : Scale) → total (share c k) ≡ c * size k
unfolding share
total-share c k = ground arith

share-IsSmall : (c : ℕ) (k : Scale) → c + 10 ≤ limit → c < limit / size k → All IsSmall (share c k)
unfolding share
share-IsSmall c k h l = ground arith

-- What is left below the weeks.
small_parts : ℕ → List Part
small_parts d1 =
    let d2 = d1 % day in
    let d3 = d2 % hour in
    let d4 = d3 % minute in
    let d5 = d4 % second in
    let d6 = d5 % millisecond in
    share (d1 / day) days
    ++ (share (d2 / hour) hours
        ++ (share (d3 / minute) minutes
            ++ (share (d4 / second) seconds
                ++ (share (d5 / millisecond) millis
                    ++ (share (d6 / microsecond) micros ++ share (d6 % microsecond) nanos)))))

-- The parts of `FormatDuration`, from the weeks down.
parts : ℕ → List Part
parts d = share (d / week) weeks ++ small_parts (d % week)

format-parts : (d : ℕ) → write_rest (format_parts d) ≡ render (parts d)
unfolding format_parts parts small_parts
format-parts d = simp (
  write_part-share weeks,
  write_part-share days,
  write_part-share hours,
  write_part-share minutes,
  write_part-share seconds,
  write_part-share millis,
  write_part-share micros,
  write_rest-share,
  render-append,
  append_assoc,
)

total-parts : (d : ℕ) → total (parts d) ≡ d
unfolding parts small_parts
total-parts d = simp (total-append, total-share) (omega arith)

small_parts-IsSmall : (d : ℕ) → d < week → All IsSmall (small_parts d)
unfolding small_parts
small_parts-IsSmall d h =
    let both = λ (xs ys : List Part). All-append IsSmall xs ys in
    both _ _ (share-IsSmall _ days (omega arith) (omega arith)) (
      both _ _ (share-IsSmall _ hours (omega arith) (omega arith)) (
        both _ _ (share-IsSmall _ minutes (omega arith) (omega arith)) (
          both _ _ (share-IsSmall _ seconds (omega arith) (omega arith)) (
            both _ _ (share-IsSmall _ millis (omega arith) (omega arith)) (
              both _ _ (share-IsSmall _ micros (omega arith) (omega arith))
                (share-IsSmall _ nanos (omega arith) (omega arith)))))))

parts-IsSmall : (d : ℕ) → d < 15250 * week → All IsSmall (parts d)
unfolding parts
parts-IsSmall d h =
    All-append IsSmall _ _ (share-IsSmall _ weeks (omega arith) (omega arith))
      (small_parts-IsSmall (d % week) (omega arith))

parse-parts : (d : ℕ) → d < 15250 * week → parse_duration (render (parts d)) ≡ ok d
unfolding parse_duration
parse-parts d h =
    parse_loop-render (parts d) _ 0 (parts-IsSmall d h) (omega arith) (omega (arith, total-parts d))
    ∙ ap ok (omega (arith, total-parts d))

parse_zero : parse_duration (codes "0s") ≡ ok 0
unfolding parse_duration parse_loop read_segment segment_digits segment_unit accumulate scan_digits
    span_unit unit_of
parse_zero = refl

format_positive : (d : ℕ) → format_duration (pos (suc d)) ≡ some (render (parts (suc d)))
unfolding format_duration
format_positive d = ground (arith, format-parts (suc d))

format_zero : format_duration (pos 0) ≡ some (codes "0s")
unfolding format_duration
format_zero = refl

share-IsPositive : (c : ℕ) (k : Scale) → All (λ p. 0 < p.count) (share c k)
unfolding share
share-IsPositive c k = ground arith

parts-IsPositive : (d : ℕ) → All (λ p. 0 < p.count) (parts d)
unfolding parts small_parts
parts-IsPositive d =
    let both = λ (xs ys : List Part). All-append (λ p. 0 < p.count) xs ys in
    both _ _ (share-IsPositive _ weeks) (
      both _ _ (share-IsPositive _ days) (
        both _ _ (share-IsPositive _ hours) (
          both _ _ (share-IsPositive _ minutes) (
            both _ _ (share-IsPositive _ seconds) (
              both _ _ (share-IsPositive _ millis)
                (both _ _ (share-IsPositive _ micros) (share-IsPositive _ nanos)))))))

-- The parts that a duration is written as.
pub format_duration-parts :
    (d : ℕ)
    → 0 < d
    → d < 15250 * week
    → (ps : List Part) × (format_duration (pos d) ≡ some (render ps))
      × (parse_duration (render ps) ≡ ok d)
      × All IsSmall ps
      × All (λ p. 0 < p.count) ps
      × (total ps ≡ d)
format_duration-parts zero h k = absurd (omega arith)
format_duration-parts (suc d) h k = (
  parts (suc d),
  format_positive d,
  parse-parts (suc d) k,
  parts-IsSmall (suc d) k,
  parts-IsPositive (suc d),
  total-parts (suc d),
)

-- A duration below 15250 weeks is written to a text that is read back as that duration.
pub parse_duration-format_duration :
    (d : ℕ)
    → d < 15250 * week
    → (s : Text) × (format_duration (pos d) ≡ some s) × (parse_duration s ≡ ok d)
parse_duration-format_duration zero h = (codes "0s", format_zero, parse_zero)
parse_duration-format_duration (suc d) h =
    (render (parts (suc d)), format_positive d, parse-parts (suc d) h)

share_pos : (c : ℕ) (k : Scale) → 0 < c → share c k ≡ record { count = c; scale = k } ∷ []
unfolding share
share_pos c k h = ground arith

full_weeks : Part
full_weeks = record { count = 15250; scale = weeks }

parts_overflow :
    (d : ℕ) → 15250 * week ≤ d → d < limit → parts d ≡ full_weeks ∷ small_parts (d % week)
unfolding parts full_weeks
parts_overflow d h l =
    let e : d / week ≡ 15250 = omega arith in rw (e, share_pos 15250 weeks (omega arith))

accumulate_weeks : accumulate 0 15250 week ≡ none
unfolding accumulate
accumulate_weeks = refl

parse_overflow :
    (ps : List Part) → parse_duration (render (full_weeks ∷ ps)) ≡ err duration_overflow
unfolding parse_duration full_weeks
parse_overflow ps =
    let p : Part = full_weeks in
    parse_loop_refused (render (p ∷ ps)) _ 0 p.count week (render ps) (render-ne-nil p ps)
      (read_segment-render p ps (omega arith)) accumulate_weeks

-- From 15250 weeks up to the largest `time.Duration` the text that is written is refused as an
-- overflow, although the duration fits.
pub parse_duration-format_duration_overflow :
    (d : ℕ)
    → 15250 * week ≤ d
    → d < limit
    → (s : Text) × (format_duration (pos d) ≡ some s) × (parse_duration s ≡ err duration_overflow)
parse_duration-format_duration_overflow zero h l = absurd (omega arith)
parse_duration-format_duration_overflow (suc d) h l = (
  render (parts (suc d)),
  format_positive d,
  rw (parts_overflow (suc d) h l) (parse_overflow (small_parts (suc d % week))),
)
